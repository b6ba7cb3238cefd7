-- ===== src/MacAddr/RoundTrip.antt =====
-- The conversions undo each other.
use docsis_server.Prelude.{
  ℕ, zero, suc, ◌+◌, ◌*◌, ◌/◌, ◌%◌, ◌<◌, ◌≡◌, ◌∙◌, refl, sym, ap, true, false, ne→==_false, some,
  List, [], ◌∷◌, ◌++◌, length, arith, done,
}
use docsis_server.MacAddr.{
  shift_in, cv_mac2num, hex_digit, cv_macaddr, is_hex, hex_value, pushed, addr_loop, cv_addrmac,
}

-- Every element is a byte.
abbrev pub AreBytes : List ℕ → Type 0
AreBytes [] = Unit {0}
AreBytes (b ∷ bs) = (b < 256) × AreBytes bs

hex_value-hex_digit : (n : ℕ) → n < 16 → hex_value (hex_digit n) ≡ n
unfolding hex_value hex_digit
hex_value-hex_digit n h = ground arith

is_hex-hex_digit : (n : ℕ) → n < 16 → is_hex (hex_digit n) ≡ true
unfolding is_hex hex_digit
is_hex-hex_digit n h = ground arith

high_step :
    (n b : ℕ) (cs : List ℕ)
    → b < 16
    → addr_loop (suc n) 0 false 0 (hex_digit b ∷ cs) ≡ addr_loop n 0 true (16 * b) cs
unfolding addr_loop
high_step n b cs h =
    let e : (0 + 16 * b) % 256 ≡ 16 * b = omega arith in
    rw (hex_value-hex_digit b h, is_hex-hex_digit b h, e)

low_step :
    (n a b : ℕ) (cs : List ℕ)
    → a < 16
    → b < 16
    → addr_loop (suc n) 0 true (16 * a) (hex_digit b ∷ cs)
      ≡ pushed false true (16 * a + b) (addr_loop n 0 false 0 cs)
unfolding addr_loop
low_step n a b cs h h' =
    let e : (16 * a + 1 * b) % 256 ≡ 16 * a + b = omega arith in
    rw (hex_value-hex_digit b h', is_hex-hex_digit b h')
      (ap (λ x. pushed false true x (addr_loop n 0 false 0 cs)) e)

addr_loop-cv_macaddr :
    (bs : List ℕ) (n : ℕ)
    → AreBytes bs
    → n ≡ length bs * 2
    → addr_loop n 0 false 0 (cv_macaddr bs) ≡ done (some (bs ++ 0 ∷ []))
unfolding cv_macaddr addr_loop
addr_loop-cv_macaddr [] n h e = rw e
addr_loop-cv_macaddr (b ∷ bs) zero h e = absurd (omega arith)
addr_loop-cv_macaddr (b ∷ bs) (suc zero) h e = absurd (omega arith)
addr_loop-cv_macaddr (b ∷ bs) (suc (suc n)) (h, hs) e =
    high_step (suc n) (b / 16) (hex_digit (b % 16) ∷ cv_macaddr bs) (omega arith)
    ∙ low_step n (b / 16) (b % 16) (cv_macaddr bs) (omega arith) (omega arith)
    ∙ ap (pushed false true (16 * (b / 16) + b % 16)) (addr_loop-cv_macaddr bs n hs (omega arith))
    ∙ ap (λ x. done (some (x ∷ (bs ++ 0 ∷ [])))) (omega arith)

-- cv_addrmac gives back the bytes whose text cv_macaddr wrote, if there are any; and it writes one byte
-- more behind them, a 0.
pub cv_addrmac-cv_macaddr :
    (bs : List ℕ)
    → AreBytes bs
    → 0 < length bs
    → cv_addrmac (cv_macaddr bs) (length bs) ≡ done (bs ++ 0 ∷ [])
unfolding cv_addrmac
cv_addrmac-cv_macaddr bs h pos =
    rw (ne→==_false (length bs) 0 (omega arith), addr_loop-cv_macaddr bs (length bs * 2) h refl)

shift_in-byte :
    (acc b : ℕ) (bs : List ℕ)
    → acc < 1099511627776
    → b < 256
    → shift_in acc (b ∷ bs) ≡ shift_in (acc * 256 + b) bs
unfolding shift_in
shift_in-byte acc b bs h h' = ap (λ n. shift_in n bs) (omega arith)

-- The number of bytes, most significant first, with a number in front of them.
abbrev pub big_endian : ℕ → List ℕ → ℕ
big_endian acc [] = acc
big_endian acc (b ∷ bs) = big_endian (acc * 256 + b) bs

big_endian_inj :
    (acc acc' : ℕ) (bs bs' : List ℕ)
    → AreBytes bs
    → AreBytes bs'
    → length bs ≡ length bs'
    → big_endian acc bs ≡ big_endian acc' bs'
    → (acc ≡ acc') × (bs ≡ bs')
big_endian_inj acc acc' [] [] h h' l e = (e, refl)
big_endian_inj acc acc' [] (b ∷ bs') h h' l e = absurd (omega arith)
big_endian_inj acc acc' (b ∷ bs) [] h h' l e = absurd (omega arith)
big_endian_inj acc acc' (b ∷ bs) (b' ∷ bs') (h, hs) (h', hs') l e =
    let (front, tail) =
      big_endian_inj (acc * 256 + b) (acc' * 256 + b') bs bs' hs hs' (omega arith) e in
    let same : b ≡ b' = omega arith in (omega arith, rw (same, tail))

-- The number of six bytes.
six :
    (a b c d e f : ℕ)
    → AreBytes (a ∷ b ∷ c ∷ d ∷ e ∷ f ∷ [])
    → cv_mac2num (a ∷ b ∷ c ∷ d ∷ e ∷ f ∷ []) ≡ big_endian 0 (a ∷ b ∷ c ∷ d ∷ e ∷ f ∷ [])
unfolding cv_mac2num shift_in
six a b c d e f (ha, (hb, (hc, (hd, (he, (hf, u)))))) =
    shift_in-byte 0 a (b ∷ c ∷ d ∷ e ∷ f ∷ []) (omega arith) ha
    ∙ shift_in-byte (0 * 256 + a) b (c ∷ d ∷ e ∷ f ∷ []) (omega arith) hb
    ∙ shift_in-byte ((0 * 256 + a) * 256 + b) c (d ∷ e ∷ f ∷ []) (omega arith) hc
    ∙ shift_in-byte (((0 * 256 + a) * 256 + b) * 256 + c) d (e ∷ f ∷ []) (omega arith) hd
    ∙ shift_in-byte ((((0 * 256 + a) * 256 + b) * 256 + c) * 256 + d) e (f ∷ []) (omega arith) he
    ∙ shift_in-byte (((((0 * 256 + a) * 256 + b) * 256 + c) * 256 + d) * 256 + e) f [] (omega arith)
        hf

six_bytes : (bs : List ℕ) → AreBytes bs → length bs ≡ 6 → cv_mac2num bs ≡ big_endian 0 bs
six_bytes (a ∷ b ∷ c ∷ d ∷ e ∷ f ∷ []) h l = six a b c d e f h
six_bytes [] h l = absurd (omega arith)
six_bytes (a ∷ []) h l = absurd (omega arith)
six_bytes (a ∷ b ∷ []) h l = absurd (omega arith)
six_bytes (a ∷ b ∷ c ∷ []) h l = absurd (omega arith)
six_bytes (a ∷ b ∷ c ∷ d ∷ []) h l = absurd (omega arith)
six_bytes (a ∷ b ∷ c ∷ d ∷ e ∷ []) h l = absurd (omega arith)
six_bytes (a ∷ b ∷ c ∷ d ∷ e ∷ f ∷ g ∷ bs) h l = absurd (omega arith)

-- Two hardware addresses of six bytes with the same number are the same.
pub cv_mac2num_inj :
    (bs bs' : List ℕ)
    → AreBytes bs
    → AreBytes bs'
    → length bs ≡ 6
    → length bs' ≡ 6
    → cv_mac2num bs ≡ cv_mac2num bs'
    → bs ≡ bs'
cv_mac2num_inj bs bs' h h' l l' e =
    (big_endian_inj 0 0 bs bs' h h' (omega arith)
      (sym (six_bytes bs h l) ∙ e ∙ six_bytes bs' h' l')).1
