-- ===== src/MacAddr.antt =====
-- src/util_macaddr.c: hardware addresses as bytes, as text and as one number.
pub mod RoundTrip
use docsis_server.Prelude.{
  ℕ, zero, suc, ◌+◌, ◌-◌, ◌*◌, ◌/◌, ◌%◌, Bool, true, false, ◌&&◌, ◌||◌, not, Option, none, some,
  List, [], ◌∷◌, take, replicate, ltb, leb, ◌==◌, if◌then◌else◌, Run, done, fault, ◌>>=◌,
}

-- The loop of cv_mac2num, on a u_int64_t.
unfoldable pub shift_in : ℕ → List ℕ → ℕ
shift_in acc [] = acc
shift_in acc (b ∷ bs) = shift_in ((acc * 256 % 18446744073709551616 + b) % 18446744073709551616) bs

unfoldable pub cv_mac2num : List ℕ → ℕ
cv_mac2num chaddr = shift_in 0 (take 6 chaddr)

unfoldable pub hex_digit : ℕ → ℕ
hex_digit n = if leb 10 n then n + 97 - 10 else n + 48

-- cv_macaddr writes this text and a NUL byte, if there are bytes at all.
unfoldable pub cv_macaddr : List ℕ → List ℕ
cv_macaddr [] = []
cv_macaddr (b ∷ bs) = hex_digit (b / 16) ∷ hex_digit (b % 16) ∷ cv_macaddr bs

unfoldable pub is_hex : ℕ → Bool
is_hex c = (leb 48 c && leb c 57) || (leb 65 c && leb c 70) || (leb 97 c && leb c 102)

unfoldable pub hex_value : ℕ → ℕ
hex_value c =
    if leb 48 c && leb c 57
    then c - 48
    else if leb 65 c && leb c 70
    then c - 55
    else if leb 97 c && leb c 102
    then c - 87
    else 0

abbrev pub push : ℕ → Option (List ℕ) → Option (List ℕ)
push b none = none
push b (some bs) = some (b ∷ bs)

abbrev pub pushed : Bool → Bool → ℕ → Run (Option (List ℕ)) → Run (Option (List ℕ))
pushed true low b r = done none
pushed false false b r = r
pushed false true b (done bs) = done (push b bs)
pushed false true b fault = fault

-- The loop of cv_addrmac over `n` characters: the errors so far, whether the low digit is next, and
-- `*p`. It gives the bytes written from `p` on, the one behind the last pair included, or `none` for
-- three errors; past the end of the text it faults.
unfoldable pub addr_loop : ℕ → ℕ → Bool → ℕ → List ℕ → Run (Option (List ℕ))
addr_loop zero er low cur cs = done (some (cur ∷ []))
addr_loop (suc n) er low cur [] = fault
addr_loop (suc n) er low cur (c ∷ cs) =
    let cur' = (cur + (if low then 1 else 16) * hex_value c) % 256 in
    let er' = er + (if is_hex c then 0 else 1) in
    let rest = addr_loop n er' (not low) (if low then 0 else cur') cs in
    pushed (leb 3 er') low cur' rest

abbrev pub or_zeros : Option (List ℕ) → List ℕ
or_zeros none = replicate 6 0
or_zeros (some bs) = bs

-- cv_addrmac, with the bytes it writes; for no bytes it returns at once.
unfoldable pub cv_addrmac : List ℕ → ℕ → Run (List ℕ)
cv_addrmac macaddr numbytes =
    if numbytes == 0
    then done []
    else addr_loop (numbytes * 2) 0 false 0 macaddr >>= λ r. done (or_zeros r)
