-- ===== src/Dhcp/Options/RoundTrip.antt =====
-- What addOpt writes stays in the field, and DecodeOptions reads it back.
use docsis_server.Prelude.{
  ℕ, zero, suc, ◌+◌, ◌-◌, ◌≤◌, ◌<◌, ◌≡◌, ◌≢◌, ◌∙◌, refl, ap, Bool, true, false, ◌&&◌, le→ltb_false,
  ltb, if◌then◌else◌, List, [], ◌∷◌, ◌++◌, length, length-append, length-take, if_all, ◌==◌, Run,
  take, drop, ne→==_false, arith, done, fault,
}
use docsis_server.Dhcp.Options.{
  max_options_length, option_bytes, add_opt, Opt, plain, walk, decode_options, has_subs, is_fixed,
  data_size, advance, note, push_opt, datalength, is_noted, noted_value,
}

length-option_bytes :
    (code : ℕ) (val : List ℕ) → length (option_bytes code val) ≤ datalength val + 2
unfolding option_bytes
length-option_bytes code val =
    if_all (λ (bs : List ℕ). length bs ≤ datalength val + 2) (datalength val == 0) (code ∷ [])
      (code ∷ datalength val ∷ take (datalength val) val) (omega arith)
      (omega (arith, length-take (datalength val) val))

-- addOpt does not write behind the end of the options field, if what was written before it is inside.
pub add_opt_fits :
    (code : ℕ) (val written : List ℕ)
    → length written ≤ max_options_length
    → length (add_opt code val written) ≤ max_options_length
unfolding add_opt
add_opt_fits code val written h =
    go (ltb (max_options_length - length written) (datalength val + 2)) refl
  where
    go :
        (b : Bool)
        → ltb (max_options_length - length written) (datalength val + 2) ≡ b
        → length (if b then written else written ++ option_bytes code val) ≤ max_options_length
    go true e = h
    go false e =
        let fits : datalength val + 2 ≤ max_options_length - length written = ground arith in
        omega (arith, length-append written (option_bytes code val), length-option_bytes code val)

-- An option without suboptions, no pad and no end: it has data, of a length that fits a byte, and as many
-- bytes as its code is copied with.
abbrev pub IsPlain : ℕ × List ℕ → Type 0
IsPlain (t, val) =
    (t ≢ 0)
    × (t ≢ 255)
    × (has_subs t ≡ false)
    × (0 < length val)
    × (length val < 256)
    × (data_size t (length val) ≡ length val)

abbrev pub ArePlain : List (ℕ × List ℕ) → Type 0
ArePlain [] = Unit {0}
ArePlain (o ∷ os) = IsPlain o × ArePlain os

-- The field: the options one behind the other, the end mark and what follows it.
abbrev pub field_of : List (ℕ × List ℕ) → List ℕ → List ℕ
field_of [] rest = 255 ∷ rest
field_of ((t, val) ∷ os) rest = t ∷ length val ∷ (val ++ field_of os rest)

-- What is taken down of them.
unfoldable pub noted : List (ℕ × List ℕ) → List Opt
noted [] = []
noted ((t, val) ∷ os) =
    let rest = noted os in if is_noted t then plain t (noted_value t val) ∷ rest else rest

take-all : (xs ys : List ℕ) → take (length xs) (xs ++ ys) ≡ xs
take-all [] ys = refl
take-all (x ∷ xs) ys = ap (◌∷◌ x) (take-all xs ys)

drop-all : (xs ys : List ℕ) → drop (length xs) (xs ++ ys) ≡ ys
drop-all [] ys = refl
drop-all (x ∷ xs) ys = drop-all xs ys

advance-IsPlain : (t : ℕ) (val : List ℕ) → IsPlain (t, val) → advance t (length val) ≡ length val
advance-IsPlain t val (a, b, c, d, l, e) = ground arith

done_reading :
    (t : ℕ) (val : List ℕ) (r : Run (List Opt))
    → (if is_fixed t && false then fault else note t val r) ≡ note t val r
done_reading t val r = go (is_fixed t)
  where
    go : (b : Bool) → (if b && false then fault else note t val r) ≡ note t val r
    go true = refl
    go false = refl

note-noted :
    (t : ℕ) (val : List ℕ) (os : List (ℕ × List ℕ))
    → note t val (done (noted os)) ≡ done (noted ((t, val) ∷ os))
unfolding noted
note-noted t val os = go (is_noted t)
  where
    go :
        (b : Bool)
        → (if b then push_opt (plain t (noted_value t val)) (done (noted os)) else done (noted os))
          ≡ done (if b then plain t (noted_value t val) ∷ noted os else noted os)
    go true = refl
    go false = refl

walk_plain :
    (n t : ℕ) (val bs : List ℕ)
    → IsPlain (t, val)
    → walk (suc n) (t ∷ length val ∷ (val ++ bs)) ≡ note t val (walk n bs)
unfolding walk
walk_plain n t val bs p =
    let (zero_no, end_no, subs_no, pos, low, size) = p in
    let room : ltb (length (val ++ bs)) (length val) ≡ false =
      le→ltb_false (length (val ++ bs)) (length val) (omega (arith, length-append val bs)) in
    rw
      (
        ne→==_false t 255 end_no,
        subs_no,
        size,
        room,
        advance-IsPlain t val p,
        take-all val bs,
        drop-all val bs,
      )
      (done_reading t val (walk n bs))

walk-field_of :
    (os : List (ℕ × List ℕ)) (rest : List ℕ) (n : ℕ)
    → ArePlain os
    → 0 < length rest
    → length os < n
    → walk n (field_of os rest) ≡ done (noted os)
unfolding walk noted
walk-field_of os rest zero a h l = absurd (omega arith)
walk-field_of [] [] (suc n) a h l = absurd (omega arith)
walk-field_of [] (x ∷ rest) (suc n) a h l = refl
walk-field_of ((t, val) ∷ os) rest (suc n) (p, ps) h l =
    walk_plain n t val (field_of os rest) p
    ∙ ap (note t val) (walk-field_of os rest n ps h (omega arith))
    ∙ note-noted t val os

length-field_of : (os : List (ℕ × List ℕ)) (rest : List ℕ) → length os < length (field_of os rest)
length-field_of [] rest = omega arith
length-field_of ((t, val) ∷ os) rest =
    omega (arith, length-append val (field_of os rest), length-field_of os rest)

-- DecodeOptions reads plain options one behind the other, up to the end mark, if at least one byte
-- follows it: of those that have a field it takes down each once, in order.
pub decode_options-field_of :
    (os : List (ℕ × List ℕ)) (rest : List ℕ)
    → ArePlain os
    → 0 < length rest
    → decode_options (field_of os rest) ≡ done (noted os)
unfolding decode_options
decode_options-field_of os rest a h =
    walk-field_of os rest (length (field_of os rest) + 1) a h
      (omega (arith, length-field_of os rest))

-- The calls of addOpt for these options, one behind the other.
abbrev pub add_all : List (ℕ × List ℕ) → List ℕ → List ℕ
add_all [] written = written
add_all ((t, val) ∷ os) written = add_all os (add_opt t val written)

-- The bytes that these options take, with the end mark and the room that addOpt leaves for it.
abbrev pub size_of : List (ℕ × List ℕ) → ℕ
size_of [] = 2
size_of ((t, val) ∷ os) = length val + 2 + size_of os
