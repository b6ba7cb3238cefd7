-- ===== src/Strtoul.antt =====
-- strtoul and strtol of the C library, on the bytes of a string.
use docsis_server.Prelude.{
  ℕ, ◌+◌, ◌-◌, ◌*◌, ◌%◌, ◌^◌, Bool, true, false, ◌&&◌, ◌||◌, List, [], ◌∷◌, leb, ◌==◌,
  if◌then◌else◌,
}

-- Blanks for isspace.
unfoldable pub is_blank : ℕ → Bool
is_blank c = c == 32 || (leb 9 c && leb c 13)

unfoldable pub is_digit : ℕ → Bool
is_digit c = leb 48 c && leb c 57

unfoldable pub skip_blanks : List ℕ → List ℕ
skip_blanks [] = []
skip_blanks (c ∷ cs) = let rest = skip_blanks cs in if is_blank c then rest else c ∷ cs

-- A sign, and what stands behind it.
unfoldable pub take_sign : List ℕ → Bool × List ℕ
take_sign [] = (false, [])
take_sign (c ∷ cs) =
    if c == 45 then (true, cs) else if c == 43 then (false, cs) else (false, c ∷ cs)

-- The number read so far continued with the digits in front, and the rest.
unfoldable pub digits : ℕ → List ℕ → ℕ × List ℕ
digits n [] = (n, [])
digits n (c ∷ cs) =
    let rest = digits (n * 10 + (c - 48)) cs in if is_digit c then rest else (n, c ∷ cs)

-- An unsigned long of 64 bits, ULONG_MAX for a number too large.
unfoldable pub unsigned_long : Bool → ℕ → ℕ
unsigned_long negative n =
    if leb (2 ^ 64) n then 2 ^ 64 - 1 else if negative then (2 ^ 64 - n) % 2 ^ 64 else n

unfoldable pub number_at : List ℕ → Bool × List ℕ → ℕ × List ℕ
number_at text (negative, []) = (0, text)
number_at text (negative, c ∷ cs) =
    let (n, rest) = digits 0 (c ∷ cs) in
    if is_digit c then (unsigned_long negative n, rest) else (0, text)

-- strtoul( text, &rest, 10 ): without a digit the rest is the whole text.
unfoldable pub strtoul : List ℕ → ℕ × List ℕ
strtoul text = number_at text (take_sign (skip_blanks text))

-- strtol( text, NULL, 10 ), modulo 2 ^ 64.
abbrev long_of : Bool → ℕ → ℕ
long_of true n = if leb (2 ^ 63) n then 2 ^ 63 else (2 ^ 64 - n) % 2 ^ 64
long_of false n = if leb (2 ^ 63) n then 2 ^ 63 - 1 else n

unfoldable pub strtol : List ℕ → ℕ
strtol text =
    let (negative, body) = take_sign (skip_blanks text) in
    let (n, rest) = digits 0 body in long_of negative n
