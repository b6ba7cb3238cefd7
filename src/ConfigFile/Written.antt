-- ===== src/ConfigFile/Written.antt =====
-- A file of variables, one on each line, is read as it was written.
use mathlib.Core.List.{append_assoc}
use docsis_server.Prelude.{
  ℕ, zero, suc, ◌+◌, ◌≤◌, ◌<◌, ◌≡◌, refl, ap, ◌∙◌, Bool, true, false, ◌||◌, not, List, [], ◌∷◌,
  ◌++◌, map, drop, length, length-append, ◌==◌, arith, done,
}
use docsis_server.ConfigFile.{
  ConfigList, get_line, lc, is_space, word, spaces, string_at, value_of, read_item, is_skipped,
  read_items, read_config_file,
}

-- A line: the name of a variable, a blank with further ones behind it, and the value.
pub record Entry : Type 0 where
  pub name : List ℕ
  pub blank : ℕ
  pub blanks : List ℕ
  pub text : List ℕ

abbrev pub line_of : Entry → List ℕ
line_of e = e.name ++ (e.blank ∷ (e.blanks ++ e.text))

abbrev pub All : (ℕ → Bool) → List ℕ → Type 0
All p [] = Unit {0}
All p (c ∷ cs) = (p c ≡ true) × All p cs

abbrev pub in_name : ℕ → Bool
in_name c = not (is_space c || c == 0)

abbrev pub no_blank_first : List ℕ → Bool
no_blank_first [] = true
no_blank_first (c ∷ cs) = not (is_space c)

-- The line is no comment, fits the buffer, and has no zero byte and no line end within.
pub record IsEntry (e : Entry) : Type 0 where
  pub named : All in_name e.name
  pub counted : is_skipped e.name ≡ false
  pub parted : is_space e.blank ≡ true
  pub spaced : All is_space e.blanks
  pub valued : All (λ c. not (c == 0)) e.text
  pub trimmed : no_blank_first e.text ≡ true
  pub single : All (λ c. not (c == 10)) (line_of e)
  pub short : length (line_of e) ≤ 500

abbrev pub AreEntries : List Entry → Type 0
AreEntries [] = Unit {0}
AreEntries (e ∷ es) = IsEntry e × AreEntries es

unfoldable pub file_of : List Entry → List ℕ
file_of [] = []
file_of (e ∷ es) = line_of e ++ (10 ∷ file_of es)

abbrev pub item_of : Entry → ConfigList
item_of e = record { key = lc e.name; value = value_of e.text }

get_line-All :
    (room : ℕ) (l rest : List ℕ)
    → All (λ c. not (c == 10)) l
    → length l ≤ room
    → get_line room (l ++ (10 ∷ rest)) ≡ (l, (false, rest))
unfolding get_line
get_line-All zero [] rest h fits = refl
get_line-All (suc room) [] rest h fits = refl
get_line-All zero (c ∷ cs) rest h fits = absurd (omega arith)
get_line-All (suc room) (c ∷ cs) rest (h, hs) fits =
    let inside : (c == 10) ≡ false = ground (arith, h) in
    rw (inside, get_line-All room cs rest hs (omega arith)) refl

word-All :
    (name : List ℕ) (c : ℕ) (rest : List ℕ)
    → All in_name name
    → is_space c ≡ true
    → word (name ++ (c ∷ rest)) ≡ done (name, rest)
unfolding word
word-All [] c rest h blank = rw (blank) refl
word-All (x ∷ xs) c rest (h, hs) blank =
    let inside : (is_space x || x == 0) ≡ false = ground (arith, h) in
    rw (inside, word-All xs c rest hs blank) refl

spaces-All :
    (blanks rest : List ℕ)
    → All is_space blanks
    → spaces rest ≡ done ([], rest)
    → spaces (blanks ++ rest) ≡ done (blanks, rest)
unfolding spaces
spaces-All [] rest h e = e
spaces-All (c ∷ cs) rest (h, hs) e = rw (h, spaces-All cs rest hs e) refl

spaces-trimmed :
    (text rest : List ℕ)
    → no_blank_first text ≡ true
    → spaces (text ++ (0 ∷ rest)) ≡ done ([], text ++ (0 ∷ rest))
unfolding spaces is_space
spaces-trimmed [] rest h = refl
spaces-trimmed (c ∷ cs) rest h = ground (arith, h)

string_at-All :
    (text rest : List ℕ)
    → All (λ c. not (c == 0)) text
    → string_at (text ++ (0 ∷ rest)) ≡ done (text, rest)
unfolding string_at
string_at-All [] rest h = refl
string_at-All (c ∷ cs) rest (h, hs) =
    let inside : (c == 0) ≡ false = ground (arith, h) in rw (inside, string_at-All cs rest hs) refl

-- The line in the buffer, part by part.
put_line-parts :
    (e : Entry) (rest : List ℕ)
    → line_of e ++ rest ≡ e.name ++ (e.blank ∷ (e.blanks ++ (e.text ++ rest)))
put_line-parts e rest =
    append_assoc e.name (e.blank ∷ (e.blanks ++ e.text)) rest
    ∙ ap (λ tail. e.name ++ (e.blank ∷ tail)) (append_assoc e.blanks e.text rest)

read_item-line_of :
    (e : Entry) (rest : List ℕ)
    → IsEntry e
    → (left : List ℕ) × (read_item (line_of e ++ (0 ∷ rest)) ≡ done (item_of e, left))
unfolding read_item
read_item-line_of e rest h =
    let gap =
      spaces-All e.blanks (e.text ++ (0 ∷ rest)) h.spaced (spaces-trimmed e.text rest h.trimmed) in
    (
      lc e.name ++ (0 ∷ (e.blanks ++ (lc e.text ++ (0 ∷ rest)))),
      rw
          (
            put_line-parts e (0 ∷ rest),
            word-All e.name e.blank (e.blanks ++ (e.text ++ (0 ∷ rest))) h.named h.parted,
            gap,
            string_at-All e.text rest h.valued,
          )
          refl,
    )

is_skipped-append :
    (name rest : List ℕ) → is_skipped name ≡ false → is_skipped (name ++ rest) ≡ false
unfolding is_skipped
is_skipped-append [] rest h = cc
is_skipped-append (c ∷ cs) rest h = h

read_items-file_of :
    (fuel : ℕ) (line_buf : List ℕ) (es : List Entry)
    → AreEntries es
    → length es < fuel
    → read_items fuel line_buf (file_of es) ≡ done (map item_of es)
unfolding read_items file_of get_line
read_items-file_of zero line_buf es h enough = absurd (omega arith)
read_items-file_of (suc fuel) line_buf [] h enough = refl
read_items-file_of (suc fuel) line_buf (e ∷ es) (h, hs) enough =
    let (left, made) = read_item-line_of e (drop (length (line_of e) + 1) line_buf) h in
    let kept = is_skipped-append e.name (e.blank ∷ (e.blanks ++ e.text)) h.counted in
    rw
      (
        get_line-All 500 (line_of e) (file_of es) h.single h.short,
        kept,
        made,
        read_items-file_of fuel left es hs (omega arith),
      )
      refl

length-file_of : (es : List Entry) → length es ≤ length (file_of es)
unfolding file_of
length-file_of [] = omega arith
length-file_of (e ∷ es) =
    omega (arith, length-append (line_of e) (10 ∷ file_of es), length-file_of es)

-- A file of lines that each hold a name, blanks and a value, with a line end, is read as a variable for
-- each line, in order, whatever stood in the buffer before: its name in lower case, with its value,
-- where yes, y, no and n are in lower case. No line is a comment or has more than 500 bytes or a zero
-- byte, no name has a blank, and no value starts with one.
pub read_config_file-file_of :
    (line_buf : List ℕ) (es : List Entry)
    → AreEntries es
    → read_config_file line_buf (file_of es) ≡ done (map item_of es)
unfolding read_config_file
read_config_file-file_of line_buf es h =
    let enough = length-file_of es in
    read_items-file_of (length (file_of es) + 1) line_buf es h (omega (arith, enough))
