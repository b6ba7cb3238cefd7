-- ===== src/Tftp/ModemTable/Copies.antt =====
-- The two copies of the code that reads a row do the same, part by part.
use docsis_server.Prelude.{
  ℕ, zero, suc, ◌+◌, ◌%◌, ◌^◌, ◌≤◌, ◌<◌, ◌≡◌, refl, ap, Bool, true, false, ◌&&◌, not, Bool-cases,
  ◌⊎◌, inl, inr, none, some, Option, List, [], ◌∷◌, ◌++◌, take, length, length-append, ltb, leb,
  ◌==◌, if◌then◌else◌, if_all, arith, Run, done, fault, IfDone,
}
use docsis_server.Strtoul.{strtoul}
use docsis_server.Tftp.ModemTable.{
  SettingsRow, past_comma, kept, numbers, scanned, version_of, dynamic_text, query_numbers,
  query_version, query_text,
}

pub take-length : (n : ℕ) (xs : List ℕ) → length xs ≤ n → take n xs ≡ xs
take-length zero [] h = refl
take-length zero (x ∷ xs) h = absurd (omega arith)
take-length (suc n) [] h = refl
take-length (suc n) (x ∷ xs) h = ap (λ ys. x ∷ ys) (take-length n xs (omega arith))

kept_same :
    (ds : List ℕ) (d : ℕ) → (if not (d == 0) && true then ds ++ (d ∷ []) else ds) ≡ kept ds d
unfolding kept
kept_same ds d = go (d == 0)
  where
    go :
        (zeroed : Bool)
        → (if not zeroed && true then ds ++ (d ∷ []) else ds)
          ≡ (if zeroed then ds else ds ++ (d ∷ []))
    go true = refl
    go false = refl

past_comma_same :
    (q : List ℕ)
    → (elim q as (λ v. List ℕ) [ [] ↦ [] | x ∷ xs ↦ if x == 44 then xs else x ∷ xs ]) ≡ past_comma q
unfolding past_comma
past_comma_same [] = refl
past_comma_same (x ∷ xs) = refl

-- The two loops over the numbers.
pub query_numbers-numbers :
    (fuel : ℕ) (ds text : List ℕ) → query_numbers fuel ds text ≡ numbers fuel ds text
unfolding query_numbers numbers
query_numbers-numbers fuel ds [] = refl
query_numbers-numbers zero ds (c ∷ cs) = refl
query_numbers-numbers (suc fuel) ds (c ∷ cs) = go (Bool-cases (ltb (length ds) 100)) (
    query_numbers-numbers fuel (kept ds ((strtoul (c ∷ cs)).0 % 2 ^ 32))
      (past_comma (strtoul (c ∷ cs)).1))
  where
    go :
        ((ltb (length ds) 100 ≡ true) ⊎ (ltb (length ds) 100 ≡ false))
        → query_numbers fuel
            (kept ds ((strtoul (c ∷ cs)).0 % 2 ^ 32))
            (past_comma (strtoul (c ∷ cs)).1)
          ≡ numbers fuel (kept ds ((strtoul (c ∷ cs)).0 % 2 ^ 32)) (past_comma (strtoul (c ∷ cs)).1)
        → query_numbers (suc fuel) ds (c ∷ cs) ≡ numbers (suc fuel) ds (c ∷ cs)
    go (inl e) again =
        let room : leb 100 (length ds) ≡ false = ground (arith, e) in
        rw
          (
            e,
            room,
            kept_same ds ((strtoul (c ∷ cs)).0 % 2 ^ 32),
            past_comma_same (strtoul (c ∷ cs)).1,
          )
          again
    go (inr e) again =
        let full : leb 100 (length ds) ≡ true = ground (arith, e) in rw (e, full) refl

pub query_version-version_of : (sid : Option (List ℕ)) → query_version sid ≡ version_of sid
unfolding query_version version_of
query_version-version_of none = refl
query_version-version_of (some text) = ground arith

pub query_text-dynamic_text :
    (row : SettingsRow) → query_text row.dynamic_config_file ≡ dynamic_text row
unfolding query_text dynamic_text
query_text-dynamic_text row = go row.dynamic_config_file
  where
    go :
        (o : Option (List ℕ))
        → query_text o ≡ (elim o as (λ v. Run (List ℕ)) [
          | none ↦ fault
          | some text ↦ if ltb (length text) 256 then done text else fault
        ])
    go none = refl
    go (some text) = ground arith

pub length-kept : (ds : List ℕ) (v : ℕ) → length (kept ds v) ≤ length ds + 1
unfolding kept
length-kept ds v =
    if_all (λ (vs : List ℕ). length vs ≤ length ds + 1) (v == 0) ds (ds ++ (v ∷ [])) (omega arith)
      (omega (arith, length-append ds (v ∷ [])))

-- The loop never keeps more than 100 numbers.
pub length-numbers :
    (fuel : ℕ) (ds text : List ℕ)
    → length ds ≤ 100
    → IfDone (λ (vs : List ℕ). length vs ≤ 100) (scanned (numbers fuel ds text))
unfolding numbers scanned
length-numbers fuel ds [] h = h
length-numbers zero ds (c ∷ cs) h = tt
length-numbers (suc fuel) ds (c ∷ cs) h = go (Bool-cases (leb 100 (length ds))) (
    length-numbers fuel (kept ds ((strtoul (c ∷ cs)).0 % 2 ^ 32)) (past_comma (strtoul (c ∷ cs)).1))
  where
    go :
        ((leb 100 (length ds) ≡ true) ⊎ (leb 100 (length ds) ≡ false))
        → (length (kept ds ((strtoul (c ∷ cs)).0 % 2 ^ 32)) ≤ 100
            → IfDone
                (λ (vs : List ℕ). length vs ≤ 100)
                (scanned (
                  numbers fuel
                    (kept ds ((strtoul (c ∷ cs)).0 % 2 ^ 32))
                    (past_comma (strtoul (c ∷ cs)).1))))
        → IfDone (λ (vs : List ℕ). length vs ≤ 100) (scanned (numbers (suc fuel) ds (c ∷ cs)))
    go (inl e) again = rw (e) tt
    go (inr e) again =
        let room : length ds < 100 = ground (arith, e) in
        let v = (strtoul (c ∷ cs)).0 % 2 ^ 32 in
        rw (e) (again (omega (arith, room, length-kept ds v)))
