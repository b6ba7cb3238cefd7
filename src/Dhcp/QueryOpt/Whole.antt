-- ===== src/Dhcp/QueryOpt/Whole.antt =====
-- An option set is cut from whole options.
use mathlib.Core.List.{append_assoc, append-nil}
use docsis_server.Prelude.{
  ℕ, zero, suc, ◌%◌, ◌^◌, ◌≤◌, ◌<◌, ◌≡◌, refl, sym, subst, Bool, true, false, ◌||◌, Option, none,
  some, List, [], ◌∷◌, ◌++◌, take, length, length-take, ltb, ◌==◌, if◌then◌else◌, if_all,
  option_all, arith, IfDone, IfDone->>=, IfDone-any, Run, done, fault, ◌>>=◌,
}
use docsis_server.Strtoul.{strtoul}
use docsis_server.Dhcp.QueryOpt.{
  OptRow, OptDatabase, option_of, plain_value, row_text, sub_option, convert_opt, convert_rows,
  option_set, query_opt,
}

-- Options one behind the other, each with as many bytes as its length byte says.
pub data Whole : List ℕ → Type 0 where
  no_more : Whole []
  option :
      (opt_type : ℕ) (bs rest : List ℕ)
      → length bs < 256
      → Whole rest
      → Whole (opt_type ∷ length bs ∷ (bs ++ rest))

append-Whole : (xs ys : List ℕ) → Whole xs → Whole ys → Whole (xs ++ ys)
append-Whole [] ys no_more w = w
append-Whole xs ys (option opt_type bs rest h v) w =
    subst (λ tail. Whole (opt_type ∷ length bs ∷ tail)) (sym (append_assoc bs rest ys))
      (option opt_type bs (rest ++ ys) h (append-Whole rest ys v w))

option_of-Whole : (opt_type : ℕ) (bs : List ℕ) → Whole (option_of opt_type bs)
unfolding option_of
option_of-Whole opt_type bs =
    let d = take (length bs % 256) bs in
    let size : length d ≡ length bs % 256 = omega (arith, length-take (length bs % 256) bs) in
    subst (λ n. Whole (opt_type % 256 ∷ n ∷ d)) size
      (subst (λ tail. Whole (opt_type % 256 ∷ length d ∷ tail)) (append-nil d)
        (option (opt_type % 256) d [] (omega (arith, size)) no_more))

sub_option-Whole : (opt_type : ℕ) (val : Option (List ℕ)) → Whole (sub_option opt_type val)
unfolding sub_option
sub_option-Whole opt_type none = no_more
sub_option-Whole opt_type (some val) = option_of-Whole opt_type val

convert_opt-Whole :
    (db : OptDatabase) (query : ℕ → Run (Option (List ℕ))) (opt_type dtype : ℕ) (value : List ℕ)
    → IfDone Whole (convert_opt db query opt_type dtype value)
unfolding convert_opt
convert_opt-Whole db query opt_type dtype value =
    if_all (IfDone Whole) (dtype == 0 || ltb 13 dtype) _ _ no_more (
      if_all (IfDone Whole) (dtype == 10) _ _
        (IfDone-any Whole (query ((strtoul value).0 % 2 ^ 16)) _
          (λ val. sub_option-Whole opt_type val))
        (IfDone-any Whole (plain_value db dtype value) _ (λ bs. option_of-Whole opt_type bs)))

convert_rows-Whole :
    (db : OptDatabase) (query : ℕ → Run (Option (List ℕ))) (rows : List OptRow)
    → IfDone Whole (convert_rows db query rows)
unfolding convert_rows
convert_rows-Whole db query [] = no_more
convert_rows-Whole db query (row ∷ rows) = IfDone-any Whole (row_text row) _ (λ value.
    IfDone->>= Whole Whole (convert_opt db query row.opt_type (row.opt_dtype % 256) value) _
      (convert_opt-Whole db query row.opt_type (row.opt_dtype % 256) value)
      (λ bs w.
        IfDone->>= Whole Whole (convert_rows db query rows) _ (convert_rows-Whole db query rows)
          (λ rest v. append-Whole bs rest w v)))

-- Bytes cut from whole options, 1 to 2048 bytes of them, at their number modulo 256.
abbrev pub Cut : Option (List ℕ) → Type 0
Cut none = Unit {0}
Cut (some val) =
    (bs : List ℕ) × Whole bs
    × (0 < length bs)
    × (length bs ≤ 2048)
    × (val ≡ take (length bs % 256) bs)

option_set-Cut : (bs : List ℕ) → Whole bs → IfDone Cut (option_set bs)
unfolding option_set
option_set-Cut [] w = tt
option_set-Cut (b ∷ bs) w = go (ltb 2048 (length (b ∷ bs))) refl
  where
    go :
        (over : Bool)
        → ltb 2048 (length (b ∷ bs)) ≡ over
        → IfDone Cut (if over then fault else done (some (take (length (b ∷ bs) % 256) (b ∷ bs))))
    go true e = tt
    go false e = (b ∷ bs, w, omega arith, ground (arith, e), refl)

-- Whatever the rows, if Query_Opt returns a set, the set is the first n modulo 256 bytes of n bytes, 1 to
-- 2048 of them, that are whole options, each with as many bytes as its length byte says.
pub query_opt-Cut :
    (fuel : ℕ) (db : OptDatabase) (opt_id b_mac : ℕ) → IfDone Cut (query_opt fuel db opt_id b_mac)
unfolding query_opt
query_opt-Cut zero db opt_id b_mac = tt
query_opt-Cut (suc fuel) db opt_id b_mac =
    option_all (IfDone Cut) (db.opt_rows opt_id b_mac) (done none)
      (λ rs. convert_rows db (λ sub. query_opt fuel db sub b_mac) rs >>= option_set) tt
      (λ rs.
        IfDone->>= Whole Cut (convert_rows db (λ sub. query_opt fuel db sub b_mac) rs) option_set
          (convert_rows-Whole db (λ sub. query_opt fuel db sub b_mac) rs) option_set-Cut)
