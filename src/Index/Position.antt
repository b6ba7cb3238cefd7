-- ===== src/Index/Position.antt =====
-- On a sorted table the binary search is the search from the front.
use docsis_server.Prelude.{
  ℕ, zero, suc, ◌+◌, ◌-◌, ◌/◌, ◌≤◌, ◌<◌, ◌≡◌, ◌≢◌, ◌⊎◌, inl, inr, le_cases, subst, ◌∙◌, refl, sym,
  ap, Option, none, some, List, [], ◌∷◌, length, get_elem?, ◌==◌, ==_refl, ne→==_false,
  le→ltb_false, lt→ltb, if◌then◌else◌, arith, done,
}
use docsis_server.Index.{index_loop, find_index}

-- The first index of a key.
unfoldable pub position : ℕ → List ℕ → Option ℕ
position key [] = none
position key (v ∷ vs) =
    if v == key then some 0 else (elim (position key vs) [ none ↦ none | some i ↦ some (suc i) ])

-- Each key is below those behind it.
abbrev pub Above : ℕ → List ℕ → Type 0
Above low [] = Unit {0}
Above low (v ∷ vs) = (low < v) × Above low vs

abbrev pub IsSorted : List ℕ → Type 0
IsSorted [] = Unit {0}
IsSorted (v ∷ vs) = Above v vs × IsSorted vs

get_elem?-Above :
    (low : ℕ) (vs : List ℕ) (i v : ℕ) → Above low vs → get_elem? vs i ≡ some v → low < v
get_elem?-Above low [] i v a e = cc
get_elem?-Above low (x ∷ vs) zero v (a, all) e = ground (arith, a)
get_elem?-Above low (x ∷ vs) (suc i) v (a, all) e = get_elem?-Above low vs i v all e

-- Keys stand in the order of their indices.
sorted_lt :
    (vs : List ℕ) (i j v w : ℕ)
    → IsSorted vs
    → i < j
    → get_elem? vs i ≡ some v
    → get_elem? vs j ≡ some w
    → v < w
sorted_lt [] i j v w s l e f = cc
sorted_lt (x ∷ vs) zero zero v w s l e f = absurd (omega arith)
sorted_lt (x ∷ vs) zero (suc j) v w (a, s) l e f =
    let h = get_elem?-Above x vs j w a f in ground (arith, h)
sorted_lt (x ∷ vs) (suc i) zero v w s l e f = absurd (omega arith)
sorted_lt (x ∷ vs) (suc i) (suc j) v w (a, s) l e f = sorted_lt vs i j v w s (omega arith) e f

position-none :
    (key : ℕ) (vs : List ℕ)
    → ((i v : ℕ) → get_elem? vs i ≡ some v → v ≢ key)
    → position key vs ≡ none
unfolding position
position-none key [] h = refl
position-none key (x ∷ vs) h =
    rw (ne→==_false x key (h 0 x refl), position-none key vs (λ i v. h (suc i) v))

position-some :
    (key : ℕ) (vs : List ℕ) (i : ℕ)
    → get_elem? vs i ≡ some key
    → ((j v : ℕ) → j < i → get_elem? vs j ≡ some v → v ≢ key)
    → position key vs ≡ some i
unfolding position
position-some key [] i e h = cc
position-some key (x ∷ vs) zero e h =
    let same : x ≡ key = ground (arith, e) in rw (==_refl x key same)
position-some key (x ∷ vs) (suc i) e h = rw (
  ne→==_false x key (h 0 x (omega arith) refl),
  position-some key vs i e (λ j v l. h (suc j) v (omega arith)),
)

get_elem?-lt : (vs : List ℕ) (i : ℕ) → i < length vs → (v : ℕ) × (get_elem? vs i ≡ some v)
get_elem?-lt [] i h = absurd (omega arith)
get_elem?-lt (x ∷ vs) zero h = (x, refl)
get_elem?-lt (x ∷ vs) (suc i) h = get_elem?-lt vs i (omega arith)

get_elem?-bound : (vs : List ℕ) (i v : ℕ) → get_elem? vs i ≡ some v → i < length vs
get_elem?-bound [] i v e = cc
get_elem?-bound (x ∷ vs) zero v e = omega arith
get_elem?-bound (x ∷ vs) (suc i) v e = omega (arith, get_elem?-bound vs i v e)

-- The key can only stand at one of the `n` indices from `low` on.
record Between (keys : List ℕ) (key low n : ℕ) : Type 0 where
  fits : low + n ≤ length keys
  before : (i v : ℕ) → i < low → get_elem? keys i ≡ some v → v < key
  after : (i v : ℕ) → low + n ≤ i → get_elem? keys i ≡ some v → key < v

module _ (keys : List ℕ) (key : ℕ) (sorted : IsSorted keys) where
  empty_range : (low : ℕ) → Between keys key low 0 → position key keys ≡ none
  empty_range low b = position-none key keys (λ i v e same. elim (split i) [
    | inl l ↦ omega (arith, b.before i v l e)
    | inr g ↦ omega (arith, b.after i v (omega arith) e)
  ])
    where
      split : (i : ℕ) → (i < low) ⊎ (low ≤ i)
      split i = ground arith

  left_half :
      (low n half v : ℕ)
      → Between keys key low n
      → half < n
      → get_elem? keys (low + half) ≡ some v
      → key < v
      → Between keys key low half
  left_half low n half v b h e l = record {
    fits = omega (arith, b.fits);
    before = b.before;
    after = λ i w g f. elim (le_cases (low + half) i g) [
      | inl same ↦
          let at_mid : get_elem? keys (low + half) ≡ some w = ap (get_elem? keys) same ∙ f in
          ground (arith, e, at_mid)
      | inr more ↦ omega (arith, sorted_lt keys (low + half) i v w sorted more e f)
    ];
  }

  right_half :
      (low n half v : ℕ)
      → Between keys key low n
      → half < n
      → get_elem? keys (low + half) ≡ some v
      → v < key
      → Between keys key (low + half + 1) (n - 1 - half)
  right_half low n half v b h e l = record {
    fits = omega (arith, b.fits);
    before = λ i w g f. elim (le_cases i (low + half) (omega arith)) [
      | inl same ↦
          let at_mid : get_elem? keys (low + half) ≡ some w = ap (get_elem? keys) (sym same) ∙ f in
          ground (arith, e, at_mid)
      | inr less ↦ omega (arith, sorted_lt keys i (low + half) w v sorted less f e)
    ];
    after = λ i w g f. b.after i w (omega arith) f;
  }

  -- One round of the loop, by the key in the middle.
  round_hit :
      (fuel low n v : ℕ)
      → n ≢ 0
      → get_elem? keys (low + (n - 1) / 2) ≡ some v
      → v ≡ key
      → index_loop keys key (suc fuel) low n ≡ done (some (low + (n - 1) / 2))
  unfolding index_loop
  round_hit fuel low n v p e same = rw (ne→==_false n 0 p, e, ==_refl v key same) refl

  round_left :
      (fuel low n v : ℕ)
      → n ≢ 0
      → get_elem? keys (low + (n - 1) / 2) ≡ some v
      → key < v
      → index_loop keys key (suc fuel) low n ≡ index_loop keys key fuel low ((n - 1) / 2)
  unfolding index_loop
  round_left fuel low n v p e l =
      rw (ne→==_false n 0 p, e, ne→==_false v key (omega arith), lt→ltb key v l) refl

  round_right :
      (fuel low n v : ℕ)
      → n ≢ 0
      → get_elem? keys (low + (n - 1) / 2) ≡ some v
      → v < key
      → index_loop keys key (suc fuel) low n
        ≡ index_loop keys key fuel (low + (n - 1) / 2 + 1) (n - 1 - (n - 1) / 2)
  unfolding index_loop
  round_right fuel low n v p e l =
      rw (ne→==_false n 0 p, e, ne→==_false v key (omega arith), le→ltb_false key v (omega arith))
        refl

  round_empty : (fuel low : ℕ) → index_loop keys key fuel low 0 ≡ done none
  unfolding index_loop
  round_empty zero low = refl
  round_empty (suc fuel) low = refl

  index_loop-position :
      (fuel low n : ℕ)
      → n ≤ fuel
      → Between keys key low n
      → index_loop keys key fuel low n ≡ done (position key keys)
  index_loop-position zero low n h b =
      let none_left : n ≡ 0 = omega arith in
      let at_zero : Between keys key low 0 = subst (Between keys key low) (none_left) b in
      rw (none_left, round_empty 0 low, empty_range low at_zero) refl
  index_loop-position (suc fuel) low zero h b =
      rw (round_empty (suc fuel) low, empty_range low b) refl
  index_loop-position (suc fuel) low (suc n) h b =
      let half : ℕ = (suc n - 1) / 2 in
      let less : (suc n - 1) / 2 < suc n = omega arith in
      let (v, e) = get_elem?-lt keys (low + (suc n - 1) / 2) (omega (arith, b.fits)) in
      elim (trichotomy v key) [
        | inl (inl same) ↦
            let hit : get_elem? keys (low + (suc n - 1) / 2) ≡ some key = e ∙ ap some same in
            round_hit fuel low (suc n) v (omega arith) e same
            ∙ ap done (
                sym (
                  position-some key keys (low + (suc n - 1) / 2) hit (λ j w l f at_key.
                    omega (arith, sorted_lt keys j (low + (suc n - 1) / 2) w key sorted l f hit))))
        | inl (inr l) ↦
            round_left fuel low (suc n) v (omega arith) e l
            ∙ index_loop-position fuel low ((suc n - 1) / 2) (omega arith)
                (left_half low (suc n) ((suc n - 1) / 2) v b less e l)
        | inr l ↦
            round_right fuel low (suc n) v (omega arith) e l
            ∙ index_loop-position fuel (low + (suc n - 1) / 2 + 1) (suc n - 1 - (suc n - 1) / 2)
                (omega arith) (right_half low (suc n) ((suc n - 1) / 2) v b less e l)
      ]
    where
      trichotomy : (v key : ℕ) → ((v ≡ key) ⊎ (key < v)) ⊎ (v < key)
      trichotomy v key = ground arith

-- The search of a table in ascending order that has no key twice is the search from its front.
pub find_index-position :
    (keys : List ℕ) (key : ℕ) → IsSorted keys → find_index keys key ≡ done (position key keys)
unfolding find_index
find_index-position keys key sorted =
    index_loop-position keys key sorted (length keys) 0 (length keys) (omega arith) record {
      fits = omega arith;
      before = λ i v l e. absurd (omega arith);
      after = λ i v l e. absurd (omega (arith, get_elem?-bound keys i v e));
    }
