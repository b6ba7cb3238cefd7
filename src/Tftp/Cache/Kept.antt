-- ===== src/Tftp/Cache/Kept.antt =====
-- What a property of the single verdicts says about a whole clean-up loop.
use docsis_server.Prelude.{ℕ, ◌≡◌, refl, inl, inr, some, List, [], ◌∷◌, arith}
use docsis_server.Tftp.Cache.{Entry, Verdict, keep, drop_it, find_entry}
use docsis_server.Tftp.Cache.Sweep.{Steady, sieve, swept, Verdict-cases}

abbrev pub All {ℓ κ} : {A : Type ℓ} → (A → Type κ) → List A → Type κ
All P [] = Unit
All P (x ∷ xs) = P x × All P xs

abbrev pub Behind {ℓ κ} : {A : Type ℓ} → (A → Type κ) → List A → Type κ
Behind P [] = Unit
Behind P (x ∷ xs) = All P xs

pub sieve-All :
    (verdict : Entry → Verdict) (P : Entry → Type 0)
    → ((e e' : Entry) → verdict e ≡ keep e' → P e')
    → (es : List Entry) → All P (sieve verdict es)
unfolding sieve
sieve-All verdict P ok [] = tt
sieve-All verdict P ok (e ∷ es) = go (verdict e) (ok e) (sieve-All verdict P ok es)
  where
    go :
        (v : Verdict)
        → ((e' : Entry) → v ≡ keep e' → P e')
        → All P (sieve verdict es)
        → All P (elim v [ keep e' ↦ e' ∷ sieve verdict es | drop_it ↦ sieve verdict es ])
    go (keep e') k rest = (k e' refl, rest)
    go drop_it k rest = rest

pub swept-Behind :
    (verdict : Entry → Verdict) (P : Entry → Type 0)
    → ((e e' : Entry) → verdict e ≡ keep e' → P e')
    → (es : List Entry) → Behind P (swept verdict es)
unfolding swept
swept-Behind verdict P ok [] = tt
swept-Behind verdict P ok (e ∷ es) = go (verdict e) es
  where
    go :
        (v : Verdict) (es : List Entry)
        → Behind P (elim v [
          | keep e' ↦ e' ∷ sieve verdict es
          | drop_it ↦ elim es [ [] ↦ [] | s ∷ rest ↦ s ∷ sieve verdict rest ]
        ])
    go (keep e') es = sieve-All verdict P ok es
    go drop_it [] = tt
    go drop_it (s ∷ rest) = sieve-All verdict P ok rest

pub find_entry-sieve :
    (verdict : Entry → Verdict)
    → Steady verdict
    → (num : ℕ) (e : Entry) (es : List Entry) → verdict e ≡ keep e
    → find_entry num es ≡ some e
    → find_entry num (sieve verdict es) ≡ some e
unfolding sieve find_entry
find_entry-sieve verdict steady num e [] k h = h
find_entry-sieve verdict steady num e (x ∷ es) k h = elim (Verdict-cases (verdict x)) [
  | inl dropped ↦
      rw (dropped, sieve) (find_entry-sieve verdict steady num e es k (ground (arith, dropped)))
  | inr (x', kept) ↦
      rw (kept, sieve)
        (ground (arith, steady x x' kept, find_entry-sieve verdict steady num e es k))
]

pub find_entry-swept :
    (verdict : Entry → Verdict)
    → Steady verdict
    → (num : ℕ) (e : Entry) (es : List Entry) → verdict e ≡ keep e
    → find_entry num es ≡ some e
    → find_entry num (swept verdict es) ≡ some e
unfolding swept find_entry
find_entry-swept verdict steady num e [] k h = h
find_entry-swept verdict steady num e (x ∷ es) k h = elim (Verdict-cases (verdict x)) [
  | inl dropped ↦ rw (dropped, swept) (behind es (ground (arith, dropped)))
  | inr (x', kept) ↦
      rw (kept, swept)
        (ground (arith, steady x x' kept, find_entry-sieve verdict steady num e es k))
]
  where
    behind :
        (es : List Entry)
        → find_entry num es ≡ some e
        → find_entry num (elim es [ [] ↦ [] | s ∷ rest ↦ s ∷ sieve verdict rest ]) ≡ some e
    behind [] h = h
    behind (s ∷ rest) h = ground (arith, find_entry-sieve verdict steady num e rest k)

pub sieve-keeps_All :
    (verdict : Entry → Verdict) (P : Entry → Type 0)
    → ((e e' : Entry) → verdict e ≡ keep e' → P e → P e')
    → (es : List Entry) → All P es
    → All P (sieve verdict es)
unfolding sieve
sieve-keeps_All verdict P ok [] a = tt
sieve-keeps_All verdict P ok (e ∷ es) a = elim (Verdict-cases (verdict e)) [
  | inl dropped ↦ rw (dropped, sieve) (sieve-keeps_All verdict P ok es a.1)
  | inr (e', kept) ↦ rw (kept, sieve) (ok e e' kept a.0, sieve-keeps_All verdict P ok es a.1)
]

pub swept-keeps_All :
    (verdict : Entry → Verdict) (P : Entry → Type 0)
    → ((e e' : Entry) → verdict e ≡ keep e' → P e → P e')
    → (es : List Entry) → All P es
    → All P (swept verdict es)
unfolding swept
swept-keeps_All verdict P ok [] a = tt
swept-keeps_All verdict P ok (e ∷ es) a = elim (Verdict-cases (verdict e)) [
  | inl dropped ↦ rw (dropped, swept) (behind es a.1)
  | inr (e', kept) ↦ rw (kept, swept) (ok e e' kept a.0, sieve-keeps_All verdict P ok es a.1)
]
  where
    behind :
        (es : List Entry)
        → All P es
        → All P (elim es [ [] ↦ [] | s ∷ rest ↦ s ∷ sieve verdict rest ])
    behind [] a = tt
    behind (s ∷ rest) a = (a.0, sieve-keeps_All verdict P ok rest a.1)
