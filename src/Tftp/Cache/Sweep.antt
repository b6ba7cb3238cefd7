-- ===== src/Tftp/Cache/Sweep.antt =====
-- free_file_cache: what its two loops leave in the cache.
use mathlib.Core.List.{append_assoc, append-nil}
use docsis_server.Prelude.{
  ℕ, zero, suc, ◌+◌, ◌*◌, ◌<◌, ◌≡◌, refl, ap, ◌⊎◌, inl, inr, some, List, [], ◌∷◌, ◌++◌, length,
  arith, length-append,
}
use docsis_server.Tftp.Cache.{Entry, Verdict, keep, drop_it, restart, sweep, sweep_all, rounds}
use docsis_server.Tftp.Cache.Invariant.{
  Rising, Rising-mono, delete_file-mid, Rising-swap, Rising-remove,
}

-- The entries that a verdict keeps.
unfoldable pub sieve : (Entry → Verdict) → List Entry → List Entry
sieve verdict [] = []
sieve verdict (e ∷ es) = elim (verdict e) [
  | keep e' ↦ e' ∷ sieve verdict es
  | drop_it ↦ sieve verdict es
]

-- The entries kept, except that nothing is asked about the entry behind a deleted head.
unfoldable pub swept : (Entry → Verdict) → List Entry → List Entry
swept verdict [] = []
swept verdict (e ∷ es) = elim (verdict e) [
  | keep e' ↦ e' ∷ sieve verdict es
  | drop_it ↦ elim es [ [] ↦ [] | s ∷ rest ↦ s ∷ sieve verdict rest ]
]

-- A kept entry keeps its number, and would be kept again.
abbrev pub Steady : (Entry → Verdict) → Type 0
Steady verdict =
    (e e' : Entry) → verdict e ≡ keep e' → (e'.filenum ≡ e.filenum) × (verdict e' ≡ keep e')

abbrev Kept : (Entry → Verdict) → List Entry → Type 0
Kept verdict [] = Unit {0}
Kept verdict (e ∷ es) = (verdict e ≡ keep e) × Kept verdict es

pub Verdict-cases : (v : Verdict) → (v ≡ drop_it) ⊎ ((e : Entry) × (v ≡ keep e))
Verdict-cases drop_it = inl refl
Verdict-cases (keep e) = inr (e, refl)

fuel_step : (t a m n f : ℕ) → t ≡ suc a → m < a → t * t + n < suc f → a * a + m < f
fuel_step t a m n f e h l = omega (arith, rw e at l)

module _ (verdict : Entry → Verdict) where
  sieve-keep :
      (ps es : List Entry) → Kept verdict ps → sieve verdict (ps ++ es) ≡ ps ++ sieve verdict es
  unfolding sieve
  sieve-keep [] es k = refl
  sieve-keep (p ∷ ps) es k = rw (k.0, sieve) (ap (◌∷◌ p) (sieve-keep ps es k.1))

  Kept-snoc :
      (ps : List Entry) (e : Entry)
      → Kept verdict ps
      → verdict e ≡ keep e
      → Kept verdict (ps ++ e ∷ [])
  Kept-snoc [] e k h = (h, tt)
  Kept-snoc (p ∷ ps) e k h = (k.0, Kept-snoc ps e k.1 h)

  module _ (steady : Steady verdict) where
    sweep-sieve :
        (hi fuel lo t : ℕ) (h : Entry) (ps es : List Entry)
        → t ≡ suc (length ps + length es)
        → t * t + length es < fuel
        → Rising lo hi (h ∷ ps ++ es)
        → Kept verdict ps
        → sweep verdict fuel (h ∷ ps) es ≡ some (h ∷ ps ++ sieve verdict es)
    unfolding sweep sieve restart
    sweep-sieve hi zero lo t h ps es et f r k = absurd (omega arith)
    sweep-sieve hi (suc fuel) lo t h ps [] et f r k = rw (append-nil ps)
    sweep-sieve hi (suc fuel) lo t h ps (e ∷ es) et f r k = elim (Verdict-cases (verdict e)) [
      | inl dropped ↦
          rw
            (
              dropped,
              sweep,
              sieve,
              delete_file-mid hi lo (h ∷ ps) e es r,
              restart,
              ← sieve-keep ps es k,
            )
            (sweep-sieve hi fuel lo (length ps + suc (length es)) h [] (ps ++ es)
              (omega (arith, length-append ps es))
              (fuel_step t _ _ _ fuel et (omega (arith, length-append ps es)) f)
              (r.0, Rising-remove hi h.filenum ps e es r.1) tt)
      | inr (e', kept) ↦
          let (same, again) = steady e e' kept in
          rw (kept, sweep, sieve, ← append_assoc ps (e' ∷ []) (sieve verdict es))
            (sweep-sieve hi fuel lo t h (ps ++ e' ∷ []) es
              (omega (arith, length-append ps (e' ∷ []))) (omega arith)
              (
                r.0,
                rw (append_assoc ps (e' ∷ []) es) (Rising-swap hi h.filenum ps e e' es same r.1),
              )
              (Kept-snoc ps e' k again))
    ]

    sweep-swept :
        (hi lo fuel : ℕ) (es : List Entry)
        → Rising lo hi es
        → length es * length es + length es < fuel
        → sweep verdict fuel [] es ≡ some (swept verdict es)
    unfolding sweep swept sieve restart
    sweep-swept hi lo zero es r f = absurd (omega arith)
    sweep-swept hi lo (suc fuel) [] r f = refl
    sweep-swept hi lo (suc fuel) (e ∷ es) r f = elim (Verdict-cases (verdict e)) [
      | inl dropped ↦
          rw (dropped, sweep, swept, delete_file-mid hi lo [] e es r)
            (behind fuel es r.1 (omega arith))
      | inr (e', kept) ↦
          rw (kept, sweep, swept)
            (sweep-sieve hi fuel lo (suc (length es)) e' [] es (omega arith) (omega arith)
              (Rising-swap hi lo [] e e' es (steady e e' kept).0 r) tt)
    ]
      where
        behind :
            (fuel : ℕ) (es : List Entry)
            → Rising e.filenum hi es
            → length es * length es + length es < fuel
            → sweep verdict fuel (restart es).0 (restart es).1
              ≡ some (elim es [ [] ↦ [] | s ∷ rest ↦ s ∷ sieve verdict rest ])
        behind (suc fuel) [] r f = refl
        behind zero es r f = absurd (omega arith)
        behind (suc fuel) (s ∷ rest) r f =
            sweep-sieve hi (suc fuel) e.filenum (suc (length rest)) s [] rest (omega arith)
              (omega arith) r tt

    -- The loop ends, and leaves the kept entries; it never looks at the entry behind a deleted head.
    pub sweep_all-swept :
        (hi lo : ℕ) (es : List Entry)
        → Rising lo hi es
        → sweep_all verdict es ≡ some (swept verdict es)
    unfolding sweep_all
    sweep_all-swept hi lo es r = sweep-swept hi lo (rounds (length es)) es r (omega arith)

    pub Rising-sieve :
        (hi lo : ℕ) (es : List Entry) → Rising lo hi es → Rising lo hi (sieve verdict es)
    unfolding sieve
    Rising-sieve hi lo [] r = r
    Rising-sieve hi lo (e ∷ es) r = elim (Verdict-cases (verdict e)) [
      | inl dropped ↦
          rw (dropped, sieve)
            (Rising-mono hi e.filenum lo (sieve verdict es) (omega arith)
              (Rising-sieve hi e.filenum es r.1))
      | inr (e', kept) ↦
          let same = (steady e e' kept).0 in
          rw (kept, sieve) (rw same r.0, rw same (Rising-sieve hi e.filenum es r.1))
    ]

    pub Rising-swept :
        (hi lo : ℕ) (es : List Entry) → Rising lo hi es → Rising lo hi (swept verdict es)
    unfolding swept
    Rising-swept hi lo [] r = r
    Rising-swept hi lo (e ∷ es) r = elim (Verdict-cases (verdict e)) [
      | inl dropped ↦
          rw (dropped, swept) (Rising-mono hi e.filenum lo _ (omega arith) (behind es r.1))
      | inr (e', kept) ↦
          let same = (steady e e' kept).0 in
          rw (kept, swept) (rw same r.0, rw same (Rising-sieve hi e.filenum es r.1))
    ]
      where
        behind :
            (es : List Entry)
            → Rising e.filenum hi es
            → Rising e.filenum hi (elim es [ [] ↦ [] | s ∷ rest ↦ s ∷ sieve verdict rest ])
        behind [] r = r
        behind (s ∷ rest) r = (r.0, Rising-sieve hi s.filenum rest r.1)
