-- ===== src/Tftp/Cache/Serving.antt =====
-- read_static_file as its callers see it: a file number that stands for the file asked for.
use docsis_server.Prelude.{
  ℕ, ◌+◌, ◌<◌, ◌≡◌, ◌≢◌, refl, ap, subst, ◌⊎◌, inl, inr, true, some, List, [], ◌∷◌, ◌++◌, arith,
  ==_refl, str_eq_refl, done,
}
use docsis_server.Tftp.Cache.{
  Entry, Cache, World, Scan, miss, hit, stale, named, scan_entry, find_entry, new_entry,
  read_static_file,
}
use docsis_server.Tftp.Cache.Invariant.{Rising, Rising-swap, Rising-mid}
use docsis_server.Tftp.Cache.Kept.{All}
use docsis_server.Tftp.Cache.Lookup.{
  Counted, IsValid, Serves, All-snoc, Rising-snoc, find_entry-snoc, OnDisk, static_entry, appended,
}
use docsis_server.Tftp.Cache.StaticFile.{
  refreshed, Missed, read_static_file_miss_at, read_static_file_hit,
}

-- No cached entry of that name is older than the disk's file, or gone from the disk.
abbrev pub Current : World → List ℕ → List Entry → Type 0
Current w fname es = All (λ (e : Entry). scan_entry w fname e ≢ stale) es

Scan-cases : (s : Scan) → s ≢ stale → (s ≡ miss) ⊎ (s ≡ hit)
Scan-cases miss h = inl refl
Scan-cases hit h = inr refl
Scan-cases stale h = absurd (h refl)

-- The first entry that the search finds.
abbrev Hit : World → List ℕ → List Entry → Type 0
Hit w fname es =
    (seen : List Entry) × (e : Entry) × (rest : List Entry) × (es ≡ seen ++ e ∷ rest)
    × Missed w fname seen
    × (scan_entry w fname e ≡ hit)

search-cases :
    (w : World) (fname : List ℕ) (es : List Entry)
    → Current w fname es
    → Missed w fname es ⊎ Hit w fname es
search-cases w fname [] c = inl tt
search-cases w fname (e ∷ es) c = elim (Scan-cases (scan_entry w fname e) c.0) [
  | inr h ↦ inr ([], e, es, refl, tt, h)
  | inl m ↦ elim (search-cases w fname es c.1) [
    | inl ms ↦ inl (m, ms)
    | inr (seen, x, rest, q, ms, h) ↦ inr (e ∷ seen, x, rest, (ap (◌∷◌ e) q), (m, ms), h)
  ]
]

hit-named :
    (w : World) (fname : List ℕ) (e : Entry)
    → scan_entry w fname e ≡ hit
    → named fname e.fname ≡ true
unfolding scan_entry
hit-named w fname e h = ground arith

find_entry-mid :
    (lo hi : ℕ) (seen : List Entry) (e : Entry) (rest : List Entry)
    → Rising lo hi (seen ++ e ∷ rest)
    → find_entry e.filenum (seen ++ e ∷ rest) ≡ some e
unfolding find_entry
find_entry-mid lo hi [] e rest r = rw (==_refl e.filenum e.filenum refl)
find_entry-mid lo hi (x ∷ seen) e rest r =
    ground
      (arith, Rising-mid hi x.filenum seen e rest r.1, find_entry-mid x.filenum hi seen e rest r.1)

All-swap :
    (P : Entry → Type 0) (seen : List Entry) (e e' : Entry) (rest : List Entry)
    → (P e → P e')
    → All P (seen ++ e ∷ rest)
    → All P (seen ++ e' ∷ rest)
All-swap P [] e e' rest f a = (f a.0, a.1)
All-swap P (x ∷ seen) e e' rest f a = (a.0, All-swap P seen e e' rest f a.1)

Serves-miss :
    (w : World) (fname content : List ℕ) (c : Cache)
    → IsValid c
    → let e : Entry = static_entry w (c.file_number + 1) fname content in
      Serves fname (appended c e) (c.file_number + 1) e.num_blocks × IsValid (appended c e)
unfolding new_entry
Serves-miss w fname content c v =
    let e : Entry = static_entry w (c.file_number + 1) fname content in
    let above : c.file_number < e.filenum = omega arith in
    (
      (e, find_entry-snoc 0 c.file_number c.thecache e v.0 above, str_eq_refl fname, refl),
      (Rising-snoc 0 c.file_number c.thecache e v.0 above, All-snoc Counted c.thecache e v.1 refl),
    )

Serves-hit :
    (w : World) (fname : List ℕ) (c : Cache) (seen : List Entry) (e : Entry) (rest : List Entry)
    → IsValid c
    → c.thecache ≡ seen ++ e ∷ rest
    → scan_entry w fname e ≡ hit
    → let c' : Cache = record c { thecache = seen ++ refreshed w e ∷ rest } in
      Serves fname c' e.filenum e.num_blocks × IsValid c'
Serves-hit w fname c seen e rest v q s =
    let r : Rising 0 c.file_number (seen ++ refreshed w e ∷ rest) =
      Rising-swap c.file_number 0 seen e (refreshed w e) rest refl
        (subst (Rising 0 c.file_number) q v.0) in
    (
      (
        refreshed w e,
        find_entry-mid 0 c.file_number seen (refreshed w e) rest r,
        hit-named w fname e s,
        refl,
      ),
      (r, All-swap Counted seen e (refreshed w e) rest (λ x. x) (subst (All Counted) q v.1)),
    )

-- If no entry of that name is stale, the file is on the disk, memory suffices and the numbers are not
-- used up, read_static_file returns a number that the cache holds under that file's name, with its
-- block count; the numbers stay rising and the block counts right.
pub read_static_file-Serves :
    (w : World) (fname content : List ℕ) (c : Cache)
    → IsValid c
    → Current w fname c.thecache
    → OnDisk w fname content
    → c.file_number + 1 < 4294967296
    → (c' : Cache) × (num : ℕ) × (n : ℕ) × (read_static_file w fname c ≡ done (c', some (num, n)))
      × Serves fname c' num n
      × IsValid c'
read_static_file-Serves w fname content c v cur d h = elim (search-cases w fname c.thecache cur) [
  | inl m ↦
      let e : Entry = static_entry w (c.file_number + 1) fname content in
      let good = Serves-miss w fname content c v in
      (
        appended c e,
        c.file_number + 1,
        e.num_blocks,
        read_static_file_miss_at w fname content c.thecache c.file_number m d v.0 h,
        good.0,
        good.1,
      )
  | inr (seen, e, rest, q, m, s) ↦
      let good = Serves-hit w fname c seen e rest v q s in
      (
        record c { thecache = seen ++ refreshed w e ∷ rest },
        e.filenum,
        e.num_blocks,
        read_static_file_hit w fname c seen e rest q m s,
        good.0,
        good.1,
      )
]
