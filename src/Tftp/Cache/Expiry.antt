-- ===== src/Tftp/Cache/Expiry.antt =====
-- free_file_cache: which files it drops from the cache, and which it misses.
use docsis_server.Prelude.{
  ℕ, ◌+◌, ◌≤◌, ◌≡◌, refl, ◌⊎◌, inl, inr, Bool, true, false, Option, none, some, List, ◌∷◌, arith,
  if◌then◌else◌, ==_refl,
}
use docsis_server.Tftp.Cache.{
  Entry, Cache, World, keep, drop_dynamic, drop_idle, restat, drop_old, free_file_cache, find_entry,
}
use docsis_server.Tftp.Cache.Invariant.{Rising}
use docsis_server.Tftp.Cache.Sweep.{Steady, swept, sweep_all-swept, Rising-swept}
use docsis_server.Tftp.Cache.Kept.{
  All, Behind, sieve-All, swept-Behind, find_entry-swept, swept-keeps_All,
}

drop_dynamic-Steady : Steady drop_dynamic
unfolding drop_dynamic
drop_dynamic-Steady e e' h = ground arith

drop_old-Steady : (w : World) → Steady (drop_old w)
unfolding drop_old drop_idle restat
drop_old-Steady w e e' h = ground arith

-- The cache after the loop over the dynamic files, and after both loops.
abbrev pub after_configs : World → List Entry → List Entry
after_configs w es = if w.new_configs then swept drop_dynamic es else es

abbrev pub after_sweeps : World → List Entry → List Entry
after_sweeps w es = swept (drop_old w) (after_configs w es)

-- free_file_cache always ends, with the entries that its two loops keep.
pub free_file_cache_lem :
    (w : World) (c : Cache) (hi : ℕ)
    → Rising 0 hi c.thecache
    → free_file_cache w c ≡ some (record c { thecache = after_sweeps w c.thecache })
unfolding free_file_cache
free_file_cache_lem w c hi r = ground (
  arith,
  sweep_all-swept drop_dynamic drop_dynamic-Steady hi 0 c.thecache r,
  sweep_all-swept (drop_old w) (drop_old-Steady w) hi 0 c.thecache r,
  sweep_all-swept (drop_old w) (drop_old-Steady w) hi 0 (swept drop_dynamic c.thecache)
      (Rising-swept drop_dynamic drop_dynamic-Steady hi 0 c.thecache r),
)

-- What `drop_old` asks of an entry: a static file was accessed within `cache_time` and compared with
-- the disk within three minutes, a dynamic one was read within `dynam_time`.
abbrev pub RecentAs : World → Entry → Option (List ℕ) → Type 0
RecentAs w e none = w.now ≤ e.readtime + w.dynam_time
RecentAs w e (some name) = (w.now ≤ e.statcheck + 180) × (w.now ≤ e.lastaccess + w.cache_time)

abbrev pub Recent : World → Entry → Type 0
Recent w e = RecentAs w e e.fname

drop_old-Recent : (w : World) (e e' : Entry) → drop_old w e ≡ keep e' → Recent w e'
unfolding drop_old restat drop_idle
drop_old-Recent w e e' h = go e'.fname refl
  where
    go : (f : Option (List ℕ)) → e'.fname ≡ f → RecentAs w e' f
    go none q = ground arith
    go (some name) q = (ground arith, ground arith)

-- On a cache with rising file numbers free_file_cache ends, keeps the numbers rising, and every entry
-- that it leaves behind the first one is recent: a static file was accessed within `cache_time` and compared with the disk
-- within 180 seconds, a dynamic file was read within `dynam_time`.
pub free_file_cache-Recent :
    (w : World) (c : Cache) (hi : ℕ)
    → Rising 0 hi c.thecache
    → (c' : Cache) × (free_file_cache w c ≡ some c')
      × Behind (Recent w) c'.thecache
      × Rising 0 hi c'.thecache
free_file_cache-Recent w c hi r = (
  record c { thecache = after_sweeps w c.thecache },
  free_file_cache_lem w c hi r,
  swept-Behind (drop_old w) (Recent w) (drop_old-Recent w) (after_configs w c.thecache),
  Rising-swept (drop_old w) (drop_old-Steady w) hi 0 (after_configs w c.thecache) first,
)
  where
    pick : (b : Bool) → Rising 0 hi (if b then swept drop_dynamic c.thecache else c.thecache)
    pick true = Rising-swept drop_dynamic drop_dynamic-Steady hi 0 c.thecache r
    pick false = r

    first : Rising 0 hi (after_configs w c.thecache)
    first = pick w.new_configs

drop_old_keeps : (w : World) (e : Entry) → Recent w e → drop_old w e ≡ keep e
unfolding drop_old restat drop_idle
drop_old_keeps w e h = go e.fname refl
  where
    go : (f : Option (List ℕ)) → e.fname ≡ f → drop_old w e ≡ keep e
    go none q = let h' : RecentAs w e none = rw q at h in ground arith
    go (some name) q = let h' : RecentAs w e (some name) = rw q at h in ground arith

drop_dynamic_keeps : (e : Entry) → e.dyn_fname ≡ none → drop_dynamic e ≡ keep e
unfolding drop_dynamic
drop_dynamic_keeps e h = ground arith

-- In a cache with rising file numbers, a recent entry that is static, or that no change of the configs
-- concerns, is found after free_file_cache, unchanged.
pub free_file_cache_keeps :
    (w : World) (c : Cache) (hi num : ℕ) (e : Entry)
    → Rising 0 hi c.thecache
    → find_entry num c.thecache ≡ some e
    → Recent w e
    → (w.new_configs ≡ false) ⊎ (e.dyn_fname ≡ none)
    → (c' : Cache) × (free_file_cache w c ≡ some c') × (find_entry num c'.thecache ≡ some e)
free_file_cache_keeps w c hi num e r found recent safe = (
  record c { thecache = after_sweeps w c.thecache },
  free_file_cache_lem w c hi r,
  find_entry-swept (drop_old w) (drop_old-Steady w) num e (after_configs w c.thecache)
      (drop_old_keeps w e recent) (first safe),
)
  where
    pick :
        (b : Bool)
        → (b ≡ false) ⊎ (e.dyn_fname ≡ none)
        → find_entry num (if b then swept drop_dynamic c.thecache else c.thecache) ≡ some e
    pick false s = found
    pick true (inl s) = cc
    pick true (inr s) =
        find_entry-swept drop_dynamic drop_dynamic-Steady num e c.thecache (drop_dynamic_keeps e s)
          found

    first :
        (w.new_configs ≡ false) ⊎ (e.dyn_fname ≡ none)
        → find_entry num (after_configs w c.thecache) ≡ some e
    first = pick w.new_configs

-- The entry is a static file.
abbrev pub IsStatic : Entry → Type 0
IsStatic e = e.dyn_fname ≡ none

drop_dynamic-IsStatic : (e e' : Entry) → drop_dynamic e ≡ keep e' → IsStatic e'
unfolding drop_dynamic
drop_dynamic-IsStatic e e' h = ground arith

drop_old-IsStatic : (w : World) (e e' : Entry) → drop_old w e ≡ keep e' → IsStatic e → IsStatic e'
unfolding drop_old restat drop_idle
drop_old-IsStatic w e e' h s = ground arith

swept-IsStatic :
    (e : Entry) (es : List Entry) → IsStatic e → All IsStatic (swept drop_dynamic (e ∷ es))
unfolding swept
swept-IsStatic e es h =
    rw (drop_dynamic_keeps e h, swept) (h, sieve-All drop_dynamic IsStatic drop_dynamic-IsStatic es)

after_configs_new :
    (w : World) (es : List Entry)
    → w.new_configs ≡ true
    → after_configs w es ≡ swept drop_dynamic es
after_configs_new w es new = rw new

-- After a change of the configs no dynamic file stays cached, if the first file is a static one and the
-- file numbers are rising.
pub free_file_cache_drops_dynamic :
    (w : World) (e : Entry) (es : List Entry) (number hi : ℕ)
    → Rising 0 hi (e ∷ es)
    → w.new_configs ≡ true
    → IsStatic e
    → (c' : Cache) × (free_file_cache w (record { thecache = e ∷ es; file_number = number })
        ≡ some c')
      × All IsStatic c'.thecache
free_file_cache_drops_dynamic w e es number hi r new static = (
  record { thecache = after_sweeps w (e ∷ es); file_number = number },
  free_file_cache_lem w _ hi r,
  swept-keeps_All (drop_old w) IsStatic (drop_old-IsStatic w) (after_configs w (e ∷ es))
      (rw (after_configs_new w (e ∷ es) new) (swept-IsStatic e es static)),
)

swept_misses :
    (d e : Entry) (es : List Entry) (name : List ℕ)
    → d.dyn_fname ≡ some name
    → find_entry e.filenum (swept drop_dynamic (d ∷ e ∷ es)) ≡ some e
unfolding swept drop_dynamic find_entry
swept_misses d e es name h = rw (h, drop_dynamic) (rw (==_refl e.filenum e.filenum refl))

-- If the first file is dynamic, the file numbers are rising and the second file is recent, the second
-- one is still cached after a change of the configs, be it dynamic or not.
pub free_file_cache_misses_second :
    (w : World) (d e : Entry) (es : List Entry) (name : List ℕ) (number hi : ℕ)
    → Rising 0 hi (d ∷ e ∷ es)
    → w.new_configs ≡ true
    → d.dyn_fname ≡ some name
    → Recent w e
    → (c' : Cache) × (free_file_cache w (record { thecache = d ∷ e ∷ es; file_number = number })
        ≡ some c')
      × (find_entry e.filenum c'.thecache ≡ some e)
free_file_cache_misses_second w d e es name number hi r new dynamic recent = (
  record { thecache = after_sweeps w (d ∷ e ∷ es); file_number = number },
  free_file_cache_lem w _ hi r,
  find_entry-swept (drop_old w) (drop_old-Steady w) e.filenum e (after_configs w (d ∷ e ∷ es))
      (drop_old_keeps w e recent)
      (rw (after_configs_new w (d ∷ e ∷ es) new) (swept_misses d e es name dynamic)),
)
