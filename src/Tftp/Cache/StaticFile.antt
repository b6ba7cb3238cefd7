-- ===== src/Tftp/Cache/StaticFile.antt =====
-- read_static_file, on every outcome of its search.
use mathlib.Core.List.{append_assoc, append-nil}
use docsis_server.Prelude.{
  ℕ, ◌+◌, ◌/◌, ◌<◌, ◌≡◌, refl, ap, sym, subst, ◌∙◌, ne→==_false, none, some, List, [], ◌∷◌, ◌++◌,
  length, arith, done, fault,
}
use docsis_server.Tftp.Blocks.{segsize}
use docsis_server.Tftp.Blocks.Contents.{length-layout}
use docsis_server.Tftp.Cache.{
  Entry, Cache, World, miss, hit, stale, scan_entry, new_entry, find_entry, delete_file, cut_before,
  search_static, read_static_file,
}
use docsis_server.Tftp.Cache.Invariant.{Rising, Rising-mid, delete_file-mid}
use docsis_server.Tftp.Cache.Kept.{All}
use docsis_server.Tftp.Cache.Lookup.{
  OnDisk, static_entry, appended, get_new_file_lem, first_file-appended, later_file-appended,
}

-- The entry after a hit.
abbrev pub refreshed : World → Entry → Entry
refreshed w e = record e { statcheck = w.now; counter = e.counter + 1 }

abbrev pub Missed : World → List ℕ → List Entry → Type 0
Missed w fname es = All (λ (e : Entry). scan_entry w fname e ≡ miss) es

-- No entry before another one has its number.
find_entry-Rising :
    (hi lo : ℕ) (seen : List Entry) (e : Entry) (rest : List Entry)
    → Rising lo hi (seen ++ e ∷ rest)
    → find_entry e.filenum seen ≡ none
unfolding find_entry
find_entry-Rising hi lo [] e rest r = refl
find_entry-Rising hi lo (s ∷ seen) e rest r =
    let below : s.filenum < e.filenum = Rising-mid hi s.filenum seen e rest r.1 in
    rw (ne→==_false s.filenum e.filenum (omega arith))
      (find_entry-Rising hi s.filenum seen e rest r.1)

module _ (w : World) (fname : List ℕ) where
  search_static_miss :
      (before es : List Entry)
      → Missed w fname es
      → search_static w fname before es ≡ done (before ++ es, none)
  unfolding search_static
  search_static_miss before [] m = ap (λ all. done (all, none)) (sym (append-nil before))
  search_static_miss before (e ∷ es) m =
      rw (m.0, search_static)
        (search_static_miss (before ++ e ∷ []) es m.1
          ∙ ap (λ all. done (all, none)) (append_assoc before (e ∷ []) es))

  -- The search stands at the entry behind those that it passed over.
  search_static-Missed :
      (before seen es : List Entry)
      → Missed w fname seen
      → search_static w fname before (seen ++ es) ≡ search_static w fname (before ++ seen) es
  unfolding search_static
  search_static-Missed before [] es m =
      ap (λ all. search_static w fname all es) (sym (append-nil before))
  search_static-Missed before (x ∷ seen) es m =
      rw (m.0, search_static)
        (search_static-Missed (before ++ x ∷ []) seen es m.1
          ∙ ap (λ all. search_static w fname all es) (append_assoc before (x ∷ []) seen))

  search_static_stale :
      (seen : List Entry) (e : Entry) (es : List Entry)
      → Missed w fname seen
      → find_entry e.filenum seen ≡ none
      → scan_entry w fname e ≡ stale
      → search_static w fname [] (seen ++ e ∷ es) ≡ fault
  unfolding search_static cut_before
  search_static_stale seen e es m own s =
      search_static-Missed [] seen (e ∷ es) m ∙ rw (s, search_static, own) refl

  search_static_hit :
      (seen : List Entry) (e : Entry) (es : List Entry)
      → Missed w fname seen
      → scan_entry w fname e ≡ hit
      → search_static w fname [] (seen ++ e ∷ es)
        ≡ done (seen ++ refreshed w e ∷ es, some (e.filenum, e.num_blocks))
  unfolding search_static
  search_static_hit seen e es m s =
      search_static-Missed [] seen (e ∷ es) m ∙ rw (s, search_static) refl

  pub read_static_file_miss_at :
      (content : List ℕ) (es : List Entry) (k : ℕ)
      → Missed w fname es
      → OnDisk w fname content
      → Rising 0 k es
      → k + 1 < 4294967296
      → let c : Cache = record { thecache = es; file_number = k } in
        let e : Entry = static_entry w (k + 1) fname content in
        read_static_file w fname c ≡ done (appended c e, some (k + 1, e.num_blocks))
  unfolding read_static_file new_entry
  read_static_file_miss_at content [] k m d r h =
      rw (get_new_file_lem w fname content (record { thecache = []; file_number = k }) d h)
        (first_file-appended (static_entry w (k + 1) fname content) (omega arith))
  read_static_file_miss_at content (e ∷ es) k m d r h =
      let c : Cache = record { thecache = e ∷ es; file_number = k } in
      rw (search_static_miss [] (e ∷ es) m, get_new_file_lem w fname content c d h)
        (ap done (later_file-appended c (static_entry w (k + 1) fname content) r (omega arith)))

  -- If memory suffices, file numbers are rising and not used up, a file on the disk that is not cached
  -- is read and linked at the end; the answer is the next number, and one block more than full ones.
  pub read_static_file_miss :
      (content : List ℕ) (c : Cache)
      → Missed w fname c.thecache
      → OnDisk w fname content
      → Rising 0 c.file_number c.thecache
      → c.file_number + 1 < 4294967296
      → read_static_file w fname c
        ≡ done (
          appended c (static_entry w (c.file_number + 1) fname content),
          some (c.file_number + 1, length content / segsize + 1),
        )
  unfolding new_entry
  read_static_file_miss content c m d r h = rw (
    read_static_file_miss_at content c.thecache c.file_number m d r h,
    length-layout (length content / segsize + 1) 0 content,
  )

  -- If the first cached entry of that name is not older than the disk's file, it is the answer; its
  -- statcheck and counter are updated, and nothing else changes.
  pub read_static_file_hit :
      (c : Cache) (seen : List Entry) (e : Entry) (es : List Entry)
      → c.thecache ≡ seen ++ e ∷ es
      → Missed w fname seen
      → scan_entry w fname e ≡ hit
      → read_static_file w fname c
        ≡ done (record c { thecache = seen ++ refreshed w e ∷ es }, some (e.filenum, e.num_blocks))
  unfolding read_static_file
  read_static_file_hit c [] e es q m s = rw (q, read_static_file, search_static_hit [] e es m s)
  read_static_file_hit c (x ∷ seen) e es q m s =
      rw (q, read_static_file, search_static_hit (x ∷ seen) e es m s)

  -- In a cache with rising file numbers, if the disk's file is newer than the first cached entry of
  -- that name, or gone, delete_file unlinks and frees this very entry, and the search goes on to
  -- read it, which is undefined.
  pub read_static_file_stale :
      (c : Cache) (seen : List Entry) (e : Entry) (es : List Entry)
      → c.thecache ≡ seen ++ e ∷ es
      → Rising 0 c.file_number c.thecache
      → Missed w fname seen
      → scan_entry w fname e ≡ stale
      → (delete_file e.filenum c.thecache ≡ seen ++ es) × (read_static_file w fname c ≡ fault)
  unfolding read_static_file
  read_static_file_stale c seen e es q r m s =
      let rise : Rising 0 c.file_number (seen ++ e ∷ es) = subst (Rising 0 c.file_number) q r in
      let own = find_entry-Rising c.file_number 0 seen e es rise in
      (
        ap (delete_file e.filenum) q ∙ delete_file-mid c.file_number 0 seen e es rise,
        ap (λ all. read_static_file w fname (record c { thecache = all })) q ∙ go seen m own s,
      )
    where
      go :
          (front : List Entry)
          → Missed w fname front
          → find_entry e.filenum front ≡ none
          → scan_entry w fname e ≡ stale
          → read_static_file w fname (record c { thecache = front ++ e ∷ es }) ≡ fault
      go [] m' own s' = rw (search_static_stale [] e es m' own s') refl
      go (x ∷ front) m' own s' = rw (search_static_stale (x ∷ front) e es m' own s') refl
