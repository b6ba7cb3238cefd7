-- ===== src/Tftp/Cache/Invariant.antt =====
-- File numbers rise along the cache, so a file number names one entry. Every operation keeps this.
use docsis_server.Prelude.{
  ℕ, ◌≤◌, ◌<◌, ◌≡◌, refl, ap, List, [], ◌∷◌, ◌++◌, arith, ==_refl, ne→==_false,
}
use docsis_server.Tftp.Cache.{Entry, delete_file}

-- The numbers rise from above `lo` and stay within `hi`.
abbrev pub Rising : ℕ → ℕ → List Entry → Type 0
Rising lo hi [] = lo ≤ hi
Rising lo hi (e ∷ es) = (lo < e.filenum) × Rising e.filenum hi es

module _ (hi : ℕ) where
  pub Rising-le : (lo : ℕ) (es : List Entry) → Rising lo hi es → lo ≤ hi
  Rising-le lo [] r = r
  Rising-le lo (e ∷ es) r = omega (arith, Rising-le e.filenum es r.1)

  pub Rising-mono : (lo m : ℕ) (es : List Entry) → m ≤ lo → Rising lo hi es → Rising m hi es
  Rising-mono lo m [] h r = omega arith
  Rising-mono lo m (e ∷ es) h r = (omega arith, r.1)

  pub Rising-delete_file :
      (lo num : ℕ) (es : List Entry) → Rising lo hi es → Rising lo hi (delete_file num es)
  unfolding delete_file
  Rising-delete_file lo num [] r = r
  Rising-delete_file lo num (e ∷ es) r = ground (
    arith,
    Rising-mono e.filenum lo es (omega arith) r.1,
    Rising-delete_file e.filenum num es r.1,
  )

  pub Rising-mid :
      (lo : ℕ) (seen : List Entry) (e : Entry) (rest : List Entry)
      → Rising lo hi (seen ++ e ∷ rest)
      → lo < e.filenum
  Rising-mid lo [] e rest r = r.0
  Rising-mid lo (s ∷ seen) e rest r = omega (arith, Rising-mid s.filenum seen e rest r.1)

  -- Deleting by an entry's number deletes that entry.
  pub delete_file-mid :
      (lo : ℕ) (seen : List Entry) (e : Entry) (rest : List Entry)
      → Rising lo hi (seen ++ e ∷ rest)
      → delete_file e.filenum (seen ++ e ∷ rest) ≡ seen ++ rest
  unfolding delete_file
  delete_file-mid lo [] e rest r = rw (==_refl e.filenum e.filenum refl)
  delete_file-mid lo (s ∷ seen) e rest r =
      let below : s.filenum < e.filenum = Rising-mid s.filenum seen e rest r.1 in
      rw (ne→==_false s.filenum e.filenum (omega arith))
        (ap (◌∷◌ s) (delete_file-mid s.filenum seen e rest r.1))

  -- An entry may be replaced by one of the same number.
  pub Rising-swap :
      (lo : ℕ) (seen : List Entry) (e e' : Entry) (rest : List Entry)
      → e'.filenum ≡ e.filenum
      → Rising lo hi (seen ++ e ∷ rest)
      → Rising lo hi (seen ++ e' ∷ rest)
  Rising-swap lo [] e e' rest same r = rw same r
  Rising-swap lo (s ∷ seen) e e' rest same r = (r.0, Rising-swap s.filenum seen e e' rest same r.1)

  pub Rising-remove :
      (lo : ℕ) (seen : List Entry) (e : Entry) (rest : List Entry)
      → Rising lo hi (seen ++ e ∷ rest)
      → Rising lo hi (seen ++ rest)
  Rising-remove lo [] e rest r = Rising-mono e.filenum lo rest (omega arith) r.1
  Rising-remove lo (s ∷ seen) e rest r = (r.0, Rising-remove s.filenum seen e rest r.1)
