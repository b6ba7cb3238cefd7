-- ===== src/Dhcp/ModemCache/Lookup.antt =====
-- The table of modems as a map from hardware addresses.
use docsis_server.Prelude.{
  ℕ, zero, suc, ◌<◌, ◌≡◌, inl, inr, refl, sym, Option, none, some, List, [], ◌∷◌, map, get_elem?,
  ◌==◌, if◌then◌else◌, arith, Option-cases, subst, option_split, Run, done, ◌>>=◌,
}
use docsis_server.Index.Position.{position, IsSorted, Above, find_index-position}
use docsis_server.Dhcp.Nets.{Message, lease_not_found}
use docsis_server.Dhcp.Database.{CacheRow, ModemCache, Dhcpd}
use docsis_server.Dhcp.ModemCache.{
  FoundMac, cached_entry, load_rows, my_find_mac_index, use_entry, search_cache,
}

-- The first entry of a modem, and its place.
unfoldable pub first_entry : ℕ → List ModemCache → Option (ℕ × ModemCache)
first_entry mac [] = none
first_entry mac (e ∷ es) =
    if e.b_macaddr == mac
    then some (0, e)
    else elim (first_entry mac es) [ none ↦ none | some (i, found) ↦ some (suc i, found) ]

-- The search of my_findMAC_CACHE, were the table searched from the front.
unfoldable pub search_front : Message → Dhcpd → Run FoundMac
search_front m d = elim (first_entry m.b_macaddr d.cache) [
  | none ↦ done (lease_not_found, m, d)
  | some (i, e) ↦ use_entry i e m d
]

abbrev pub keys : List ModemCache → List ℕ
keys cache = map ModemCache.b_macaddr cache

first_entry-none :
    (mac : ℕ) (cache : List ModemCache)
    → first_entry mac cache ≡ none
    → position mac (keys cache) ≡ none
unfolding first_entry position
first_entry-none mac [] h = refl
first_entry-none mac (e ∷ es) h = elim (Option-cases (first_entry mac es)) [
  | inl rest ↦ ground (arith, h, rest, first_entry-none mac es rest)
  | inr ((i, found), rest) ↦ ground (arith, h, rest)
]

first_entry-some :
    (mac : ℕ) (cache : List ModemCache) (i : ℕ) (e : ModemCache)
    → first_entry mac cache ≡ some (i, e)
    → (position mac (keys cache) ≡ some i) × (get_elem? cache i ≡ some e)
unfolding first_entry position
first_entry-some mac [] i e h = cc
first_entry-some mac (x ∷ es) zero e h = elim (Option-cases (first_entry mac es)) [
  | inl rest ↦ (ground (arith, h, rest), ground (arith, h, rest))
  | inr ((j, found), rest) ↦ (ground (arith, h, rest), ground (arith, h, rest))
]
first_entry-some mac (x ∷ es) (suc i) e h = elim (Option-cases (first_entry mac es)) [
  | inl rest ↦ absurd (ground (arith, h, rest))
  | inr ((j, found), rest) ↦
      let (place, there) = first_entry-some mac es j found rest in
      (ground (arith, h, rest, place), ground (arith, h, rest, there))
]

-- With the keys in ascending order, the search by halves leads to the entry that a search from the front
-- leads to, or to none where that finds none.
search_cache-search_front :
    (m : Message) (d : Dhcpd) → IsSorted (keys d.cache) → search_cache m d ≡ search_front m d
unfolding search_cache search_front my_find_mac_index
search_cache-search_front m d sorted =
    let looked = find_index-position (keys d.cache) m.b_macaddr sorted in
    elim (Option-cases (first_entry m.b_macaddr d.cache)) [
      | inl e ↦ rw (looked, first_entry-none m.b_macaddr d.cache e, e, search_front) refl
      | inr ((i, entry), e) ↦
          let (place, there) = first_entry-some m.b_macaddr d.cache i entry e in
          rw (looked, place, ◌>>=◌, there, e, search_front) refl
    ]

-- The rows stand in ascending order of their hardware addresses, as `order by modmac` gives them, and
-- each modem has one row.
abbrev pub RowsAbove : ℕ → List CacheRow → Type 0
RowsAbove low [] = Unit {0}
RowsAbove low (row ∷ rows) = ((mac : ℕ) → row.modmac ≡ some mac → low < mac) × RowsAbove low rows

abbrev pub InOrder : List CacheRow → Type 0
InOrder [] = Unit {0}
InOrder (row ∷ rows) = ((mac : ℕ) → row.modmac ≡ some mac → RowsAbove mac rows) × InOrder rows

cached_entry-modmac :
    (row : CacheRow) (e : ModemCache) → cached_entry row ≡ some e → row.modmac ≡ some e.b_macaddr
unfolding cached_entry
cached_entry-modmac row e h = elim (Option-cases row.modmac) [
  | inl missing ↦ ground (arith, h, missing)
  | inr (mac, given) ↦ elim (Option-cases row.ipaddr) [
    | inl missing ↦ ground (arith, h, given, missing)
    | inr (ip, also) ↦ ground (arith, h, given, also)
  ]
]

load_rows-Above :
    (low : ℕ) (rows : List CacheRow) → RowsAbove low rows → Above low (keys (load_rows rows))
unfolding load_rows
load_rows-Above low [] h = tt
load_rows-Above low (row ∷ rows) (a, h) =
    option_split (λ (es : List ModemCache). Above low (keys es)) (cached_entry row) (load_rows rows)
      (λ e. e ∷ load_rows rows) (λ o. load_rows-Above low rows h)
      (λ e o. (a e.b_macaddr (cached_entry-modmac row e o), load_rows-Above low rows h))

-- The table that my_MCACHE_Load makes of rows in order can be searched by halves.
pub load_rows-IsSorted : (rows : List CacheRow) → InOrder rows → IsSorted (keys (load_rows rows))
unfolding load_rows
load_rows-IsSorted [] h = tt
load_rows-IsSorted (row ∷ rows) (a, h) =
    option_split (λ (es : List ModemCache). IsSorted (keys es)) (cached_entry row) (load_rows rows)
      (λ e. e ∷ load_rows rows) (λ o. load_rows-IsSorted rows h)
      (λ e o. (
        load_rows-Above e.b_macaddr rows (a e.b_macaddr (cached_entry-modmac row e o)),
        load_rows-IsSorted rows h,
      ))

-- After a load from rows in ascending order, one for each modem, the search by halves of my_findMAC_CACHE
-- gives what a search of the loaded rows from the front gives.
pub search_cache-load_rows :
    (m : Message) (d : Dhcpd) (rows : List CacheRow)
    → InOrder rows
    → d.cache ≡ load_rows rows
    → search_cache m d ≡ search_front m d
search_cache-load_rows m d rows h e =
    search_cache-search_front m d
      (subst (λ (es : List ModemCache). IsSorted (keys es)) (sym e) (load_rows-IsSorted rows h))
