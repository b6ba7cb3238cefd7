-- ===== src/Tests/TftpCache.antt =====
-- The file cache at concrete inputs.
use docsis_server.Prelude.{
  ℕ, ◌≡◌, refl, inr, true, false, Option, none, some, List, [], ◌∷◌, replicate, arith, str_eq, done,
  fault, bytes,
}
use docsis_server.Tftp.Blocks.{static_blocks, make_block}
use docsis_server.Tftp.Blocks.Contents.{layout}
use docsis_server.Tftp.Cache.{
  Entry, Cache, World, hit, stale, scan_entry, find_entry, delete_file, read_static_file, sweep,
  sweep_all, restart, drop_dynamic, drop_old, drop_idle, restat, free_file_cache,
}
use docsis_server.Tftp.Cache.Kept.{Behind, All}
use docsis_server.Tftp.Cache.Expiry.{
  Recent, IsStatic, free_file_cache-Recent, free_file_cache_keeps, free_file_cache_drops_dynamic,
}
use docsis_server.Tftp.Cache.Invariant.{Rising}
use docsis_server.Tftp.Cache.Lookup.{IsValid, Serves, OnDisk, static_entry, appended}
use docsis_server.Tftp.Cache.StaticFile.{
  refreshed, read_static_file_hit, read_static_file_miss, read_static_file_stale,
}
use docsis_server.Tftp.Cache.Serving.{read_static_file-Serves}

abbrev config_name : List ℕ
config_name = bytes "modem.cfg"

-- It is noon, the disk holds one file of 600 bytes written at 10, and the configs have changed.
abbrev noon : World
noon = record {
  now = 12000;
  mtime = λ name. if_config name (some 10000);
  contents = λ name. some (replicate 600 7);
  entry_room = true;
  block_room = λ n. true;
  find_modem = λ ip. some (record { ipaddr = ip; dynamic_file = bytes "1,2,3" });
  gen_config = λ ip. replicate 512 9;
  new_configs = true;
  cache_time = 3600;
  dynam_time = 3600;
}
  where
    if_config : List ℕ → Option ℕ → Option ℕ
    if_config name found = elim (str_eq name (bytes "modem.cfg")) [ true ↦ found | false ↦ none ]

-- An entry with that number and those names, read at that time.
abbrev entry : ℕ → Option (List ℕ) → Option (List ℕ) → ℕ → Entry
entry num fname dyn_fname read = record {
  filenum = num;
  fname = fname;
  dyn_fname = dyn_fname;
  num_blocks = 1;
  counter = 1;
  readtime = read;
  statcheck = read;
  lastaccess = read;
  thefile = make_block 1 [] ∷ [];
}

abbrev fresh_static : Entry
fresh_static = entry 1 (some config_name) none 11990

abbrev old_static : Entry
old_static = entry 1 (some config_name) none 9000

abbrev first_dynamic : Entry
first_dynamic = entry 1 none (some (bytes "1,2,3")) 11000

abbrev second_dynamic : Entry
second_dynamic = entry 2 none (some (bytes "4,5")) 11500

abbrev cache_of : List Entry → Cache
cache_of es = record { thecache = es; file_number = 2 }

-- A file of 600 bytes is two blocks, the second one short.
two_blocks : static_blocks (λ n. true) 601 0 (replicate 600 7) ≡ some (layout 2 0 (replicate 600 7))
unfolding static_blocks layout
two_blocks = refl

-- Both dynamic files are out of date, and the second one stays.
one_survives :
    free_file_cache noon (cache_of (first_dynamic ∷ second_dynamic ∷ []))
    ≡ some (cache_of (second_dynamic ∷ []))
unfolding free_file_cache sweep_all sweep restart delete_file drop_dynamic drop_old drop_idle restat
one_survives = refl

free_file_cache-Recent_example :
    (c' : Cache) × (free_file_cache noon (cache_of (fresh_static ∷ second_dynamic ∷ [])) ≡ some c')
    × Behind (Recent noon) c'.thecache
    × Rising 0 2 c'.thecache
free_file_cache-Recent_example =
    free_file_cache-Recent noon (cache_of (fresh_static ∷ second_dynamic ∷ [])) 2 (omega arith)

fresh_found : find_entry 1 (fresh_static ∷ second_dynamic ∷ []) ≡ some fresh_static
unfolding find_entry
fresh_found = refl

free_file_cache_keeps_example :
    (c' : Cache) × (free_file_cache noon (cache_of (fresh_static ∷ second_dynamic ∷ [])) ≡ some c')
    × (find_entry 1 c'.thecache ≡ some fresh_static)
free_file_cache_keeps_example =
    free_file_cache_keeps noon (cache_of (fresh_static ∷ second_dynamic ∷ [])) 2 1 fresh_static
      (omega arith) fresh_found (omega arith) (inr refl)

free_file_cache_drops_dynamic_example :
    (c' : Cache) × (free_file_cache noon (cache_of (fresh_static ∷ second_dynamic ∷ [])) ≡ some c')
    × All IsStatic c'.thecache
free_file_cache_drops_dynamic_example =
    free_file_cache_drops_dynamic noon fresh_static (second_dynamic ∷ []) 2 2 (omega arith) refl
      refl

on_disk : OnDisk noon config_name (replicate 600 7)
on_disk = (refl, refl, λ n. refl)

read_static_file_miss_example :
    read_static_file noon config_name (cache_of [])
    ≡ done (appended (cache_of []) (static_entry noon 3 config_name (replicate 600 7)), some (3, 2))
read_static_file_miss_example =
    read_static_file_miss noon config_name (replicate 600 7) (cache_of []) tt on_disk (omega arith)
      (omega arith)

fresh_hit : scan_entry noon config_name fresh_static ≡ hit
unfolding scan_entry str_eq
fresh_hit = refl

old_stale : scan_entry noon config_name old_static ≡ stale
unfolding scan_entry str_eq
old_stale = refl

read_static_file_hit_example :
    read_static_file noon config_name (cache_of (fresh_static ∷ []))
    ≡ done (cache_of (refreshed noon fresh_static ∷ []), some (1, 1))
read_static_file_hit_example =
    read_static_file_hit noon config_name (cache_of (fresh_static ∷ [])) [] fresh_static [] refl tt
      fresh_hit

read_static_file_stale_example :
    (delete_file old_static.filenum (old_static ∷ []) ≡ [])
    × (read_static_file noon config_name (cache_of (old_static ∷ [])) ≡ fault)
read_static_file_stale_example =
    read_static_file_stale noon config_name (cache_of (old_static ∷ [])) [] old_static [] refl
      (omega arith, omega arith) tt old_stale

fresh_IsValid : IsValid (cache_of (fresh_static ∷ []))
unfolding make_block
fresh_IsValid = (omega arith, (refl, tt))

read_static_file-Serves_example :
    (c' : Cache) × (num : ℕ) × (n : ℕ) × (read_static_file noon config_name
        (cache_of (fresh_static ∷ []))
      ≡ done (c', some (num, n)))
    × Serves config_name c' num n
    × IsValid c'
unfolding scan_entry str_eq
read_static_file-Serves_example =
    read_static_file-Serves noon config_name (replicate 600 7) (cache_of (fresh_static ∷ []))
      fresh_IsValid (λ e. cc, tt) on_disk (omega arith)
