-- ===== src/Tftp/Cache.antt =====
-- src/tftpd-file_cache.c: the list of files held in memory, and its operations.
pub mod Sweep
pub mod Kept
pub mod Expiry
pub mod Invariant
pub mod Lookup
pub mod StaticFile
pub mod Serving
use docsis_server.Prelude.{
  ℕ, zero, suc, ◌+◌, ◌*◌, ◌%◌, Bool, true, false, Option, none, some, List, [], ◌∷◌, ◌++◌, length,
  ltb, ◌==◌, if◌then◌else◌, Run, done, fault, ◌>>=◌, str_eq,
}
use docsis_server.Tftp.Blocks.{Block, static_blocks, dynamic_blocks, find_block}

-- struct file_cache without its links: the cache is the list of its entries, oldest first.
-- A name that is NULL is `none`.
pub record Entry : Type 0 where
  pub filenum : ℕ
  pub fname : Option (List ℕ)
  pub dyn_fname : Option (List ℕ)
  pub num_blocks : ℕ
  pub counter : ℕ
  pub readtime : ℕ
  pub statcheck : ℕ
  pub lastaccess : ℕ
  pub thefile : List Block

-- The globals `thecache` and `file_number`.
pub record Cache : Type 0 where
  pub thecache : List Entry
  pub file_number : ℕ

-- The fields of ModemSettings that the cache reads.
pub record Modem : Type 0 where
  pub ipaddr : ℕ
  pub dynamic_file : List ℕ

-- What the operations ask of the world while one of them runs: the clock, stat's mtime, the bytes
-- behind fopen and fread, whether calloc succeeds, the modem's settings and its generated config
-- file, whether the database has new configs, and the two limits read from the config file.
pub record World : Type 0 where
  pub now : ℕ
  pub mtime : List ℕ → Option ℕ
  pub contents : List ℕ → Option (List ℕ)
  pub entry_room : Bool
  pub block_room : ℕ → Bool
  pub find_modem : ℕ → Option Modem
  pub gen_config : ℕ → List ℕ
  pub new_configs : Bool
  pub cache_time : ℕ
  pub dynam_time : ℕ

-- delete_file unlinks the first entry with that number.
unfoldable pub delete_file : ℕ → List Entry → List Entry
delete_file num [] = []
delete_file num (e ∷ es) = if e.filenum == num then es else e ∷ delete_file num es

unfoldable pub find_entry : ℕ → List Entry → Option Entry
find_entry num [] = none
find_entry num (e ∷ es) = if e.filenum == num then some e else find_entry num es

unfoldable pub touch : ℕ → ℕ → List Entry → List Entry
touch now num [] = []
touch now num (e ∷ es) =
    if e.filenum == num then record e { lastaccess = now } ∷ es else e ∷ touch now num es

-- read_block: the block, or `none` for -1. Finding the file counts as an access.
unfoldable pub read_block : World → ℕ → ℕ → Cache → Cache × Option Block
read_block w filenum blocknum c = elim (find_entry filenum c.thecache) [
  | none ↦ (c, none)
  | some e ↦ (record c { thecache = touch w.now filenum c.thecache }, find_block blocknum e.thefile)
]

-- The entry that get_new_file and get_new_dynamic_file link at the end of the list.
unfoldable pub new_entry : World → ℕ → Option (List ℕ) → Option (List ℕ) → List Block → Entry
new_entry w num fname dyn_fname blocks = record {
  filenum = num;
  fname = fname;
  dyn_fname = dyn_fname;
  num_blocks = length blocks;
  counter = 1;
  readtime = w.now;
  statcheck = w.now;
  lastaccess = w.now;
  thefile = blocks;
}

-- `file_number++` on a u_int32_t.
abbrev pub next_number : ℕ → ℕ
next_number n = (n + 1) % 4294967296

abbrev pub link : Cache → ℕ → Option Entry → Cache × ℕ
link c num none = (record c { file_number = num }, 0)
link c num (some e) = (record { thecache = c.thecache ++ e ∷ []; file_number = num }, num)

-- The blocks that get_new_file reads, or `none` where it returns 0.
unfoldable pub load_static : World → List ℕ → Option (List Block)
load_static w fname = elim (w.contents fname) [
  | none ↦ none
  | some content ↦
      if w.entry_room then static_blocks w.block_room (length content + 1) 0 content else none
]

unfoldable pub get_new_file : World → List ℕ → Cache → Cache × ℕ
get_new_file w fname c =
    let num = next_number c.file_number in
    elim (load_static w fname) [
      | none ↦ link c num none
      | some blocks ↦ link c num (some (new_entry w num (some fname) none blocks))
    ]

unfoldable pub load_dynamic : World → Modem → Option (List Block)
load_dynamic w m =
    let content = w.gen_config m.ipaddr in
    if w.entry_room
    then (if length content == 0
        then none
        else dynamic_blocks w.block_room (length content + 1) 0 content)
    else none

unfoldable pub get_new_dynamic_file : World → Modem → Cache → Cache × ℕ
get_new_dynamic_file w m c =
    let num = next_number c.file_number in
    elim (load_dynamic w m) [
      | none ↦ link c num none
      | some blocks ↦ link c num (some (new_entry w num none (some m.dynamic_file) blocks))
    ]

-- `*num_blocks = thecache->num_blocks` after the first file was read into an empty cache.
abbrev pub head_blocks : List Entry → Run ℕ
head_blocks [] = fault
head_blocks (e ∷ es) = done e.num_blocks

-- The last loop of read_static_file and read_dynamic_file, entered with `*num_blocks = 1`.
unfoldable pub blocks_of : ℕ → List Entry → ℕ
blocks_of num [] = 1
blocks_of num (e ∷ es) = if e.filenum == num then e.num_blocks else blocks_of num es

abbrev pub Found : Type 0
Found = Option (ℕ × ℕ)

-- A file just read into an empty cache.
abbrev pub first_file : Cache × ℕ → Run (Cache × Found)
first_file (c, num) =
    if num == 0 then done (c, none) else head_blocks c.thecache >>= λ n. done (c, some (num, n))

-- A file just read behind others.
abbrev pub later_file : Cache × ℕ → Cache × Found
later_file (c, num) = if num == 0 then (c, none) else (c, some (num, blocks_of num c.thecache))

pub data Scan : Type 0 where
  miss hit stale : Scan

abbrev pub named : List ℕ → Option (List ℕ) → Bool
named fname none = false
named fname (some name) = str_eq fname name

-- The body of read_static_file's search loop at one entry.
unfoldable pub scan_entry : World → List ℕ → Entry → Scan
scan_entry w fname e =
    if named fname e.fname
    then (elim (w.mtime fname) [ none ↦ stale | some m ↦ if ltb e.readtime m then stale else hit ])
    else miss

-- The entries before `p` after delete_file( p->filenum ): `none` if the entry that it frees is `p`.
unfoldable pub cut_before : ℕ → List Entry → Option (List Entry)
cut_before num before = elim (find_entry num before) [
  | none ↦ none
  | some e ↦ some (delete_file num before)
]

-- The search from `p` on, behind the entries `before`: the whole list afterwards. Where the entry is
-- stale, delete_file( p->filenum ) is called, and the code then reads `p`, which is undefined if `p` was
-- freed, and compares it with `fst`, which is not set if stat failed.
unfoldable pub search_static : World → List ℕ → List Entry → List Entry → Run (List Entry × Found)
search_static w fname before [] = done (before, none)
search_static w fname before (e ∷ es) =
    let checked : Entry = record e { statcheck = w.now } in
    let rest = search_static w fname (before ++ e ∷ []) es in
    let later = λ (left : List Entry). search_static w fname (left ++ checked ∷ []) es in
    elim (scan_entry w fname e) [
      | miss ↦ rest
      | hit ↦ done (
        before ++ record e { statcheck = w.now; counter = e.counter + 1 } ∷ es,
        some (e.filenum, e.num_blocks),
      )
      | stale ↦ elim (cut_before e.filenum before) [
        | none ↦ fault
        | some left ↦ elim (w.mtime fname) [ none ↦ fault | some m ↦ later left ]
      ]
    ]

unfoldable pub read_miss : World → List ℕ → Cache → List Entry × Found → Run (Cache × Found)
read_miss w fname c (es, some r) = done (record c { thecache = es }, some r)
read_miss w fname c (es, none) =
    done (later_file (get_new_file w fname (record c { thecache = es })))

-- read_static_file: the file number and block count, or `none` for -1.
unfoldable pub read_static_file : World → List ℕ → Cache → Run (Cache × Found)
unfolding search_static read_miss scan_entry
read_static_file w fname c = elim c.thecache [
  | [] ↦ first_file (get_new_file w fname c)
  | e ∷ es ↦ search_static w fname [] (e ∷ es) >>= read_miss w fname c
]

-- read_dynamic_file's search loop.
unfoldable pub search_dynamic : List ℕ → List Entry → Option (List Entry × (ℕ × ℕ))
search_dynamic name [] = none
search_dynamic name (e ∷ es) =
    let rest = search_dynamic name es in
    if named name e.dyn_fname
    then some (record e { counter = e.counter + 1 } ∷ es, (e.filenum, e.num_blocks))
    else (elim rest [ none ↦ none | some (es', r) ↦ some (e ∷ es', r) ])

unfoldable pub read_dynamic_file : World → ℕ → Cache → Run (Cache × Found)
read_dynamic_file w ip c = elim (w.find_modem ip) [
  | none ↦ done (c, none)
  | some m ↦ elim c.thecache [
    | [] ↦ first_file (get_new_dynamic_file w m c)
    | e ∷ es ↦ elim (search_dynamic m.dynamic_file (e ∷ es)) [
      | none ↦ done (later_file (get_new_dynamic_file w m c))
      | some (es', r) ↦ done (record c { thecache = es' }, some r)
    ]
  ]
]

-- What one round of a clean-up loop does with an entry: leave it (updated), or delete it.
pub data Verdict : Type 0 where
  keep : Entry → Verdict
  drop_it : Verdict

unfoldable pub restart : List Entry → List Entry × List Entry
restart [] = ([], [])
restart (e ∷ es) = (e ∷ [], es)

-- The two loops of free_file_cache: `seen ++ at` is the cache and `fc` stands at the head of `at`.
-- After a deletion `fc = thecache`, and the loop's `fc = fc->next` passes over the first entry.
unfoldable pub sweep : (Entry → Verdict) → ℕ → List Entry → List Entry → Option (List Entry)
sweep verdict zero seen at = none
sweep verdict (suc fuel) seen [] = some seen
sweep verdict (suc fuel) seen (e ∷ at) = elim (verdict e) [
  | keep e' ↦ sweep verdict fuel (seen ++ e' ∷ []) at
  | drop_it ↦
      let (seen', at') = restart (delete_file e.filenum (seen ++ e ∷ at)) in
      sweep verdict fuel seen' at'
]

-- The loop that follows a change of the configs in the database.
unfoldable pub drop_dynamic : Entry → Verdict
drop_dynamic e = elim e.dyn_fname [ none ↦ keep e | some _ ↦ drop_it ]

unfoldable pub drop_idle : World → Entry → Verdict
drop_idle w e = if ltb (e.lastaccess + w.cache_time) w.now then drop_it else keep e

-- The check of a static file whose last stat is older than three minutes.
unfoldable pub restat : World → List ℕ → Entry → Verdict
restat w name e =
    if ltb (e.statcheck + 180) w.now
    then (elim (w.mtime name) [
      | none ↦ drop_it
      | some m ↦ if ltb e.readtime m then drop_it else drop_idle w (record e { statcheck = w.now })
    ])
    else drop_idle w e

-- The loop that runs each time.
unfoldable pub drop_old : World → Entry → Verdict
drop_old w e = elim e.fname [
  | none ↦ if ltb (e.readtime + w.dynam_time) w.now then drop_it else keep e
  | some name ↦ restat w name e
]

-- More than enough rounds for a loop over `n` entries.
abbrev pub rounds : ℕ → ℕ
rounds n = n * n + n + 1

unfoldable pub sweep_all : (Entry → Verdict) → List Entry → Option (List Entry)
sweep_all verdict es = sweep verdict (rounds (length es)) [] es

unfoldable pub free_file_cache : World → Cache → Option Cache
free_file_cache w c =
    let fresh = if w.new_configs then sweep_all drop_dynamic c.thecache else some c.thecache in
    elim fresh [
      | none ↦ none
      | some es ↦ elim (sweep_all (drop_old w) es) [
        | none ↦ none
        | some es' ↦ some (record c { thecache = es' })
      ]
    ]
