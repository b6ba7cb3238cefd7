-- ===== src/Tftp/Cache/Lookup.antt =====
-- read_static_file and get_new_file: serving a static file from memory or from the disk.
use docsis_server.Prelude.{
  ℕ, ◌+◌, ◌/◌, ◌<◌, ◌≡◌, refl, true, none, some, List, [], ◌∷◌, ◌++◌, length, arith, ==_refl,
  ne→==_false, done,
}
use docsis_server.Tftp.Blocks.{segsize}
use docsis_server.Tftp.Blocks.Contents.{Roomy, layout, static_blocks-layout}
use docsis_server.Tftp.Cache.{
  Entry, Cache, World, named, find_entry, blocks_of, new_entry, next_number, load_static,
  get_new_file, first_file, later_file,
}
use docsis_server.Tftp.Cache.Invariant.{Rising, Rising-le}
use docsis_server.Tftp.Cache.Kept.{All}

-- The block count of an entry is the length of its block list.
abbrev pub Counted : Entry → Type 0
Counted e = e.num_blocks ≡ length e.thefile

-- File numbers rise up to the last one given out, and block counts are right.
abbrev pub IsValid : Cache → Type 0
IsValid c = Rising 0 c.file_number c.thecache × All Counted c.thecache

-- The number names an entry of the cache for that file, with that many blocks.
abbrev pub Serves : List ℕ → Cache → ℕ → ℕ → Type 0
Serves fname c num n =
    (e : Entry) × (find_entry num c.thecache ≡ some e)
    × (named fname e.fname ≡ true)
    × (e.num_blocks ≡ n)

pub All-snoc :
    (P : Entry → Type 0) (es : List Entry) (e : Entry) → All P es → P e → All P (es ++ e ∷ [])
All-snoc P [] e a p = (p, tt)
All-snoc P (x ∷ es) e a p = (a.0, All-snoc P es e a.1 p)

pub Rising-snoc :
    (lo hi : ℕ) (es : List Entry) (e : Entry)
    → Rising lo hi es
    → hi < e.filenum
    → Rising lo e.filenum (es ++ e ∷ [])
Rising-snoc lo hi [] e r h = (omega arith, omega arith)
Rising-snoc lo hi (x ∷ es) e r h = (r.0, Rising-snoc x.filenum hi es e r.1 h)

pub find_entry-snoc :
    (lo hi : ℕ) (es : List Entry) (e : Entry)
    → Rising lo hi es
    → hi < e.filenum
    → find_entry e.filenum (es ++ e ∷ []) ≡ some e
unfolding find_entry
find_entry-snoc lo hi [] e r h = rw (==_refl e.filenum e.filenum refl)
find_entry-snoc lo hi (x ∷ es) e r h =
    ground (arith, Rising-le hi x.filenum es r.1, find_entry-snoc x.filenum hi es e r.1 h)

pub blocks_of-find_entry :
    (num : ℕ) (e : Entry) (es : List Entry)
    → find_entry num es ≡ some e
    → blocks_of num es ≡ e.num_blocks
unfolding find_entry blocks_of
blocks_of-find_entry num e [] h = cc
blocks_of-find_entry num e (x ∷ es) h = ground (arith, blocks_of-find_entry num e es)

-- The disk holds the file, and memory suffices for it.
abbrev pub OnDisk : World → List ℕ → List ℕ → Type 0
OnDisk w fname content =
    (w.contents fname ≡ some content) × (w.entry_room ≡ true) × Roomy w.block_room

pub load_static-layout :
    (w : World) (fname content : List ℕ)
    → OnDisk w fname content
    → load_static w fname ≡ some (layout (length content / segsize + 1) 0 content)
unfolding load_static
load_static-layout w fname content (read, room, rooms) =
    rw (read, load_static, room)
      (static_blocks-layout w.block_room (length content + 1) 0 (length content / segsize + 1)
        content rooms (omega arith) refl)

-- The entry that a read from the disk adds.
abbrev pub static_entry : World → ℕ → List ℕ → List ℕ → Entry
static_entry w num fname content =
    new_entry w num (some fname) none (layout (length content / segsize + 1) 0 content)

abbrev pub appended : Cache → Entry → Cache
appended c e = record { thecache = c.thecache ++ e ∷ []; file_number = e.filenum }

pub get_new_file_lem :
    (w : World) (fname content : List ℕ) (c : Cache)
    → OnDisk w fname content
    → c.file_number + 1 < 4294967296
    → get_new_file w fname c
      ≡ (appended c (static_entry w (c.file_number + 1) fname content), c.file_number + 1)
unfolding get_new_file new_entry
get_new_file_lem w fname content c d h =
    let e : next_number c.file_number ≡ c.file_number + 1 = omega arith in
    rw (load_static-layout w fname content d, get_new_file, e)

-- The count that is looked up after a file was read in.
pub first_file-appended :
    (e : Entry)
    → 0 < e.filenum
    → first_file (record { thecache = e ∷ []; file_number = e.filenum }, e.filenum)
      ≡ done (record { thecache = e ∷ []; file_number = e.filenum }, some (e.filenum, e.num_blocks))
first_file-appended e h = rw (ne→==_false e.filenum 0 (omega arith))

pub later_file-appended :
    (c : Cache) (e : Entry)
    → Rising 0 c.file_number c.thecache
    → c.file_number < e.filenum
    → later_file (appended c e, e.filenum) ≡ (appended c e, some (e.filenum, e.num_blocks))
later_file-appended c e r h = rw (
  ne→==_false e.filenum 0 (omega arith),
  blocks_of-find_entry e.filenum e (c.thecache ++ e ∷ [])
      (find_entry-snoc 0 c.file_number c.thecache e r h),
)
