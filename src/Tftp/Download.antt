-- ===== src/Tftp/Download.antt =====
-- From the request to the end of the transfer: validate_access's file, read into the cache, and sent.
use docsis_server.Prelude.{
  ℕ, ◌+◌, ◌/◌, ◌<◌, ◌≡◌, refl, ap, sym, true, none, some, List, ◌∷◌, length, arith, done,
}
use docsis_server.Tftp.Blocks.{segsize}
use docsis_server.Tftp.Blocks.Contents.{layout, length-layout}
use docsis_server.Tftp.Cache.{Entry, Cache, World, new_entry, read_static_file}
use docsis_server.Tftp.Cache.Invariant.{Rising}
use docsis_server.Tftp.Cache.Lookup.{OnDisk, static_entry, appended, find_entry-snoc}
use docsis_server.Tftp.Cache.StaticFile.{Missed, read_static_file_miss_at}
use docsis_server.Tftp.Session.{Client, Stats, Outcome, Net, cp_sendfile, cp_done, st_init}
use docsis_server.Tftp.Session.Transfer.{Stores, converse, acks, received, transfer_completes}

-- A file that is not cached is read from the disk and stored whole, with the count of its blocks.
pub read_static_file-Stores :
    (w : World) (fname content : List ℕ) (c : Cache)
    → Missed w fname c.thecache
    → OnDisk w fname content
    → Rising 0 c.file_number c.thecache
    → c.file_number + 1 < 4294967296
    → (c' : Cache) × (num : ℕ) × (n : ℕ) × (read_static_file w fname c ≡ done (c', some (num, n)))
      × (n ≡ length content / segsize + 1)
      × Stores c' num n content
unfolding new_entry
read_static_file-Stores w fname content c m d r h =
    let e : Entry = static_entry w (c.file_number + 1) fname content in
    (
      appended c e,
      c.file_number + 1,
      e.num_blocks,
      read_static_file_miss_at w fname content c.thecache c.file_number m d r h,
      length-layout (length content / segsize + 1) 0 content,
      (
        e,
        find_entry-snoc 0 c.file_number c.thecache e r (omega arith),
        ap (λ k. layout k 0 content) (sym (length-layout (length content / segsize + 1) 0 content)),
      ),
    )

-- The client after validate_access has found its file.
abbrev pub granted : Client → ℕ → ℕ → Client
granted cl num n = record cl { fnum = num; maxb = n }

-- A file that is on the disk and not cached, of fewer than 65536 blocks, is read, and if sendto works a
-- client that acknowledges each block as it comes gets it whole and in order.
pub static_download :
    (net : Net) (w w' : World) (ws : List World) (fname content : List ℕ) (c : Cache) (cl : Client)
    (st : Stats)
    → Missed w fname c.thecache
    → OnDisk w fname content
    → Rising 0 c.file_number c.thecache
    → c.file_number + 1 < 4294967296
    → net.sendto_ok ≡ true
    → cl.proc ≡ cp_sendfile
    → cl.state ≡ st_init
    → length ws ≡ length content / segsize + 1
    → length ws < 65536
    → (c' : Cache) × (num : ℕ) × (n : ℕ) × (o : Outcome) × (read_static_file w fname c
        ≡ done (c', some (num, n)))
      × (converse net (granted cl num n) c' st ((w', none) ∷ acks 1 ws) ≡ done o)
      × (o.client.proc ≡ cp_done)
      × (received o.sends ≡ content)
static_download net w w' ws fname content c cl st m d r h up p s e small =
    let (c', num, n, read, count, stored) = read_static_file-Stores w fname content c m d r h in
    let (o, run, over, sends, data_sent) =
      transfer_completes net content n ws w' (granted cl num n) c' st up count (omega arith) p s
        refl stored (omega arith) in
    (c', num, n, o, read, run, over, data_sent)
