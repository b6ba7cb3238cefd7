-- ===== src/Tftp/DynamicDownload.antt =====
-- A modem's generated config file, from read_dynamic_file to the end of its transfer.
use docsis_server.Prelude.{
  ℕ, ◌+◌, ◌*◌, ◌/◌, ◌%◌, ◌<◌, ◌≡◌, refl, ap, sym, subst, true, none, some, List, [], ◌∷◌, length,
  arith, ne→==_false, done, fault,
}
use docsis_server.Tftp.Blocks.{segsize}
use docsis_server.Tftp.Blocks.Contents.{Roomy, layout, length-layout, dynamic_blocks-layout}
use docsis_server.Tftp.Cache.{
  Entry, Cache, World, Modem, load_dynamic, new_entry, next_number, get_new_dynamic_file,
  search_dynamic, read_dynamic_file,
}
use docsis_server.Tftp.Cache.Invariant.{Rising}
use docsis_server.Tftp.Cache.Lookup.{
  appended, find_entry-snoc, first_file-appended, later_file-appended,
}
use docsis_server.Tftp.Session.{Client, Stats, Outcome, Net, cp_sendfile, cp_done, st_init}
use docsis_server.Tftp.Session.Transfer.{Stores, converse, acks, received, transfer_completes}
use docsis_server.Tftp.Session.FullBlocks.{full_blocks_fault}
use docsis_server.Tftp.Download.{granted}

-- The generated file of a modem that is not cached yet.
pub record NewDynamic (w : World) (ip : ℕ) (m : Modem) (content : List ℕ) (c : Cache) : Type 0 where
  pub known : w.find_modem ip ≡ some m
  pub generated : w.gen_config m.ipaddr ≡ content
  pub nonempty : 0 < length content
  pub entry_room : w.entry_room ≡ true
  pub block_room : Roomy w.block_room
  pub uncached : search_dynamic m.dynamic_file c.thecache ≡ none
  pub rising : Rising 0 c.file_number c.thecache
  pub small : c.file_number + 1 < 4294967296

abbrev dynamic_entry : World → ℕ → Modem → List ℕ → Entry
dynamic_entry w num m content =
    new_entry w num none (some m.dynamic_file) (layout ((length content + 511) / segsize) 0 content)

load_dynamic-layout :
    (w : World) (ip : ℕ) (m : Modem) (content : List ℕ) (c : Cache)
    → NewDynamic w ip m content c
    → load_dynamic w m ≡ some (layout ((length content + 511) / segsize) 0 content)
unfolding load_dynamic
load_dynamic-layout w ip m content c d =
    rw
      (
        d.generated,
        load_dynamic,
        d.entry_room,
        ne→==_false (length content) 0 (omega (arith, d.nonempty)),
      )
      (dynamic_blocks-layout w.block_room (length content + 1) 0 ((length content + 511) / segsize)
        content d.block_room d.nonempty (omega arith) refl)

get_new_dynamic_file_lem :
    (w : World) (ip : ℕ) (m : Modem) (content : List ℕ) (c : Cache)
    → NewDynamic w ip m content c
    → get_new_dynamic_file w m c
      ≡ (appended c (dynamic_entry w (c.file_number + 1) m content), c.file_number + 1)
unfolding get_new_dynamic_file new_entry
get_new_dynamic_file_lem w ip m content c d =
    let e : next_number c.file_number ≡ c.file_number + 1 = omega (arith, d.small) in
    rw (load_dynamic-layout w ip m content c d, get_new_dynamic_file, e)

read_dynamic_at :
    (w : World) (ip : ℕ) (m : Modem) (content : List ℕ) (es : List Entry) (k : ℕ)
    → let c : Cache = record { thecache = es; file_number = k } in
      NewDynamic w ip m content c
      → let e : Entry = dynamic_entry w (k + 1) m content in
        read_dynamic_file w ip c ≡ done (appended c e, some (k + 1, e.num_blocks))
unfolding read_dynamic_file new_entry
read_dynamic_at w ip m content [] k d =
    rw
      (
        d.known,
        read_dynamic_file,
        get_new_dynamic_file_lem w ip m content (record { thecache = []; file_number = k }) d,
      )
      (first_file-appended (dynamic_entry w (k + 1) m content) (omega arith))
read_dynamic_at w ip m content (x ∷ es) k d =
    let c : Cache = record { thecache = x ∷ es; file_number = k } in
    rw (d.known, read_dynamic_file, d.uncached, get_new_dynamic_file_lem w ip m content c d)
      (ap done (later_file-appended c (dynamic_entry w (k + 1) m content) d.rising (omega arith)))

-- A modem's generated file is stored whole, in just as many blocks as its bytes fill.
pub read_dynamic_file-Stores :
    (w : World) (ip : ℕ) (m : Modem) (content : List ℕ) (c : Cache)
    → NewDynamic w ip m content c
    → (c' : Cache) × (num : ℕ) × (n : ℕ) × (read_dynamic_file w ip c ≡ done (c', some (num, n)))
      × (n ≡ (length content + 511) / segsize)
      × Stores c' num n content
unfolding new_entry
read_dynamic_file-Stores w ip m content c d =
    let e : Entry = dynamic_entry w (c.file_number + 1) m content in
    let count : ℕ = (length content + 511) / segsize in
    (
      appended c e,
      c.file_number + 1,
      e.num_blocks,
      read_dynamic_at w ip m content c.thecache c.file_number d,
      length-layout count 0 content,
      (
        e,
        find_entry-snoc 0 c.file_number c.thecache e d.rising (omega arith),
        ap (λ k. layout k 0 content) (sym (length-layout count 0 content)),
      ),
    )

-- If its size is no multiple of 512, a modem's generated file of fewer than 65536 blocks that is not
-- cached is generated, and a modem that acknowledges each block as it comes gets it whole, in order.
pub dynamic_download :
    (net : Net) (w w' : World) (ws : List World) (ip : ℕ) (m : Modem) (content : List ℕ) (c : Cache)
    (cl : Client) (st : Stats)
    → NewDynamic w ip m content c
    → 0 < length content % 512
    → net.sendto_ok ≡ true
    → cl.proc ≡ cp_sendfile
    → cl.state ≡ st_init
    → length ws ≡ length content / segsize + 1
    → length ws < 65536
    → (c' : Cache) × (num : ℕ) × (n : ℕ) × (o : Outcome) × (read_dynamic_file w ip c
        ≡ done (c', some (num, n)))
      × (converse net (granted cl num n) c' st ((w', none) ∷ acks 1 ws) ≡ done o)
      × (o.client.proc ≡ cp_done)
      × (received o.sends ≡ content)
dynamic_download net w w' ws ip m content c cl st d part up p s e small =
    let (c', num, n, read, count, stored) = read_dynamic_file-Stores w ip m content c d in
    let (o, run, over, sends, data_sent) =
      transfer_completes net content n ws w' (granted cl num n) c' st up (omega arith) (omega arith)
        p s refl stored (omega arith) in
    (c', num, n, o, read, run, over, data_sent)

-- If the size of the generated file is a multiple of 512, its transfer ends in undefined behaviour: if
-- the file is not cached, a modem that acknowledges each block as it comes makes the server read past
-- the end of a table.
pub full_dynamic_file_faults :
    (net : Net) (w w' : World) (ws : List World) (ip : ℕ) (m : Modem) (content : List ℕ) (n : ℕ)
    (c : Cache) (cl : Client) (st : Stats)
    → NewDynamic w ip m content c
    → length content ≡ 512 * n
    → net.sendto_ok ≡ true
    → cl.proc ≡ cp_sendfile
    → cl.state ≡ st_init
    → length ws ≡ n
    → (c' : Cache) × (num : ℕ) × (read_dynamic_file w ip c ≡ done (c', some (num, n)))
      × (converse net (granted cl num n) c' st ((w', none) ∷ acks 1 ws) ≡ fault)
full_dynamic_file_faults net w w' ws ip m content n c cl st d whole up p s e =
    let (c', num, n', read, count, stored) = read_dynamic_file-Stores w ip m content c d in
    let same : n' ≡ n = omega arith in
    (
      c',
      num,
      subst (λ k. read_dynamic_file w ip c ≡ done (c', some (num, k))) same read,
      full_blocks_fault net up content n whole ws w' (granted cl num n) c' st p s refl
          (subst (λ k. Stores c' num k content) same stored) (omega (arith, d.nonempty)) e,
    )
