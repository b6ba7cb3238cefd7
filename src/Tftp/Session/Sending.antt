-- ===== src/Tftp/Session/Sending.antt =====
-- One DATA packet: from the block in the cache to the datagram.
use docsis_server.Prelude.{
  ℕ, ◌+◌, ◌/◌, ◌%◌, ◌≤◌, ◌≡◌, true, some, List, [], ◌∷◌, length, arith, lt→ltb, ◌==◌, if◌then◌else◌,
  done,
}
use docsis_server.Tftp.Blocks.{make_block, find_block}
use docsis_server.Tftp.Blocks.Contents.{wire-make_block}
use docsis_server.Tftp.Cache.{Entry, Cache, World, find_entry, touch, read_block}
use docsis_server.Tftp.Session.{
  Client, Stats, Outcome, Net, Datagram, st_send, st_waitack, st_lastack, incr, deref, transmit,
  send, fetched, fetch,
}

pub find_entry-touch :
    (now num : ℕ) (e : Entry) (es : List Entry)
    → find_entry num es ≡ some e
    → find_entry num (touch now num es) ≡ some (record e { lastaccess = now })
unfolding find_entry touch
find_entry-touch now num e [] h = ground arith
find_entry-touch now num e (x ∷ es) h = ground (arith, find_entry-touch now num e es)

-- The cached file `num` holds the piece `part` as block `k`.
abbrev pub Holds : Cache → ℕ → ℕ → List ℕ → Type 0
Holds c num k part =
    (e : Entry) × (find_entry num c.thecache ≡ some e)
    × (find_block k e.thefile ≡ some (make_block k part))

abbrev pub touched : World → ℕ → Cache → Cache
touched w num c = record c { thecache = touch w.now num c.thecache }

pub Holds-touched :
    (w : World) (c : Cache) (num k : ℕ) (part : List ℕ)
    → Holds c num k part
    → Holds (touched w num c) num k part
Holds-touched w c num k part (e, found, holds) =
    (record e { lastaccess = w.now }, find_entry-touch w.now num e c.thecache found, holds)

read_block-Holds :
    (w : World) (c : Cache) (num k : ℕ) (part : List ℕ)
    → Holds c num k part
    → read_block w num k c ≡ (touched w num c, some (make_block k part))
unfolding read_block
read_block-Holds w c num k part (e, found, holds) = rw (found, read_block, holds)

pub deref-Holds :
    (c : Cache) (num k : ℕ) (part : List ℕ)
    → Holds c num k part
    → deref c (some (num, k)) ≡ done (make_block k part)
unfolding deref
deref-Holds c num k part (e, found, holds) = rw (found, deref, holds)

-- A DATA packet.
abbrev pub data_packet : ℕ → List ℕ → List ℕ
data_packet k part = 0 ∷ 3 ∷ k % 65536 / 256 ∷ k % 65536 % 256 ∷ part

abbrev pub datagram : Client → List ℕ → Datagram
datagram cl content = record { to_addr = cl.addr; to_port = cl.port; content = content }

-- The client once block `k` has been sent to it.
abbrev pub sent_client : ℕ → Client → ℕ → List ℕ → Client
sent_client now cl k part = record cl {
  dp = some (cl.fnum, k);
  dpcc = length part + 4;
  retries = 5;
  state = if length part + 4 == 516 then st_waitack else st_lastack;
  wakeup = now + 2;
}

abbrev pub sent_outcome : World → Client → ℕ → List ℕ → Cache → Stats → Outcome
sent_outcome w cl k part c st = record {
  client = sent_client w.now cl k part;
  cache = touched w cl.fnum c;
  stats = record st { sent = incr st.sent };
  sends = datagram cl (data_packet k part) ∷ [];
}

-- The client at the point where block `k` is to be read and sent to it.
abbrev pub ready : ℕ → Client → Client
ready k cl = record cl { block = k; state = st_send; wakeup = 0; retries = 6 }

module _ (net : Net) (w : World) where
  transmit-Holds :
      (cl : Client) (c : Cache) (st : Stats) (k : ℕ) (part : List ℕ)
      → net.sendto_ok ≡ true
      → Holds c cl.fnum k part
      → transmit net w.now
          (record cl { dp = some (cl.fnum, k); dpcc = length part + 4; retries = 5 })
          c
          st
        ≡ done (record {
          client = sent_client w.now cl k part;
          cache = c;
          stats = record st { sent = incr st.sent };
          sends = datagram cl (data_packet k part) ∷ [];
        })
  unfolding transmit
  transmit-Holds cl c st k part up holds =
      rw (deref-Holds c cl.fnum k part holds, transmit, up, wire-make_block k part)

  fetched-Holds :
      (cl : Client) (c : Cache) (st : Stats) (k : ℕ) (part : List ℕ)
      → net.sendto_ok ≡ true
      → length part ≤ 512
      → Holds c cl.fnum k part
      → fetched net w (ready k cl) c st (some (make_block k part))
        ≡ done (record {
          client = sent_client w.now (ready k cl) k part;
          cache = c;
          stats = record st { sent = incr st.sent };
          sends = datagram cl (data_packet k part) ∷ [];
        })
  unfolding fetched send make_block
  fetched-Holds cl c st k part up small holds =
      rw (lt→ltb (length part + 4) 2147483648 (omega arith))
        (transmit-Holds (ready k cl) c st k part up holds)

  -- A block that the cache holds is read and sent.
  pub fetch-Holds :
      (cl : Client) (c : Cache) (st : Stats) (k : ℕ) (part : List ℕ)
      → net.sendto_ok ≡ true
      → length part ≤ 512
      → Holds c cl.fnum k part
      → fetch net w (ready k cl) c st ≡ done (sent_outcome w (ready k cl) k part c st)
  unfolding fetch
  fetch-Holds cl c st k part up small holds = rw (read_block-Holds w c cl.fnum k part holds) (
      fetched-Holds cl (touched w cl.fnum c) st k part up small
        (Holds-touched w c cl.fnum k part holds))
