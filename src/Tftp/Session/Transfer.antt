-- ===== src/Tftp/Session/Transfer.antt =====
-- A whole transfer: the client acknowledges each block, and gets the file.
use docsis_server.Prelude.{
  ℕ, zero, suc, ◌+◌, ◌*◌, ◌/◌, ◌≤◌, ◌<◌, ◌≡◌, refl, ap, subst, ◌∙◌, true, Option, none, some, List,
  [], ◌∷◌, ◌++◌, length, drop, arith, length-drop, ==_refl, ne→==_false, Run, done, fault, ◌>>=◌,
  take-append-drop, ◌==◌, if◌then◌else◌,
}
use docsis_server.Tftp.Blocks.{segsize}
use docsis_server.Tftp.Blocks.Contents.{chunk, layout, find_block-layout, length-chunk}
use docsis_server.Tftp.Cache.{Entry, Cache, World, find_entry}
use docsis_server.Tftp.Session.{
  Client, Stats, Outcome, Net, Datagram, cp_sendfile, cp_done, st_init, st_waitack, st_lastack,
  my_sendfile, quiet,
}
use docsis_server.Tftp.Session.Sending.{
  Holds, touched, find_entry-touch, data_packet, sent_outcome, ready,
}
use docsis_server.Tftp.Session.Steps.{
  ack_packet, hears, my_sendfile-init, my_sendfile-next, my_sendfile-last,
}

-- One call of my_sendfile: the world at that time, and the packet that was received, if any.
abbrev pub Turn : Type 0
Turn = World × Option (List ℕ)

abbrev pub after_sends : List Datagram → Run Outcome → Run Outcome
after_sends out r = r >>= λ o. done (record o { sends = out ++ o.sends })

-- The calls of my_sendfile that runclient makes; it makes none once the client's `proc` has changed.
unfoldable pub converse : Net → Client → Cache → Stats → List Turn → Run Outcome
converse net cl c st [] = done (quiet cl c st)
converse net cl c st ((w, packet) ∷ turns) = elim cl.proc [
  | cp_sendfile ↦ my_sendfile net w (hears packet cl) c st >>= λ o.
      after_sends o.sends (converse net o.client o.cache o.stats turns)
  | _ ↦ fault
]

-- The acknowledgements of block `k` and those that follow it.
abbrev pub acks : ℕ → List World → List Turn
acks k [] = []
acks k (w ∷ ws) = (w, some (ack_packet k)) ∷ acks (suc k) ws

-- The DATA packets of `m` blocks of a file, from piece `i` on.
unfoldable pub datagrams : ℕ → ℕ → ℕ → ℕ → List ℕ → List Datagram
datagrams addr port i zero content = []
datagrams addr port i (suc m) content =
    record { to_addr = addr; to_port = port; content = data_packet (suc i) (chunk content i) }
    ∷ datagrams addr port (suc i) m content

-- The cached file `num` is made of the `n` blocks of `content`.
abbrev pub Stores : Cache → ℕ → ℕ → List ℕ → Type 0
Stores c num n content =
    (e : Entry) × (find_entry num c.thecache ≡ some e) × (e.thefile ≡ layout n 0 content)

Stores-touched :
    (w : World) (c : Cache) (num n : ℕ) (content : List ℕ)
    → Stores c num n content
    → Stores (touched w num c) num n content
Stores-touched w c num n content (e, found, blocks) =
    (record e { lastaccess = w.now }, find_entry-touch w.now num e c.thecache found, blocks)

pub Stores-Holds :
    (c : Cache) (num n i k : ℕ) (content : List ℕ)
    → i < n
    → k ≡ suc i
    → Stores c num n content
    → Holds c num k (chunk content i)
Stores-Holds c num n i k content h e (x, found, blocks) =
    (x, found, rw blocks (find_block-layout n 0 i k content (omega arith) h))

pub full_state : (n : ℕ) → n ≡ 512 → (if n + 4 == 516 then st_waitack else st_lastack) ≡ st_waitack
full_state n h = rw (==_refl (n + 4) 516 (omega arith))

short_state : (n : ℕ) → n < 512 → (if n + 4 == 516 then st_waitack else st_lastack) ≡ st_lastack
short_state n h = rw (ne→==_false (n + 4) 516 (omega arith))

pub chunk_le : (content : List ℕ) (i : ℕ) → length (chunk content i) ≤ 512
chunk_le content i = omega (arith, length-chunk i content)

pub step_on :
    (net : Net) (cl : Client) (c : Cache) (st : Stats) (w : World) (packet : Option (List ℕ))
    (o : Outcome) (turns : List Turn)
    → cl.proc ≡ cp_sendfile
    → my_sendfile net w (hears packet cl) c st ≡ done o
    → converse net cl c st ((w, packet) ∷ turns)
      ≡ after_sends o.sends (converse net o.client o.cache o.stats turns)
unfolding converse
step_on net cl c st w packet o turns p e = rw (p, converse, e)

-- The run ends the session, having sent `m` more blocks from piece `i` on.
abbrev pub Finishes : Client → ℕ → ℕ → List ℕ → Run Outcome → Type 0
Finishes cl i m content r =
    (o : Outcome) × (r ≡ done o)
    × (o.client.proc ≡ cp_done)
    × (o.sends ≡ datagrams cl.addr cl.port i m content)

-- The client is served the file `content`, cut into `n` blocks, and was last sent piece `i`.
pub record AtPiece (cl : Client) (c : Cache) (n i : ℕ) (content : List ℕ) : Type 0 where
  pub serving : cl.proc ≡ cp_sendfile
  pub blocks : cl.maxb ≡ n
  pub state : cl.state ≡ (if length (chunk content i) + 4 == 516 then st_waitack else st_lastack)
  pub stored : Stores c cl.fnum n content

-- One more block is sent, after the first of the turns; the rest follows.
Finishes-step :
    (net : Net) (cl cl' : Client) (c : Cache) (st : Stats) (w : World) (packet : Option (List ℕ))
    (i m : ℕ) (content : List ℕ) (turns : List Turn)
    → cl.proc ≡ cp_sendfile
    → (cl'.addr ≡ cl.addr) × (cl'.port ≡ cl.port)
    → my_sendfile net w (hears packet cl) c st
      ≡ done (sent_outcome w (ready (suc i) cl') (suc i) (chunk content i) c st)
    → (let o : Outcome = sent_outcome w (ready (suc i) cl') (suc i) (chunk content i) c st in
        Finishes cl (suc i) m content (converse net o.client o.cache o.stats turns))
    → Finishes cl i (suc m) content (converse net cl c st ((w, packet) ∷ turns))
unfolding datagrams
Finishes-step net cl cl' c st w packet i m content turns p same e (o, run, finished, sends) = (
  record o {
    sends =
        record {
          to_addr = cl'.addr;
          to_port = cl'.port;
          content = data_packet (suc i) (chunk content i);
        }
        ∷ o.sends;
  },
  rw (step_on net cl c st w packet _ turns p e, run),
  finished,
  ground (arith, same, sends),
)

-- The client as it is right after a block was sent to it.
pub sent-AtPiece :
    (w : World) (cl : Client) (c : Cache) (st : Stats) (n i : ℕ) (content : List ℕ)
    → cl.proc ≡ cp_sendfile
    → cl.maxb ≡ n
    → Stores c cl.fnum n content
    → let o : Outcome = sent_outcome w (ready (suc i) cl) (suc i) (chunk content i) c st in
      AtPiece o.client o.cache n i content
sent-AtPiece w cl c st n i content p b s = record {
  serving = p;
  blocks = b;
  state = refl;
  stored = Stores-touched w c cl.fnum n content s;
}

module _ (net : Net) (up : net.sendto_ok ≡ true) (content : List ℕ) (n : ℕ)
    (count : n ≡ length content / segsize + 1) where
  rest_of_transfer :
      (ws : List World) (w : World) (i : ℕ) (cl : Client) (c : Cache) (st : Stats)
      → i + suc (length ws) ≡ n
      → AtPiece cl c n i content
      → Finishes cl (suc i) (length ws) content (converse net cl c st (acks (suc i) (w ∷ ws)))
  unfolding converse datagrams
  rest_of_transfer [] w i cl c st e at =
      let short : length (chunk content i) < 512 = omega (arith, length-chunk i content) in
      let state = at.state ∙ short_state (length (chunk content i)) short in
      let over = my_sendfile-last net w cl c st (suc i) state (omega (arith, at.blocks)) in
      (_, step_on net cl c st w (some (ack_packet (suc i))) _ [] at.serving over, refl, refl)
  rest_of_transfer (w' ∷ ws) w i cl c st e at =
      let full : length (chunk content i) ≡ 512 = omega (arith, length-chunk i content) in
      let state = at.state ∙ full_state (length (chunk content i)) full in
      let packet = some (ack_packet (suc i)) in
      let turns = acks (suc (suc i)) (w' ∷ ws) in
      let sent =
        my_sendfile-next net w cl c st (suc i) (suc (suc i)) (chunk content (suc i)) up state
          (omega (arith, at.blocks)) (omega arith) (chunk_le content (suc i))
          (Stores-Holds c cl.fnum n (suc i) (suc (suc i)) content (omega arith) refl at.stored) in
      Finishes-step net cl (hears packet cl) c st w packet (suc i) (length ws) content turns
        at.serving (refl, refl) sent
        (rest_of_transfer ws w' (suc i) _ _ _ (omega arith)
          (sent-AtPiece w (hears packet cl) c st n (suc i) content at.serving at.blocks at.stored))

  transfer_runs :
      (ws : List World) (w : World) (cl : Client) (c : Cache) (st : Stats)
      → cl.proc ≡ cp_sendfile
      → cl.state ≡ st_init
      → cl.maxb ≡ n
      → Stores c cl.fnum n content
      → length ws ≡ n
      → Finishes cl 0 n content (converse net cl c st ((w, none) ∷ acks 1 ws))
  transfer_runs [] w cl c st p s b held e = absurd (omega arith)
  transfer_runs (w' ∷ ws) w cl c st p s b held e =
      let first = record (hears none cl) { dp = none } in
      subst (λ m. Finishes cl 0 m content (converse net cl c st ((w, none) ∷ acks 1 (w' ∷ ws)))) e
        (Finishes-step net cl first c st w none 0 (length ws) content (acks 1 (w' ∷ ws)) p
          (refl, refl)
          (my_sendfile-init net w cl c st (chunk content 0) up s (chunk_le content 0)
            (Stores-Holds c cl.fnum n 0 1 content (omega arith) refl held))
          (rest_of_transfer ws w' 0 _ _ _ (omega arith)
            (sent-AtPiece w first c st n 0 content p b held)))

-- The file that the receiver of these DATA packets puts together.
unfoldable pub received : List Datagram → List ℕ
received [] = []
received (d ∷ ds) = drop 4 d.content ++ received ds

received-shift :
    (addr port i m : ℕ) (content : List ℕ)
    → received (datagrams addr port (suc i) m content)
      ≡ received (datagrams addr port i m (drop segsize content))
unfolding received datagrams
received-shift addr port i zero content = refl
received-shift addr port i (suc m) content =
    ap (◌++◌ (chunk content (suc i))) (received-shift addr port (suc i) m content)

received-datagrams :
    (addr port m : ℕ) (content : List ℕ)
    → length content ≤ segsize * m
    → received (datagrams addr port 0 m content) ≡ content
unfolding received datagrams
received-datagrams addr port zero [] h = refl
received-datagrams addr port zero (x ∷ content) h = absurd (omega arith)
received-datagrams addr port (suc m) content h =
    rw
      (
        received-shift addr port 0 m content,
        received-datagrams addr port m (drop segsize content)
            (omega (arith, length-drop segsize content)),
      )
      (take-append-drop segsize content)

-- If sendto works, a client that asks for a cached file of fewer than 65536 blocks, the last of them
-- short, and acknowledges each block as it comes is sent the blocks 1, 2, … n of that file in order, one DATA packet each, whose data together
-- are the file; and the session is over with the acknowledgement of the last one.
pub transfer_completes :
    (net : Net) (content : List ℕ) (n : ℕ) (ws : List World) (w : World) (cl : Client) (c : Cache)
    (st : Stats)
    → net.sendto_ok ≡ true
    → n ≡ length content / segsize + 1
    → n < 65536
    → cl.proc ≡ cp_sendfile
    → cl.state ≡ st_init
    → cl.maxb ≡ n
    → Stores c cl.fnum n content
    → length ws ≡ n
    → (o : Outcome) × (converse net cl c st ((w, none) ∷ acks 1 ws) ≡ done o)
      × (o.client.proc ≡ cp_done)
      × (o.sends ≡ datagrams cl.addr cl.port 0 n content)
      × (received o.sends ≡ content)
transfer_completes net content n ws w cl c st up count small p s b held e =
    let (o, run, over, sends) = transfer_runs net up content n count ws w cl c st p s b held e in
    (
      o,
      run,
      over,
      sends,
      ap received sends ∙ received-datagrams cl.addr cl.port n content (omega arith),
    )
