-- ===== src/Tftp/Session/Steps.antt =====
-- my_sendfile on the packets of an orderly transfer: the start, an acknowledgement, the last one.
use docsis_server.Prelude.{
  ℕ, ◌+◌, ◌/◌, ◌%◌, ◌≤◌, ◌≡◌, refl, subst, Bool, true, false, Option, none, some, List, [], ◌∷◌,
  length, arith, le→ltb_false, ==_refl, done,
}
use docsis_server.Tftp.Cache.{Cache, World}
use docsis_server.Tftp.Session.{
  Client, Stats, Net, State, cp_done, st_init, st_waitack, st_lastack, over, proceed, word_at,
  is_due, is_waiting, resend, start, take_packet, take_ack, continue, my_sendfile, fetch, quiet,
  count_resend,
}
use docsis_server.Tftp.Session.Sending.{Holds, ready, sent_outcome, fetch-Holds}

-- An ACK packet.
abbrev pub ack_packet : ℕ → List ℕ
ack_packet k = 0 ∷ 4 ∷ k / 256 ∷ k % 256 ∷ []

word_at-ack_packet : (k : ℕ) → word_at 2 (ack_packet k) ≡ k
word_at-ack_packet k = omega arith

-- The client hears a packet, or nothing.
abbrev pub hears : Option (List ℕ) → Client → Client
hears p cl = record cl { tp = p }

is_due_idle : (now : ℕ) (cl : Client) → is_waiting cl.state ≡ false → is_due now cl ≡ false
unfolding is_due
is_due_idle now cl h = ground arith

module _ (net : Net) (w : World) where
  pub continue-ready :
      (cl : Client) (c : Cache) (st : Stats) (k : ℕ)
      → continue net w (ready k cl) c st true ≡ fetch net w (ready k cl) c st
  unfolding continue resend start count_resend
  continue-ready cl c st k = rw (is_due_idle w.now (ready k cl) refl)

  continue-init :
      (cl : Client) (c : Cache) (st : Stats) (b : Bool)
      → continue net w (record cl { state = st_init }) c st b
        ≡ fetch net w (ready 1 (record cl { dp = none })) c st
  unfolding continue resend start count_resend
  continue-init cl c st b = rw (is_due_idle w.now (record cl { state = st_init }) refl)

  pub take_ack-next :
      (cl : Client) (st : Stats) (k : ℕ)
      → k ≤ cl.maxb
      → take_packet (record cl { tp = some (ack_packet k); state = st_waitack }) st
        ≡ proceed (ready (k + 1) (hears (some (ack_packet k)) cl)) st true
  unfolding take_packet take_ack
  take_ack-next cl st k h = rw (word_at-ack_packet k, le→ltb_false cl.maxb k h)

  take_ack-last :
      (cl : Client) (st : Stats) (k : ℕ)
      → k ≡ cl.maxb
      → take_packet (record cl { tp = some (ack_packet k); state = st_lastack }) st
        ≡ over (record cl { tp = some (ack_packet k); state = st_lastack; proc = cp_done }) st
  unfolding take_packet take_ack
  take_ack-last cl st k h =
      rw (word_at-ack_packet k, le→ltb_false cl.maxb k (omega arith), ==_refl k cl.maxb h)

  my_sendfile-init_at :
      (cl : Client) (c : Cache) (st : Stats) (part : List ℕ) (t : State)
      → net.sendto_ok ≡ true
      → t ≡ st_init
      → length part ≤ 512
      → Holds c cl.fnum 1 part
      → my_sendfile net w (record cl { tp = none; state = t }) c st
        ≡ done (sent_outcome w (ready 1 (record (hears none cl) { dp = none })) 1 part c st)
  unfolding my_sendfile
  my_sendfile-init_at cl c st part t up s small holds =
      rw (s, continue-init (hears none cl) c st false)
        (fetch-Holds net w (record (hears none cl) { dp = none }) c st 1 part up small holds)

  -- The first call, right after the request was accepted, sends block 1.
  pub my_sendfile-init :
      (cl : Client) (c : Cache) (st : Stats) (part : List ℕ)
      → net.sendto_ok ≡ true
      → cl.state ≡ st_init
      → length part ≤ 512
      → Holds c cl.fnum 1 part
      → my_sendfile net w (hears none cl) c st
        ≡ done (sent_outcome w (ready 1 (record (hears none cl) { dp = none })) 1 part c st)
  my_sendfile-init cl c st part = my_sendfile-init_at cl c st part cl.state

  my_sendfile-next_at :
      (cl : Client) (c : Cache) (st : Stats) (k : ℕ) (part : List ℕ) (t : State)
      → net.sendto_ok ≡ true
      → t ≡ st_waitack
      → k ≤ cl.maxb
      → length part ≤ 512
      → Holds c cl.fnum (k + 1) part
      → my_sendfile net w (record cl { tp = some (ack_packet k); state = t }) c st
        ≡ done (sent_outcome w (ready (k + 1) (hears (some (ack_packet k)) cl)) (k + 1) part c st)
  unfolding my_sendfile
  my_sendfile-next_at cl c st k part t up s le small holds =
      rw (s, take_ack-next cl st k le, continue-ready (hears (some (ack_packet k)) cl) c st (k + 1))
        (fetch-Holds net w (hears (some (ack_packet k)) cl) c st (k + 1) part up small holds)

  -- The acknowledgement of block `k` makes the server send block `k + 1`.
  pub my_sendfile-next :
      (cl : Client) (c : Cache) (st : Stats) (k next : ℕ) (part : List ℕ)
      → net.sendto_ok ≡ true
      → cl.state ≡ st_waitack
      → k ≤ cl.maxb
      → next ≡ k + 1
      → length part ≤ 512
      → Holds c cl.fnum next part
      → my_sendfile net w (hears (some (ack_packet k)) cl) c st
        ≡ done (sent_outcome w (ready next (hears (some (ack_packet k)) cl)) next part c st)
  my_sendfile-next cl c st k next part up s le e small holds = rw e (
      my_sendfile-next_at cl c st k part cl.state up s le small
        (subst (λ m. Holds c cl.fnum m part) e holds))

  my_sendfile-last_at :
      (cl : Client) (c : Cache) (st : Stats) (k : ℕ) (t : State)
      → t ≡ st_lastack
      → k ≡ cl.maxb
      → my_sendfile net w (record cl { tp = some (ack_packet k); state = t }) c st
        ≡ done (quiet (record cl { tp = some (ack_packet k); state = t; proc = cp_done }) c st)
  unfolding my_sendfile
  my_sendfile-last_at cl c st k t s e = rw (s, take_ack-last cl st k e)

  -- The acknowledgement of the last block ends the session, and sends nothing.
  pub my_sendfile-last :
      (cl : Client) (c : Cache) (st : Stats) (k : ℕ)
      → cl.state ≡ st_lastack
      → k ≡ cl.maxb
      → my_sendfile net w (hears (some (ack_packet k)) cl) c st
        ≡ done (quiet (record (hears (some (ack_packet k)) cl) { proc = cp_done }) c st)
  my_sendfile-last cl c st k = my_sendfile-last_at cl c st k cl.state
