-- ===== src/Tftp/Session/Timeouts.antt =====
-- my_sendfile when the timer calls it: resending, giving up, and what can go wrong.
use docsis_server.Prelude.{
  ℕ, zero, suc, ◌+◌, ◌-◌, ◌≤◌, ◌<◌, ◌≡◌, ◌≢◌, refl, ap, ◌∙◌, true, none, some, List, [], ◌∷◌,
  length, replicate, arith, ◌==◌, ==_refl, ne→==_false, if◌then◌else◌, done, fault,
}
use docsis_server.Tftp.Blocks.{make_block, wire}
use docsis_server.Tftp.Blocks.Contents.{wire-make_block}
use docsis_server.Tftp.Cache.{Cache, World, find_entry}
use docsis_server.Tftp.Session.{
  Client, Stats, Outcome, Net, cp_done, cp_sendfile, st_send, st_waitack, st_lastack, incr, is_due,
  is_waiting, resend, count_resend, start, deref, transmit, send, continue, take_packet,
  my_sendfile, quiet,
}
use docsis_server.Tftp.Session.Sending.{Holds, data_packet, datagram, deref-Holds}
use docsis_server.Tftp.Session.Steps.{hears}
use docsis_server.Tftp.Session.Transfer.{Turn, converse, step_on}

-- The client waits for an acknowledgement, and its time to wake up has come.
abbrev pub Due : ℕ → Client → Type 0
Due now cl = (0 < cl.wakeup) × (cl.wakeup ≤ now) × (is_waiting cl.state ≡ true)

Due-is_due : (now : ℕ) (cl : Client) → Due now cl → is_due now cl ≡ true
unfolding is_due
Due-is_due now cl h = ground arith

-- The client after a block was sent to it again.
abbrev pub resent : ℕ → Client → Client
resent now cl = record cl {
  tp = none;
  retries = cl.retries - 1;
  state = if cl.dpcc == 516 then st_waitack else st_lastack;
  wakeup = now + 2;
}

deref_gone :
    (c : Cache) (num k : ℕ) → find_entry num c.thecache ≡ none → deref c (some (num, k)) ≡ fault
unfolding deref
deref_gone c num k h = rw (h, deref)

module _ (net : Net) (w : World) (cl : Client) (c : Cache) (st : Stats) (due : Due w.now cl) where
  timer :
      my_sendfile net w (hears none cl) c st
      ≡ send net w.now
          (record cl { tp = none; state = st_send })
          c
          (record st { retrans = incr st.retrans })
  unfolding my_sendfile take_packet continue resend start count_resend
  timer = rw (Due-is_due w.now (hears none cl) due)

  -- If the client is due and has no retries left, it is given up: nothing is sent, and the session is
  -- over.
  pub timer_gives_up :
      cl.retries ≡ 0
      → my_sendfile net w (hears none cl) c st
        ≡ done (
            quiet
              (record cl { tp = none; state = st_send; proc = cp_done })
              c
              (record st { retrans = incr st.retrans; timeout = incr st.timeout }))
  unfolding send
  timer_gives_up e = rw (timer, ==_refl cl.retries 0 e)

  timer_transmits :
      cl.retries ≢ 0
      → my_sendfile net w (hears none cl) c st
        ≡ transmit net w.now
            (record cl { tp = none; state = st_send; retries = cl.retries - 1 })
            c
            (record st { retrans = incr st.retrans })
  unfolding send
  timer_transmits e = rw (timer, ne→==_false cl.retries 0 e)

  deref_at :
      (k : ℕ) (part : List ℕ)
      → cl.dp ≡ some (cl.fnum, k)
      → Holds c cl.fnum k part
      → deref c cl.dp ≡ done (make_block k part)
  deref_at k part e holds = ap (deref c) e ∙ deref-Holds c cl.fnum k part holds

  -- If the client is due, has retries left and was sent a block that the cache still holds, the same
  -- block is sent again, with one retry less and two more seconds to wait.
  pub timer_resends :
      (k : ℕ) (part : List ℕ)
      → net.sendto_ok ≡ true
      → cl.retries ≢ 0
      → cl.dp ≡ some (cl.fnum, k)
      → cl.dpcc ≡ length part + 4
      → Holds c cl.fnum k part
      → my_sendfile net w (hears none cl) c st
        ≡ done (record {
          client = resent w.now cl;
          cache = c;
          stats = record st { retrans = incr st.retrans; sent = incr st.sent };
          sends = datagram cl (data_packet k part) ∷ [];
        })
  unfolding transmit
  timer_resends k part up e p size holds = rw (
    timer_transmits e,
    deref_at k part p holds,
    transmit,
    up,
    ap (wire (make_block k part)) size ∙ wire-make_block k part,
  )

  -- If the client is due, has retries left and was sent a block whose file has left the cache in the
  -- meantime, my_sendfile reads that block's freed memory.
  pub timer_dangles :
      (num k : ℕ)
      → cl.retries ≢ 0
      → cl.dp ≡ some (num, k)
      → find_entry num c.thecache ≡ none
      → my_sendfile net w (hears none cl) c st ≡ fault
  unfolding transmit
  timer_dangles num k e p gone =
      rw (timer_transmits e, ap (deref c) p ∙ deref_gone c num k gone, transmit)

-- The turns in which a client stays silent; each comes when the one before has timed out.
abbrev pub silence : List World → List Turn
silence [] = []
silence (w ∷ ws) = (w, none) ∷ silence ws

abbrev pub Timely : ℕ → List World → Type 0
Timely wakeup [] = Unit {0}
Timely wakeup (w ∷ ws) = (wakeup ≤ w.now) × Timely (w.now + 2) ws

-- The client has been sent block `k` and is waiting for its acknowledgement.
pub record Outstanding (cl : Client) (c : Cache) (k : ℕ) (part : List ℕ) : Type 0 where
  pub serving : cl.proc ≡ cp_sendfile
  pub waiting : is_waiting cl.state ≡ true
  pub awake : 0 < cl.wakeup
  pub points : cl.dp ≡ some (cl.fnum, k)
  pub size : cl.dpcc ≡ length part + 4
  pub stored : Holds c cl.fnum k part

waits_on : (n : ℕ) → is_waiting (if n == 516 then st_waitack else st_lastack) ≡ true
waits_on n = ground arith

module _ (net : Net) (up : net.sendto_ok ≡ true) (k : ℕ) (part : List ℕ) where
  silence_runs :
      (ws : List World) (r : ℕ) (cl : Client) (c : Cache) (st : Stats)
      → cl.retries ≡ r
      → Outstanding cl c k part
      → Timely cl.wakeup ws
      → length ws ≡ suc r
      → (o : Outcome) × (converse net cl c st (silence ws) ≡ done o)
        × (o.client.proc ≡ cp_done)
        × (o.sends ≡ replicate r (datagram cl (data_packet k part)))
  unfolding converse
  silence_runs [] r cl c st left out time e = absurd (omega arith)
  silence_runs (w ∷ w' ∷ ws) zero cl c st left out time e = absurd (omega arith)
  silence_runs (w ∷ []) (suc r) cl c st left out time e = absurd (omega arith)
  silence_runs (w ∷ []) zero cl c st left out time e =
      let last = timer_gives_up net w cl c st (out.awake, time.0, out.waiting) left in
      (_, step_on net cl c st w none _ [] out.serving last, refl, refl)
  silence_runs (w ∷ w' ∷ ws) (suc r) cl c st left out time e =
      let again =
        timer_resends net w cl c st (out.awake, time.0, out.waiting) k part up (omega arith)
          out.points out.size out.stored in
      let (o, run, over, sends) =
        silence_runs (w' ∷ ws) r (resent w.now cl) c
          (record st { retrans = incr st.retrans; sent = incr st.sent }) (omega arith)
          (record {
            serving = out.serving;
            waiting = waits_on cl.dpcc;
            awake = omega arith;
            points = out.points;
            size = out.size;
            stored = out.stored;
          })
          time.1 (omega arith) in
      (
        record o { sends = datagram cl (data_packet k part) ∷ o.sends },
        rw (step_on net cl c st w none _ (silence (w' ∷ ws)) out.serving again, run),
        over,
        ap (◌∷◌ (datagram cl (data_packet k part))) sends,
      )

-- If sendto works, a client that was sent a block that the cache still holds, and that stays
-- silent, whenever the timer finds it due, is sent that block again once for each retry it has
-- left, and then the session is over.
pub silence_ends :
    (net : Net) (ws : List World) (cl : Client) (c : Cache) (st : Stats) (k : ℕ) (part : List ℕ)
    → net.sendto_ok ≡ true
    → Outstanding cl c k part
    → Timely cl.wakeup ws
    → length ws ≡ suc cl.retries
    → (o : Outcome) × (converse net cl c st (silence ws) ≡ done o)
      × (o.client.proc ≡ cp_done)
      × (o.sends ≡ replicate cl.retries (datagram cl (data_packet k part)))
silence_ends net ws cl c st k part up out time e =
    silence_runs net up k part ws cl.retries cl c st refl out time e
