-- ===== src/Tftp/Server/Clients.antt =====
-- The count of the clients, and their addresses, across packets and timer rounds.
use docsis_server.Prelude.{
  ℕ, suc, ◌+◌, ◌≤◌, ◌≡◌, refl, ap, sym, ◌∙◌, Bool, true, false, ◌&&◌, ltb, leb, ◌==◌, if◌then◌else◌,
  Option, none, some, List, [], ◌∷◌, ◌++◌, length, length-append, arith, ==_refl, ne→==_false, Run,
  done, ◌>>=◌, IfDone, IfDone->>=, IfDone-all, IfDone-done,
}
use docsis_server.Tftp.Cache.{Cache}
use docsis_server.Tftp.Session.{
  Client, Stats, Outcome, Proc, Datagram, cp_free, cp_tftp, cp_sendfile, cp_recvfile, cp_done,
  quiet, my_sendfile,
}
use docsis_server.Tftp.Request.{Env, tftp}
use docsis_server.Tftp.Server.{
  Server, Ran, max_clients, leave, freeclient, gather, rest_of_run, runclient, relink, settle,
  findclient, process, kept, after_run, timer_loop, runtimer, hand, blank, count_client,
}

-- clientlistcnt counts the list, which has at most MAXCLIENTS clients.
abbrev pub IsCounted : Server → Type 0
IsCounted s = (s.clientlistcnt ≡ length s.clientlist) × (length s.clientlist ≤ max_clients)

-- What runclient does to the list: its own client stays where it was, or goes.
abbrev InPlace : List Client → List Client → Ran → Type 0
InPlace before after r =
    (r.before ≡ before)
    × (r.after ≡ after)
    × (r.count ≡ length before + length (kept r.here) + length after)
    × (length (kept r.here) ≤ 1)

freeclient-InPlace :
    (before after : List Client) (n : ℕ) (o : Outcome)
    → n ≡ suc (length before + length after)
    → InPlace before after (freeclient before after n o)
unfolding freeclient
freeclient-InPlace [] [] n o h = rw (==_refl n 1 h) (refl, refl, refl, omega arith)
freeclient-InPlace [] (x ∷ after) n o h =
    rw (ne→==_false n 1 (omega arith)) (refl, refl, omega arith, omega arith)
freeclient-InPlace (x ∷ before) after n o h =
    rw (ne→==_false n 1 (omega arith)) (refl, refl, omega arith, omega arith)

leave-InPlace :
    (before after : List Client) (n : ℕ) (o : Outcome)
    → n ≡ suc (length before + length after)
    → InPlace before after (leave before after n o)
leave-InPlace before after n o h = (refl, refl, omega arith, omega arith)

rest_of_run-InPlace :
    (env : Env) (before after : List Client) (n : ℕ) (o : Outcome)
    → n ≡ suc (length before + length after)
    → IfDone (InPlace before after) (rest_of_run env before after n o)
unfolding rest_of_run
rest_of_run-InPlace env before after n o h = go o.client.proc
  where
    sent : IfDone (InPlace before after) (
        gather o.sends (my_sendfile env.net env.world o.client o.cache o.stats) >>= λ o'.
        done (leave before after n o'))
    sent =
        IfDone->>= (λ (o' : Outcome). Unit {0}) (InPlace before after)
          (gather o.sends (my_sendfile env.net env.world o.client o.cache o.stats))
          (λ o'. done (leave before after n o'))
          (IfDone-all (λ (o' : Outcome). Unit {0}) _ (λ x. tt))
          (λ x u. leave-InPlace before after n x h)

    go :
        (p : Proc)
        → IfDone (InPlace before after) (elim p [
          | cp_tftp ↦ done (freeclient before after n o)
          | cp_sendfile ↦
              gather o.sends (my_sendfile env.net env.world o.client o.cache o.stats) >>= λ o'.
              done (leave before after n o')
          | cp_done ↦ done (freeclient before after n o)
          | _ ↦ done (leave before after n o)
        ])
    go cp_free = leave-InPlace before after n o h
    go cp_tftp = freeclient-InPlace before after n o h
    go cp_sendfile = sent
    go cp_recvfile = leave-InPlace before after n o h
    go cp_done = freeclient-InPlace before after n o h

runclient-InPlace :
    (env : Env) (before : List Client) (cl : Client) (after : List Client) (n : ℕ) (c : Cache)
    (st : Stats)
    → n ≡ suc (length before + length after)
    → IfDone (InPlace before after) (runclient env before cl after n c st)
unfolding runclient
runclient-InPlace env before cl after n c st h = go cl.proc
  where
    first : IfDone (InPlace before after) (tftp env cl c st >>= rest_of_run env before after n)
    first =
        IfDone->>= (λ (o : Outcome). Unit {0}) (InPlace before after) (tftp env cl c st)
          (rest_of_run env before after n) (IfDone-all (λ (o : Outcome). Unit {0}) _ (λ x. tt))
          (λ x u. rest_of_run-InPlace env before after n x h)

    others : IfDone (InPlace before after) (rest_of_run env before after n (quiet cl c st))
    others = rest_of_run-InPlace env before after n (quiet cl c st) h

    go :
        (p : Proc)
        → IfDone (InPlace before after) (elim p [
          | cp_tftp ↦ tftp env cl c st >>= rest_of_run env before after n
          | _ ↦ rest_of_run env before after n (quiet cl c st)
        ])
    go cp_tftp = first
    go cp_free = others
    go cp_sendfile = others
    go cp_recvfile = others
    go cp_done = others

length-relink :
    (before : List Client) (here : Option Client) (after : List Client)
    → length (relink before here after) ≡ length before + length (kept here) + length after
length-relink before none after = omega (arith, length-append before after)
length-relink before (some cl) after = omega (arith, length-append before (cl ∷ after))

settle-IsCounted :
    (before after : List Client) (r : Ran)
    → suc (length before + length after) ≤ max_clients
    → InPlace before after r
    → IsCounted ((settle r).0)
settle-IsCounted before after r h (b, a, n, k) =
    let l = length-relink r.before r.here r.after in
    (n ∙ rw (sym b, sym a) (sym l), omega (arith, l, ap length b, ap length a))

run_and_settle :
    (env : Env) (before : List Client) (cl : Client) (after : List Client) (n : ℕ) (c : Cache)
    (st : Stats)
    → n ≡ suc (length before + length after)
    → n ≤ max_clients
    → IfDone
        (λ (x : Server × List Datagram). IsCounted x.0)
        (runclient env before cl after n c st >>= λ r. done (settle r))
run_and_settle env before cl after n c st h le =
    IfDone->>= (InPlace before after) (λ (x : Server × List Datagram). IsCounted x.0)
      (runclient env before cl after n c st) (λ r. done (settle r))
      (runclient-InPlace env before cl after n c st h)
      (λ r i. settle-IsCounted before after r (omega arith) i)

length-findclient :
    (addr port : ℕ) (seen cls before : List Client) (cl : Client) (after : List Client)
    → findclient addr port seen cls ≡ some (before, cl, after)
    → length seen + length cls ≡ suc (length before + length after)
unfolding findclient
length-findclient addr port seen [] before cl after h = ground arith
length-findclient addr port seen (x ∷ cls) before cl after h = ground (
  arith,
  length-findclient addr port (seen ++ x ∷ []) cls before cl after,
  length-append seen (x ∷ []),
)

abbrev Fine : Run (Server × List Datagram) → Type 0
Fine = IfDone (λ (x : Server × List Datagram). IsCounted x.0)

process-Fine :
    (env : Env) (addr port : ℕ) (buf : List ℕ) (cc : ℕ) (s : Server)
    → IsCounted s
    → Fine (process env addr port buf cc s)
unfolding process
process-Fine env addr port buf cc s (n, le) = go (findclient addr port [] s.clientlist) refl
  where
    new :
        (b : Bool)
        → ltb s.clientlistcnt max_clients && env.client_room ≡ b
        → Fine (
            if b
            then (runclient env []
                  (hand buf cc (blank addr port))
                  s.clientlist
                  (s.clientlistcnt + 1)
                  s.cache
                  (count_client (s.clientlistcnt + 1) s.stats)
                >>= λ r. done (settle r))
            else done (s, []))
    new true h =
        run_and_settle env [] (hand buf cc (blank addr port)) s.clientlist (s.clientlistcnt + 1)
          s.cache (count_client (s.clientlistcnt + 1) s.stats) (omega arith) (ground arith)
    new false h = (n, le)

    go :
        (f : Option (List Client × Client × List Client))
        → findclient addr port [] s.clientlist ≡ f
        → Fine (elim f [
          | some (before, cl, after) ↦
              runclient env before (hand buf cc cl) after s.clientlistcnt s.cache s.stats >>= λ r.
              done (settle r)
          | none ↦
              if ltb s.clientlistcnt max_clients && env.client_room
              then (runclient env []
                    (hand buf cc (blank addr port))
                    s.clientlist
                    (s.clientlistcnt + 1)
                    s.cache
                    (count_client (s.clientlistcnt + 1) s.stats)
                  >>= λ r. done (settle r))
              else done (s, [])
        ])
    go none q = new (ltb s.clientlistcnt max_clients && env.client_room) refl
    go (some (before, cl, after)) q =
        let l = length-findclient addr port [] s.clientlist before cl after q in
        run_and_settle env before (hand buf cc cl) after s.clientlistcnt s.cache s.stats
          (omega arith) (omega arith)

-- Whatever packet comes, if process returns, clientlistcnt still counts the list, and the list still
-- has at most MAXCLIENTS clients.
pub process-IsCounted :
    (env : Env) (addr port : ℕ) (buf : List ℕ) (cc : ℕ) (s s' : Server) (sends : List Datagram)
    → IsCounted s
    → process env addr port buf cc s ≡ done (s', sends)
    → IsCounted s'
process-IsCounted env addr port buf cc s s' sends i e =
    IfDone-done (λ (x : Server × List Datagram). IsCounted x.0) (process env addr port buf cc s)
      (s', sends) (process-Fine env addr port buf cc s i) e

-- The loop goes well from each state that counts its clients right.
abbrev GoesOn : Env → List Client → Type 0
GoesOn env left =
    (seen : List Client) (n : ℕ) (c : Cache) (st : Stats)
    → n ≡ length seen + length left
    → n ≤ max_clients
    → Fine (timer_loop env seen left n c st)

after_ran-Fine :
    (env : Env) (seen left : List Client) (r : Ran)
    → suc (length seen + length left) ≤ max_clients
    → GoesOn env left
    → InPlace seen left r
    → Fine (
        timer_loop env (r.before ++ kept r.here) left r.count r.cache r.stats >>= after_run r.sends)
after_ran-Fine env seen left r le on (b, a, m, k) =
    IfDone->>= (λ (x : Server × List Datagram). IsCounted x.0)
      (λ (x : Server × List Datagram). IsCounted x.0)
      (timer_loop env (r.before ++ kept r.here) left r.count r.cache r.stats) (after_run r.sends)
      (on (r.before ++ kept r.here) r.count r.cache r.stats
        (omega (arith, length-append r.before (kept r.here), ap length b)) (omega arith))
      (λ x i. i)

timer_loop-step :
    (env : Env) (cl : Client) (left : List Client) → GoesOn env left → GoesOn env (cl ∷ left)
unfolding timer_loop
timer_loop-step env cl left on seen n c st h le =
    go (ltb 0 cl.wakeup && leb cl.wakeup env.world.now)
  where
    cl' : Client
    cl' = record cl { tp = none; tpcc = 0 }

    waked : Client
    waked =
        if cl.wakeup == 0 then record cl { tp = none; tpcc = 0; wakeup = env.world.now } else cl'

    go :
        (b : Bool)
        → Fine (
            if b
            then (runclient env seen cl' left n c st >>= λ r.
                timer_loop env (r.before ++ kept r.here) left r.count r.cache r.stats
                >>= after_run r.sends)
            else timer_loop env (seen ++ waked ∷ []) left n c st)
    go true =
        IfDone->>= (InPlace seen left) (λ (x : Server × List Datagram). IsCounted x.0)
          (runclient env seen cl' left n c st)
          (λ r.
            timer_loop env (r.before ++ kept r.here) left r.count r.cache r.stats
            >>= after_run r.sends)
          (runclient-InPlace env seen cl' left n c st (omega arith))
          (λ r i. after_ran-Fine env seen left r (omega arith) on i)
    go false = on (seen ++ waked ∷ []) n c st (omega (arith, length-append seen (waked ∷ []))) le

timer_loop-Fine : (env : Env) (left : List Client) → GoesOn env left
unfolding timer_loop
timer_loop-Fine env [] seen n c st h le = (omega arith, omega arith)
timer_loop-Fine env (cl ∷ left) seen n c st h le =
    timer_loop-step env cl left (timer_loop-Fine env left) seen n c st h le

-- If a timer round returns, clientlistcnt still counts the list, and the list still has at most
-- MAXCLIENTS clients.
pub runtimer-IsCounted :
    (env : Env) (s s' : Server) (sends : List Datagram)
    → IsCounted s
    → runtimer env s ≡ done (s', sends)
    → IsCounted s'
unfolding runtimer
runtimer-IsCounted env s s' sends i e =
    IfDone-done (λ (x : Server × List Datagram). IsCounted x.0) (runtimer env s) (s', sends)
      (timer_loop-Fine env s.clientlist [] s.clientlistcnt s.cache s.stats (omega (arith, i.0))
        (omega (arith, i.0, i.1)))
      e
