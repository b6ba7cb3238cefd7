-- ===== src/Tftp/Server.antt =====
-- src/tftpd-tftpd.c: the list of clients, and what a packet or the timer does to it.
pub mod Clients
pub mod FirstBlock
use docsis_server.Prelude.{
  ℕ, zero, suc, ◌+◌, ◌-◌, ◌*◌, ◌/◌, ◌%◌, Bool, true, false, ◌&&◌, ◌||◌, Option, none, some, List,
  [], ◌∷◌, ◌++◌, length, take, drop, ltb, leb, ◌==◌, if◌then◌else◌, Run, done, fault, ◌>>=◌, bytes,
  str_eq,
}
use docsis_server.Tftp.Cache.{Cache, World, Found, read_static_file, read_dynamic_file}
use docsis_server.Tftp.Session.{
  Client, Stats, Outcome, Net, Datagram, Proc, State, cp_free, cp_tftp, cp_sendfile, cp_recvfile,
  cp_done, st_none, st_init, incr, word_at, nak, quiet, my_sendfile,
}
use docsis_server.Tftp.Request.{Env, tftp}

-- MAXCLIENTS.
abbrev pub max_clients : ℕ
max_clients = 2000

-- The globals of the process: clientlist from its head on, clientlistcnt, the cache, the statistics.
pub record Server : Type 0 where
  pub clientlist : List Client
  pub clientlistcnt : ℕ
  pub cache : Cache
  pub stats : Stats

-- Where runclient leaves the list: the clients before its own, that one unless it was freed, and those
-- behind it.
pub record Ran : Type 0 where
  pub before : List Client
  pub here : Option Client
  pub after : List Client
  pub count : ℕ
  pub cache : Cache
  pub stats : Stats
  pub sends : List Datagram

abbrev pub leave : List Client → List Client → ℕ → Outcome → Ran
leave before after n o = record {
  before = before;
  here = some o.client;
  after = after;
  count = n;
  cache = o.cache;
  stats = o.stats;
  sends = o.sends;
}

-- freeclient.
unfoldable pub freeclient : List Client → List Client → ℕ → Outcome → Ran
freeclient before after n o =
    let lone = n == 1 in
    record {
      before = if lone then [] else before;
      here = none;
      after = if lone then [] else after;
      count = if lone then 0 else n - 1;
      cache = o.cache;
      stats = o.stats;
      sends = o.sends;
    }

abbrev pub gather : List Datagram → Run Outcome → Run Outcome
gather out r = r >>= λ o. done (record o { sends = out ++ o.sends })

-- runclient behind its first line.
unfoldable pub rest_of_run : Env → List Client → List Client → ℕ → Outcome → Run Ran
rest_of_run env before after n o = elim o.client.proc [
  | cp_tftp ↦ done (freeclient before after n o)
  | cp_sendfile ↦ gather o.sends (my_sendfile env.net env.world o.client o.cache o.stats) >>= λ o'.
      done (leave before after n o')
  | cp_done ↦ done (freeclient before after n o)
  | _ ↦ done (leave before after n o)
]

unfoldable pub runclient : Env → List Client → Client → List Client → ℕ → Cache → Stats → Run Ran
runclient env before cl after n c st = elim cl.proc [
  | cp_tftp ↦ tftp env cl c st >>= rest_of_run env before after n
  | _ ↦ rest_of_run env before after n (quiet cl c st)
]

-- The list as runclient leaves it.
abbrev pub relink : List Client → Option Client → List Client → List Client
relink before none after = before ++ after
relink before (some cl) after = before ++ cl ∷ after

abbrev pub settle : Ran → Server × List Datagram
settle r = (
  record {
    clientlist = relink r.before r.here r.after;
    clientlistcnt = r.count;
    cache = r.cache;
    stats = r.stats;
  },
  r.sends,
)

-- findclient: the first client of that address and port, with those before and behind it.
unfoldable pub findclient :
    ℕ → ℕ → List Client → List Client → Option (List Client × Client × List Client)
findclient addr port seen [] = none
findclient addr port seen (cl ∷ cls) =
    if cl.port == port && cl.addr == addr
    then some (seen, cl, cls)
    else findclient addr port (seen ++ cl ∷ []) cls

-- A client fresh from calloc, with what process writes into it.
abbrev pub blank : ℕ → ℕ → Client
blank addr port = record {
  addr = addr;
  port = port;
  wakeup = 0;
  retries = 0;
  tp = none;
  tpcc = 0;
  dp = none;
  dpcc = 0;
  proc = cp_tftp;
  state = st_none;
  block = 0;
  fnum = 0;
  maxb = 0;
  dynam = 0;
}

-- newclient counts the client before it is linked at the head of the list.
abbrev pub count_client : ℕ → Stats → Stats
count_client n st = record st { maxclients = if ltb st.maxclients n then n else st.maxclients }

abbrev pub hand : List ℕ → ℕ → Client → Client
hand buf cc cl = record cl { tp = some buf; tpcc = cc }

unfoldable pub process : Env → ℕ → ℕ → List ℕ → ℕ → Server → Run (Server × List Datagram)
process env addr port buf cc s = elim (findclient addr port [] s.clientlist) [
  | some (before, cl, after) ↦
      runclient env before (hand buf cc cl) after s.clientlistcnt s.cache s.stats >>= λ r.
      done (settle r)
  | none ↦
      if ltb s.clientlistcnt max_clients && env.client_room
      then (runclient env [] (hand buf cc (blank addr port)) s.clientlist (s.clientlistcnt + 1)
            s.cache (count_client (s.clientlistcnt + 1) s.stats)
          >>= λ r. done (settle r))
      else done (s, [])
]

abbrev pub kept : Option Client → List Client
kept none = []
kept (some cl) = cl ∷ []

abbrev pub after_run : List Datagram → Server × List Datagram → Run (Server × List Datagram)
after_run out (s, sends) = done (s, out ++ sends)

-- The loop of runtimer: the clients it has seen, and those that are left. It goes on at the client that
-- `cln` kept, whatever runclient freed.
unfoldable pub timer_loop :
    Env → List Client → List Client → ℕ → Cache → Stats → Run (Server × List Datagram)
timer_loop env seen [] n c st =
    done (record { clientlist = seen; clientlistcnt = n; cache = c; stats = st }, [])
timer_loop env seen (cl ∷ left) n c st =
    let quiet_client : Client = record cl { tp = none; tpcc = 0 } in
    if ltb 0 cl.wakeup && leb cl.wakeup env.world.now
    then (runclient env seen quiet_client left n c st >>= λ r.
        timer_loop env (r.before ++ kept r.here) left r.count r.cache r.stats >>= after_run r.sends)
    else timer_loop env
        (seen
          ++ (if cl.wakeup == 0
              then record quiet_client { wakeup = env.world.now }
              else quiet_client)
            ∷ [])
        left n c st

unfoldable pub runtimer : Env → Server → Run (Server × List Datagram)
runtimer env s = timer_loop env [] s.clientlist s.clientlistcnt s.cache s.stats
