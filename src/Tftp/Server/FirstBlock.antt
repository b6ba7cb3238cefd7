-- ===== src/Tftp/Server/FirstBlock.antt =====
-- A read request from a new client, from process to the first DATA packet.
use docsis_server.Prelude.{
  ℕ, ◌+◌, ◌/◌, ◌<◌, ◌≡◌, refl, subst, Bool, true, false, ◌||◌, ◌&&◌, ltb, none, some, List, [], ◌∷◌,
  ◌++◌, length, arith, done, ◌>>=◌, bytes,
}
use docsis_server.Tftp.Blocks.{segsize}
use docsis_server.Tftp.Blocks.Contents.{chunk}
use docsis_server.Tftp.Cache.{Cache, read_static_file}
use docsis_server.Tftp.Cache.Invariant.{Rising}
use docsis_server.Tftp.Cache.Lookup.{OnDisk}
use docsis_server.Tftp.Cache.StaticFile.{Missed}
use docsis_server.Tftp.Session.{Client, Stats, Outcome, cp_sendfile, st_init, quiet}
use docsis_server.Tftp.Session.Sending.{data_packet, sent_outcome, ready}
use docsis_server.Tftp.Session.Steps.{my_sendfile-init}
use docsis_server.Tftp.Session.Transfer.{Stores, AtPiece, Stores-Holds, sent-AtPiece, chunk_le}
use docsis_server.Tftp.Download.{read_static_file-Stores}
use docsis_server.Tftp.Request.{
  Env, st_mode, strstr, is_regular, is_readable, validate_access, gave_static, admit, tftp,
}
use docsis_server.Tftp.Request.Refusals.{Plain, rrq, asking, tftp-rrq}
use docsis_server.Tftp.Server.{
  Server, max_clients, blank, count_client, findclient, process, runclient, rest_of_run,
}

-- The request is for a file that stat finds in the directory, regular and readable by all.
pub record Granted (env : Env) (name : List ℕ) : Type 0 where
  pub plain : Plain name
  pub inside : (strstr name (bytes "/../") || strstr name (bytes "../")) ≡ false
  pub mode : ℕ
  pub found : env.status name ≡ st_mode mode
  pub regular : is_regular mode ≡ true
  pub readable : is_readable mode ≡ true

validate_access-static :
    (env : Env) (cl : Client) (name : List ℕ) (c : Cache)
    → Granted env name
    → validate_access env cl name c ≡ (read_static_file env.world name c >>= gave_static cl)
unfolding validate_access
validate_access-static env cl name c g =
    rw (g.inside, validate_access, g.found, g.regular, g.readable)

-- The client that tftp leaves when the file was found.
abbrev pub started : Client → ℕ → ℕ → Client
started cl num n = record cl {
  fnum = num;
  maxb = n;
  state = st_init;
  tp = none;
  tpcc = 0;
  proc = cp_sendfile;
}

tftp-started :
    (env : Env) (cl : Client) (name junk : List ℕ) (c c' : Cache) (st : Stats) (num n : ℕ)
    → Granted env name
    → read_static_file env.world name c ≡ done (c', some (num, n))
    → tftp env (asking cl (rrq name) junk) c st ≡ done (quiet (started cl num n) c' st)
unfolding admit
tftp-started env cl name junk c c' st num n g read = rw (
  tftp-rrq env cl c st name junk g.plain,
  validate_access-static env (asking cl (rrq name) junk) name c g,
  read,
)

-- The first run of a new client.
first_run :
    (env : Env) (addr port : ℕ) (name junk content : List ℕ) (cls : List Client) (k : ℕ)
    (c c' : Cache) (st : Stats) (num n : ℕ)
    → Granted env name
    → env.net.sendto_ok ≡ true
    → n ≡ length content / segsize + 1
    → Stores c' num n content
    → read_static_file env.world name c ≡ done (c', some (num, n))
    → let o : Outcome =
        sent_outcome env.world
          (ready 1 (started (blank addr port) num n))
          1
          (chunk content 0)
          c'
          st in
      runclient env [] (asking (blank addr port) (rrq name) junk) cls k c st
      ≡ done (record {
        before = [];
        here = some o.client;
        after = cls;
        count = k;
        cache = o.cache;
        stats = o.stats;
        sends = o.sends;
      })
unfolding runclient rest_of_run
first_run env addr port name junk content cls k c c' st num n g up count stored read = rw (
  tftp-started env (blank addr port) name junk c c' st num n g read,
  my_sendfile-init env.net env.world (started (blank addr port) num n) c' st (chunk content 0) up
      refl (chunk_le content 0) (Stores-Holds c' num n 0 1 content (omega arith) refl stored),
)

room_for : (n : ℕ) (b : Bool) → n < max_clients → b ≡ true → (ltb n max_clients && b) ≡ true
room_for n b h e = ground arith

-- A read request in the mode octet for a plain name inside the directory, of a regular file that all
-- may read and the cache does not hold, from a client that is not in the list, while the list, memory
-- and the file numbers have room and sendto works, is answered with the first block of the file; the
-- client is put at the head of the list, counted, and waits for its acknowledgement.
pub process_answers :
    (env : Env) (addr port : ℕ) (name junk content : List ℕ) (s : Server)
    → Granted env name
    → env.net.sendto_ok ≡ true
    → env.client_room ≡ true
    → s.clientlistcnt < max_clients
    → findclient addr port [] s.clientlist ≡ none
    → Missed env.world name s.cache.thecache
    → OnDisk env.world name content
    → Rising 0 s.cache.file_number s.cache.thecache
    → s.cache.file_number + 1 < 4294967296
    → (s' : Server) × (cl : Client) × (process env addr port
          (rrq name ++ junk)
          (length (rrq name))
          s
        ≡ done (
          s',
          record { to_addr = addr; to_port = port; content = data_packet 1 (chunk content 0) } ∷ [],
        ))
      × (s'.clientlist ≡ cl ∷ s.clientlist)
      × (s'.clientlistcnt ≡ s.clientlistcnt + 1)
      × AtPiece cl s'.cache (length content / segsize + 1) 0 content
unfolding process
process_answers env addr port name junk content s g up room few new m d r h =
    let (c', num, n, read, count, stored) =
      read_static_file-Stores env.world name content s.cache m d r h in
    let st : Stats = count_client (s.clientlistcnt + 1) s.stats in
    let first : Client = started (blank addr port) num n in
    let o : Outcome = sent_outcome env.world (ready 1 first) 1 (chunk content 0) c' st in
    let run =
      first_run env addr port name junk content s.clientlist (s.clientlistcnt + 1) s.cache c' st num
        n g up count stored read in
    (
      record {
        clientlist = o.client ∷ s.clientlist;
        clientlistcnt = s.clientlistcnt + 1;
        cache = o.cache;
        stats = o.stats;
      },
      o.client,
      rw (new, process, room_for s.clientlistcnt env.client_room few room, run),
      refl,
      refl,
      sent-AtPiece env.world first c' st (length content / segsize + 1) 0 content refl count
          (subst (λ k. Stores c' num k content) count stored),
    )
