-- ===== src/Tests/TftpServer.antt =====
-- Requests and timer rounds of the whole TFTP server at concrete inputs.
use docsis_server.Prelude.{
  ℕ, ◌+◌, ◌/◌, ◌≡◌, refl, true, false, none, some, List, [], ◌∷◌, ◌++◌, length, replicate, arith,
  bytes, done,
}
use docsis_server.Tftp.Blocks.{segsize}
use docsis_server.Tftp.Blocks.Contents.{chunk}
use docsis_server.Tftp.Cache.{Cache, World}
use docsis_server.Tftp.Cache.Lookup.{OnDisk}
use docsis_server.Tftp.Session.{Client, Stats, cp_done, quiet}
use docsis_server.Tftp.Session.Sending.{data_packet}
use docsis_server.Tftp.Session.Transfer.{AtPiece}
use docsis_server.Tftp.Request.{Env, st_mode, strstr, starts_with, tftp}
use docsis_server.Tftp.Request.Refusals.{rrq, asking, tftp-escape}
use docsis_server.Tftp.Server.{
  Server, findclient, process, blank, runclient, rest_of_run, runtimer, timer_loop, freeclient,
}
use docsis_server.Tftp.Server.Clients.{IsCounted, process-IsCounted, runtimer-IsCounted}
use docsis_server.Tftp.Server.FirstBlock.{Granted, process_answers}

abbrev config_name : List ℕ
config_name = bytes "modem.cfg"

abbrev world : World
world = record {
  now = 1000;
  mtime = λ name. some 100;
  contents = λ name. some (replicate 600 7);
  entry_room = true;
  block_room = λ n. true;
  find_modem = λ ip. none;
  gen_config = λ ip. [];
  new_configs = false;
  cache_time = 3600;
  dynam_time = 3600;
}

-- Every path is a regular file that all may read.
abbrev env : Env
env = record {
  net = record { sendto_ok = true; errno = 11 };
  world = world;
  client_room = true;
  status = λ name. st_mode 33188;
  errno_after = 2;
}

abbrev no_stats : Stats
no_stats = record {
  retrans = 0;
  timeout = 0;
  badop = 0;
  errorop = 0;
  badfilename = 0;
  badfilemode = 0;
  wrongblock = 0;
  fileioerror = 0;
  sent = 0;
  maxclients = 0;
}

abbrev empty_cache : Cache
empty_cache = record { thecache = []; file_number = 0 }

-- A client whose session is over.
abbrev finished : Client
finished = record (blank 18 2001) { proc = cp_done; wakeup = 900 }

abbrev server_of : List Client → Server
server_of cls = record {
  clientlist = cls;
  clientlistcnt = length cls;
  cache = empty_cache;
  stats = no_stats;
}

config_status : Granted env config_name
unfolding strstr starts_with
config_status = record {
  plain = ground arith;
  inside = refl;
  mode = 33188;
  found = refl;
  regular = refl;
  readable = refl;
}

on_disk : OnDisk world config_name (replicate 600 7)
on_disk = (refl, refl, λ n. refl)

stranger : findclient 17 2000 [] (server_of (finished ∷ [])).clientlist ≡ none
unfolding findclient
stranger = refl

process_answers_example :
    (s' : Server) × (cl : Client) × (process env 17 2000
        (rrq config_name ++ [])
        (length (rrq config_name))
        (server_of (finished ∷ []))
      ≡ done (
        s',
        record { to_addr = 17; to_port = 2000; content = data_packet 1 (chunk (replicate 600 7) 0) }
            ∷ [],
      ))
    × (s'.clientlist ≡ cl ∷ finished ∷ [])
    × (s'.clientlistcnt ≡ 1 + 1)
    × AtPiece cl s'.cache (length {A = ℕ} (replicate 600 7) / segsize + 1) 0 (replicate 600 7)
process_answers_example =
    process_answers env 17 2000 config_name [] (replicate 600 7) (server_of (finished ∷ []))
      config_status refl refl (omega arith) stranger tt on_disk (omega arith) (omega arith)

abbrev climbing : List ℕ
climbing = bytes "a/" ++ bytes "../" ++ bytes "x"

tftp-escape_example :
    tftp env (asking (blank 17 2000) (rrq climbing) []) empty_cache no_stats
    ≡ done (
        quiet
          (record (asking (blank 17 2000) (rrq climbing) []) { proc = cp_done })
          empty_cache
          no_stats)
tftp-escape_example =
    tftp-escape env (blank 17 2000) empty_cache no_stats (bytes "a/") (bytes "x") [] (ground arith)

-- The finished client is freed when its next packet comes, and when the timer finds it.
freed_by_packet : process env 18 2001 [] 0 (server_of (finished ∷ [])) ≡ done (server_of [], [])
unfolding process findclient runclient rest_of_run freeclient
freed_by_packet = refl

freed_by_timer : runtimer env (server_of (finished ∷ [])) ≡ done (server_of [], [])
unfolding runtimer timer_loop runclient rest_of_run freeclient
freed_by_timer = refl

process-IsCounted_example : IsCounted (server_of [])
process-IsCounted_example =
    process-IsCounted env 18 2001 [] 0 (server_of (finished ∷ [])) (server_of []) []
      (refl, omega arith) freed_by_packet

runtimer-IsCounted_example : IsCounted (server_of [])
runtimer-IsCounted_example =
    runtimer-IsCounted env (server_of (finished ∷ [])) (server_of []) [] (refl, omega arith)
      freed_by_timer
