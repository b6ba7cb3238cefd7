-- ===== src/Tests/TftpSession.antt =====
-- Transfers at concrete inputs.
use docsis_server.Prelude.{
  ℕ, ◌<◌, ◌≡◌, refl, true, false, none, some, List, [], ◌∷◌, length, replicate, arith, bytes, done,
  fault,
}
use docsis_server.Tftp.Blocks.{make_block, find_block}
use docsis_server.Tftp.Blocks.Contents.{layout}
use docsis_server.Tftp.Cache.{
  Entry, Cache, World, Modem, find_entry, search_dynamic, read_static_file, read_dynamic_file,
}
use docsis_server.Tftp.Cache.Lookup.{OnDisk}
use docsis_server.Tftp.Session.{
  Client, State, Stats, Outcome, Net, cp_sendfile, cp_done, st_init, st_waitack, my_sendfile,
}
use docsis_server.Tftp.Session.Sending.{Holds, data_packet, datagram}
use docsis_server.Tftp.Session.Transfer.{converse, acks, datagrams, received, transfer_completes}
use docsis_server.Tftp.Session.Timeouts.{Outstanding, silence, silence_ends, timer_dangles}
use docsis_server.Tftp.Download.{granted, static_download}
use docsis_server.Tftp.DynamicDownload.{NewDynamic, dynamic_download, full_dynamic_file_faults}

abbrev config_name : List ℕ
config_name = bytes "modem.cfg"

-- The time is `now`; the disk holds a file of 600 bytes, and the modem's file has 512.
abbrev at_time : ℕ → ℕ → World
at_time now size = record {
  now = now;
  mtime = λ name. some 100;
  contents = λ name. some (replicate 600 7);
  entry_room = true;
  block_room = λ n. true;
  find_modem = λ ip. some (record { ipaddr = ip; dynamic_file = bytes "1,2,3" });
  gen_config = λ ip. replicate size 9;
  new_configs = false;
  cache_time = 3600;
  dynam_time = 3600;
}

abbrev world : ℕ → World
world now = at_time now 512

abbrev modem : Modem
modem = record { ipaddr = 17; dynamic_file = bytes "1,2,3" }

abbrev network : Net
network = record { sendto_ok = true; errno = 11 }

-- A client of file 1 in that state, with that many retries left, that was sent block 1 at 1000.
abbrev client : State → ℕ → Client
client s r = record {
  addr = 17;
  port = 2000;
  wakeup = 1002;
  retries = r;
  tp = none;
  tpcc = 0;
  dp = some (1, 1);
  dpcc = 516;
  proc = cp_sendfile;
  state = s;
  block = 1;
  fnum = 1;
  maxb = 2;
  dynam = 0;
}

abbrev no_stats : Stats
no_stats = record {
  retrans = 0;
  timeout = 0;
  badop = 0;
  errorop = 0;
  badfilename = 0;
  badfilemode = 0;
  wrongblock = 0;
  fileioerror = 0;
  sent = 0;
  maxclients = 0;
}

abbrev stored_entry : Entry
stored_entry = record {
  filenum = 1;
  fname = some config_name;
  dyn_fname = none;
  num_blocks = 2;
  counter = 1;
  readtime = 900;
  statcheck = 900;
  lastaccess = 900;
  thefile = layout 2 0 (replicate 600 7);
}

abbrev empty_cache : Cache
empty_cache = record { thecache = []; file_number = 0 }

abbrev full_cache : Cache
full_cache = record { thecache = stored_entry ∷ []; file_number = 1 }

entry_found : find_entry 1 full_cache.thecache ≡ some stored_entry
unfolding find_entry
entry_found = refl

first_piece : Holds full_cache 1 1 (replicate 512 7)
unfolding find_block layout make_block
first_piece = (stored_entry, entry_found, refl)

on_disk : OnDisk (world 1000) config_name (replicate 600 7)
on_disk = (refl, refl, λ n. refl)

static_download_example :
    (c' : Cache) × (num : ℕ) × (n : ℕ) × (o : Outcome) × (read_static_file
        (world 1000)
        config_name
        empty_cache
      ≡ done (c', some (num, n)))
    × (converse network
          (granted (client st_init 0) num n)
          c'
          no_stats
          ((world 1000, none) ∷ acks 1 (world 1001 ∷ world 1002 ∷ []))
        ≡ done o)
    × (o.client.proc ≡ cp_done)
    × (received o.sends ≡ replicate 600 7)
static_download_example =
    static_download network (world 1000) (world 1000) (world 1001 ∷ world 1002 ∷ []) config_name
      (replicate 600 7) empty_cache (client st_init 0) no_stats tt on_disk (omega arith)
      (omega arith) refl refl refl refl (omega arith)

transfer_completes_example :
    (o : Outcome) × (converse network
        (client st_init 0)
        full_cache
        no_stats
        ((world 1000, none) ∷ acks 1 (world 1001 ∷ world 1002 ∷ []))
      ≡ done o)
    × (o.client.proc ≡ cp_done)
    × (o.sends ≡ datagrams 17 2000 0 2 (replicate 600 7))
    × (received o.sends ≡ replicate 600 7)
transfer_completes_example =
    transfer_completes network (replicate 600 7) 2 (world 1001 ∷ world 1002 ∷ []) (world 1000)
      (client st_init 0) full_cache no_stats refl refl (omega arith) refl refl refl
      (stored_entry, entry_found, refl) refl

none_cached : search_dynamic (bytes "1,2,3") [] ≡ none
unfolding search_dynamic
none_cached = refl

new_dynamic :
    (size : ℕ)
    → 0 < length {A = ℕ} (replicate size 9)
    → NewDynamic (at_time 1000 size) 17 modem (replicate size 9) empty_cache
new_dynamic size some_bytes = record {
  known = refl;
  generated = refl;
  nonempty = some_bytes;
  entry_room = refl;
  block_room = λ n. refl;
  uncached = none_cached;
  rising = omega arith;
  small = omega arith;
}

dynamic_download_example :
    (c' : Cache) × (num : ℕ) × (n : ℕ) × (o : Outcome) × (read_dynamic_file
        (at_time 1000 700)
        17
        empty_cache
      ≡ done (c', some (num, n)))
    × (converse network
          (granted (client st_init 0) num n)
          c'
          no_stats
          ((world 1000, none) ∷ acks 1 (world 1001 ∷ world 1002 ∷ []))
        ≡ done o)
    × (o.client.proc ≡ cp_done)
    × (received o.sends ≡ replicate 700 9)
dynamic_download_example =
    dynamic_download network (at_time 1000 700) (world 1000) (world 1001 ∷ world 1002 ∷ []) 17 modem
      (replicate 700 9) empty_cache (client st_init 0) no_stats (new_dynamic 700 (omega arith))
      (omega arith) refl refl refl refl (omega arith)

full_dynamic_file_faults_example :
    (c' : Cache) × (num : ℕ) × (read_dynamic_file (world 1000) 17 empty_cache
      ≡ done (c', some (num, 1)))
    × (converse network
          (granted (client st_init 0) num 1)
          c'
          no_stats
          ((world 1000, none) ∷ acks 1 (world 1001 ∷ []))
        ≡ fault)
full_dynamic_file_faults_example =
    full_dynamic_file_faults network (world 1000) (world 1000) (world 1001 ∷ []) 17 modem
      (replicate 512 9) 1 empty_cache (client st_init 0) no_stats (new_dynamic 512 (omega arith))
      refl refl refl refl refl

outstanding : Outstanding (client st_waitack 2) full_cache 1 (replicate 512 7)
outstanding = record {
  serving = refl;
  waiting = refl;
  awake = omega arith;
  points = refl;
  size = refl;
  stored = first_piece;
}

silence_ends_example :
    (o : Outcome) × (converse network
        (client st_waitack 2)
        full_cache
        no_stats
        (silence (world 1002 ∷ world 1004 ∷ world 1007 ∷ []))
      ≡ done o)
    × (o.client.proc ≡ cp_done)
    × (o.sends ≡ replicate 2 (datagram (client st_waitack 2) (data_packet 1 (replicate 512 7))))
silence_ends_example =
    silence_ends network (world 1002 ∷ world 1004 ∷ world 1007 ∷ []) (client st_waitack 2)
      full_cache no_stats 1 (replicate 512 7) refl outstanding (omega arith) refl

entry_gone : find_entry 1 empty_cache.thecache ≡ none
unfolding find_entry
entry_gone = refl

timer_dangles_example :
    my_sendfile network (world 1002) (client st_waitack 2) empty_cache no_stats ≡ fault
timer_dangles_example =
    timer_dangles network (world 1002) (client st_waitack 2) empty_cache no_stats
      (omega arith, omega arith, refl) 1 1 (omega arith) refl entry_gone
