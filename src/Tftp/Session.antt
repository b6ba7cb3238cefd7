-- ===== src/Tftp/Session.antt =====
-- src/tftpd-tftpd.c: one client's transfer, from the read request to the last acknowledgement.
pub mod Naks
pub mod Sending
pub mod Steps
pub mod Transfer
pub mod Timeouts
pub mod FullBlocks
use docsis_server.Prelude.{
  ℕ, zero, suc, ◌+◌, ◌-◌, ◌*◌, ◌/◌, ◌%◌, Bool, true, false, ◌&&◌, ◌||◌, Option, none, some, List,
  [], ◌∷◌, ◌++◌, ltb, leb, ◌==◌, if◌then◌else◌, get_or, Run, done, fault, ◌>>=◌, bytes,
}
use docsis_server.Tftp.Blocks.{Block, find_block, wire}
use docsis_server.Tftp.Cache.{Cache, World, find_entry, read_block}

-- CP_FREE, CP_TFTP, CP_SENDFILE, CP_RECVFILE, CP_DONE.
pub data Proc : Type 0 where
  cp_free cp_tftp cp_sendfile cp_recvfile cp_done : Proc

-- 0 (fresh from calloc), ST_INIT, ST_SEND, ST_WAITACK, ST_LASTACK.
pub data State : Type 0 where
  st_none st_init st_send st_waitack st_lastack : State

-- struct client without its links. `tp` is the whole receive buffer, if a packet has come. `dp` points into a block of the
-- cache: it is the pair of the file number and the block number, since a file number is never reused
-- and an entry's blocks never change. `retries` is a signed counter that stays at 0 where the code
-- goes on to -1: the client is done then, and nothing reads it again.
pub record Client : Type 0 where
  pub addr : ℕ
  pub port : ℕ
  pub wakeup : ℕ
  pub retries : ℕ
  pub tp : Option (List ℕ)
  pub tpcc : ℕ
  pub dp : Option (ℕ × ℕ)
  pub dpcc : ℕ
  pub proc : Proc
  pub state : State
  pub block : ℕ
  pub fnum : ℕ
  pub maxb : ℕ
  pub dynam : ℕ

-- struct stats.
pub record Stats : Type 0 where
  pub retrans : ℕ
  pub timeout : ℕ
  pub badop : ℕ
  pub errorop : ℕ
  pub badfilename : ℕ
  pub badfilemode : ℕ
  pub wrongblock : ℕ
  pub fileioerror : ℕ
  pub sent : ℕ
  pub maxclients : ℕ

-- `x++` on a u_int32_t.
abbrev pub incr : ℕ → ℕ
incr n = (n + 1) % 4294967296

pub record Datagram : Type 0 where
  pub to_addr : ℕ
  pub to_port : ℕ
  pub content : List ℕ

-- What a handler leaves: the client, the file cache, the statistics and the datagrams it gave to sendto.
pub record Outcome : Type 0 where
  pub client : Client
  pub cache : Cache
  pub stats : Stats
  pub sends : List Datagram

-- The network during one handler: whether sendto takes the whole datagram, and errno otherwise.
pub record Net : Type 0 where
  pub sendto_ok : Bool
  pub errno : ℕ

-- A 16-bit word in network order.
abbrev pub word_at : ℕ → List ℕ → ℕ
word_at i buf = get_or buf i 0 * 256 + get_or buf (i + 1) 0

-- errmsgs, up to its last entry, whose code is 0 again and not negative.
abbrev pub errmsgs : List (ℕ × List ℕ)
errmsgs =
    (0, bytes "Undefined error code")
    ∷ (1, bytes "File not found")
    ∷ (2, bytes "Access violation")
    ∷ (3, bytes "Disk full or allocation exceeded")
    ∷ (4, bytes "Illegal TFTP operation")
    ∷ (5, bytes "Unknown transfer ID")
    ∷ (6, bytes "File already exists")
    ∷ (7, bytes "No such user")
    ∷ (0, [])
    ∷ []

-- The search of nak, which stops at a negative code only: past the last entry it reads on.
unfoldable pub find_msg : ℕ → List (ℕ × List ℕ) → Run (List ℕ)
find_msg code [] = fault
find_msg code ((c, msg) ∷ rest) = if c == code then done msg else find_msg code rest

unfoldable pub error_packet : ℕ → List ℕ → List ℕ
error_packet code msg = 0 ∷ 5 ∷ code % 65536 / 256 ∷ code % 65536 % 256 ∷ msg ++ 0 ∷ []

-- nak: the session is over, and the client is told why.
unfoldable pub nak : Client → Cache → Stats → ℕ → Run Outcome
nak cl c st code = find_msg code errmsgs >>= λ msg. done (record {
  client = record cl { proc = cp_done };
  cache = c;
  stats = st;
  sends = record { to_addr = cl.addr; to_port = cl.port; content = error_packet code msg } ∷ [];
})

abbrev pub quiet : Client → Cache → Stats → Outcome
quiet cl c st = record { client = cl; cache = c; stats = st; sends = [] }

abbrev pub is_waiting : State → Bool
is_waiting st_waitack = true
is_waiting st_lastack = true
is_waiting st_none = false
is_waiting st_init = false
is_waiting st_send = false

abbrev pub is_last : State → Bool
is_last st_lastack = true
is_last st_none = false
is_last st_init = false
is_last st_send = false
is_last st_waitack = false

-- How the packet part of my_sendfile ends: a return, a nak, or going on with `readblock`.
pub data Input : Type 0 where
  over : Client → Stats → Input
  refuse : Client → Stats → ℕ → Input
  proceed : Client → Stats → Bool → Input

abbrev pub next_block : Client → ℕ → Client
next_block cl num = record cl { block = num + 1; state = st_send; wakeup = 0; retries = 6 }

-- A packet that is no ERROR, whatever else it is: its second word is taken for a block number.
unfoldable pub take_ack : Client → Stats → List ℕ → Input
take_ack cl st buf =
    let num = word_at 2 buf in
    if is_waiting cl.state
    then (if ltb cl.maxb num
        then refuse cl st 5
        else if is_last cl.state && num == cl.maxb
        then over (record cl { proc = cp_done }) st
        else proceed (next_block cl num) st true)
    else proceed cl st false

-- `if (tp != NULL) { … }`.
unfoldable pub take_packet : Client → Stats → Input
take_packet cl st = elim cl.tp [
  | none ↦ proceed cl st false
  | some buf ↦
      if word_at 0 buf == 5
      then over (record cl { proc = cp_done }) (record st { errorop = incr st.errorop })
      else take_ack (if word_at 0 buf == 1 then record cl { state = st_init } else cl) st buf
]

-- The time to resend has come.
unfoldable pub is_due : ℕ → Client → Bool
is_due now cl = ltb 0 cl.wakeup && leb cl.wakeup now && is_waiting cl.state

unfoldable pub resend : ℕ → Client → Client
resend now cl = if is_due now cl then record cl { state = st_send } else cl

unfoldable pub count_resend : ℕ → Client → Stats → Stats
count_resend now cl st = if is_due now cl then record st { retrans = incr st.retrans } else st

-- The block of `if (cl->state == ST_INIT)`, with the flag `readblock` after it.
unfoldable pub start : Client → Bool → Client × Bool
start cl readblock = elim cl.state [
  | st_init ↦ (record cl { block = 1; state = st_send; wakeup = 0; retries = 6; dp = none }, true)
  | _ ↦ (cl, readblock)
]

-- What `cl->dp` points at, while it is there.
unfoldable pub deref : Cache → Option (ℕ × ℕ) → Run Block
deref c none = fault
deref c (some (num, blknum)) = elim (find_entry num c.thecache) [
  | none ↦ fault
  | some e ↦ elim (find_block blknum e.thefile) [ none ↦ fault | some b ↦ done b ]
]

-- `sendto` of the block and what follows it.
unfoldable pub transmit : Net → ℕ → Client → Cache → Stats → Run Outcome
transmit net now cl c st = deref c cl.dp >>= λ b.
    if net.sendto_ok
    then done (record {
      client = record cl {
        state = if cl.dpcc == 516 then st_waitack else st_lastack;
        wakeup = now + 2;
      };
      cache = c;
      stats = record st { sent = incr st.sent };
      sends = record { to_addr = cl.addr; to_port = cl.port; content = wire b cl.dpcc } ∷ [];
    })
    else nak cl c st (net.errno + 100)

-- `if (cl->state == ST_SEND) { … }`.
unfoldable pub send : Net → ℕ → Client → Cache → Stats → Run Outcome
send net now cl c st = elim cl.state [
  | st_send ↦
      if cl.retries == 0
      then done (quiet (record cl { proc = cp_done }) c (record st { timeout = incr st.timeout }))
      else transmit net now (record cl { retries = cl.retries - 1 }) c st
  | _ ↦ done (quiet cl c st)
]

abbrev pub io_error : Stats → Stats
io_error st = record st { fileioerror = incr st.fileioerror }

-- What follows `errno = 0` and the call of read_block, which leaves errno alone. A size is negative as
-- an `int` from 2 ^ 31 on.
unfoldable pub fetched : Net → World → Client → Cache → Stats → Option Block → Run Outcome
fetched net w cl c st none = nak cl c (io_error st) 100
fetched net w cl c st (some b) =
    let cl' : Client = record cl { dp = some (cl.fnum, cl.block); dpcc = b.blksize } in
    if ltb b.blksize 2147483648 then send net w.now cl' c st else nak cl' c (io_error st) 100

-- `if (readblock) { … }` and the sending.
unfoldable pub fetch : Net → World → Client → Cache → Stats → Run Outcome
fetch net w cl c st =
    let (c', found) = read_block w cl.fnum cl.block c in fetched net w cl c' st found

-- The rest of my_sendfile, behind the packet.
unfoldable pub continue : Net → World → Client → Cache → Stats → Bool → Run Outcome
continue net w cl c st readblock =
    let st' = count_resend w.now cl st in
    let (cl', reading) = start (resend w.now cl) readblock in
    if reading then fetch net w cl' c st' else send net w.now cl' c st'

-- my_sendfile.
unfoldable pub my_sendfile : Net → World → Client → Cache → Stats → Run Outcome
unfolding take_packet take_ack continue
my_sendfile net w cl c st = elim (take_packet cl st) [
  | over cl' st' ↦ done (quiet cl' c st')
  | refuse cl' st' code ↦ nak cl' c st' code
  | proceed cl' st' readblock ↦ continue net w cl' c st' readblock
]
