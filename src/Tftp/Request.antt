-- ===== src/Tftp/Request.antt =====
-- src/tftpd-tftpd.c: a read request, from its bytes to the file that is granted.
pub mod Refusals
use docsis_server.Prelude.{
  ℕ, zero, suc, ◌+◌, ◌-◌, ◌*◌, ◌/◌, ◌%◌, Bool, true, false, ◌&&◌, ◌||◌, Option, none, some, List,
  [], ◌∷◌, ◌++◌, length, take, drop, ltb, leb, ◌==◌, if◌then◌else◌, Run, done, fault, ◌>>=◌, bytes,
  str_eq,
}
use docsis_server.Tftp.Cache.{Cache, World, Found, read_static_file, read_dynamic_file}
use docsis_server.Tftp.Session.{
  Client, Stats, Outcome, Net, Datagram, Proc, State, cp_free, cp_tftp, cp_sendfile, cp_recvfile,
  cp_done, st_none, st_init, incr, word_at, nak, quiet, my_sendfile,
}

-- stat on a path: ENOENT, another error, or st_mode.
pub data Status : Type 0 where
  absent failed : Status
  st_mode : ℕ → Status

-- What the handlers ask of the world beyond the file cache: the network, whether the calloc of a
-- client succeeds, stat, and errno once read_dynamic_file has found nothing.
pub record Env : Type 0 where
  pub net : Net
  pub world : World
  pub client_room : Bool
  pub status : List ℕ → Status
  pub errno_after : ℕ

-- `*cp2++ = *cp++` up to a NUL byte: the string and what follows its NUL, or `none` at the packet's end.
unfoldable pub until_nul : List ℕ → Option (List ℕ × List ℕ)
until_nul [] = none
until_nul (c ∷ cs) =
    let rest = until_nul cs in
    if c == 0
    then some ([], cs)
    else (elim rest [ none ↦ none | some (name, more) ↦ some (c ∷ name, more) ])

abbrev pub skip_slash : List ℕ → List ℕ
skip_slash [] = []
skip_slash (c ∷ cs) = if c == 47 then cs else c ∷ cs

abbrev pub lower : ℕ → ℕ
lower c = if leb 65 c && leb c 90 then c + 32 else c

unfoldable pub lower_all : List ℕ → List ℕ
lower_all [] = []
lower_all (c ∷ cs) = lower c ∷ lower_all cs

-- strcasecmp(mode, "octet") == 0.
abbrev pub is_octet : List ℕ → Bool
is_octet mode = str_eq (lower_all mode) (bytes "octet")

unfoldable pub starts_with : List ℕ → List ℕ → Bool
starts_with [] s = true
starts_with (c ∷ cs) [] = false
starts_with (c ∷ cs) (d ∷ ds) = c == d && starts_with cs ds

-- strstr(s, needle) != NULL.
unfoldable pub strstr : List ℕ → List ℕ → Bool
strstr [] needle = starts_with needle []
strstr (c ∷ cs) needle = starts_with needle (c ∷ cs) || strstr cs needle

-- How validate_access ends: its code (0 for leave to read), the client and the cache.
pub record Access : Type 0 where
  pub ecode : ℕ
  pub client : Client
  pub cache : Cache

abbrev pub refused : ℕ → Client → Cache → Access
refused code cl c = record { ecode = code; client = cl; cache = c }

-- EACCESS and ENOTFOUND of <arpa/tftp.h>, and ENOENT.
abbrev pub eaccess : ℕ
eaccess = 2

abbrev pub enotfound : ℕ
enotfound = 1

abbrev pub enoent : ℕ
enoent = 2

-- (st_mode & S_IFMT) == S_IFREG.
abbrev pub is_regular : ℕ → Bool
is_regular m = m / 4096 % 16 == 8

-- (st_mode & S_IROTH) != 0.
abbrev pub is_readable : ℕ → Bool
is_readable m = m / 4 % 2 == 1

abbrev pub gave_static : Client → Cache × Found → Run Access
gave_static cl (c, none) = done (refused eaccess cl c)
gave_static cl (c, some (num, n)) =
    done (record { ecode = 0; client = record cl { fnum = num; maxb = n }; cache = c })

abbrev pub gave_dynamic : Env → Client → Cache × Found → Run Access
gave_dynamic env cl (c, none) =
    done (refused (if env.errno_after == enoent then enotfound else eaccess) cl c)
gave_dynamic env cl (c, some (num, n)) =
    done (record { ecode = 0; client = record cl { fnum = num; maxb = n; dynam = 1 }; cache = c })

unfoldable pub validate_access : Env → Client → List ℕ → Cache → Run Access
validate_access env cl file c =
    if strstr file (bytes "/../") || strstr file (bytes "../")
    then done (refused eaccess cl c)
    else elim (env.status file) [
      | absent ↦ read_dynamic_file env.world cl.addr c >>= gave_dynamic env cl
      | failed ↦ done (refused eaccess cl c)
      | st_mode m ↦
          if is_regular m
          then (if is_readable m
              then read_static_file env.world file c >>= gave_static cl
              else done (refused eaccess cl c))
          else done (refused enotfound cl c)
    ]

abbrev pub bad_name : Stats → Stats
bad_name st = record st { badfilename = incr st.badfilename }

abbrev pub bad_mode : Stats → Stats
bad_mode st = record st { badfilemode = incr st.badfilemode }

-- What tftp makes of validate_access's answer.
unfoldable pub admit : Stats → Access → Run Outcome
admit st a =
    if a.ecode == 0
    then done (
        quiet (record a.client { state = st_init; tp = none; tpcc = 0; proc = cp_sendfile }) a.cache
          st)
    else done (quiet (record a.client { proc = cp_done }) a.cache st)

-- A request whose file name has been cut off.
unfoldable pub take_mode : Env → Client → Cache → Stats → List ℕ → List ℕ → Run Outcome
take_mode env cl c st file rest = elim (until_nul rest) [
  | none ↦ nak cl c (bad_mode st) 4
  | some (mode, more) ↦
      if is_octet mode then validate_access env cl file c >>= admit st else nak cl c (bad_mode st) 4
]

-- The bytes of the packet behind its opcode.
abbrev pub body : Client → List ℕ → List ℕ
body cl buf = drop 2 (take cl.tpcc buf)

unfoldable pub take_request : Env → Client → Cache → Stats → List ℕ → Run Outcome
take_request env cl c st req =
    if ltb 4096 (length req) then nak cl c (bad_name st) 4 else elim (until_nul (skip_slash req)) [
      | none ↦ nak cl c (bad_name st) 4
      | some (file, rest) ↦ take_mode env cl c st file rest
    ]

-- tftp. Without a packet it would follow a null pointer.
unfoldable pub tftp : Env → Client → Cache → Stats → Run Outcome
tftp env cl c st = elim cl.tp [
  | none ↦ fault
  | some buf ↦
      if word_at 0 buf == 1 then take_request env cl c st (body cl buf) else done (quiet cl c st)
]
