-- ===== src/Dhcp/Options.antt =====
-- src/dhcpd-options.c: how the options field of a packet is written, and how it is walked.
pub mod RoundTrip
use docsis_server.Prelude.{
  ℕ, zero, suc, ◌+◌, ◌-◌, ◌*◌, ◌/◌, ◌%◌, Bool, true, false, ◌&&◌, ◌||◌, Option, none, some, List,
  [], ◌∷◌, ◌++◌, length, take, drop, ltb, leb, ◌==◌, if◌then◌else◌, Run, done, fault, ◌>>=◌,
}

-- MAX_OPTIONS_LENGTH.
abbrev pub max_options_length : ℕ
max_options_length = 768

-- The bytes that were written up to `pp`; `pend` is 768 bytes behind the first one.
abbrev pub init_opt : List ℕ
init_opt = []

-- The argument `datalength` is an unsigned char.
abbrev pub datalength : List ℕ → ℕ
datalength val = length val % 256

-- The bytes of an option: a code alone, or a code, a length and the data.
unfoldable pub option_bytes : ℕ → List ℕ → List ℕ
option_bytes code val =
    if datalength val == 0 then code ∷ [] else code ∷ datalength val ∷ take (datalength val) val

-- addOpt with its data. An option that may not fit is left out.
unfoldable pub add_opt : ℕ → List ℕ → List ℕ → List ℕ
add_opt code val written =
    if ltb (max_options_length - length written) (datalength val + 2)
    then written
    else written ++ option_bytes code val

-- addBigOpt with `opt->val`: the room is not tested, and the write may leave the field.
unfoldable pub add_big_opt : Option (List ℕ) → List ℕ → Run (List ℕ)
add_big_opt none written = done written
add_big_opt (some val) written =
    if ltb (max_options_length - length written) (length val) then fault else done (written ++ val)

-- What DecodeOptions takes down: an option with its data, or one with suboptions (0x2b and 0x52).
pub data Opt : Type 0 where
  plain : ℕ → List ℕ → Opt
  nested : ℕ → List (ℕ × List ℕ) → Opt

abbrev pub push_sub :
    ℕ → List ℕ → Run (List (ℕ × List ℕ) × List ℕ) → Run (List (ℕ × List ℕ) × List ℕ)
push_sub t val (done (subs, rest)) = done ((t, val) ∷ subs, rest)
push_sub t val fault = fault

-- The loop `while (mmCK > 0)` on the bytes from `ino` on, with the counter mmCK, a u_int8_t that may
-- pass below 0. It faults where the code reads behind the field, and without fuel.
unfoldable pub sub_options : ℕ → ℕ → List ℕ → Run (List (ℕ × List ℕ) × List ℕ)
sub_options zero ck bs = fault
sub_options (suc n) ck [] = if ck == 0 then done ([], []) else fault
sub_options (suc n) ck (t ∷ []) = if ck == 0 then done ([], t ∷ []) else fault
sub_options (suc n) ck (t ∷ l ∷ bs) =
    let more = sub_options n ((ck + 512 - 2 - l) % 256) (drop l bs) in
    if ck == 0 then done ([], t ∷ l ∷ bs) else push_sub t (take l bs) more

abbrev pub push_opt : Opt → Run (List Opt) → Run (List Opt)
push_opt o (done os) = done (o ∷ os)
push_opt o fault = fault

-- The options with suboptions.
abbrev pub has_subs : ℕ → Bool
has_subs t = t == 43 || t == 82

-- How far `ino` goes on behind the length byte: one byte for a pad option and for the message type,
-- whatever the length says.
abbrev pub advance : ℕ → ℕ → ℕ
advance t l = if t == 0 || t == 53 then 1 else l

-- The codes whose data is copied with a size of its own, whatever the length says: the requested
-- address, the message type and the server's address.
abbrev pub is_fixed : ℕ → Bool
is_fixed t = t == 50 || t == 53 || t == 54

abbrev pub data_size : ℕ → ℕ → ℕ
data_size t l = if t == 53 then 1 else if t == 50 || t == 54 then 4 else l

-- The codes that have a field in packet_opts. All others are passed over.
abbrev pub is_noted : ℕ → Bool
is_noted t =
    t == 12 || t == 50 || t == 53 || t == 54 || t == 55 || t == 57 || t == 60 || t == 61 || t == 81

-- In a host name all but digits and letters become `-`, up to a zero byte.
abbrev pub host_char : ℕ → ℕ
host_char c =
    if ltb c 48 || (leb 58 c && leb c 64) || (leb 91 c && leb c 96) || leb 123 c then 45 else c

unfoldable pub host_name : List ℕ → List ℕ
host_name [] = []
host_name (c ∷ cs) = let rest = host_name cs in if c == 0 then c ∷ cs else host_char c ∷ rest

abbrev pub noted_value : ℕ → List ℕ → List ℕ
noted_value t val = if t == 12 then host_name val else val

abbrev pub note : ℕ → List ℕ → Run (List Opt) → Run (List Opt)
note t val r = if is_noted t then push_opt (plain t (noted_value t val)) r else r

-- The suboptions with a field.
abbrev pub is_noted_sub : ℕ → ℕ → Bool
is_noted_sub t sub = if t == 43 then leb 4 sub && leb sub 10 else sub == 1 || sub == 2

unfoldable pub noted_subs : ℕ → List (ℕ × List ℕ) → List (ℕ × List ℕ)
noted_subs t [] = []
noted_subs t ((sub, val) ∷ subs) =
    let rest = noted_subs t subs in if is_noted_sub t sub then (sub, val) ∷ rest else rest

-- The copy of a fixed size may read behind the field.
abbrev pub read_data : ℕ → ℕ → List ℕ → Run (List Opt) → Run (List Opt)
read_data t l bs r =
    if is_fixed t && ltb (length bs) (data_size t l)
    then fault
    else note t (take (data_size t l) bs) r

-- The walk of DecodeOptions from `ino` on. The length behind the last code is read in any case. It
-- faults where the code reads behind the field, and without fuel.
unfoldable pub walk : ℕ → List ℕ → Run (List Opt)
walk zero bs = fault
walk (suc n) [] = done []
walk (suc n) (t ∷ []) = fault
walk (suc n) (t ∷ l ∷ bs) =
    let simple = read_data t l bs (walk n (drop (advance t l) bs)) in
    let deep =
      sub_options (length bs + 1) (if ltb (length bs) l then length bs else l) bs
      >>= λ (subs, rest). push_opt (nested t (noted_subs t subs)) (walk n rest) in
    if t == 255 then done [] else (if has_subs t then deep else simple)

-- DecodeOptions: each round of the walk takes two bytes at least.
unfoldable pub decode_options : List ℕ → Run (List Opt)
decode_options bs = walk (length bs + 1) bs
