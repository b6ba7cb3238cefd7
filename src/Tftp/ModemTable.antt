-- ===== src/Tftp/ModemTable.antt =====
-- src/mysql-cache_tftp_conf.c: the settings of a modem, from the table mset or from the database.
pub mod Copies
pub mod Dynamic
pub mod Search
use docsis_server.Prelude.{
  ℕ, zero, suc, ◌+◌, ◌-◌, ◌*◌, ◌/◌, ◌%◌, ◌^◌, Bool, true, false, ◌&&◌, ◌||◌, not, Option, none,
  some, List, [], ◌∷◌, ◌++◌, map, take, length, get_elem?, ltb, leb, ◌==◌, if◌then◌else◌, Run, done,
  fault, ◌>>=◌,
}
use docsis_server.Index.{find_index}
use docsis_server.Strtoul.{strtoul}

abbrev pub modem_ver_v1_0 : ℕ
modem_ver_v1_0 = 2

abbrev pub modem_ver_v1_1 : ℕ
modem_ver_v1_1 = 3

-- `dynamic` holds the num_dyn numbers. `ipaddr` is in network order. static_ip and dynamic_ip are C
-- ints, modulo 2 ^ 32. `config_file` is `none` for an array without a terminator.
pub record ModemSettings : Type 0 where
  pub ipaddr : ℕ
  pub version_flag : ℕ
  pub dynamic : List ℕ
  pub static_ip : ℕ
  pub dynamic_ip : ℕ
  pub config_file : Option (List ℕ)
  pub dynamic_file : List ℕ

-- A row of either query. `ipaddr` is what inet_aton makes of its text; the others but config_file may
-- be NULL.
pub record SettingsRow : Type 0 where
  pub ipaddr : ℕ
  pub mce_us_sid : Option (List ℕ)
  pub config_file : List ℕ
  pub dynamic_config_file : Option (List ℕ)
  pub static_ip : Option (List ℕ)
  pub dynamic_ip : Option (List ℕ)

-- `,` is passed over.
unfoldable pub past_comma : List ℕ → List ℕ
past_comma [] = []
past_comma (c ∷ cs) = if c == 44 then cs else c ∷ cs

-- Only numbers other than 0 are kept in `d`.
unfoldable pub kept : List ℕ → ℕ → List ℕ
kept ds v = if v == 0 then ds else ds ++ (v ∷ [])

-- The loop over `dyn` after some rounds: at its end; behind the 100 cells of `d`, which is undefined;
-- or still at a text.
pub data Scan : Type 0 where
  ended : List ℕ → Scan
  overrun : Scan
  looping : List ℕ → List ℕ → Scan

-- Rounds of the loop, entered with the numbers `d[0]` … `d[x - 1]`.
unfoldable pub numbers : ℕ → List ℕ → List ℕ → Scan
numbers fuel ds [] = ended ds
numbers zero ds (c ∷ cs) = looping ds (c ∷ cs)
numbers (suc fuel) ds (c ∷ cs) =
    let (v, q) = strtoul (c ∷ cs) in
    let rest = numbers fuel (kept ds (v % 2 ^ 32)) (past_comma q) in
    if leb 100 (length ds) then overrun else rest

-- A loop that has not ended after a round for each byte never ends.
unfoldable pub scanned : Scan → Run (List ℕ)
scanned (ended ds) = done ds
scanned overrun = fault
scanned (looping ds p) = fault

-- strtoul of a field, which faults for NULL, as a C int.
unfoldable pub field_number : Option (List ℕ) → Run ℕ
field_number none = fault
field_number (some text) = done ((strtoul text).0 % 2 ^ 32)

-- A mce_us_sid below 0 leaves the field 0.
unfoldable pub version_of : Option (List ℕ) → ℕ
version_of none = modem_ver_v1_0
version_of (some text) =
    let sid = (strtoul text).0 % 2 ^ 32 in
    if sid == 0 then modem_ver_v1_0 else if ltb sid (2 ^ 31) then modem_ver_v1_1 else 0

-- The digits of a number below 10 ^ fuel.
unfoldable pub decimal : ℕ → ℕ → List ℕ
decimal zero n = []
decimal (suc fuel) n =
    let front = decimal fuel (n / 10) in
    if ltb n 10 then (n + 48) ∷ [] else front ++ ((n % 10 + 48) ∷ [])

-- %d of a C int.
unfoldable pub print_int : ℕ → List ℕ
print_int n =
    if ltb (n % 2 ^ 32) (2 ^ 31)
    then decimal 10 (n % 2 ^ 32)
    else 45 ∷ decimal 10 (2 ^ 32 - n % 2 ^ 32)

-- strncpy of dynamic_config_file to `dyn` of 257 bytes: from 256 bytes on its last byte is not set.
unfoldable pub dynamic_text : SettingsRow → Run (List ℕ)
dynamic_text row = elim row.dynamic_config_file [
  | none ↦ fault
  | some text ↦ if ltb (length text) 256 then done text else fault
]

-- The loop of my_Modem_Settings_Load.
unfoldable pub load_row : SettingsRow → Run ModemSettings
load_row row = do
  dyn ← dynamic_text row
  static ← field_number row.static_ip
  leased ← field_number row.dynamic_ip
  ds ← scanned (numbers (length dyn) [] dyn)
  done (record {
    ipaddr = row.ipaddr;
    version_flag = version_of row.mce_us_sid;
    dynamic = ds;
    static_ip = static;
    dynamic_ip = leased;
    config_file = some row.config_file;
    dynamic_file = take (length dyn + 9) (dyn ++ (44 ∷ print_int (static + leased)));
  })

unfoldable pub load_settings : List SettingsRow → Run (List ModemSettings)
load_settings [] = done []
load_settings (row ∷ rows) = do s ← load_row row; rest ← load_settings rows; done (s ∷ rest)

-- my_findModem_Settings reads its row in a copy of this code. Its loop over `dyn`, round by round:
unfoldable pub query_numbers : ℕ → List ℕ → List ℕ → Scan
query_numbers fuel ds [] = ended ds
query_numbers zero ds (c ∷ cs) = looping ds (c ∷ cs)
query_numbers (suc fuel) ds (c ∷ cs) =
    let (v, q) = strtoul (c ∷ cs) in
    let d = v % 2 ^ 32 in
    let rest =
      query_numbers fuel (if not (d == 0) && ltb (length ds) 100 then ds ++ (d ∷ []) else ds)
        (elim q [ [] ↦ [] | x ∷ xs ↦ if x == 44 then xs else x ∷ xs ]) in
    if ltb (length ds) 100 then rest else overrun

unfoldable pub query_version : Option (List ℕ) → ℕ
query_version mce_us_sid =
    let sid : ℕ = elim mce_us_sid [ none ↦ 0 | some text ↦ (strtoul text).0 % 2 ^ 32 ] in
    if sid == 0 then modem_ver_v1_0 else if leb (2 ^ 31) sid then 0 else modem_ver_v1_1

-- strncpy of dynamic_config_file to `dyn` of 256 bytes: from 256 bytes on there is no terminator.
unfoldable pub query_text : Option (List ℕ) → Run (List ℕ)
query_text none = fault
query_text (some text) = if leb 256 (length text) then fault else done text

-- strncpy to the array of 75 bytes, which had only zeros.
unfoldable pub query_name : List ℕ → Option (List ℕ)
query_name text = if ltb (length text) 75 then some text else none

-- What my_findModem_Settings makes of its row.
unfoldable pub query_row : ℕ → SettingsRow → Run ModemSettings
query_row ip row = do
  dyn ← query_text row.dynamic_config_file
  static ← field_number row.static_ip
  leased ← field_number row.dynamic_ip
  ds ← scanned (query_numbers (length dyn) [] dyn)
  done (record {
    ipaddr = ip;
    version_flag = query_version row.mce_us_sid;
    dynamic = take 100 ds;
    static_ip = static;
    dynamic_ip = leased;
    config_file = query_name row.config_file;
    dynamic_file = take 298 (dyn ++ (44 ∷ print_int (static + leased)));
  })

-- mset, `none` for NULL, and old_time.
pub record ModemTable : Type 0 where
  pub mset : Option (List ModemSettings)
  pub old_time : ℕ

-- The clock, High_Load_Flag, and the answers of the database: all rows, `none` for an error, in the
-- ascending order of inet_aton( ipaddr ), and the row of an address.
pub record ModemDatabase : Type 0 where
  pub now : ℕ
  pub high_load_flag : Bool
  pub all_rows : Option (List SettingsRow)
  pub row_of : ℕ → Option SettingsRow

unfoldable pub my_modem_settings_clear : ModemTable → ModemTable
my_modem_settings_clear t = record t { mset = none }

unfoldable pub my_modem_settings_load : ModemDatabase → ModemTable → Run ModemTable
my_modem_settings_load db t =
    let cleared = my_modem_settings_clear (record t { old_time = db.now }) in
    if ltb db.now (t.old_time + 600) then done t else elim db.all_rows [
      | none ↦ done cleared
      | some rows ↦ (do loaded ← load_settings rows; done (record cleared { mset = some loaded }))
    ]

unfoldable pub my_find_modem_index : ℕ → ModemTable → Run (Option ℕ)
my_find_modem_index ip t = elim t.mset [
  | none ↦ done none
  | some settings ↦ find_index (map ModemSettings.ipaddr settings) ip
]

abbrev pub settings_at : ModemTable → Option ℕ → Option ModemSettings
settings_at t none = none
settings_at t (some i) = elim t.mset [ none ↦ none | some settings ↦ get_elem? settings i ]

-- The settings in the table, if any.
unfoldable pub find_loaded :
    ModemDatabase → ℕ → ModemTable → Run (Option ModemSettings × ModemTable)
find_loaded db ip t = if not db.high_load_flag then done (none, t) else do
  t' ← my_modem_settings_load db t
  i ← my_find_modem_index ip t'
  done (settings_at t' i, t')

unfoldable pub ask_settings : ModemDatabase → ℕ → Run (Option ModemSettings)
ask_settings db ip = elim (db.row_of ip) [
  | none ↦ done none
  | some row ↦ (do s ← query_row ip row; done (some s))
]

unfoldable pub or_asked :
    ModemDatabase → ℕ → Option ModemSettings × ModemTable → Run (Option ModemSettings × ModemTable)
or_asked db ip (some s, t) = done (some s, t)
or_asked db ip (none, t) = do asked ← ask_settings db ip; done (asked, t)

-- `none` is NULL.
unfoldable pub my_find_modem_settings :
    ModemDatabase → ℕ → ModemTable → Run (Option ModemSettings × ModemTable)
my_find_modem_settings db ip t = do found ← find_loaded db ip t; or_asked db ip found
