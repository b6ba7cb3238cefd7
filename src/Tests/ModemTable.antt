-- ===== src/Tests/ModemTable.antt =====
-- The settings of a modem at concrete inputs.
use docsis_server.Prelude.{
  ℕ, ◌≡◌, refl, false, none, some, [], ◌∷◌, ◌==◌, if◌then◌else◌, arith, done, bytes,
}
use docsis_server.Strtoul.{
  is_blank, is_digit, skip_blanks, take_sign, digits, unsigned_long, number_at, strtoul,
}
use docsis_server.Tftp.ModemTable.{
  ModemSettings, SettingsRow, looping, numbers, decimal, print_int, load_row, query_row, ModemTable,
  ModemDatabase, my_find_modem_index, my_find_modem_settings,
}
use docsis_server.Tftp.ModemTable.Dynamic.{
  joined, cells, cell, value_from, my_find_modem_settings-cells, numbers-IsOther,
}
use docsis_server.Tftp.ModemTable.Search.{load_row-query_row, my_find_modem_index_misses}

abbrev row : SettingsRow
row = record {
  ipaddr = 33554442;
  mce_us_sid = none;
  config_file = bytes "gold.cfg";
  dynamic_config_file = some (bytes "12,0,7");
  static_ip = some (bytes "1");
  dynamic_ip = some (bytes "2");
}

abbrev database : ModemDatabase
database = record {
  now = 1000;
  high_load_flag = false;
  all_rows = none;
  row_of = λ ip. if ip == 33554442 then some row else none;
}

abbrev no_table : ModemTable
no_table = record { mset = none; old_time = 0 }

my_find_modem_settings-cells_example :
    (s : ModemSettings) × (my_find_modem_settings database 33554442 no_table
      ≡ done (some s, no_table))
    × (s.dynamic ≡ 12 ∷ 7 ∷ [])
unfolding cells cell value_from unsigned_long joined is_digit
my_find_modem_settings-cells_example =
    my_find_modem_settings-cells database no_table 33554442 row
      (bytes "12" ∷ bytes "0" ∷ bytes "7" ∷ []) (bytes "1") (bytes "2") refl refl refl refl refl
      ((refl, (refl, tt)), ((refl, tt), ((refl, tt), tt))) (omega arith) (omega arith)

numbers-IsOther_example : numbers 1000 (12 ∷ []) (bytes "x7") ≡ looping (12 ∷ []) (bytes "x7")
unfolding is_digit is_blank
numbers-IsOther_example =
    numbers-IsOther 1000 (12 ∷ []) 120 (bytes "7")
      (refl, refl, omega arith, omega arith, omega arith) (omega arith)

load_row-query_row_example : load_row row ≡ query_row 33554442 row
unfolding print_int decimal strtoul number_at take_sign skip_blanks is_blank is_digit digits
    unsigned_long
load_row-query_row_example =
    load_row-query_row row (bytes "1") (bytes "2") refl refl (omega arith) (omega arith)

-- 10.0.0.2 and 10.0.1.1 in the order of the query; in network order the second one comes first.
abbrev settings : ℕ → ModemSettings
settings ip = record {
  ipaddr = ip;
  version_flag = 2;
  dynamic = [];
  static_ip = 0;
  dynamic_ip = 0;
  config_file = some [];
  dynamic_file = [];
}

misses_10_0_1_1 :
    my_find_modem_index 16842762
      (record { mset = some (settings 33554442 ∷ settings 16842762 ∷ []); old_time = 0 })
    ≡ done none
misses_10_0_1_1 =
    my_find_modem_index_misses (settings 33554442) (settings 16842762) _ refl (omega arith)
