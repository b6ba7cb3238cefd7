-- ===== src/Tests/QueryOpt.antt =====
-- Option sets of the database at concrete inputs.
use docsis_server.Prelude.{
  ℕ, ◌≡◌, refl, none, some, List, [], ◌∷◌, ◌==◌, if◌then◌else◌, done, fault, bytes,
}
use docsis_server.Strtoul.{
  strtoul, skip_blanks, take_sign, digits, is_blank, is_digit, number_at, unsigned_long,
}
use docsis_server.Dhcp.QueryOpt.{
  OptRow, OptDatabase, option_of, address, comma_split, two_addresses, hex_digit_value, hex_pair,
  hex_bytes, realm_option, plain_value, row_text, sub_option, convert_opt, convert_rows, option_set,
  query_opt,
}

abbrev opt_row : ℕ → ℕ → List ℕ → OptRow
opt_row opt_type dtype value = record {
  opt_type = opt_type;
  opt_dtype = dtype;
  opt_value = value;
  sub_opt = bytes "0";
}

-- Set 7 has a port, a text and set 8, which has bytes; set 9 has set 9.
abbrev sets : OptDatabase
sets = record {
  opt_rows = λ opt_id mac.
      if opt_id == 7
      then some
          (opt_row 42 6 (bytes "258") ∷ opt_row 12 9 (bytes "cm") ∷ opt_row 43 10 (bytes "8") ∷ [])
      else if opt_id == 8
      then some (opt_row 1 11 (bytes "0a,fF") ∷ [])
      else if opt_id == 9
      then some (opt_row 43 10 (bytes "9") ∷ [])
      else none;
  inet_aton = λ text. none;
}

set_7 :
    query_opt 2 sets 7 0
    ≡ done (some (42 ∷ 2 ∷ 1 ∷ 2 ∷ 12 ∷ 2 ∷ 99 ∷ 109 ∷ 43 ∷ 4 ∷ 1 ∷ 2 ∷ 10 ∷ 255 ∷ []))
unfolding query_opt option_set convert_rows convert_opt sub_option row_text plain_value hex_bytes
    hex_pair hex_digit_value option_of strtoul number_at skip_blanks take_sign digits is_blank
    is_digit unsigned_long
set_7 = refl

-- The realm alone is written; a server's name runs over the end of the buffer.
realm_alone :
    plain_value sets 13 (bytes ",B.1")
    ≡ done (3 ∷ 3 ∷ 0 ∷ 0 ∷ 0 ∷ 0 ∷ 0 ∷ 6 ∷ 5 ∷ 1 ∷ 66 ∷ 1 ∷ 49 ∷ 0 ∷ [])
unfolding plain_value realm_option comma_split docsis_server.Dhcp.QueryOpt.to_dot
    docsis_server.Dhcp.QueryOpt.past_dots
realm_alone = refl

server_overruns : plain_value sets 13 (bytes "a.b.c,B.1") ≡ fault
unfolding plain_value realm_option comma_split
server_overruns = refl
