-- ===== src/Dhcp/QueryOpt.antt =====
-- Query_Opt and Convert_Opt of src/mysql-config_opts.c: an option set from the rows of the database.
pub mod Whole
use docsis_server.Prelude.{
  ℕ, zero, suc, ◌+◌, ◌-◌, ◌*◌, ◌/◌, ◌%◌, ◌^◌, Bool, true, false, ◌&&◌, ◌||◌, not, Option, none,
  some, List, [], ◌∷◌, ◌++◌, take, drop, length, replicate, ltb, leb, ◌==◌, if◌then◌else◌, Run,
  done, fault, ◌>>=◌,
}
use docsis_server.Strtoul.{strtoul, strtol, is_blank}
use docsis_server.Dhcp.Server.{htonl}

-- A row of config_opts or config_opts_macs.
pub record OptRow : Type 0 where
  pub opt_type : ℕ
  pub opt_dtype : ℕ
  pub opt_value : List ℕ
  pub sub_opt : List ℕ

-- The rows of an option set, `none` for an error, by opt_id and hardware address; inet_aton, which
-- gives the four bytes of s_addr, or `none` where it leaves its result unset.
pub record OptDatabase : Type 0 where
  pub opt_rows : ℕ → ℕ → Option (List OptRow)
  pub inet_aton : List ℕ → Option (List ℕ)

-- The type, *len, and as many bytes as it says: the next option is written behind these.
unfoldable pub option_of : ℕ → List ℕ → List ℕ
option_of opt_type bs = opt_type % 256 ∷ length bs % 256 ∷ take (length bs % 256) bs

-- Bytes that inet_aton has not set are undefined.
unfoldable pub address : OptDatabase → List ℕ → Run (List ℕ)
address db text = elim (db.inet_aton text) [ none ↦ fault | some bs ↦ done bs ]

-- The text before a comma, and the text behind it; the search stops at byte 50 in any case, where the
-- first text goes on.
unfoldable pub comma_split : ℕ → List ℕ → List ℕ × List ℕ
comma_split n [] = ([], [])
comma_split zero (c ∷ cs) = if c == 44 then ([], cs) else (c ∷ cs, c ∷ cs)
comma_split (suc n) (c ∷ cs) =
    let (first, second) = comma_split n cs in if c == 44 then ([], cs) else (c ∷ first, second)

-- Where inet_aton leaves the second address unset, the first one is written again.
unfoldable pub two_addresses : OptDatabase → List ℕ × List ℕ → Run (List ℕ)
two_addresses db (first, []) = address db first
two_addresses db (first, c ∷ cs) = do
  a ← address db first
  done (a ++ elim (db.inet_aton (c ∷ cs)) [ none ↦ a | some b ↦ b ])

-- Values of hexadecimal digits.
unfoldable pub hex_digit_value : ℕ → Option ℕ
hex_digit_value c =
    if leb 48 c && leb c 57
    then some (c - 48)
    else if leb 97 c && leb c 102
    then some (c - 87)
    else if leb 65 c && leb c 70
    then some (c - 55)
    else none

-- strtol( smtmp, NULL, 16 ) of two characters, as a char: a sign or a blank may be the first one.
unfoldable pub hex_pair : ℕ → ℕ → ℕ
hex_pair c d =
    let low : ℕ = elim (hex_digit_value d) [ none ↦ 0 | some v ↦ v ] in
    elim (hex_digit_value c) [
      | some u ↦ elim (hex_digit_value d) [ none ↦ u | some v ↦ 16 * u + v ]
      | none ↦ if c == 45 then (256 - low) % 256 else if c == 43 || is_blank c then low else 0
    ]

-- The loop over buff2 from a byte on. Its bound of 300 rounds is beyond the array's 150 pairs.
unfoldable pub hex_bytes : List ℕ → Run (List ℕ)
hex_bytes [] = fault
hex_bytes (c ∷ []) = if c == 0 then done [] else fault
hex_bytes (c ∷ d ∷ cs) =
    let next = hex_bytes (d ∷ cs) in
    let rest = hex_bytes cs in
    if c == 0
    then done []
    else if c == 32 || c == 44
    then next
    else (do bs ← rest; done (hex_pair c d ∷ bs))

unfoldable pub to_dot : List ℕ → List ℕ
to_dot [] = []
to_dot (c ∷ cs) = let rest = to_dot cs in if c == 46 then [] else c ∷ rest

unfoldable pub past_dots : Bool → List ℕ → List ℕ
past_dots seen [] = []
past_dots seen (c ∷ cs) =
    let passed = past_dots true cs in
    let sought = past_dots false cs in if c == 46 then passed else if seen then c ∷ cs else sought

-- OPT_MTAR behind its split. Where the server's name is not empty, `value` has moved when 300 bytes are
-- copied to it, which runs over the end of buff2.
unfoldable pub realm_option : List ℕ × List ℕ → Run (List ℕ)
realm_option ([], realm) =
    let a = to_dot realm in
    let b = to_dot (past_dots false realm) in
    done (
      (3 ∷ 3 ∷ 0 ∷ 0 ∷ 0 ∷ 0 ∷ 0 ∷ 6 ∷ (length realm + 2) % 256 ∷ length a % 256 ∷ a)
      ++ (length b % 256 ∷ (b ++ (0 ∷ []))))
realm_option (c ∷ cs, realm) = fault

-- The bytes behind *len by the OPT_ type, 1 to 13; 10, an option set, is no plain value.
unfoldable pub plain_value : OptDatabase → ℕ → List ℕ → Run (List ℕ)
plain_value db dtype value =
    if dtype == 1
    then address db value
    else if dtype == 2
    then two_addresses db (comma_split 50 value)
    else if dtype == 3
    then done (strtol value % 256 ∷ [])
    else if dtype == 4
    then done ((strtoul value).0 % 256 ∷ [])
    else if dtype == 5
    then done (strtol value / 256 % 256 ∷ strtol value % 256 ∷ [])
    else if dtype == 6
    then done ((strtoul value).0 / 256 % 256 ∷ (strtoul value).0 % 256 ∷ [])
    else if dtype == 7
    then done (htonl (strtol value))
    else if dtype == 8
    then done (htonl (strtoul value).0)
    else if dtype == 9
    then done value
    else if dtype == 11
    then hex_bytes (value ++ replicate (300 - length value) 0)
    else if dtype == 12
    then (do a ← address db value; done (1 ∷ 4 ∷ a))
    else realm_option (comma_split 50 value)

-- A row's text in buff2: a value of 300 bytes or more has no terminator. The first 50 bytes of a sub_opt
-- other than 0 stand in front for OPT_SUBOPT.
unfoldable pub row_text : OptRow → Run (List ℕ)
row_text row =
    let front = take 50 row.sub_opt in
    let behind = if ltb (length row.sub_opt) 50 then [] else drop 50 row.opt_value in
    let copied = row.opt_dtype % 256 == 10 && ltb 0 ((strtoul row.sub_opt).0 % 256) in
    if copied && ltb (length row.sub_opt) 50
    then done front
    else if not (ltb (length row.opt_value) 300)
    then fault
    else if copied
    then done (front ++ behind)
    else done row.opt_value

-- The set behind an OPT_SUBOPT: `none` where Query_Opt returns 0.
unfoldable pub sub_option : ℕ → Option (List ℕ) → List ℕ
sub_option opt_type none = []
sub_option opt_type (some val) = option_of opt_type val

-- Convert_Opt; `query` is Query_Opt for the same hardware address.
unfoldable pub convert_opt :
    OptDatabase → (ℕ → Run (Option (List ℕ))) → ℕ → ℕ → List ℕ → Run (List ℕ)
convert_opt db query opt_type dtype value =
    if dtype == 0 || ltb 13 dtype
    then done []
    else if dtype == 10
    then (do val ← query ((strtoul value).0 % 2 ^ 16); done (sub_option opt_type val))
    else (do bs ← plain_value db dtype value; done (option_of opt_type bs))

-- The loop of Query_Opt.
unfoldable pub convert_rows : OptDatabase → (ℕ → Run (Option (List ℕ))) → List OptRow → Run (List ℕ)
convert_rows db query [] = done []
convert_rows db query (row ∷ rows) = do
  value ← row_text row
  bs ← convert_opt db query row.opt_type (row.opt_dtype % 256) value
  rest ← convert_rows db query rows
  done (bs ++ rest)

-- cfo->val up to cfo->len, a byte. The buffer has 2048 bytes.
unfoldable pub option_set : List ℕ → Run (Option (List ℕ))
option_set [] = done none
option_set (b ∷ bs) =
    if ltb 2048 (length (b ∷ bs))
    then fault
    else done (some (take (length (b ∷ bs) % 256) (b ∷ bs)))

-- Query_Opt, to a depth of `fuel` sets within one another: a set within itself never ends.
unfoldable pub query_opt : ℕ → OptDatabase → ℕ → ℕ → Run (Option (List ℕ))
query_opt zero db opt_id b_mac = fault
query_opt (suc fuel) db opt_id b_mac =
    let rows = λ (rs : List OptRow). convert_rows db (λ sub. query_opt fuel db sub b_mac) rs in
    elim (db.opt_rows opt_id b_mac) [
      | none ↦ done none
      | some rs ↦ (do bs ← rows rs; option_set bs)
    ]
