-- ===== src/Tftp/ModemTable/Dynamic.antt =====
-- The numbers of dynamic_config_file: a list of numbers is read, other text never.
use mathlib.Core.List.{append_assoc, append-nil}
use docsis_server.Prelude.{
  ℕ, zero, suc, ◌+◌, ◌-◌, ◌*◌, ◌%◌, ◌^◌, ◌≤◌, ◌<◌, ◌≡◌, ◌≢◌, refl, sym, ap, ◌∙◌, subst, Bool, true,
  false, some, List, [], ◌∷◌, ◌++◌, take, length, leb, ◌==◌, if◌then◌else◌, arith, if_all,
  length-append, done,
}
use docsis_server.Strtoul.{
  is_blank, is_digit, skip_blanks, take_sign, digits, unsigned_long, number_at, strtoul,
}
use docsis_server.Tftp.ModemTable.Copies.{take-length, length-kept, query_numbers-numbers}
use docsis_server.Tftp.ModemTable.{
  query_version, query_text, query_name, ModemSettings, SettingsRow, past_comma, kept, ended,
  looping, numbers, scanned, field_number, print_int, query_row, ModemTable, ModemDatabase,
  find_loaded, ask_settings, or_asked, my_find_modem_settings,
}

abbrev pub AreDigits : List ℕ → Type 0
AreDigits [] = Unit {0}
AreDigits (c ∷ cs) = (is_digit c ≡ true) × AreDigits cs

-- The text of a number.
abbrev pub IsNumber : List ℕ → Type 0
IsNumber [] = ⊥
IsNumber (c ∷ cs) = AreDigits (c ∷ cs)

abbrev pub AreNumbers : List (List ℕ) → Type 0
AreNumbers [] = Unit {0}
AreNumbers (p ∷ ps) = IsNumber p × AreNumbers ps

-- The texts with a comma between them.
unfoldable pub joined : List (List ℕ) → List ℕ
joined [] = []
joined (p ∷ []) = p
joined (p ∷ q ∷ ps) = p ++ (44 ∷ joined (q ∷ ps))

-- The number that digits write, after a number in front.
unfoldable pub value_from : ℕ → List ℕ → ℕ
value_from n [] = n
value_from n (c ∷ cs) = value_from (n * 10 + (c - 48)) cs

-- What is kept of it as a u_int32_t.
unfoldable pub cell : List ℕ → ℕ
cell p = unsigned_long false (value_from 0 p) % 2 ^ 32

-- The numbers that are not 0.
unfoldable pub cells : List (List ℕ) → List ℕ
cells [] = []
cells (p ∷ ps) = let rest = cells ps in if cell p == 0 then rest else cell p ∷ rest

-- No digit stands in front.
abbrev Stops : List ℕ → Type 0
Stops rest = (n : ℕ) → digits n rest ≡ (n, rest)

digits-value_from :
    (n : ℕ) (p rest : List ℕ)
    → AreDigits p
    → Stops rest
    → digits n (p ++ rest) ≡ (value_from n p, rest)
unfolding digits value_from
digits-value_from n [] rest h stops = stops n
digits-value_from n (c ∷ cs) rest (h, hs) stops =
    rw (h) (digits-value_from (n * 10 + (c - 48)) cs rest hs stops)

skip_blanks-digit : (c : ℕ) (cs : List ℕ) → is_digit c ≡ true → skip_blanks (c ∷ cs) ≡ c ∷ cs
unfolding skip_blanks is_blank is_digit
skip_blanks-digit c cs h = ground (arith, h)

take_sign-digit : (c : ℕ) (cs : List ℕ) → is_digit c ≡ true → take_sign (c ∷ cs) ≡ (false, c ∷ cs)
unfolding take_sign is_digit
take_sign-digit c cs h = ground (arith, h)

strtoul-IsNumber :
    (p rest : List ℕ)
    → IsNumber p
    → Stops rest
    → strtoul (p ++ rest) ≡ (unsigned_long false (value_from 0 p), rest)
unfolding strtoul number_at
strtoul-IsNumber [] rest h stops = absurd h
strtoul-IsNumber (c ∷ cs) rest h stops =
    rw
      (
        skip_blanks-digit c (cs ++ rest) h.0,
        take_sign-digit c (cs ++ rest) h.0,
        digits-value_from 0 (c ∷ cs) rest h stops,
        h.0,
      )
      refl

kept-cells :
    (ds p : List ℕ) (ps : List (List ℕ)) → kept ds (cell p) ++ cells ps ≡ ds ++ cells (p ∷ ps)
unfolding kept cells
kept-cells ds p ps = go (cell p == 0)
  where
    go :
        (zeroed : Bool)
        → (if zeroed then ds else ds ++ (cell p ∷ [])) ++ cells ps
          ≡ ds ++ (if zeroed then cells ps else cell p ∷ cells ps)
    go true = refl
    go false = append_assoc ds (cell p ∷ []) (cells ps)

-- A round at a number.
numbers-IsNumber :
    (fuel : ℕ) (ds p rest : List ℕ)
    → IsNumber p
    → Stops rest
    → length ds < 100
    → numbers (suc fuel) ds (p ++ rest) ≡ numbers fuel (kept ds (cell p)) (past_comma rest)
unfolding numbers cell
numbers-IsNumber fuel ds [] rest h stops room = absurd h
numbers-IsNumber fuel ds (c ∷ cs) rest h stops room =
    let inside : leb 100 (length ds) ≡ false = ground (arith, room) in
    rw (strtoul-IsNumber (c ∷ cs) rest h stops, inside) refl

nothing-Stops : Stops []
unfolding digits
nothing-Stops n = refl

comma-Stops : (cs : List ℕ) → Stops (44 ∷ cs)
unfolding digits is_digit
comma-Stops cs n = refl

numbers-joined :
    (fuel : ℕ) (ds : List ℕ) (ps : List (List ℕ))
    → AreNumbers ps
    → length ps ≤ fuel
    → length ds + length ps ≤ 100
    → numbers fuel ds (joined ps) ≡ ended (ds ++ cells ps)
unfolding joined numbers past_comma cells
numbers-joined fuel ds [] h enough room = ap ended (sym (append-nil ds))
numbers-joined zero ds (p ∷ ps) h enough room = absurd (omega arith)
numbers-joined (suc fuel) ds (p ∷ []) (h, hs) enough room =
    subst (λ text. numbers (suc fuel) ds text ≡ ended (ds ++ cells (p ∷ []))) (append-nil p)
      (numbers-IsNumber fuel ds p [] h nothing-Stops (omega arith)
        ∙ ap ended (sym (append-nil (kept ds (cell p))) ∙ kept-cells ds p []))
numbers-joined (suc fuel) ds (p ∷ q ∷ ps) (h, hs) enough room =
    numbers-IsNumber fuel ds p (44 ∷ joined (q ∷ ps)) h (comma-Stops (joined (q ∷ ps)))
      (omega arith)
    ∙ numbers-joined fuel (kept ds (cell p)) (q ∷ ps) hs (omega arith)
        (omega (arith, length-kept ds (cell p)))
    ∙ ap ended (kept-cells ds p (q ∷ ps))

length-joined : (ps : List (List ℕ)) → AreNumbers ps → length ps ≤ length (joined ps)
unfolding joined
length-joined [] h = omega arith
length-joined ([] ∷ ps) h = absurd h.0
length-joined ((c ∷ cs) ∷ []) h = omega arith
length-joined ((c ∷ cs) ∷ q ∷ ps) (h, hs) =
    omega (arith, length-joined (q ∷ ps) hs, length-append cs (44 ∷ joined (q ∷ ps)))

length-cells : (ps : List (List ℕ)) → length (cells ps) ≤ length ps
unfolding cells
length-cells [] = omega arith
length-cells (p ∷ ps) =
    if_all (λ (vs : List ℕ). length vs ≤ suc (length ps)) (cell p == 0) (cells ps)
      (cell p ∷ cells ps) (omega (arith, length-cells ps)) (omega (arith, length-cells ps))

query_row-cells :
    (ip : ℕ) (row : SettingsRow) (ps : List (List ℕ)) (a b : List ℕ)
    → row.dynamic_config_file ≡ some (joined ps)
    → row.static_ip ≡ some a
    → row.dynamic_ip ≡ some b
    → AreNumbers ps
    → length (joined ps) < 256
    → length ps ≤ 100
    → (s : ModemSettings) × (query_row ip row ≡ done s) × (s.dynamic ≡ cells ps)
unfolding query_row query_text field_number scanned
query_row-cells ip row ps a b dyn static leased h short few =
    let fits : leb 256 (length (joined ps)) ≡ false = ground (arith, short) in
    let loop =
      query_numbers-numbers (length (joined ps)) [] (joined ps)
      ∙ numbers-joined (length (joined ps)) [] ps h (length-joined ps h) (omega arith) in
    let clamped = take-length 100 (cells ps) (omega (arith, length-cells ps, few)) in
    let x = (strtoul a).0 % 2 ^ 32 in
    let y = (strtoul b).0 % 2 ^ 32 in
    (
      record {
        ipaddr = ip;
        version_flag = query_version row.mce_us_sid;
        dynamic = cells ps;
        static_ip = x;
        dynamic_ip = y;
        config_file = query_name row.config_file;
        dynamic_file = take 298 (joined ps ++ (44 ∷ print_int (x + y)));
      },
      rw (dyn, fits, static, leased, loop, clamped) refl,
      refl,
    )

-- If the load is low, static_ip and dynamic_ip are not NULL, and dynamic_config_file has fewer than
-- 256 bytes and is a list of at most 100 numbers, with a comma between them, the loop over it ends,
-- and the settings hold what a u_int32_t keeps of these numbers, in order, less those of which it
-- keeps 0. A number below 2 ^ 64 is kept modulo 2 ^ 32, a larger one as 2 ^ 32 - 1.
pub my_find_modem_settings-cells :
    (db : ModemDatabase) (t : ModemTable) (ip : ℕ) (row : SettingsRow) (ps : List (List ℕ))
    (a b : List ℕ)
    → db.high_load_flag ≡ false
    → db.row_of ip ≡ some row
    → row.dynamic_config_file ≡ some (joined ps)
    → row.static_ip ≡ some a
    → row.dynamic_ip ≡ some b
    → AreNumbers ps
    → length (joined ps) < 256
    → length ps ≤ 100
    → (s : ModemSettings) × (my_find_modem_settings db ip t ≡ done (some s, t))
      × (s.dynamic ≡ cells ps)
unfolding my_find_modem_settings find_loaded or_asked ask_settings
my_find_modem_settings-cells db t ip row ps a b calm known dyn static leased h short few =
    let (s, made, ds) = query_row-cells ip row ps a b dyn static leased h short few in
    (s, rw (calm, known, made) refl, ds)

-- No digit, no blank, no sign and no comma.
abbrev pub IsOther : ℕ → Type 0
IsOther c = (is_digit c ≡ false) × (is_blank c ≡ false) × (c ≢ 43) × (c ≢ 44) × (c ≢ 45)

strtoul-IsOther : (c : ℕ) (cs : List ℕ) → IsOther c → strtoul (c ∷ cs) ≡ (0, c ∷ cs)
unfolding strtoul number_at skip_blanks take_sign
strtoul-IsOther c cs (d, b, plus, comma, minus) =
    let unsigned : (c == 45) ≡ false = ground (arith, minus) in
    let positive : (c == 43) ≡ false = ground (arith, plus) in rw (b, unsigned, positive, d) refl

-- Where the text starts with neither a digit, a blank, a sign nor a comma, and fewer than 100 numbers
-- are kept so far, the loop never ends: after any number of rounds it stands at the same text.
pub numbers-IsOther :
    (fuel : ℕ) (ds : List ℕ) (c : ℕ) (cs : List ℕ)
    → IsOther c
    → length ds < 100
    → numbers fuel ds (c ∷ cs) ≡ looping ds (c ∷ cs)
unfolding numbers kept past_comma
numbers-IsOther zero ds c cs h room = refl
numbers-IsOther (suc fuel) ds c cs h room =
    let inside : leb 100 (length ds) ≡ false = ground (arith, room) in
    let no_comma : (c == 44) ≡ false = ground (arith, h.3) in
    rw (strtoul-IsOther c cs h, inside, no_comma) (numbers-IsOther fuel ds c cs h room)
