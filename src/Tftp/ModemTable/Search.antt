-- ===== src/Tftp/ModemTable/Search.antt =====
-- The two ways to a modem's settings: the rows of the table, and its search.
use docsis_server.Prelude.{
  ℕ, ◌+◌, ◌%◌, ◌^◌, ◌≤◌, ◌<◌, ◌≡◌, refl, true, false, option_all, none, some, List, [], ◌∷◌, ◌++◌,
  take, length, length-append, ltb, ◌==◌, if◌then◌else◌, arith, IfDone-done, Run, done, fault,
  ◌>>=◌,
}
use docsis_server.Index.{find_index, index_loop}
use docsis_server.Strtoul.{strtoul}
use docsis_server.Tftp.ModemTable.Copies.{
  take-length, query_numbers-numbers, query_version-version_of, query_text-dynamic_text,
  length-numbers,
}
use docsis_server.Tftp.ModemTable.{
  numbers, scanned, query_name, ModemSettings, SettingsRow, field_number, print_int, dynamic_text,
  load_row, query_row, ModemTable, my_find_modem_index,
}

-- What continues a run matters only at its result.
then_same :
    {A B : Type 0} (m : Run A) (f g : A → Run B)
    → ((x : A) → m ≡ done x → f x ≡ g x)
    → (m >>= f) ≡ (m >>= g)
then_same (done x) f g h = h x refl
then_same fault f g h = refl

dynamic_text-length :
    (row : SettingsRow) (dyn : List ℕ) → dynamic_text row ≡ done dyn → length dyn < 256
unfolding dynamic_text
dynamic_text-length row dyn =
    option_all (λ (m : Run (List ℕ)). m ≡ done dyn → length dyn < 256) row.dynamic_config_file fault
      (λ text. if ltb (length text) 256 then done text else fault) (λ e. cc)
      (λ text e. ground (arith, e))

-- The two copies of the code that reads a row make the same settings of it, or fail alike, if
-- static_ip and dynamic_ip are not NULL, config_file has fewer than 75 bytes, and the number of
-- addresses, static_ip + dynamic_ip, at most 8 characters.
pub load_row-query_row :
    (row : SettingsRow) (a b : List ℕ)
    → row.static_ip ≡ some a
    → row.dynamic_ip ≡ some b
    → length row.config_file < 75
    → length (print_int ((strtoul a).0 % 2 ^ 32 + (strtoul b).0 % 2 ^ 32)) ≤ 8
    → load_row row ≡ query_row row.ipaddr row
unfolding load_row query_row field_number query_name dynamic_text
load_row-query_row row a b static leased short few =
    let printed = print_int ((strtoul a).0 % 2 ^ 32 + (strtoul b).0 % 2 ^ 32) in
    let named : ltb (length row.config_file) 75 ≡ true = ground (arith, short) in
    rw (query_text-dynamic_text row, query_version-version_of row.mce_us_sid, static, leased, named)
      (then_same (dynamic_text row) _ _ (λ dyn e.
        let small = dynamic_text-length row dyn e in
        let size = length-append dyn (44 ∷ printed) in
        let whole : take (length dyn + 9) (dyn ++ (44 ∷ printed)) ≡ dyn ++ (44 ∷ printed) =
          take-length (length dyn + 9) (dyn ++ (44 ∷ printed)) (omega (arith, size, few)) in
        let whole' : take 298 (dyn ++ (44 ∷ printed)) ≡ dyn ++ (44 ∷ printed) =
          take-length 298 (dyn ++ (44 ∷ printed)) (omega (arith, size, few, small)) in
        rw (whole, whole', query_numbers-numbers (length dyn) [] dyn)
          (then_same (scanned (numbers (length dyn) [] dyn)) _ _ (λ ds made.
            let few_numbers =
              IfDone-done (λ (vs : List ℕ). length vs ≤ 100) _ ds
                (length-numbers (length dyn) [] dyn (omega arith)) made in
            rw (take-length 100 ds few_numbers) refl))))

-- The first of two rows is the one whose address comes first as a number. If the other one's address
-- comes first in network order, the search misses it.
pub my_find_modem_index_misses :
    (s s' : ModemSettings) (t : ModemTable)
    → t.mset ≡ some (s ∷ s' ∷ [])
    → s'.ipaddr < s.ipaddr
    → my_find_modem_index s'.ipaddr t ≡ done none
unfolding my_find_modem_index find_index index_loop
my_find_modem_index_misses s s' t e h =
    let other : (s.ipaddr == s'.ipaddr) ≡ false = ground (arith, h) in
    let down : ltb s'.ipaddr s.ipaddr ≡ true = ground (arith, h) in rw (e, other, down) refl
