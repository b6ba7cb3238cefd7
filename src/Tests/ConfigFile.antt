-- ===== src/Tests/ConfigFile.antt =====
-- The file of variables at concrete inputs.
use docsis_server.Prelude.{
  ℕ, ◌≡◌, refl, Bool, true, ◌&&◌, not, ◌==◌, List, [], ◌∷◌, ◌++◌, replicate, arith, done, str_eq,
  bytes,
}
use docsis_server.ConfigFile.{
  get_line, lower, lc, is_space, word, spaces, string_at, value_of, read_item, is_skipped,
  read_items, read_config_file, find_key, get_config_var, my_get_modem_default,
}
use docsis_server.ConfigFile.Written.{
  Entry, All, in_name, line_of, IsEntry, file_of, read_config_file-file_of,
}

abbrev every : (ℕ → Bool) → List ℕ → Bool
every p [] = true
every p (c ∷ cs) = p c && every p cs

every-All : (p : ℕ → Bool) (l : List ℕ) → every p l ≡ true → All p l
every-All p [] h = tt
every-All p (c ∷ cs) h = (ground (arith, h), every-All p cs (ground (arith, h)))

abbrev modem_default : Entry
modem_default = record {
  name = bytes "ModemDefault";
  blank = 32;
  blanks = 9 ∷ [];
  text = bytes "Yes";
}

abbrev interface : Entry
interface = record {
  name = bytes "dhcp-interface";
  blank = 32;
  blanks = [];
  text = bytes "eth0:1 Backup";
}

modem_default-IsEntry : IsEntry modem_default
unfolding is_space is_skipped
modem_default-IsEntry = record {
  named = every-All in_name modem_default.name refl;
  counted = refl;
  parted = refl;
  spaced = (refl, tt);
  valued = every-All (λ c. not (c == 0)) modem_default.text refl;
  trimmed = refl;
  single = every-All (λ c. not (c == 10)) (line_of modem_default) refl;
  short = omega arith;
}

interface-IsEntry : IsEntry interface
unfolding is_space is_skipped
interface-IsEntry = record {
  named = every-All in_name interface.name refl;
  counted = refl;
  parted = refl;
  spaced = tt;
  valued = every-All (λ c. not (c == 0)) interface.text refl;
  trimmed = refl;
  single = every-All (λ c. not (c == 10)) (line_of interface) refl;
  short = omega arith;
}

read_config_file-file_of_example :
    read_config_file (replicate 512 0) (file_of (modem_default ∷ interface ∷ []))
    ≡ done (
        record { key = bytes "modemdefault"; value = bytes "yes" }
        ∷ record { key = bytes "dhcp-interface"; value = bytes "eth0:1 Backup" }
        ∷ [])
unfolding lc lower value_of str_eq
read_config_file-file_of_example =
    read_config_file-file_of (replicate 512 0) (modem_default ∷ interface ∷ [])
      (modem_default-IsEntry, (interface-IsEntry, tt))

modem_default_is_set :
    my_get_modem_default (record { key = bytes "modemdefault"; value = bytes "yes" } ∷ [])
    ≡ done true
unfolding my_get_modem_default get_config_var find_key lc lower str_eq
modem_default_is_set = refl

-- Without a blank the value is what stands behind the terminator.
key_alone_takes_stale :
    read_item (bytes "quiet" ++ (0 ∷ bytes "yes") ++ (0 ∷ []))
    ≡ done (
      record { key = bytes "quiet"; value = bytes "yes" },
      bytes "quiet" ++ (0 ∷ bytes "yes") ++ (0 ∷ []),
    )
unfolding read_item word spaces string_at is_space lc lower value_of str_eq
key_alone_takes_stale = refl

-- The last line has no line end.
last_line_is_dropped : read_config_file (replicate 512 0) (bytes "ModemDefault yes") ≡ done []
unfolding read_config_file read_items get_line
last_line_is_dropped = refl
