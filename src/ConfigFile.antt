-- ===== src/ConfigFile.antt =====
-- src/util_configfile.c: the variables of docsis-server.conf.
pub mod Written
use docsis_server.Prelude.{
  ℕ, zero, suc, ◌+◌, Bool, true, false, ◌&&◌, ◌||◌, List, [], ◌∷◌, ◌++◌, drop, length, ltb, leb,
  ◌==◌, if◌then◌else◌, str_eq, bytes, Run, done, fault, ◌>>=◌,
}

-- A node of my_list.
pub record ConfigList : Type 0 where
  pub key : List ℕ
  pub value : List ℕ

-- get_line, with `room` bytes left: the line, whether it ended at the end of the file, and the rest of
-- the file. A byte that finds no room is lost.
unfoldable pub get_line : ℕ → List ℕ → List ℕ × (Bool × List ℕ)
get_line room [] = ([], (true, []))
get_line zero (c ∷ cs) = ([], (false, cs))
get_line (suc room) (c ∷ cs) =
    let (line, left) = get_line room cs in if c == 10 then ([], (false, cs)) else (c ∷ line, left)

-- line_buf, or what stands in it from a byte on, with a line and its terminator in front.
abbrev pub put_line : List ℕ → List ℕ → List ℕ
put_line line line_buf = line ++ (0 ∷ drop (length line + 1) line_buf)

unfoldable pub lower : ℕ → ℕ
lower c = if leb 65 c && leb c 90 then c + 32 else c

-- lc.
unfoldable pub lc : List ℕ → List ℕ
lc [] = []
lc (c ∷ cs) = lower c ∷ lc cs

unfoldable pub is_space : ℕ → Bool
is_space c = c == 32 || c == 9

-- The bytes up to a blank or the terminator, and those behind it. To run off line_buf is undefined.
unfoldable pub word : List ℕ → Run (List ℕ × List ℕ)
word [] = fault
word (c ∷ cs) =
    let rest = word cs in
    if is_space c || c == 0 then done ([], cs) else (do w ← rest; done (c ∷ w.0, w.1))

unfoldable pub spaces : List ℕ → Run (List ℕ × List ℕ)
spaces [] = fault
spaces (c ∷ cs) =
    let rest = spaces cs in
    if is_space c then (do w ← rest; done (c ∷ w.0, w.1)) else done ([], c ∷ cs)

-- A string and what stands behind its terminator.
unfoldable pub string_at : List ℕ → Run (List ℕ × List ℕ)
string_at [] = fault
string_at (c ∷ cs) =
    let rest = string_at cs in if c == 0 then done ([], cs) else (do w ← rest; done (c ∷ w.0, w.1))

-- `yes`, `y`, `no` and `n` are kept in lower case.
unfoldable pub value_of : List ℕ → List ℕ
value_of cd =
    if str_eq (lc cd) (bytes "yes")
      || str_eq (lc cd) (bytes "y")
      || str_eq (lc cd) (bytes "no")
      || str_eq (lc cd) (bytes "n")
    then lc cd
    else cd

-- The body of the loop of ReadConfigFile: a new node, and line_buf with both parts in lower case. A
-- line without a blank has its value behind its terminator.
unfoldable pub read_item : List ℕ → Run (ConfigList × List ℕ)
read_item line_buf = do
  ck ← word line_buf
  gap ← spaces ck.1
  cd ← string_at gap.1
  done (
    record { key = lc ck.0; value = value_of cd.0 },
    lc ck.0 ++ (0 ∷ (gap.0 ++ (lc cd.0 ++ (0 ∷ cd.1)))),
  )

-- The lines that get_next_line passes over.
unfoldable pub is_skipped : List ℕ → Bool
is_skipped [] = true
is_skipped (c ∷ cs) = c == 35 || c == 0

-- The loop of ReadConfigFile, with the loop of get_next_line in it. A line that ends at the end of the
-- file is dropped.
unfoldable pub read_items : ℕ → List ℕ → List ℕ → Run (List ConfigList)
read_items zero line_buf file = fault
read_items (suc fuel) line_buf file =
    let (line, (at_end, left)) = get_line 500 file in
    let passed = read_items fuel (put_line line line_buf) left in
    if at_end then done [] else if is_skipped line then passed else (do
      item ← read_item (put_line line line_buf)
      items ← read_items fuel item.1 left
      done (item.0 ∷ items))

-- ReadConfigFile, on the bytes of the file and what stands in line_buf at first.
unfoldable pub read_config_file : List ℕ → List ℕ → Run (List ConfigList)
read_config_file line_buf file = read_items (length file + 1) line_buf file

-- The search of my_list: a space if there is no such key.
unfoldable pub find_key : List ℕ → List ConfigList → List ℕ
find_key lckey [] = 32 ∷ []
find_key lckey (x ∷ xs) =
    let rest = find_key lckey xs in if str_eq x.key lckey then x.value else rest

-- GetConfigVar. With no variable my_list is a node without a key, which strcmp reads; a key of 1023
-- bytes or more leaves lckey without a terminator.
unfoldable pub get_config_var : List ℕ → List ConfigList → Run (List ℕ)
get_config_var key [] = fault
get_config_var key (x ∷ xs) =
    if ltb (length key) 1023 then done (find_key (lc key) (x ∷ xs)) else fault

abbrev pub starts_y : List ℕ → Bool
starts_y [] = false
starts_y (c ∷ cs) = c == 121

unfoldable pub my_get_modem_default : List ConfigList → Run Bool
my_get_modem_default xs = do
  retval ← get_config_var (bytes "ModemDefault") xs
  done (starts_y retval)

-- sname has 100 bytes.
unfoldable pub my_check_active_service : List ℕ → List ConfigList → Run Bool
my_check_active_service service xs =
    if ltb 90 (length service)
    then fault
    else do retval ← get_config_var (bytes "activate-" ++ service) xs; done (starts_y retval)
