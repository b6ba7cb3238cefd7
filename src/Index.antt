-- ===== src/Index.antt =====
-- The binary search that three tables share: my_findMAC_INDEX of src/mysql-cache_dhcp_conf.c,
-- find_Opts_Mac of src/mysql-config_opts.c and my_findModem_INDEX of src/mysql-cache_tftp_conf.c.
pub mod Position
use docsis_server.Prelude.{
  ℕ, zero, suc, ◌+◌, ◌-◌, ◌/◌, Bool, Option, none, some, List, [], ◌∷◌, length, get_elem?, ltb,
  ◌==◌, if◌then◌else◌, Run, done, fault,
}

-- The loop on the indices from `low` on, `n` of them: `high` is `low + n - 1`, which is -1 for an empty
-- table. A read behind the table faults, and so does a lack of fuel.
unfoldable pub index_loop : List ℕ → ℕ → ℕ → ℕ → ℕ → Run (Option ℕ)
index_loop keys key zero low n = if n == 0 then done none else fault
index_loop keys key (suc fuel) low n =
    let half = (n - 1) / 2 in
    let rest = λ (v : ℕ).
      index_loop keys key fuel (if ltb key v then low else low + half + 1)
        (if ltb key v then half else n - 1 - half) in
    if n == 0 then done none else elim (get_elem? keys (low + half)) [
      | none ↦ fault
      | some v ↦ if v == key then done (some (low + half)) else rest v
    ]

-- The search of a whole table: an index, or `none` for -1.
unfoldable pub find_index : List ℕ → ℕ → Run (Option ℕ)
find_index keys key = index_loop keys key (length keys) 0 (length keys)
