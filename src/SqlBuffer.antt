-- ===== src/SqlBuffer.antt =====
-- src/mysql-utilities.c: the buffer that holds statements back while the database is busy or away.
pub mod Fifo
use docsis_server.Prelude.{
  ℕ, zero, suc, ◌+◌, ◌-◌, ◌*◌, ◌/◌, Bool, true, false, ◌&&◌, not, List, [], ◌∷◌, ◌++◌, length, ltb,
  if◌then◌else◌, Run, done, fault, ◌>>=◌,
}

-- How the two calls of calloc of my_buffer_save end: with memory, without memory for the node, or without
-- memory for its text.
pub data Memory : Type 0 where
  enough no_node no_text : Memory

-- The list from `buffer` to `end_buf`, and whether a node without a text hangs behind it; the counters;
-- and the statements that were given to mysql_query, in order.
pub record Sql : Type 0 where
  pub queue : List (List ℕ)
  pub stub : Bool
  pub buf_cnt : ℕ
  pub buf_bytes : ℕ
  pub executed : List (List ℕ)

abbrev pub max_bytes : ℕ
max_bytes = 30 * 1024 * 1024

-- strlen( qbuf ) + 1.
abbrev pub size : List ℕ → ℕ
size qbuf = length qbuf + 1

-- The first node of an empty list. A node without a text is already the list's head, but end_buf is not
-- set: the next call writes through it.
unfoldable pub save_first : Memory → List ℕ → Sql → Run Sql
save_first enough qbuf s = done (record s { queue = qbuf ∷ []; buf_cnt = 1; buf_bytes = size qbuf })
save_first no_node qbuf s = done s
save_first no_text qbuf s = done (record s { stub = true })

-- A node behind the last. One without a text that hangs there is lost.
unfoldable pub save_next : Memory → List ℕ → Sql → Sql
save_next enough qbuf s = record s {
  queue = s.queue ++ (qbuf ∷ []);
  stub = false;
  buf_cnt = s.buf_cnt + 1;
  buf_bytes = s.buf_bytes + size qbuf;
}
save_next no_node qbuf s = record s { stub = false }
save_next no_text qbuf s = record s { stub = true }

-- my_buffer_save.
unfoldable pub my_buffer_save : Memory → List ℕ → Sql → Run Sql
my_buffer_save mem qbuf s = if ltb max_bytes s.buf_bytes then done s else elim s.queue [
  | [] ↦ if s.stub then fault else save_first mem qbuf s
  | q ∷ qs ↦ done (save_next mem qbuf s)
]

-- mysql_query.
abbrev pub run_query : List ℕ → Sql → Sql
run_query q s = record s { executed = s.executed ++ (q ∷ []) }

-- The end of both flushes. A node without a text was given to mysql_query before.
unfoldable pub flushed : Sql → Run Sql
flushed s = if s.stub then fault else done (record s { queue = []; buf_cnt = 0; buf_bytes = 0 })

unfoldable pub flush_all : List (List ℕ) → Sql → Run Sql
flush_all [] s = flushed s
flush_all (q ∷ qs) s = flush_all qs (run_query q (record s { queue = qs; buf_cnt = s.buf_cnt - 1 }))

-- Flush_ALL_SQL_Updates.
unfoldable pub flush_all_sql_updates : Sql → Run Sql
flush_all_sql_updates s = flush_all s.queue s

unfoldable pub max_flush : Sql → ℕ
max_flush s =
    let quarter = s.buf_cnt / 4 in
    if ltb quarter 500 then 500 else if ltb 1000 quarter then 1000 else quarter

-- The loop of Flush_SQL_Updates, after `flushcc` statements: it returns behind the limit.
unfoldable pub flush_some : ℕ → ℕ → List (List ℕ) → Sql → Run Sql
flush_some most flushcc [] s = flushed s
flush_some most flushcc (q ∷ qs) s =
    let s' =
      run_query q
        (record s { queue = qs; buf_cnt = s.buf_cnt - 1; buf_bytes = s.buf_bytes - size q }) in
    let rest = flush_some most (flushcc + 1) qs s' in
    if ltb most (flushcc + 1) then done s' else rest

-- Flush_SQL_Updates.
unfoldable pub flush_sql_updates : Sql → Run Sql
flush_sql_updates s = flush_some (max_flush s) 0 s.queue s

-- Save_SQL_Update: under high load, or without the server, the statement is held back; else it goes
-- behind those that wait, or is run at once.
unfoldable pub save_sql_update : Bool → Bool → Memory → List ℕ → Sql → Run Sql
save_sql_update high_load away mem qbuf s =
    let held = my_buffer_save mem qbuf s in
    if high_load then held else if away then held else elim s.queue [
      | [] ↦ if s.stub then (do s' ← held; flush_sql_updates s') else done (run_query qbuf s)
      | q ∷ qs ↦ (do s' ← held; flush_sql_updates s')
    ]
