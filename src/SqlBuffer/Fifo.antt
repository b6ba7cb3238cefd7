-- ===== src/SqlBuffer/Fifo.antt =====
-- The buffer is a queue: statements run in the order they came, and none is lost below the limit.
use mathlib.Core.List.{append_assoc, append-nil}
use docsis_server.Prelude.{
  ℕ, suc, ◌+◌, ◌-◌, ◌≤◌, ◌≡◌, refl, sym, ap, subst, inl, inr, le_cases, ◌∙◌, Bool, false, List, [],
  ◌∷◌, ◌++◌, length, length-append, ltb, if◌then◌else◌, arith, if_all, if_then, if_else, list_split,
  Run, done, fault, ◌>>=◌,
}
use docsis_server.SqlBuffer.{
  enough, Sql, max_bytes, size, save_first, save_next, my_buffer_save, run_query, flushed,
  max_flush, flush_some, flush_sql_updates, save_sql_update,
}

-- The bytes of the statements that wait.
unfoldable pub total : List (List ℕ) → ℕ
total [] = 0
total (q ∷ qs) = size q + total qs

-- The counters tell what waits, and no node lacks its text.
pub record WellFormed (s : Sql) : Type 0 where
  pub whole : s.stub ≡ false
  pub counted : s.buf_cnt ≡ length s.queue
  pub measured : s.buf_bytes ≡ total s.queue

-- All statements that were taken, in order: the abstract queue's history.
unfoldable pub taken : Sql → List (List ℕ)
taken s = s.executed ++ s.queue

-- The run ends well, with this history.
abbrev pub EndsWith : List (List ℕ) → Run Sql → Type 0
EndsWith qs (done s) = WellFormed s × (taken s ≡ qs)
EndsWith qs fault = ⊥

total-append : (xs : List (List ℕ)) (q : List ℕ) → total (xs ++ (q ∷ [])) ≡ total xs + size q
unfolding total
total-append [] q = omega arith
total-append (x ∷ xs) q = omega (arith, total-append xs q)

my_buffer_save-EndsWith :
    (qbuf : List ℕ) (s : Sql)
    → WellFormed s
    → s.buf_bytes ≤ max_bytes
    → EndsWith (taken s ++ (qbuf ∷ [])) (my_buffer_save enough qbuf s)
unfolding my_buffer_save save_first save_next taken total
my_buffer_save-EndsWith qbuf s w room =
    let P = EndsWith (taken s ++ (qbuf ∷ [])) in
    let order = sym (append_assoc s.executed s.queue (qbuf ∷ [])) in
    if_else P (ltb max_bytes s.buf_bytes) (done s) _ (ground (arith, room)) (
      list_split P s.queue (if s.stub then fault else save_first enough qbuf s)
        (λ q qs. done (save_next enough qbuf s))
        (λ e. if_else P s.stub fault (save_first enough qbuf s) w.whole (
          record { whole = w.whole; counted = refl; measured = omega arith },
          ap (λ (l : List (List ℕ)). s.executed ++ (l ++ (qbuf ∷ []))) (sym e) ∙ order,
        ))
        (λ q qs e. (
          record {
            whole = refl;
            counted = omega (arith, w.counted, length-append s.queue (qbuf ∷ []));
            measured = omega (arith, w.measured, total-append s.queue qbuf);
          },
          order,
        )))

flushed-EndsWith :
    (qs : List (List ℕ)) (s : Sql) → s.stub ≡ false → s.executed ≡ qs → EndsWith qs (flushed s)
unfolding flushed taken total
flushed-EndsWith qs s whole e =
    if_else (EndsWith qs) s.stub fault _ whole
      (record { whole = whole; counted = refl; measured = refl }, append-nil s.executed ∙ e)

-- The statement at the front is run.
abbrev after_one : List ℕ → List (List ℕ) → Sql → Sql
after_one q rest s =
    run_query q
      (record s { queue = rest; buf_cnt = s.buf_cnt - 1; buf_bytes = s.buf_bytes - size q })

after_one-WellFormed :
    (q : List ℕ) (rest : List (List ℕ)) (s : Sql)
    → s.queue ≡ q ∷ rest
    → WellFormed s
    → WellFormed (after_one q rest s)
unfolding total
after_one-WellFormed q rest s e w =
    let counted : s.buf_cnt ≡ suc (length rest) = w.counted ∙ ap length e in
    let measured : s.buf_bytes ≡ size q + total rest = w.measured ∙ ap total e in
    record { whole = w.whole; counted = omega (arith, counted); measured = omega (arith, measured) }

flush_some-EndsWith :
    (most n : ℕ) (rest : List (List ℕ)) (s : Sql)
    → s.queue ≡ rest
    → WellFormed s
    → EndsWith (taken s) (flush_some most n rest s)
unfolding flush_some taken total
flush_some-EndsWith most n [] s e w =
    flushed-EndsWith (taken s) s w.whole
      (sym (append-nil s.executed) ∙ ap (◌++◌ s.executed) (sym e))
flush_some-EndsWith most n (q ∷ rest) s e w =
    let s' = after_one q rest s in
    let kept : taken s' ≡ taken s =
      append_assoc s.executed (q ∷ []) rest ∙ ap (◌++◌ s.executed) (sym e) in
    let w' = after_one-WellFormed q rest s e w in
    if_all (EndsWith (taken s)) (ltb most (n + 1)) (done s') (flush_some most (n + 1) rest s')
      (w', kept)
      (subst (λ (qs : List (List ℕ)). EndsWith qs (flush_some most (n + 1) rest s')) kept
        (flush_some-EndsWith most (n + 1) rest s' refl w'))

-- How many statements still wait.
abbrev pub Leaves : ℕ → Run Sql → Type 0
Leaves k (done s) = length s.queue ≡ k
Leaves k fault = ⊥

flush_some-Leaves :
    (most n : ℕ) (rest : List (List ℕ)) (s : Sql)
    → s.stub ≡ false
    → n ≤ most
    → Leaves (length rest - (most + 1 - n)) (flush_some most n rest s)
unfolding flush_some flushed
flush_some-Leaves most n [] s whole h =
    if_else (Leaves (0 - (most + 1 - n))) s.stub fault _ whole (omega arith)
flush_some-Leaves most n (q ∷ rest) s whole h =
    let s' = after_one q rest s in
    let k = length (q ∷ rest) - (most + 1 - n) in
    elim (le_cases n most h) [
      | inl last ↦
          if_then (Leaves k) (ltb most (n + 1)) (done s') (flush_some most (n + 1) rest s')
            (ground (arith, last)) (omega (arith, last))
      | inr more ↦
          if_else (Leaves k) (ltb most (n + 1)) (done s') (flush_some most (n + 1) rest s')
            (ground (arith, more))
            (subst (λ (j : ℕ). Leaves j (flush_some most (n + 1) rest s')) (omega (arith, more))
              (flush_some-Leaves most (n + 1) rest s' whole (omega (arith, more))))
    ]

sub_zero : (n : ℕ) → n - 0 ≡ n
sub_zero n = omega arith

-- Flush_SQL_Updates runs the oldest statements, at most max_flush and one more, in order; what waits
-- stays in order, and the counters and the list stay well-formed.
pub flush_sql_updates-EndsWith :
    (s : Sql)
    → WellFormed s
    → EndsWith (taken s) (flush_sql_updates s)
      × Leaves (length s.queue - (max_flush s + 1)) (flush_sql_updates s)
unfolding flush_sql_updates
flush_sql_updates-EndsWith s w = (
  flush_some-EndsWith (max_flush s) 0 s.queue s refl w,
  subst (λ (k : ℕ). Leaves (length s.queue - k) (flush_some (max_flush s) 0 s.queue s))
      (sub_zero (max_flush s + 1))
      (flush_some-Leaves (max_flush s) 0 s.queue s w.whole (omega arith)),
)

held_flushed :
    (qs : List (List ℕ)) (held : Run Sql)
    → EndsWith qs held
    → EndsWith qs (held >>= λ s. flush_sql_updates s)
held_flushed qs (done s) (w, e) =
    subst (λ (l : List (List ℕ)). EndsWith l (flush_sql_updates s)) e
      (flush_sql_updates-EndsWith s w).0
held_flushed qs fault h = h

-- While memory lasts and the buffer is below its limit, Save_SQL_Update takes each statement, whatever
-- the load and whether the server answers: it runs or waits behind all that came before.
pub save_sql_update-EndsWith :
    (high_load away : Bool) (qbuf : List ℕ) (s : Sql)
    → WellFormed s
    → s.buf_bytes ≤ max_bytes
    → EndsWith (taken s ++ (qbuf ∷ [])) (save_sql_update high_load away enough qbuf s)
unfolding save_sql_update taken
save_sql_update-EndsWith high_load away qbuf s w room =
    let P = EndsWith (taken s ++ (qbuf ∷ [])) in
    let held = my_buffer_save enough qbuf s in
    let kept = my_buffer_save-EndsWith qbuf s w room in
    let flushed_held = held >>= λ s'. flush_sql_updates s' in
    let flush = held_flushed (taken s ++ (qbuf ∷ [])) held kept in
    let at_once : Run Sql = if s.stub then flushed_held else done (run_query qbuf s) in
    let free : Run Sql = elim s.queue [ [] ↦ at_once | q ∷ qs ↦ flushed_held ] in
    let served : P free =
      list_split P s.queue at_once (λ q qs. flushed_held)
        (λ e.
          if_else P s.stub flushed_held (done (run_query qbuf s)) w.whole
            (record { whole = w.whole; counted = w.counted; measured = w.measured }, run_now e))
        (λ q qs e. flush) in
    if_all P high_load held (if away then held else free) kept (if_all P away held free kept served)
  where
    run_now : s.queue ≡ [] → taken (run_query qbuf s) ≡ taken s ++ (qbuf ∷ [])
    run_now e =
        ap (λ (l : List (List ℕ)). (s.executed ++ (qbuf ∷ [])) ++ l) e
        ∙ append-nil (s.executed ++ (qbuf ∷ []))
        ∙ ap (λ (l : List (List ℕ)). l ++ (qbuf ∷ [])) (sym (append-nil s.executed))
        ∙ ap (λ (l : List (List ℕ)). (s.executed ++ l) ++ (qbuf ∷ [])) (sym e)
