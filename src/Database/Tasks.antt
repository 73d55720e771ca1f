-- ===== src/Database/Tasks.antt =====
-- The statements of the scheduler's tables. A zero time is NULL in `last_run` and `next_run`.
pub mod Laws
use pastebin.Base.{
  ℕ, ◌≡◌, refl, Bool, true, false, List, [], ◌∷◌, ◌++◌, Option, none, some, Bytes, bytes_eq, leb,
  ltb, ◌==◌, if◌then◌else◌, find_where, filter_where, update_where, take,
}
use pastebin.Base.Int.{ℤ, is_positive, pos_part}
use pastebin.Base.Sort.{order_desc}
use pastebin.Database.State.{
  Db, TaskRow, TaskHistory, M, Result, ok, err, after, ◌>>=◌, return, statement,
}

-- What the scheduler hands to the database, and gets back; 0 is the zero time.
pub record TaskState : Type 0 where
  pub task_id : Bytes
  pub task_name : Bytes
  pub schedule : Bytes
  pub last_run : ℕ
  pub last_status : Bytes
  pub last_error : Bytes
  pub next_run : ℕ
  pub run_count : ℕ
  pub fail_count : ℕ
  pub enabled : Bool

abbrev pub to_column : ℕ → Option ℕ
to_column t = if t == 0 then none else some t

abbrev pub of_column : Option ℕ → ℕ
of_column none = 0
of_column (some t) = t

-- COALESCE(old, new)
abbrev pub coalesce : Option ℕ → Option ℕ → Option ℕ
coalesce none new = new
coalesce (some t) new = some t

-- COALESCE(NULLIF(old, ''), new)
abbrev pub coalesce_text : Bytes → Bytes → Bytes
coalesce_text [] new = new
coalesce_text (c ∷ cs) new = c ∷ cs

unfoldable pub new_row : TaskState → TaskRow
new_row t = record {
  task_id = t.task_id;
  task_name = t.task_name;
  schedule = t.schedule;
  last_run = to_column t.last_run;
  last_status = t.last_status;
  last_error = t.last_error;
  next_run = to_column t.next_run;
  run_count = t.run_count;
  fail_count = t.fail_count;
  enabled = t.enabled;
}

-- ON CONFLICT(task_id) DO UPDATE
unfoldable pub merge : TaskState → TaskRow → TaskRow
merge t old = record old {
  task_name = t.task_name;
  schedule = t.schedule;
  last_run = coalesce old.last_run (to_column t.last_run);
  last_status = coalesce_text old.last_status t.last_status;
  last_error = coalesce_text old.last_error t.last_error;
  next_run = coalesce old.next_run (to_column t.next_run);
  enabled = t.enabled;
}

abbrev pub has_task_id : Bytes → TaskRow → Bool
has_task_id id r = bytes_eq r.task_id id

unfoldable pub upsert_row : TaskState → List TaskRow → Option TaskRow → List TaskRow
unfolding new_row merge
upsert_row t rows none = rows ++ new_row t ∷ []
upsert_row t rows (some old) = update_where (has_task_id t.task_id) (merge t) rows

unfoldable pub upsert_scheduler_task : TaskState → M (Unit {0})
unfolding upsert_row
upsert_scheduler_task t = statement λ d.
    (ok tt, record d { tasks = upsert_row t d.tasks (find_where (has_task_id t.task_id) d.tasks) })

unfoldable pub scan_task_state : TaskRow → TaskState
scan_task_state r = record {
  task_id = r.task_id;
  task_name = r.task_name;
  schedule = r.schedule;
  last_run = of_column r.last_run;
  last_status = r.last_status;
  last_error = r.last_error;
  next_run = of_column r.next_run;
  run_count = r.run_count;
  fail_count = r.fail_count;
  enabled = r.enabled;
}

-- `none` is the driver's `sql.ErrNoRows`.
abbrev pub scan_row : Option TaskRow → Option TaskState
scan_row none = none
scan_row (some r) = some (scan_task_state r)

unfoldable pub get_scheduler_task : Bytes → M (Option TaskState)
unfolding scan_task_state
get_scheduler_task id = statement λ d. (ok (scan_row (find_where (has_task_id id) d.tasks)), d)

-- The order of text in SQLite: by bytes.
unfoldable pub lex_leb : Bytes → Bytes → Bool
lex_leb [] ys = true
lex_leb (x ∷ xs) [] = false
lex_leb (x ∷ xs) (y ∷ ys) =
    let rest = lex_leb xs ys in if ltb x y then true else if ltb y x then false else rest

unfoldable pub insert_by_id : TaskState → List TaskState → List TaskState
unfolding lex_leb
insert_by_id t [] = t ∷ []
insert_by_id t (u ∷ us) =
    let rest = insert_by_id t us in if lex_leb t.task_id u.task_id then t ∷ u ∷ us else u ∷ rest

unfoldable pub scan_all : List TaskRow → List TaskState
unfolding insert_by_id scan_task_state
scan_all [] = []
scan_all (r ∷ rs) = insert_by_id (scan_task_state r) (scan_all rs)

unfoldable pub list_scheduler_tasks : M (List TaskState)
unfolding scan_all
list_scheduler_tasks = statement λ d. (ok (scan_all d.tasks), d)

unfoldable pub set_task_enabled : Bytes → Bool → M (Unit {0})
set_task_enabled id enabled = statement λ d. (
  ok tt,
  record d { tasks = update_where (has_task_id id) (λ r. record r { enabled = enabled }) d.tasks },
)

abbrev pub ran : ℕ → Bytes → Bytes → ℕ → ℕ → ℕ → TaskRow → TaskRow
ran last_run status error runs fails next r = record r {
  last_run = some last_run;
  last_status = status;
  last_error = error;
  run_count = runs;
  fail_count = fails;
  next_run = to_column next;
}

unfoldable pub update_task_run : Bytes → ℕ → Bytes → Bytes → ℕ → ℕ → ℕ → M (Unit {0})
update_task_run id last_run status error runs fails next = statement λ d. (
  ok tt,
  record d {
    tasks = update_where (has_task_id id) (ran last_run status error runs fails next) d.tasks;
  },
)

unfoldable pub record_task_history : TaskHistory → M (Unit {0})
record_task_history h = statement λ d. (ok tt, record d { history = d.history ++ h ∷ [] })

unfoldable pub list_task_history : Bytes → ℤ → M (List TaskHistory)
list_task_history id limit = statement λ d. (
  ok (
      take (if is_positive limit then pos_part limit else 20)
        (order_desc (λ h. h.started_at) (filter_where (λ h. bytes_eq h.task_id id) d.history))),
  d,
)
