-- ===== src/Scheduler/Execute.antt =====
-- src/scheduler/scheduler.go: `execute` behind the task function, `loadState`, `Start` and `Stop`.
use pastebin.Base.{
  ℕ, ◌+◌, ◌-◌, ◌*◌, ◌/◌, ◌%◌, ◌^◌, Bool, true, false, not, ◌&&◌, List, [], ◌∷◌, Option, none, some,
  Bytes, bytes_eq, ltb, ◌==◌, if◌then◌else◌, find_where, update_where, map,
}
use pastebin.Base.Int.{add_duration}
use pastebin.Database.State.{Db, TaskHistory, Result, ok, err}
use pastebin.Database.Tasks.{TaskState, list_scheduler_tasks, update_task_run, record_task_history}
use pastebin.Scheduler.{
  Schedule, Entry, Scheduler, Outcome, success, failed, interrupted, has_id, tell, persist_state,
  run_missed,
}

-- `base << attempt` on 64 bits.
unfoldable pub shift_left : ℕ → ℕ → ℕ
shift_left base attempt = (base * 2 ^ attempt) % 2 ^ 64

abbrev pub may_retry : Entry → Bool
may_retry e = e.retry_on_fail && ltb e.retry_attempt e.retry_max

abbrev pub error_text : Option Bytes → Bytes
error_text none = []
error_text (some message) = message

-- The entry after a run, with the error message of a run that failed.
unfoldable pub finish : ℕ → ℕ → Option Bytes → Entry → Entry
unfolding shift_left add_duration
finish start finished none e = record e {
  last_run = start;
  last_status = success;
  last_error = [];
  run_count = e.run_count + 1;
  retry_attempt = 0;
  next_run = e.schedule.next finished;
}
finish start finished (some message) e =
    let e' = record e {
      last_run = start;
      last_status = failed;
      last_error = message;
      fail_count = e.fail_count + 1;
    } in
    if may_retry e
    then record e' {
      next_run = add_duration finished (shift_left e.retry_base e.retry_attempt);
      retry_attempt = e.retry_attempt + 1;
    }
    else record e' { next_run = e.schedule.next finished; retry_attempt = 0 }

abbrev pub history_of : ℕ → ℕ → Entry → TaskHistory
history_of start finished e = record {
  task_id = e.id;
  started_at = start;
  finished_at = finished;
  status = e.last_status;
  error_msg = e.last_error;
  duration_ms = (finished - start) / 1_000_000;
}

unfoldable pub store_run : ℕ → ℕ → Entry → Option Db → Option Db
store_run start finished e db = tell (record_task_history (history_of start finished e)) (
    tell
      (update_task_run e.id e.last_run e.last_status e.last_error e.run_count e.fail_count
        e.next_run)
      db)

abbrev pub will_retry : Option Bytes → Entry → Bool
will_retry none e = false
will_retry (some message) e = may_retry e

-- What the notifier hears of a run of the first entry that left the second.
abbrev pub outcome_of : ℕ → ℕ → Option Bytes → Entry → Entry → Outcome
outcome_of start finished failure e e' = record {
  task_id = e.id;
  task_name = e.name;
  status = e'.last_status;
  error = e'.last_error;
  started_at = start;
  finished_at = finished;
  next_run = e'.next_run;
  attempt = e.retry_attempt;
  will_retry = will_retry failure e;
}

abbrev pub run_result : ℕ → ℕ → Option Bytes → Scheduler → Entry → Scheduler × Option Outcome
run_result start finished failure s e =
    let e' = finish start finished failure e in
    (
      record s {
        tasks = update_where (has_id e.id) (finish start finished failure) s.tasks;
        db = store_run start finished e' s.db;
      },
      if s.has_notifier then some (outcome_of start finished failure e e') else none,
    )

abbrev pub run_found : ℕ → ℕ → Option Bytes → Scheduler → Option Entry → Scheduler × Option Outcome
run_found start finished failure s none = (s, none)
run_found start finished failure s (some e) = run_result start finished failure s e

-- `execute` from where the task function has returned.
unfoldable pub execute : ℕ → ℕ → Option Bytes → Bytes → Scheduler → Scheduler × Option Outcome
unfolding finish store_run
execute start finished failure id s =
    run_found start finished failure s (find_where (has_id id) s.tasks)

abbrev pub end_run : Entry → Entry
end_run e = record e { running = false }

-- The end of the goroutine: the task is no longer running.
unfoldable pub clear_running : Bytes → Scheduler → Scheduler
clear_running id s = record s { tasks = update_where (has_id id) end_run s.tasks }

abbrev pub first_run : ℕ → Schedule → ℕ → ℕ
first_run now schedule last_run =
    if last_run == 0 then schedule.next now else schedule.next last_run

-- An entry merged with what the database holds of it.
unfoldable pub restore : ℕ → Option TaskState → Entry → Entry
restore now none e = record e { next_run = e.schedule.next now }
restore now (some t) e = record e {
  last_run = t.last_run;
  last_status = t.last_status;
  last_error = t.last_error;
  run_count = t.run_count;
  fail_count = t.fail_count;
  next_run = first_run now e.schedule t.last_run;
}

unfoldable pub restore_all : ℕ → List TaskState → List Entry → Option Db → List Entry × Option Db
unfolding restore persist_state
restore_all now stored [] db = ([], db)
restore_all now stored (e ∷ es) db =
    let e' = restore now (find_where (λ t. bytes_eq t.task_id e.id) stored) e in
    let rest = restore_all now stored es (persist_state e' db) in (e' ∷ rest.0, rest.1)

-- A listing that fails counts as an empty one.
abbrev pub stored_states : Result (List TaskState) → List TaskState
stored_states (ok ts) = ts
stored_states (err e) = []

abbrev pub restored : Scheduler → List Entry × Option Db → Scheduler
restored s r = record s { tasks = r.0; db = r.1 }

-- Without a database every task is due from now on.
abbrev pub load_from : ℕ → Scheduler → Option Db → Scheduler
load_from now s none = record s { tasks = map (restore now none) s.tasks }
load_from now s (some d) =
    let r = list_scheduler_tasks d in
    restored s (restore_all now (stored_states r.0) s.tasks (some r.1))

unfoldable pub load_state : ℕ → Scheduler → Scheduler
unfolding restore restore_all
load_state now s = load_from now s s.db

abbrev pub start_unless : Bool → ℕ → ℕ → Scheduler → List Bytes × Scheduler
start_unless true now later s = ([], s)
start_unless false now later s = run_missed later (load_state now (record s { running = true }))

-- `Start`: the tasks that it runs at once, with the readings of the clock in `loadState` and `runMissed`.
unfoldable pub start : ℕ → ℕ → Scheduler → List Bytes × Scheduler
unfolding load_state run_missed
start now later s = start_unless s.running now later s

abbrev pub interrupt : ℕ → Entry → Entry
interrupt now e = record e { last_status = interrupted; next_run = now }

unfoldable pub interrupt_all : ℕ → List Entry → Option Db → List Entry × Option Db
unfolding persist_state
interrupt_all now [] db = ([], db)
interrupt_all now (e ∷ es) db =
    let e' = if e.running then interrupt now e else e in
    let db' = if e.running then persist_state e' db else db in
    let rest = interrupt_all now es db' in (e' ∷ rest.0, rest.1)

unfoldable pub mark_interrupted : ℕ → Scheduler → Scheduler
unfolding interrupt_all
mark_interrupted now s = restored s (interrupt_all now s.tasks s.db)

-- `Stop`; the flag is false where tasks outlast the wait for them.
unfoldable pub stop : ℕ → Bool → Scheduler → Scheduler
unfolding mark_interrupted
stop now drained s =
    let s' = record s { running = false } in
    if not s.running then s else if drained then s' else mark_interrupted now s'
