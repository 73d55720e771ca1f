-- ===== src/Scheduler.antt =====
-- src/scheduler/scheduler.go: the registered tasks and the operations on them.
pub mod Cron
pub mod Retry
pub mod Interrupt
pub mod Execute
pub mod Flights
pub mod Load
pub mod Overlap
pub mod Restart
use pastebin.Base.{
  ℕ, ◌+◌, ◌-◌, ◌*◌, ◌/◌, ◌%◌, ◌^◌, Bool, true, false, not, ◌&&◌, List, [], ◌∷◌, ◌++◌, Option, none,
  some, Bytes, codes, bytes_eq, ltb, leb, ◌==◌, if◌then◌else◌, is_some, find_where, delete_where,
  map, update_where, ◌⊎◌, inl, inr,
}
use pastebin.Base.Int.{ℤ, is_positive, pos_part}
use pastebin.Database.State.{Db, TaskHistory, M, Result, ok, err}
use pastebin.Database.Tasks.{
  TaskState, upsert_scheduler_task, list_scheduler_tasks, update_task_run, record_task_history,
}

-- The interface of a parsed schedule: the next run after an instant, 0 for none, and its text.
pub record Schedule : Type 0 where
  pub next : ℕ → ℕ
  pub text : Bytes

-- Instants and durations are nanoseconds.
pub record Entry : Type 0 where
  pub id : Bytes
  pub name : Bytes
  pub schedule : Schedule
  pub enabled : Bool
  pub retry_on_fail : Bool
  pub retry_max : ℕ
  pub retry_base : ℕ
  pub last_run : ℕ
  pub last_status : Bytes
  pub last_error : Bytes
  pub next_run : ℕ
  pub run_count : ℕ
  pub fail_count : ℕ
  pub running : Bool
  pub retry_attempt : ℕ

-- The map of tasks is a list in the order that a loop over it takes; `db` is none where the server runs
-- without a database.
pub record Scheduler : Type 0 where
  pub db : Option Db
  pub catch_up_window : ℕ
  pub tasks : List Entry
  pub running : Bool
  pub has_notifier : Bool

-- What the notifier is given.
pub record Outcome : Type 0 where
  pub task_id : Bytes
  pub task_name : Bytes
  pub status : Bytes
  pub error : Bytes
  pub started_at : ℕ
  pub finished_at : ℕ
  pub next_run : ℕ
  pub attempt : ℕ
  pub will_retry : Bool

abbrev pub hour : ℕ
hour = 3_600_000_000_000

abbrev pub default_retry_delay : ℕ
default_retry_delay = 300_000_000_000

abbrev pub default_max_retries : ℕ
default_max_retries = 3

abbrev pub pending : Bytes
pending = codes "pending"

abbrev pub success : Bytes
success = codes "success"

abbrev pub failed : Bytes
failed = codes "failed"

abbrev pub interrupted : Bytes
interrupted = codes "interrupted"

unfoldable pub new : Option Db → Scheduler
new db = record {
  db = db;
  catch_up_window = hour;
  tasks = [];
  running = false;
  has_notifier = false;
}

unfoldable pub set_catch_up_window : ℕ → Scheduler → Scheduler
set_catch_up_window d s = record s { catch_up_window = d }

unfoldable pub set_notifier : Bool → Scheduler → Scheduler
set_notifier given s = record s { has_notifier = given }

abbrev pub has_id : Bytes → Entry → Bool
has_id id e = bytes_eq e.id id

abbrev pub with_tasks : (List Entry → List Entry) → Scheduler → Scheduler
with_tasks f s = record s { tasks = f s.tasks }

abbrev pub new_entry : Bytes → Bytes → Schedule → Bool → Entry
new_entry id name schedule enabled = record {
  id = id;
  name = name;
  schedule = schedule;
  enabled = enabled;
  retry_on_fail = false;
  retry_max = 0;
  retry_base = 0;
  last_run = 0;
  last_status = pending;
  last_error = [];
  next_run = 0;
  run_count = 0;
  fail_count = 0;
  running = false;
  retry_attempt = 0;
}

-- `Register`, on what the parser made of the expression; none is its error.
unfoldable pub register : Bytes → Bytes → Option Schedule → Bool → Scheduler → Option Scheduler
register id name none enabled s = none
register id name (some schedule) enabled s =
    some (with_tasks (λ es. new_entry id name schedule enabled ∷ delete_where (has_id id) es) s)

abbrev pub retries : Bool → ℤ → ℤ → Entry → Entry
retries enabled base max e = record e {
  retry_on_fail = enabled;
  retry_base = if is_positive base then pos_part base else default_retry_delay;
  retry_max = if is_positive max then pos_part max else default_max_retries;
}

unfoldable pub set_retry : Bytes → Bool → ℤ → ℤ → Scheduler → Scheduler
set_retry id enabled base max s = with_tasks (update_where (has_id id) (retries enabled base max)) s

unfoldable pub to_task_state : Entry → TaskState
to_task_state e = record {
  task_id = e.id;
  task_name = e.name;
  schedule = e.schedule.text;
  last_run = e.last_run;
  last_status = e.last_status;
  last_error = e.last_error;
  next_run = e.next_run;
  run_count = e.run_count;
  fail_count = e.fail_count;
  enabled = e.enabled;
}

-- A call of the database whose error is dropped.
abbrev pub tell : {A : Type 0} → M A → Option Db → Option Db
tell call none = none
tell call (some d) = some (call d).1

unfoldable pub persist_state : Entry → Option Db → Option Db
unfolding to_task_state
persist_state e db = tell (upsert_scheduler_task (to_task_state e)) db

-- The entry changed, and persisted.
abbrev pub change_entry : (Entry → Entry) → Bytes → Scheduler → Option Entry → Scheduler
change_entry f id s none = s
change_entry f id s (some e) = record s {
  tasks = update_where (has_id id) f s.tasks;
  db = persist_state (f e) s.db;
}

unfoldable pub enable_task : ℕ → Bytes → Scheduler → Scheduler
enable_task now id s =
    change_entry (λ e. record e { enabled = true; next_run = e.schedule.next now }) id s
      (find_where (has_id id) s.tasks)

unfoldable pub disable_task : Bytes → Scheduler → Scheduler
disable_task id s =
    change_entry (λ e. record e { enabled = false }) id s (find_where (has_id id) s.tasks)

abbrev pub state_of : Option Entry → Option TaskState
state_of none = none
state_of (some e) = some (to_task_state e)

unfoldable pub get_task : Bytes → Scheduler → Option TaskState
get_task id s = state_of (find_where (has_id id) s.tasks)

unfoldable pub get_tasks : Scheduler → List TaskState
unfolding to_task_state
get_tasks s = map to_task_state s.tasks

abbrev pub start_run : Entry → Entry
start_run e = record e { running = true }

unfoldable pub is_due : ℕ → Entry → Bool
is_due now e = e.enabled && not e.running && not (e.next_run == 0) && ltb e.next_run now

-- What a loop over the tasks starts: the entries that pass the test, marked as running, and their ids.
unfoldable pub launch : (Entry → Bool) → List Entry → List Bytes × List Entry
launch test [] = ([], [])
launch test (e ∷ es) =
    let rest = launch test es in
    if test e then (e.id ∷ rest.0, start_run e ∷ rest.1) else (rest.0, e ∷ rest.1)

unfoldable pub tick : ℕ → Scheduler → List Bytes × Scheduler
unfolding launch is_due
tick now s = let r = launch (is_due now) s.tasks in (r.0, record s { tasks = r.1 })

-- Due behind the cutoff and before now; a window longer than the clock reading reaches back to any instant.
unfoldable pub is_missed : ℕ → ℕ → Entry → Bool
is_missed now window e =
    e.enabled && not (e.next_run == 0) && ltb now (e.next_run + window) && ltb e.next_run now

unfoldable pub run_missed : ℕ → Scheduler → List Bytes × Scheduler
unfolding launch is_missed
run_missed now s =
    let r = launch (is_missed now s.catch_up_window) s.tasks in (r.0, record s { tasks = r.1 })

pub data RunError : Type 0 where
  not_found already_running : RunError

abbrev pub claim_run : Bytes → Scheduler → Option Entry → RunError ⊎ Scheduler
claim_run id s none = inl not_found
claim_run id s (some e) =
    if e.running
    then inl already_running
    else inr (with_tasks (update_where (has_id id) start_run) s)

-- `RunNow` up to the call of `execute`.
unfoldable pub run_now : Bytes → Scheduler → RunError ⊎ Scheduler
run_now id s = claim_run id s (find_where (has_id id) s.tasks)
