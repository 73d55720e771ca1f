-- ===== src/Scheduler/Restart.antt =====
-- A run that is stored, and what the next start restores of it.
use pastebin.Base.{
  ℕ, ◌≡◌, ◌≢◌, refl, sym, List, [], Option, none, some, arith, find_where, update_where,
  find-update, find-passes,
}
use mathlib.Core.Path.{subst}
use pastebin.Database.State.{Db, TaskRow, statement, run_with}
use pastebin.Database.Tasks.{
  TaskState, update_task_run, record_task_history, list_scheduler_tasks, has_task_id, ran, scan_all,
  scan_task_state, to_column, of_column,
}
use pastebin.Database.Tasks.Laws.{has_state_id, find-scan_all}
use pastebin.Scheduler.{Entry}
use pastebin.Scheduler.Execute.{store_run, stored_states, restore}

-- The states that a start reads.
abbrev pub states_in : Option Db → List TaskState
states_in none = []
states_in (some d) = stored_states (list_scheduler_tasks d).0

-- An entry of the next start agrees with the entry that the last run left.
pub record Restored (now : ℕ) (e fresh : Entry) : Type 0 where
  pub last_run : fresh.last_run ≡ e.last_run
  pub last_status : fresh.last_status ≡ e.last_status
  pub last_error : fresh.last_error ≡ e.last_error
  pub run_count : fresh.run_count ≡ e.run_count
  pub fail_count : fresh.fail_count ≡ e.fail_count
  pub next_run : fresh.next_run ≡ fresh.schedule.next e.last_run

to_column_of : (t : ℕ) → of_column (to_column t) ≡ t
to_column_of t = ground arith

states-stored :
    (begun finished : ℕ) (e : Entry) (d : Db)
    → d.faults ≡ []
    → states_in (store_run begun finished e (some d))
      ≡ scan_all (
          update_where
            (has_task_id e.id)
            (ran e.last_run e.last_status e.last_error e.run_count e.fail_count e.next_run)
            d.tasks)
unfolding store_run update_task_run record_task_history list_scheduler_tasks statement run_with
states-stored begun finished e d clean = rw clean refl

stored-row :
    (begun finished : ℕ) (e : Entry) (d : Db) {r : TaskRow}
    → d.faults ≡ []
    → find_where (has_task_id e.id) d.tasks ≡ some r
    → find_where (has_state_id e.id) (states_in (store_run begun finished e (some d)))
      ≡ some (
          scan_task_state
            (ran e.last_run e.last_status e.last_error e.run_count e.fail_count e.next_run r))
unfolding scan_task_state
stored-row begun finished e d {r} clean found =
    let f = ran e.last_run e.last_status e.last_error e.run_count e.fail_count e.next_run in
    rw
      (
        states-stored begun finished e d clean,
        find-scan_all e.id (update_where (has_task_id e.id) f d.tasks),
        find-update (has_task_id e.id) (has_task_id e.id) f (λ x. refl) d.tasks,
        found,
        find-passes (has_task_id e.id) d.tasks found,
      )
      refl

Restored-state :
    (now : ℕ) (e fresh : Entry) (r : TaskRow)
    → e.last_run ≢ 0
    → Restored now e (
        restore now
          (some (
            scan_task_state
              (ran e.last_run e.last_status e.last_error e.run_count e.fail_count e.next_run r)))
          fresh)
unfolding restore scan_task_state
Restored-state now e fresh r h = record {
  last_run = refl;
  last_status = refl;
  last_error = refl;
  run_count = refl;
  fail_count = refl;
  next_run = ground (arith, h);
}

-- A task that has a row in the database has run, at an instant other than the zero time, and the run was
-- stored with no fault. Then the start that follows gives the entry registered under its id the run's start,
-- status, error and counters, and the schedule's first run after the run's start: the stored next run, which
-- may be a retry, has no part in it.
pub restart-Restored :
    (begun finished now : ℕ) (e fresh : Entry) (d : Db) {r : TaskRow}
    → d.faults ≡ []
    → find_where (has_task_id e.id) d.tasks ≡ some r
    → fresh.id ≡ e.id
    → e.last_run ≢ 0
    → Restored now e (
        restore now
          (find_where (has_state_id fresh.id) (states_in (store_run begun finished e (some d))))
          fresh)
restart-Restored begun finished now e fresh d {r} clean found same h =
    let stored = states_in (store_run begun finished e (some d)) in
    let state =
      scan_task_state
        (ran e.last_run e.last_status e.last_error e.run_count e.fail_count e.next_run r) in
    let eq : find_where (has_state_id fresh.id) stored ≡ some state =
      subst (λ i. find_where (has_state_id i) stored ≡ some state) (sym same)
        (stored-row begun finished e d {r = r} clean found) in
    subst (λ o. Restored now e (restore now o fresh)) (sym eq) (Restored-state now e fresh r h)
