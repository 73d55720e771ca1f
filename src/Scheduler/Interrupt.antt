-- ===== src/Scheduler/Interrupt.antt =====
-- What the database still holds of a task that a shutdown interrupted.
use pastebin.Base.{
  ℕ, ◌≡◌, Bool, true, false, List, [], ◌∷◌, Option, none, some, Bytes, inl, inr, find_where,
  Bool-cases,
}
use pastebin.Database.State.{Db, statement, run_with, ok}
use pastebin.Database.Tasks.{TaskState, upsert_scheduler_task, has_task_id, upsert_row}
use pastebin.Database.Tasks.Laws.{stored_outcome, upsert-stored_outcome}
use pastebin.Scheduler.{Entry, Scheduler, persist_state, to_task_state}
use pastebin.Scheduler.Execute.{interrupt, interrupt_all, mark_interrupted}

-- The outcome that the database holds of a task, if there is a database.
abbrev pub held : Bytes → Option Db → Option (Bytes × Option ℕ)
held id none = none
held id (some d) = stored_outcome id d.tasks

upsert-held :
    (id : Bytes) (t : TaskState) (faults : List Bool) (d : Db) {c n : ℕ} {cs : Bytes}
    → stored_outcome id d.tasks ≡ some (c ∷ cs, some n)
    → stored_outcome id
        (run_with faults
          (λ d'. (
            ok tt,
            record d' {
              tasks = upsert_row t d'.tasks (find_where (has_task_id t.task_id) d'.tasks);
            },
          ))
          d).1.tasks
      ≡ some (c ∷ cs, some n)
unfolding run_with
upsert-held id t [] d h = upsert-stored_outcome id t d.tasks h
upsert-held id t (true ∷ fs) d h = h
upsert-held id t (false ∷ fs) d h = upsert-stored_outcome id t d.tasks h

persist-held :
    (id : Bytes) (e : Entry) (db : Option Db) {c n : ℕ} {cs : Bytes}
    → held id db ≡ some (c ∷ cs, some n)
    → held id (persist_state e db) ≡ some (c ∷ cs, some n)
unfolding persist_state upsert_scheduler_task statement
persist-held id e none h = cc
persist-held id e (some d) h = upsert-held id (to_task_state e) d.faults d h

interrupt-held :
    (now : ℕ) (id : Bytes) (es : List Entry) (db : Option Db) {c n : ℕ} {cs : Bytes}
    → held id db ≡ some (c ∷ cs, some n)
    → held id (interrupt_all now es db).1 ≡ some (c ∷ cs, some n)
unfolding interrupt_all
interrupt-held now id [] db h = h
interrupt-held now id (e ∷ es) db h = elim (Bool-cases e.running) [
  | inl r ↦ rw r (interrupt-held now id es _ (persist-held id (interrupt now e) db h))
  | inr r ↦ rw r (interrupt-held now id es db h)
]

-- A task whose row holds a status and a next run keeps both in the database through `markInterrupted`: that
-- the task was interrupted, and is to be retried at once, is not stored.
pub interruption_lost :
    (now : ℕ) (id : Bytes) (s : Scheduler) {c n : ℕ} {cs : Bytes}
    → held id s.db ≡ some (c ∷ cs, some n)
    → held id (mark_interrupted now s).db ≡ some (c ∷ cs, some n)
unfolding mark_interrupted
interruption_lost now id s h = interrupt-held now id s.tasks s.db h
