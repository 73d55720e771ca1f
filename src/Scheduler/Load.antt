-- ===== src/Scheduler/Load.antt =====
-- What `loadState` keeps of the tasks: their ids, and that none of them runs.
use pastebin.Base.{
  ℕ, ◌≡◌, refl, ◌∙◌, List, [], ◌∷◌, Option, none, some, Bytes, bytes_eq, arith, find_where,
  count_where, All, map,
}
use pastebin.Database.State.{Db}
use pastebin.Database.Tasks.{TaskState, list_scheduler_tasks}
use pastebin.Scheduler.{Entry, Scheduler, has_id, persist_state}
use pastebin.Scheduler.Execute.{load_state, load_from, restore, restore_all, stored_states}
use pastebin.Scheduler.Flights.{IsIdle, IsKeyed}

restore-keeps :
    (now : ℕ) (t : Option TaskState) (e : Entry)
    → ((restore now t e).id ≡ e.id) × ((restore now t e).running ≡ e.running)
unfolding restore
restore-keeps now none e = (refl, refl)
restore-keeps now (some t) e = (refl, refl)

count-head :
    (id : Bytes) (e e' : Entry) (es es' : List Entry)
    → e'.id ≡ e.id
    → count_where (has_id id) es' ≡ count_where (has_id id) es
    → count_where (has_id id) (e' ∷ es') ≡ count_where (has_id id) (e ∷ es)
unfolding count_where
count-head id e e' es es' i h = rw (i, h) refl

restore-keyed :
    (now : ℕ) (stored : List TaskState) (id : Bytes) (es : List Entry) (db : Option Db)
    → count_where (has_id id) (restore_all now stored es db).0 ≡ count_where (has_id id) es
unfolding restore_all count_where
restore-keyed now stored id [] db = refl
restore-keyed now stored id (e ∷ es) db =
    let found = find_where (λ t. bytes_eq t.task_id e.id) stored in
    let db' = persist_state (restore now found e) db in
    count-head id e (restore now found e) es (restore_all now stored es db').0
      (restore-keeps now found e).0 (restore-keyed now stored id es db')

restore-IsIdle :
    (now : ℕ) (stored : List TaskState) (es : List Entry) (db : Option Db)
    → All IsIdle es
    → All IsIdle (restore_all now stored es db).0
unfolding restore_all
restore-IsIdle now stored [] db h = tt
restore-IsIdle now stored (e ∷ es) db h =
    let found = find_where (λ t. bytes_eq t.task_id e.id) stored in
    (
      (restore-keeps now found e).1 ∙ h.0,
      restore-IsIdle now stored es (persist_state (restore now found e) db) h.1,
    )

map-keyed :
    (now : ℕ) (id : Bytes) (es : List Entry)
    → count_where (has_id id) (map (restore now none) es) ≡ count_where (has_id id) es
unfolding count_where restore
map-keyed now id [] = refl
map-keyed now id (e ∷ es) = ground (arith, map-keyed now id es)

map-IsIdle : (now : ℕ) (es : List Entry) → All IsIdle es → All IsIdle (map (restore now none) es)
unfolding restore
map-IsIdle now [] h = tt
map-IsIdle now (e ∷ es) h = (h.0, map-IsIdle now es h.1)

loaded-from :
    (now : ℕ) (s : Scheduler) (db : Option Db)
    → IsKeyed s.tasks
    → All IsIdle s.tasks
    → IsKeyed (load_from now s db).tasks × All IsIdle (load_from now s db).tasks
loaded-from now s none keyed idle =
    (λ id. omega (arith, keyed id, map-keyed now id s.tasks), map-IsIdle now s.tasks idle)
loaded-from now s (some d) keyed idle =
    let r = list_scheduler_tasks d in
    (
      λ id. omega (arith, keyed id, restore-keyed now (stored_states r.0) id s.tasks (some r.1)),
      restore-IsIdle now (stored_states r.0) s.tasks (some r.1) idle,
    )

pub loaded :
    (now : ℕ) (s : Scheduler)
    → IsKeyed s.tasks
    → All IsIdle s.tasks
    → IsKeyed (load_state now s).tasks × All IsIdle (load_state now s).tasks
unfolding load_state
loaded now s keyed idle = loaded-from now s s.db keyed idle
