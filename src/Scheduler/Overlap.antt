-- ===== src/Scheduler/Overlap.antt =====
-- No task runs twice at a time, whatever the order of its ticks, requests and ends.
use pastebin.Base.{
  ℕ, suc, ◌≤◌, ◌≡◌, refl, sym, ◌∙◌, ap, Bool, true, false, List, [], ◌∷◌, ◌++◌, Option, none, some,
  Bytes, bytes_eq, bytes_eq_iff, bytes_eq_refl, arith, inl, inr, find_where, update_where,
  count_where, count-update_keeps, count-le, Bool-cases, All,
}
use mathlib.Core.Path.{subst}
use mathlib.Core.Sum.{inr-injective}
use pastebin.Base.Int.{ℤ}
use pastebin.Database.State.{Db}
use pastebin.Scheduler.{
  Entry, Scheduler, has_id, start_run, launch, is_due, tick, is_missed, run_missed, run_now,
  claim_run, with_tasks, change_entry, persist_state, enable_task, disable_task, set_retry, retries,
}
use pastebin.Scheduler.Execute.{
  end_run, start, start_unless, execute, clear_running, finish, store_run, run_found, load_state,
}
use pastebin.Scheduler.Flights.{
  flying, runs_as, remove_one, Idle, launch-flying, launch-ids, flying-append, flying-remove,
  start-other, clear-other, clear_self, IsIdle, IsKeyed,
}
use pastebin.Scheduler.Load.{loaded}

-- The scheduler and the executions in flight, by the id of their task.
pub record System : Type 0 where
  pub scheduler : Scheduler
  pub flights : List Bytes

abbrev pub launched : List Bytes → List Bytes × Scheduler → System
launched flights r = record { scheduler = r.1; flights = r.0 ++ flights }

abbrev pub moved : System → Scheduler → System
moved y s = record { scheduler = s; flights = y.flights }

pub data Step : System → System → Type 0 where
  ticks : {y : System} (now : ℕ) → Step y (launched y.flights (tick now y.scheduler))
  requests :
      {y : System} {s : Scheduler} (id : Bytes)
      → run_now id y.scheduler ≡ inr s
      → Step y (record { scheduler = s; flights = id ∷ y.flights })
  records :
      {y : System} (begun finished : ℕ) (failure : Option Bytes) (id : Bytes)
      → Step y (moved y (execute begun finished failure id y.scheduler).0)
  ends :
      {y : System} {n : ℕ} (id : Bytes)
      → flying id y.flights ≡ suc n
      → Step y
          (record { scheduler = clear_running id y.scheduler; flights = remove_one id y.flights })
  enables : {y : System} (now : ℕ) (id : Bytes) → Step y (moved y (enable_task now id y.scheduler))
  disables : {y : System} (id : Bytes) → Step y (moved y (disable_task id y.scheduler))
  tunes :
      {y : System} (id : Bytes) (enabled : Bool) (base max : ℤ)
      → Step y (moved y (set_retry id enabled base max y.scheduler))

-- From the first start of a scheduler none of whose tasks runs.
pub data Reach (s : Scheduler) : System → Type 0 where
  begins : (now later : ℕ) → Reach s (launched [] (start now later s))
  steps : {y z : System} → Reach s y → Step y z → Reach s z

pub record IsTracked (y : System) : Type 0 where
  pub keyed : IsKeyed y.scheduler.tasks
  pub tracked : (id : Bytes) → flying id y.flights ≡ count_where (runs_as id) y.scheduler.tasks

runs_as-keeps :
    (id : Bytes) (e e' : Entry)
    → e'.id ≡ e.id
    → e'.running ≡ e.running
    → runs_as id e' ≡ runs_as id e
runs_as-keeps id e e' i r = rw (i, r) refl

-- A change of one task that keeps its id and whether it runs.
update-IsTracked :
    (y : System) (p : Entry → Bool) (f : Entry → Entry) (db : Option Db)
    → ((e : Entry) → (f e).id ≡ e.id)
    → ((e : Entry) → (f e).running ≡ e.running)
    → IsTracked y
    → IsTracked
        (moved y (record y.scheduler { tasks = update_where p f y.scheduler.tasks; db = db }))
update-IsTracked y p f db ids runs v = record {
  keyed = λ id. omega (
    arith,
    v.keyed id,
    count-update_keeps p (has_id id) f (λ e. ap (λ i. bytes_eq i id) (ids e)) y.scheduler.tasks,
  );
  tracked = λ id.
      v.tracked id
      ∙ sym (
          count-update_keeps p (runs_as id) f (λ e. runs_as-keeps id e (f e) (ids e) (runs e))
            y.scheduler.tasks);
}

launch-IsTracked :
    (flights : List Bytes) (s : Scheduler) (test : Entry → Bool)
    → All (Idle test) s.tasks
    → IsTracked (record { scheduler = s; flights = flights })
    → IsTracked
        (launched flights ((launch test s.tasks).0, record s { tasks = (launch test s.tasks).1 }))
launch-IsTracked flights s test idle v = record {
  keyed = λ id. omega (arith, v.keyed id, launch-ids test id s.tasks);
  tracked = λ id. omega (
    arith,
    v.tracked id,
    launch-flying test id s.tasks idle,
    flying-append id (launch test s.tasks).0 flights,
  );
}

due-Idle : (now : ℕ) (es : List Entry) → All (Idle (is_due now)) es
unfolding is_due
due-Idle now [] = tt
due-Idle now (e ∷ es) = (λ h. ground (arith, h), due-Idle now es)

-- What `RunNow` claims: a task that is there and idle.
claimed :
    (id : Bytes) (s : Scheduler) (found : Option Entry) {s' : Scheduler}
    → claim_run id s found ≡ inr s'
    → (e : Entry) × (found ≡ some e)
      × (e.running ≡ false)
      × (s' ≡ record s { tasks = update_where (has_id id) start_run s.tasks })
claimed id s none h = cc
claimed id s (some e) {s'} h = elim (Bool-cases e.running) [
  | inl r ↦ cc (rw r at h)
  | inr r ↦ (
    e,
    refl,
    r,
    sym (inr-injective (with_tasks (update_where (has_id id) start_run) s) s' (rw r at h)),
  )
]

request-IsTracked :
    (y : System) {s : Scheduler} (id : Bytes)
    → run_now id y.scheduler ≡ inr s
    → IsTracked y
    → IsTracked (record { scheduler = s; flights = id ∷ y.flights })
unfolding run_now count_where
request-IsTracked y id h v =
    let (e, found, idle, eq) =
      claimed id y.scheduler (find_where (has_id id) y.scheduler.tasks) h in
    rw eq record {
      keyed = λ i. omega (
        arith,
        v.keyed i,
        count-update_keeps (has_id id) (has_id i) start_run (λ x. refl) y.scheduler.tasks,
      );
      tracked = λ i.
          ground (
            arith,
            v.tracked i,
            start-other id i y.scheduler.tasks (v.keyed id) {e = e} found idle,
          );
    }

end_self :
    (y : System) {n : ℕ} (id : Bytes)
    → flying id y.flights ≡ suc n
    → IsTracked y
    → flying id (remove_one id y.flights)
      ≡ count_where (runs_as id) (update_where (has_id id) end_run y.scheduler.tasks)
end_self y {n} id h v =
    let le = count-le (runs_as id) (has_id id) (λ e r. ground (arith, r)) y.scheduler.tasks in
    let one = flying-remove id id y.flights {n = n} h in
    omega (
      arith,
      rw (bytes_eq_refl id) at one,
      v.tracked id,
      v.keyed id,
      le,
      clear_self id y.scheduler.tasks,
    )

end-IsTracked :
    (y : System) {n : ℕ} (id : Bytes)
    → flying id y.flights ≡ suc n
    → IsTracked y
    → IsTracked
        (record { scheduler = clear_running id y.scheduler; flights = remove_one id y.flights })
unfolding clear_running
end-IsTracked y {n} id h v = record {
  keyed = λ i. omega (
    arith,
    v.keyed i,
    count-update_keeps (has_id id) (has_id i) end_run (λ x. refl) y.scheduler.tasks,
  );
  tracked = λ i. elim (Bool-cases (bytes_eq id i)) [
    | inl q ↦
        subst
          (λ j.
            flying j (remove_one id y.flights)
            ≡ count_where (runs_as j) (update_where (has_id id) end_run y.scheduler.tasks))
          ((bytes_eq_iff id i).0 q) (end_self y {n = n} id h v)
    | inr q ↦
        let rest = flying-remove id i y.flights {n = n} h in
        omega (arith, rw q at rest, v.tracked i, clear-other id i y.scheduler.tasks q)
  ];
}

finish-keeps :
    (begun finished : ℕ) (failure : Option Bytes) (e : Entry)
    → ((finish begun finished failure e).id ≡ e.id)
      × ((finish begun finished failure e).running ≡ e.running)
unfolding finish
finish-keeps begun finished none e = (refl, refl)
finish-keeps begun finished (some message) e = ground arith

record-IsTracked :
    (y : System) (begun finished : ℕ) (failure : Option Bytes) (found : Option Entry)
    → IsTracked y
    → IsTracked (moved y (run_found begun finished failure y.scheduler found).0)
record-IsTracked y begun finished failure none v = v
record-IsTracked y begun finished failure (some e) v =
    update-IsTracked y (has_id e.id) (finish begun finished failure)
      (store_run begun finished (finish begun finished failure e) y.scheduler.db)
      (λ x. (finish-keeps begun finished failure x).0)
      (λ x. (finish-keeps begun finished failure x).1) v

change-IsTracked :
    (y : System) (f : Entry → Entry) (id : Bytes) (found : Option Entry)
    → ((e : Entry) → (f e).id ≡ e.id)
    → ((e : Entry) → (f e).running ≡ e.running)
    → IsTracked y
    → IsTracked (moved y (change_entry f id y.scheduler found))
change-IsTracked y f id none ids runs v = v
change-IsTracked y f id (some e) ids runs v =
    update-IsTracked y (has_id id) f (persist_state (f e) y.scheduler.db) ids runs v

step-IsTracked : {y z : System} → Step y z → IsTracked y → IsTracked z
unfolding tick execute enable_task disable_task set_retry
step-IsTracked {y} (ticks now) v =
    launch-IsTracked y.flights y.scheduler (is_due now) (due-Idle now y.scheduler.tasks) v
step-IsTracked {y} (requests id h) v = request-IsTracked y id h v
step-IsTracked {y} (records begun finished failure id) v =
    record-IsTracked y begun finished failure (find_where (has_id id) y.scheduler.tasks) v
step-IsTracked {y} (ends id h) v = end-IsTracked y id h v
step-IsTracked {y} (enables now id) v =
    change-IsTracked y _ id (find_where (has_id id) y.scheduler.tasks) (λ e. refl) (λ e. refl) v
step-IsTracked {y} (disables id) v =
    change-IsTracked y _ id (find_where (has_id id) y.scheduler.tasks) (λ e. refl) (λ e. refl) v
step-IsTracked {y} (tunes id enabled base max) v =
    update-IsTracked y (has_id id) (retries enabled base max) y.scheduler.db (λ e. refl) (λ e. refl)
      v

idle-count : (id : Bytes) (es : List Entry) → All IsIdle es → count_where (runs_as id) es ≡ 0
unfolding count_where
idle-count id [] h = refl
idle-count id (e ∷ es) h = ground (arith, h.0, idle-count id es h.1)

missed-Idle :
    (now window : ℕ) (es : List Entry) → All IsIdle es → All (Idle (is_missed now window)) es
missed-Idle now window [] h = tt
missed-Idle now window (e ∷ es) h = ((λ _. h.0), missed-Idle now window es h.1)

idle-IsTracked :
    (s : Scheduler)
    → IsKeyed s.tasks
    → All IsIdle s.tasks
    → IsTracked (record { scheduler = s; flights = [] })
unfolding count_where
idle-IsTracked s keyed idle = record {
  keyed = keyed;
  tracked = λ id. sym (idle-count id s.tasks idle);
}

unless-IsTracked :
    (running : Bool) (now later : ℕ) (s : Scheduler)
    → IsKeyed s.tasks
    → All IsIdle s.tasks
    → IsTracked (launched [] (start_unless running now later s))
unfolding run_missed
unless-IsTracked true now later s keyed idle = idle-IsTracked s keyed idle
unless-IsTracked false now later s keyed idle =
    let l = load_state now (record s { running = true }) in
    let (k, i) = loaded now (record s { running = true }) keyed idle in
    launch-IsTracked [] l (is_missed later l.catch_up_window)
      (missed-Idle later l.catch_up_window l.tasks i) (idle-IsTracked l k i)

start-IsTracked :
    (now later : ℕ) (s : Scheduler)
    → IsKeyed s.tasks
    → All IsIdle s.tasks
    → IsTracked (launched [] (start now later s))
unfolding start
start-IsTracked now later s keyed idle = unless-IsTracked s.running now later s keyed idle

Reach-IsTracked :
    {s : Scheduler} {y : System} → IsKeyed s.tasks → All IsIdle s.tasks → Reach s y → IsTracked y
Reach-IsTracked {s} keyed idle (begins now later) = start-IsTracked now later s keyed idle
Reach-IsTracked keyed idle (steps r st) = step-IsTracked st (Reach-IsTracked keyed idle r)

-- From the first start of a scheduler whose tasks have distinct ids and are idle, whatever ticks, requests,
-- ends and changes follow: a task has at most one execution in flight, and one exactly while it is marked as
-- running.
pub at_most_one :
    {s : Scheduler} {y : System} (id : Bytes)
    → IsKeyed s.tasks
    → All IsIdle s.tasks
    → Reach s y
    → (flying id y.flights ≤ 1) × (flying id y.flights ≡ count_where (runs_as id) y.scheduler.tasks)
at_most_one {y = y} id keyed idle r =
    let v = Reach-IsTracked keyed idle r in
    let le = count-le (runs_as id) (has_id id) (λ e h. ground (arith, h)) y.scheduler.tasks in
    (omega (arith, le, v.keyed id, v.tracked id), v.tracked id)
