-- ===== src/Tests/Scheduling.antt =====
-- Tests of the scheduler.
use pastebin.Base.{
  ◌+◌, ◌≤◌, ◌≡◌, ◌≢◌, refl, true, false, List, [], ◌∷◌, ◌++◌, none, some, codes, arith, count_where,
  find_where, bytes_eq, Bytes,
}
use pastebin.Database.Tasks.Laws.{stored_outcome}
use pastebin.Scheduler.{Entry, Scheduler, pending, tick}
use pastebin.Scheduler.Execute.{mark_interrupted, start}
use pastebin.Scheduler.Retry.{Run, Failed}
use pastebin.Scheduler.Interrupt.{held, interruption_lost}
use pastebin.Scheduler.Flights.{flying, runs_as, IsKeyed}
use pastebin.Scheduler.Overlap.{System, begins, steps, ticks, launched, at_most_one}
use pastebin.Tests.Data.{db}

abbrev id_t : Bytes
id_t = codes "t"

abbrev task : Entry
task = record {
  id = id_t;
  name = codes "task";
  schedule = record { next = λ t. t + 100; text = codes "@every 100ns" };
  enabled = true;
  retry_on_fail = true;
  retry_max = 2;
  retry_base = 5;
  last_run = 0;
  last_status = pending;
  last_error = [];
  next_run = 0;
  run_count = 0;
  fail_count = 0;
  running = false;
  retry_attempt = 0;
}

abbrev failure : Failed
failure = record { start = 10; finished = 12; message = codes "e" }

abbrev runs : List Run
runs =
    record { start = 1; finished = 2; failure = none }
    ∷ record { start = 3; finished = 4; failure = some [] }
    ∷ []

abbrev scheduler : Scheduler
scheduler = record {
  db = some db;
  catch_up_window = 1000;
  tasks = task ∷ [];
  running = false;
  has_notifier = false;
}

abbrev busy : Scheduler
busy = record scheduler { tasks = record task { running = true } ∷ [] }

interruption_lost_example : held id_t (mark_interrupted 70 busy).db ≡ some (codes "failed", some 90)
unfolding stored_outcome find_where bytes_eq
interruption_lost_example = interruption_lost 70 id_t busy refl

abbrev ran_task : Entry
ran_task = record task { last_run = 50; run_count = 4 }

ran_once : ran_task.last_run ≢ 0
ran_once h = omega (arith, h)

one_task : IsKeyed scheduler.tasks
unfolding count_where
one_task id = ground arith

-- The scheduler after its start and a tick.
abbrev ticked : System
ticked = launched ((start 60 70 scheduler).0 ++ []) (tick 200 (start 60 70 scheduler).1)

at_most_one_example :
    (flying id_t ticked.flights ≤ 1)
    × (flying id_t ticked.flights ≡ count_where (runs_as id_t) ticked.scheduler.tasks)
at_most_one_example = at_most_one id_t one_task (refl, tt) (steps (begins 60 70) (ticks 200))
