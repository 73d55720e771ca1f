-- ===== src/Health.antt =====
-- src/health/monitor.go: the maintenance-mode state machine.
pub mod Invariant
pub mod Healing
pub mod Run
use pastebin.Base.{
  ℕ, ◌+◌, ◌/◌, Bool, true, false, not, ◌&&◌, List, [], ◌∷◌, ◌++◌, Option, none, some, Bytes, codes,
  bytes_eq, ltb, leb, if◌then◌else◌,
}
use pastebin.Base.Int.{ℤ, is_positive, pos_part}

pub data State : Type 0 where
  starting normal maintenance : State

abbrev pub reason_file_write : Bytes
reason_file_write = codes "file_write"

pub record Config : Type 0 where
  pub self_healing_enabled : Bool
  pub retry_interval : ℤ
  pub max_attempts : ℕ
  pub notify_on_enter : Bool
  pub notify_on_exit : Bool

-- Instants are nanoseconds, 0 for Go's zero time. The callbacks are what the world does at an event;
-- the fields say which of them are registered. A cap below 0 is no different from 0.
pub record Monitor : Type 0 where
  pub state : State
  pub reason : Bytes
  pub message : Bytes
  pub since : ℕ
  pub attempts : ℕ
  pub last_attempt : ℕ
  pub next_attempt : ℕ
  pub self_healing : Bool
  pub retry_interval : ℕ
  pub max_attempts : ℕ
  pub notify_on_enter : Bool
  pub notify_on_exit : Bool
  pub has_checker : Bool
  pub has_cleaner : Bool
  pub has_notifier : Bool

pub record Snapshot : Type 0 where
  pub state : State
  pub reason : Bytes
  pub message : Bytes
  pub since : ℕ
  pub self_healing_enabled : Bool
  pub attempts : ℕ
  pub last_attempt : ℕ
  pub next_attempt : ℕ
  pub retry_interval : ℕ

-- A call of a registered callback.
pub data Event : Type 0 where
  cleaned : Event
  entered exited : Snapshot → Event

-- 30 seconds.
abbrev pub default_interval : ℕ
default_interval = 30_000_000_000

unfoldable pub new : Config → Monitor
new cfg = record {
  state = starting;
  reason = [];
  message = [];
  since = 0;
  attempts = 0;
  last_attempt = 0;
  next_attempt = 0;
  self_healing = cfg.self_healing_enabled;
  retry_interval =
      if is_positive cfg.retry_interval then pos_part cfg.retry_interval else default_interval;
  max_attempts = cfg.max_attempts;
  notify_on_enter = cfg.notify_on_enter;
  notify_on_exit = cfg.notify_on_exit;
  has_checker = false;
  has_cleaner = false;
  has_notifier = false;
}

unfoldable pub set_checker : Bool → Monitor → Monitor
set_checker given m = record m { has_checker = given }

unfoldable pub set_cleaner : Bool → Monitor → Monitor
set_cleaner given m = record m { has_cleaner = given }

unfoldable pub set_notifier : Bool → Monitor → Monitor
set_notifier given m = record m { has_notifier = given }

abbrev pub is_maintenance : State → Bool
is_maintenance maintenance = true
is_maintenance starting = false
is_maintenance normal = false

unfoldable pub in_maintenance : Monitor → Bool
in_maintenance m = is_maintenance m.state

unfoldable pub snapshot : Monitor → Snapshot
snapshot m = record {
  state = m.state;
  reason = m.reason;
  message = m.message;
  since = m.since;
  self_healing_enabled = m.self_healing;
  attempts = m.attempts;
  last_attempt = m.last_attempt;
  next_attempt = m.next_attempt;
  retry_interval = m.retry_interval;
}

unfoldable pub retry_seconds : Snapshot → ℕ
retry_seconds s = let secs = s.retry_interval / 1_000_000_000 in if ltb secs 1 then 1 else secs

abbrev pub down : ℕ → Bytes → Bytes → Monitor → Monitor
down now reason message m = record m {
  state = maintenance;
  reason = reason;
  message = message;
  since = now;
  attempts = 0;
  last_attempt = 0;
  next_attempt = now + m.retry_interval;
}

unfoldable pub enter : ℕ → Bytes → Bytes → Monitor → Monitor × List Event
unfolding snapshot
enter now reason message m =
    if is_maintenance m.state
    then (m, [])
    else let m' = down now reason message m in
      (m', if m.has_notifier && m.notify_on_enter then entered (snapshot m') ∷ [] else [])

abbrev pub up : Monitor → Monitor
up m = record m { state = normal; reason = []; message = []; since = 0; next_attempt = 0 }

unfoldable pub exit : Monitor → Monitor × List Event
unfolding snapshot
exit m =
    if is_maintenance m.state
    then (up m, if m.has_notifier && m.notify_on_exit then exited (snapshot (up m)) ∷ [] else [])
    else (record m { state = normal }, [])

-- What `tick` copies under the lock before it probes.
pub record Observed : Type 0 where
  pub has_checker : Bool
  pub has_cleaner : Bool
  pub state : State
  pub reason : Bytes
  pub self_healing : Bool

unfoldable pub observe : Monitor → Observed
observe m = record {
  has_checker = m.has_checker;
  has_cleaner = m.has_cleaner;
  state = m.state;
  reason = m.reason;
  self_healing = m.self_healing;
}

-- The answer of the probe.
pub data Probe : Type 0 where
  healthy : Probe
  failing : Bytes → Bytes → Probe

abbrev pub is_capped : Monitor → Bool
is_capped m = ltb 0 m.max_attempts && leb m.max_attempts m.attempts

abbrev pub count_attempt : ℕ → Monitor → Monitor
count_attempt now m = if is_capped m then m else record m {
  attempts = m.attempts + 1;
  last_attempt = now;
  next_attempt = now + m.retry_interval;
}

abbrev pub became_ready : Monitor → State → Monitor
became_ready m starting = record m { state = normal }
became_ready m normal = m
became_ready m maintenance = m

-- The switch of `tick`, in the state that it observed; the monitor may have moved on since.
unfoldable pub heal : ℕ → Observed → Probe → Monitor → Monitor × List Event
unfolding exit
heal now o healthy m = if o.self_healing then exit (count_attempt now m) else (m, [])
heal now o (failing reason message) m =
    if o.self_healing then (count_attempt now m, []) else (m, [])

unfoldable pub watch : ℕ → Probe → Monitor → Monitor × List Event
unfolding enter
watch now healthy m = (became_ready m m.state, [])
watch now (failing reason message) m = enter now reason message m

unfoldable pub clean_up : Observed → List Event
clean_up o =
    if is_maintenance o.state && bytes_eq o.reason reason_file_write && o.has_cleaner
    then cleaned ∷ []
    else []

abbrev pub dispatch : ℕ → Observed → Probe → Monitor → Monitor × List Event
dispatch now o p m = if is_maintenance o.state then heal now o p m else watch now p m

-- The rest of `tick` behind the probe.
unfoldable pub act : ℕ → Observed → Probe → Monitor → Monitor × List Event
unfolding heal watch clean_up
act now o p m =
    if o.has_checker then (let r = dispatch now o p m in (r.0, clean_up o ++ r.1)) else (m, [])

-- A `tick` that nothing interrupts.
unfoldable pub tick : ℕ → Probe → Monitor → Monitor × List Event
unfolding observe act
tick now p m = act now (observe m) p m
