-- ===== src/Tests/Monitoring.antt =====
-- Tests of the health monitor.
use pastebin.Base.{◌+◌, ◌≡◌, refl, true, false, [], none, codes}
use pastebin.Base.Int.{pos}
use pastebin.Health.{
  Config, Monitor, healthy, maintenance, is_maintenance, in_maintenance, new, set_checker,
  set_cleaner, set_notifier, enter, tick, reason_file_write,
}
use pastebin.Health.Invariant.{IsValid}
use pastebin.Health.Healing.{tick_follows}
use pastebin.Health.Run.{
  System, Reach, starts, steps, enters, moved, Reach-IsValid, notices-balance, entries, exits,
  one_if,
}

abbrev config : Config
config = record {
  self_healing_enabled = true;
  retry_interval = pos 10;
  max_attempts = 1;
  notify_on_enter = true;
  notify_on_exit = true;
}

abbrev monitor : Monitor
monitor = record {
  state = maintenance;
  reason = reason_file_write;
  message = codes "disk full";
  since = 5;
  attempts = 1;
  last_attempt = 6;
  next_attempt = 16;
  self_healing = true;
  retry_interval = 10;
  max_attempts = 1;
  notify_on_enter = true;
  notify_on_exit = true;
  has_checker = true;
  has_cleaner = true;
  has_notifier = true;
}

tick_follows_example : in_maintenance (tick 30 healthy monitor).0 ≡ false
tick_follows_example = tick_follows 30 healthy monitor refl refl

abbrev manual : Monitor
manual = record monitor { self_healing = false }

abbrev started : System
started = record {
  monitor = set_checker true (set_cleaner true (set_notifier true (new config)));
  pending = none;
  log = [];
}

abbrev downed : System
downed = moved started none (enter 5 reason_file_write (codes "disk full") started.monitor)

downed_reached : Reach config true downed
downed_reached = steps (starts true true) (enters 5 reason_file_write (codes "disk full"))

Reach-IsValid_example : IsValid downed.monitor
Reach-IsValid_example = Reach-IsValid downed_reached

notices-balance_example :
    entries downed.log ≡ exits downed.log + one_if (is_maintenance downed.monitor.state)
notices-balance_example = notices-balance refl refl downed_reached
