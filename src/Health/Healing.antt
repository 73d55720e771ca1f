-- ===== src/Health/Healing.antt =====
-- Uninterrupted ticks: the state follows the probes.
use pastebin.Base.{ℕ, ◌≡◌, Bool, true, false, arith}
use pastebin.Health.{Monitor, Probe, healthy, failing, in_maintenance, tick}

abbrev pub is_failing : Probe → Bool
is_failing healthy = false
is_failing (failing reason message) = true

-- With a checker and self-healing on, a tick leaves the monitor in maintenance exactly if its probe
-- failed, whatever the state and the number of attempts were: no cap on the attempts ends the healing.
pub tick_follows :
    (now : ℕ) (p : Probe) (m : Monitor)
    → m.has_checker ≡ true
    → m.self_healing ≡ true
    → in_maintenance (tick now p m).0 ≡ is_failing p
unfolding tick in_maintenance
tick_follows now healthy m c s = ground arith
tick_follows now (failing reason message) m c s = ground arith

-- In maintenance with self-healing off, a tick changes nothing in the monitor.
pub tick_stuck :
    (now : ℕ) (p : Probe) (m : Monitor)
    → m.self_healing ≡ false
    → in_maintenance m ≡ true
    → (tick now p m).0 ≡ m
unfolding tick in_maintenance
tick_stuck now healthy m s h = ground arith
tick_stuck now (failing reason message) m s h = ground arith
