-- ===== src/Health/Invariant.antt =====
-- What every operation of the monitor keeps.
use pastebin.Base.{ℕ, ◌≤◌, ◌<◌, ◌≡◌, refl, true, [], arith, Bytes, ◌⊎◌, inr}
use pastebin.Base.Int.{ℤ, is_positive, pos_part, pos, negsuc}
use pastebin.Health
use pastebin.Health.{
  State, starting, normal, maintenance, Config, Monitor, Event, cleaned, entered, exited, Observed,
  Probe, healthy, failing, new, is_maintenance, set_checker, set_cleaner, set_notifier, enter, exit,
  observe, heal, watch, clean_up, dispatch, act, default_interval,
}

-- Out of maintenance there is no reason, message or start; the attempts stay within their cap.
pub record IsValid (m : Monitor) : Type 0 where
  pub idle : (is_maintenance m.state ≡ true) ⊎ ((m.reason ≡ []) × (m.message ≡ []) × (m.since ≡ 0))
  pub capped : (m.max_attempts ≡ 0) ⊎ (m.attempts ≤ m.max_attempts)
  pub paced : 0 < m.retry_interval

positive : (z : ℤ) → is_positive z ≡ true → 0 < pos_part z
positive (pos n) h = ground arith
positive (negsuc n) h = cc

pub new-IsValid : (cfg : Config) → IsValid (new cfg)
unfolding new
new-IsValid cfg = record {
  idle = inr (refl, refl, refl);
  capped = ground arith;
  paced = ground (arith, positive cfg.retry_interval);
}

pub enter-IsValid :
    (now : ℕ) (reason message : Bytes) (m : Monitor)
    → IsValid m
    → IsValid (enter now reason message m).0
unfolding enter
enter-IsValid now reason message m v = record {
  idle = ground (arith, v.idle);
  capped = ground (arith, v.capped);
  paced = ground (arith, v.paced);
}

pub exit-IsValid : (m : Monitor) → IsValid m → IsValid (exit m).0
unfolding exit
exit-IsValid m v = record {
  idle = ground (arith, v.idle);
  capped = ground (arith, v.capped);
  paced = ground (arith, v.paced);
}

count-IsValid : (now : ℕ) (m : Monitor) → IsValid m → IsValid (Health.count_attempt now m)
count-IsValid now m v = record {
  idle = ground (arith, v.idle);
  capped = ground (arith, v.capped);
  paced = ground (arith, v.paced);
}

ready-IsValid : (m : Monitor) → IsValid m → IsValid (Health.became_ready m m.state)
ready-IsValid m v = record {
  idle = ground (arith, v.idle);
  capped = ground (arith, v.capped);
  paced = ground (arith, v.paced);
}

heal-IsValid :
    (now : ℕ) (o : Observed) (p : Probe) (m : Monitor) → IsValid m → IsValid (heal now o p m).0
unfolding heal
heal-IsValid now o healthy m v =
    ground (arith, exit-IsValid (Health.count_attempt now m) (count-IsValid now m v), v)
heal-IsValid now o (failing reason message) m v = ground (arith, count-IsValid now m v, v)

watch-IsValid : (now : ℕ) (p : Probe) (m : Monitor) → IsValid m → IsValid (watch now p m).0
unfolding watch
watch-IsValid now healthy m v = ready-IsValid m v
watch-IsValid now (failing reason message) m v = enter-IsValid now reason message m v

pub act-IsValid :
    (now : ℕ) (o : Observed) (p : Probe) (m : Monitor) → IsValid m → IsValid (act now o p m).0
unfolding act
act-IsValid now o p m v = ground (arith, heal-IsValid now o p m v, watch-IsValid now p m v, v)
