-- ===== src/Health/Run.antt =====
-- A monitor in use: its ticks, the calls that come between their halves, and what the notifier is told.
use pastebin.Base.{
  ℕ, ◌+◌, ◌≡◌, refl, Bool, true, false, List, [], ◌∷◌, ◌++◌, Option, none, some, arith, Bytes,
}
use pastebin.Health.{
  Config, Monitor, Event, cleaned, entered, exited, Observed, Probe, healthy, failing, new,
  is_maintenance, set_checker, set_cleaner, set_notifier, enter, exit, observe, heal, watch,
  clean_up, dispatch, act,
}
use pastebin.Health.Invariant.{IsValid, new-IsValid, enter-IsValid, exit-IsValid, act-IsValid}

-- The calls of the notifier in a list of events.
unfoldable pub entries : List Event → ℕ
entries [] = 0
entries (entered s ∷ es) = 1 + entries es
entries (exited s ∷ es) = entries es
entries (cleaned ∷ es) = entries es

unfoldable pub exits : List Event → ℕ
exits [] = 0
exits (entered s ∷ es) = exits es
exits (exited s ∷ es) = 1 + exits es
exits (cleaned ∷ es) = exits es

entries-append : (es fs : List Event) → entries (es ++ fs) ≡ entries es + entries fs
unfolding entries
entries-append [] fs = omega arith
entries-append (cleaned ∷ es) fs = entries-append es fs
entries-append (entered s ∷ es) fs = omega (arith, entries-append es fs)
entries-append (exited s ∷ es) fs = entries-append es fs

exits-append : (es fs : List Event) → exits (es ++ fs) ≡ exits es + exits fs
unfolding exits
exits-append [] fs = omega arith
exits-append (cleaned ∷ es) fs = exits-append es fs
exits-append (entered s ∷ es) fs = exits-append es fs
exits-append (exited s ∷ es) fs = omega (arith, exits-append es fs)

abbrev pub one_if : Bool → ℕ
one_if true = 1
one_if false = 0

-- Every transition is told to a notifier that is registered for both.
abbrev pub Tells : Monitor → Type 0
Tells m = (m.has_notifier ≡ true) × (m.notify_on_enter ≡ true) × (m.notify_on_exit ≡ true)

abbrev Accounts : Monitor → Monitor × List Event → Type 0
Accounts m r =
    Tells r.0
    × (one_if (is_maintenance m.state) + entries r.1
        ≡ one_if (is_maintenance r.0.state) + exits r.1)

enter-Accounts :
    (now : ℕ) (reason message : Bytes) (m : Monitor)
    → Tells m
    → Accounts m (enter now reason message m)
unfolding enter entries exits
enter-Accounts now reason message m t = ground arith

exit-Accounts : (m : Monitor) → Tells m → Accounts m (exit m)
unfolding exit entries exits
exit-Accounts m t = ground arith

dispatch-Accounts :
    (now : ℕ) (o : Observed) (p : Probe) (m : Monitor) → Tells m → Accounts m (dispatch now o p m)
unfolding heal watch exit enter entries exits
dispatch-Accounts now o healthy m t = ground arith
dispatch-Accounts now o (failing reason message) m t = ground arith

act-Accounts :
    (now : ℕ) (o : Observed) (p : Probe) (m : Monitor) → Tells m → Accounts m (act now o p m)
unfolding act clean_up entries exits
act-Accounts now o p m t = ground (arith, dispatch-Accounts now o p m t, t)

-- The monitor, the tick that waits for its probe, and the callbacks so far.
pub record System : Type 0 where
  pub monitor : Monitor
  pub pending : Option Observed
  pub log : List Event

abbrev pub moved : System → Option Observed → Monitor × List Event → System
moved s waiting r = record { monitor = r.0; pending = waiting; log = s.log ++ r.1 }

-- The probe runs without the lock: any call of `Enter` and `Exit` comes between its two halves.
pub data Step : System → System → Type 0 where
  begins :
      {s : System} → s.pending ≡ none → Step s (record s { pending = some (observe s.monitor) })
  finishes :
      {s : System} (now : ℕ) (p : Probe) (o : Observed)
      → s.pending ≡ some o
      → Step s (moved s none (act now o p s.monitor))
  enters :
      {s : System} (now : ℕ) (reason message : Bytes)
      → Step s (moved s s.pending (enter now reason message s.monitor))
  leaves : {s : System} → Step s (moved s s.pending (exit s.monitor))

pub data Reach (cfg : Config) (notifier : Bool) : System → Type 0 where
  starts :
      (checker cleaner : Bool)
      → Reach cfg notifier (record {
        monitor = set_checker checker (set_cleaner cleaner (set_notifier notifier (new cfg)));
        pending = none;
        log = [];
      })
  steps : {s t : System} → Reach cfg notifier s → Step s t → Reach cfg notifier t

start-IsValid :
    (cfg : Config) (a b c : Bool)
    → IsValid (set_checker a (set_cleaner b (set_notifier c (new cfg))))
unfolding set_checker set_cleaner set_notifier
start-IsValid cfg a b c =
    let v = new-IsValid cfg in record { idle = v.idle; capped = v.capped; paced = v.paced }

step-IsValid : {s t : System} → Step s t → IsValid s.monitor → IsValid t.monitor
step-IsValid (begins h) v = v
step-IsValid {s} (finishes now p o h) v = act-IsValid now o p s.monitor v
step-IsValid {s} (enters now reason message) v = enter-IsValid now reason message s.monitor v
step-IsValid {s} leaves v = exit-IsValid s.monitor v

-- Whatever calls of `Enter` and `Exit` come between the two halves of a tick: out of maintenance there is
-- no reason, message or start time left, the attempts stay within a cap that is set, and the retry interval
-- is positive.
pub Reach-IsValid :
    {cfg : Config} {notifier : Bool} {s : System} → Reach cfg notifier s → IsValid s.monitor
Reach-IsValid {cfg} {notifier} (starts a b) = start-IsValid cfg a b notifier
Reach-IsValid (steps r st) = step-IsValid st (Reach-IsValid r)

Balanced : System → Type 0
Balanced s =
    Tells s.monitor × (entries s.log ≡ exits s.log + one_if (is_maintenance s.monitor.state))

moved-Balanced :
    (s : System) (waiting : Option Observed) (r : Monitor × List Event)
    → Balanced s
    → Accounts s.monitor r
    → Balanced (moved s waiting r)
unfolding Balanced
moved-Balanced s waiting r b a =
    (a.0, omega (arith, b.1, a.1, entries-append s.log r.1, exits-append s.log r.1))

step-Balanced : {s t : System} → Step s t → Balanced s → Balanced t
unfolding Balanced
step-Balanced (begins h) b = b
step-Balanced {s} (finishes now p o h) b =
    moved-Balanced s none (act now o p s.monitor) b (act-Accounts now o p s.monitor b.0)
step-Balanced {s} (enters now reason message) b =
    moved-Balanced s s.pending (enter now reason message s.monitor) b
      (enter-Accounts now reason message s.monitor b.0)
step-Balanced {s} leaves b =
    moved-Balanced s s.pending (exit s.monitor) b (exit-Accounts s.monitor b.0)

Reach-Balanced :
    {cfg : Config} {s : System}
    → cfg.notify_on_enter ≡ true
    → cfg.notify_on_exit ≡ true
    → Reach cfg true s
    → Balanced s
unfolding Balanced set_checker set_cleaner set_notifier new entries exits
Reach-Balanced he hx (starts a b) = ((refl, he, hx), refl)
Reach-Balanced he hx (steps r st) = step-Balanced st (Reach-Balanced he hx r)

-- When a notifier is registered and the configuration asks for notices of both kinds, then after any
-- interleaving the notices of entering number those of leaving, and one more exactly while the monitor is
-- in maintenance.
pub notices-balance :
    {cfg : Config} {s : System}
    → cfg.notify_on_enter ≡ true
    → cfg.notify_on_exit ≡ true
    → Reach cfg true s
    → entries s.log ≡ exits s.log + one_if (is_maintenance s.monitor.state)
unfolding Balanced
notices-balance he hx r = (Reach-Balanced he hx r).1
