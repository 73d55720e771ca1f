-- ===== src/Scheduler/Flights.antt =====
-- The executions in flight: what `tick`, `runMissed` and `RunNow` have begun and not yet ended.
use pastebin.Base.{
  ℕ, suc, ◌+◌, ◌≤◌, ◌≡◌, refl, ap, Bool, true, false, ◌&&◌, List, [], ◌∷◌, ◌++◌, some, Bytes,
  bytes_eq, bytes_eq_iff, arith, inl, inr, if◌then◌else◌, find_where, update_where, count_where,
  update-absent, count-zero_find, Bool-cases, All,
}
use mathlib.Core.Option.{some-injective}
use pastebin.Scheduler.Execute.{end_run}
use pastebin.Scheduler.{Entry, has_id, start_run, launch}

abbrev pub is_named : Bytes → Bytes → Bool
is_named id f = bytes_eq f id

-- The executions of a task among those in flight.
abbrev pub flying : Bytes → List Bytes → ℕ
flying id flights = count_where (is_named id) flights

abbrev pub runs_as : Bytes → Entry → Bool
runs_as id e = bytes_eq e.id id && e.running

unfoldable pub remove_one : Bytes → List Bytes → List Bytes
remove_one id [] = []
remove_one id (f ∷ fs) = if bytes_eq f id then fs else f ∷ remove_one id fs

-- Every entry that passes the test is idle.
abbrev pub Idle : (Entry → Bool) → Entry → Type 0
Idle test e = test e ≡ true → e.running ≡ false

pub launch-flying :
    (test : Entry → Bool) (id : Bytes) (es : List Entry)
    → All (Idle test) es
    → flying id (launch test es).0 + count_where (runs_as id) es
      ≡ count_where (runs_as id) (launch test es).1
unfolding launch count_where
launch-flying test id [] h = refl
launch-flying test id (e ∷ es) h = ground (arith, h.0, launch-flying test id es h.1)

pub launch-ids :
    (test : Entry → Bool) (id : Bytes) (es : List Entry)
    → count_where (has_id id) (launch test es).1 ≡ count_where (has_id id) es
unfolding launch count_where
launch-ids test id [] = refl
launch-ids test id (e ∷ es) = ground (arith, launch-ids test id es)

pub flying-append :
    (id : Bytes) (fs gs : List Bytes) → flying id (fs ++ gs) ≡ flying id fs + flying id gs
unfolding count_where
flying-append id [] gs = omega arith
flying-append id (f ∷ fs) gs = ground (arith, flying-append id fs gs)

same-bytes_eq : (a b c : Bytes) → bytes_eq a b ≡ true → bytes_eq a c ≡ bytes_eq b c
same-bytes_eq a b c h = ap (λ x. bytes_eq x c) ((bytes_eq_iff a b).0 h)

pub flying-remove :
    (id other : Bytes) (fs : List Bytes) {n : ℕ}
    → flying id fs ≡ suc n
    → flying other (remove_one id fs) + (if bytes_eq id other then 1 else 0) ≡ flying other fs
unfolding remove_one count_where
flying-remove id other [] h = omega (arith, h)
flying-remove id other (f ∷ fs) {n} h =
    ground (arith, same-bytes_eq f id other, flying-remove id other fs {n = n}, h)

pub start-other :
    (id other : Bytes) (es : List Entry)
    → count_where (has_id id) es ≤ 1
    → {e : Entry} → find_where (has_id id) es ≡ some e
    → e.running ≡ false
    → count_where (runs_as other) (update_where (has_id id) start_run es)
      ≡ count_where (runs_as other) es + (if bytes_eq id other then 1 else 0)
unfolding count_where update_where find_where
start-other id other [] le h idle = cc
start-other id other (x ∷ xs) le {e} h idle = elim (Bool-cases (bytes_eq x.id id)) [
  | inl q ↦
      let same : x ≡ e = some-injective x e (rw q at h) in
      let absent : count_where (has_id id) xs ≡ 0 = ground (arith, le, q) in
      let rest = update-absent (has_id id) start_run xs (count-zero_find (has_id id) xs absent) in
      rw (q, rest) ground (arith, same-bytes_eq x.id id other q, ap (λ z. z.running) same, idle)
  | inr q ↦
      let le' : count_where (has_id id) xs ≤ 1 = ground (arith, le, q) in
      ground (arith, start-other id other xs le' {e = e}, h, idle, q)
]

pub clear-other :
    (id other : Bytes) (es : List Entry)
    → bytes_eq id other ≡ false
    → count_where (runs_as other) (update_where (has_id id) end_run es)
      ≡ count_where (runs_as other) es
unfolding count_where update_where
clear-other id other [] h = refl
clear-other id other (x ∷ xs) h =
    ground (arith, same-bytes_eq x.id id other, clear-other id other xs h, h)

pub clear_self :
    (id : Bytes) (es : List Entry)
    → count_where (runs_as id) (update_where (has_id id) end_run es) ≡ 0
unfolding count_where update_where
clear_self id [] = refl
clear_self id (x ∷ xs) = ground (arith, clear_self id xs)

abbrev pub IsIdle : Entry → Type 0
IsIdle e = e.running ≡ false

-- The map of tasks has one entry for a key.
abbrev pub IsKeyed : List Entry → Type 0
IsKeyed es = (id : Bytes) → count_where (has_id id) es ≤ 1
