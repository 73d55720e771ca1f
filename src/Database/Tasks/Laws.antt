-- ===== src/Database/Tasks/Laws.antt =====
-- What an upsert of a task keeps of its row, and what a listing finds.
use pastebin.Base.{
  ℕ, ◌≡◌, refl, Bool, true, List, [], ◌∷◌, ◌++◌, Option, none, some, Bytes, bytes_eq, bytes_eq_iff,
  arith, inl, inr, if◌then◌else◌, find_where, update_where, Option-cases, find-update,
  find-append_some,
}
use mathlib.Core.Option
use pastebin.Database.State.{TaskRow}
use pastebin.Database.Tasks.{
  TaskState, merge, has_task_id, upsert_row, lex_leb, insert_by_id, scan_all, scan_task_state,
  scan_row,
}

-- The outcome that the row of a task holds: its status and its next run.
abbrev pub outcome_of : Option TaskRow → Option (Bytes × Option ℕ)
outcome_of none = none
outcome_of (some r) = some (r.last_status, r.next_run)

unfoldable pub stored_outcome : Bytes → List TaskRow → Option (Bytes × Option ℕ)
stored_outcome id rows = outcome_of (find_where (has_task_id id) rows)

outcome-merge :
    (id : Bytes) (t : TaskState) (row : Option TaskRow) {c n : ℕ} {cs : Bytes}
    → outcome_of row ≡ some (c ∷ cs, some n)
    → outcome_of (Option.map (λ x. if has_task_id t.task_id x then merge t x else x) row)
      ≡ some (c ∷ cs, some n)
unfolding merge
outcome-merge id t none h = cc
outcome-merge id t (some r) h = ground (arith, h)

outcome-update :
    (id : Bytes) (t : TaskState) (rows : List TaskRow) {c n : ℕ} {cs : Bytes}
    → stored_outcome id rows ≡ some (c ∷ cs, some n)
    → stored_outcome id (update_where (has_task_id t.task_id) (merge t) rows)
      ≡ some (c ∷ cs, some n)
unfolding stored_outcome merge
outcome-update id t rows h =
    rw (find-update (has_task_id t.task_id) (has_task_id id) (merge t) (λ x. refl) rows)
      (outcome-merge id t (find_where (has_task_id id) rows) h)

outcome-append :
    (id : Bytes) (rows more : List TaskRow) {o : Bytes × Option ℕ}
    → stored_outcome id rows ≡ some o
    → stored_outcome id (rows ++ more) ≡ some o
unfolding stored_outcome
outcome-append id rows more h = elim (Option-cases (find_where (has_task_id id) rows)) [
  | inl e ↦ cc
  | inr (r, e) ↦ cc (find-append_some (has_task_id id) rows more e, e, h)
]

-- A row that holds a status and a next run keeps both through every upsert.
pub upsert-stored_outcome :
    (id : Bytes) (t : TaskState) (rows : List TaskRow) {c n : ℕ} {cs : Bytes}
    → stored_outcome id rows ≡ some (c ∷ cs, some n)
    → stored_outcome id (upsert_row t rows (find_where (has_task_id t.task_id) rows))
      ≡ some (c ∷ cs, some n)
unfolding upsert_row
upsert-stored_outcome id t rows h = elim (Option-cases (find_where (has_task_id t.task_id) rows)) [
  | inl e ↦ rw e (outcome-append id rows _ h)
  | inr (r, e) ↦ rw e (outcome-update id t rows h)
]

lex_leb_refl : (xs : Bytes) → lex_leb xs xs ≡ true
unfolding lex_leb
lex_leb_refl [] = refl
lex_leb_refl (x ∷ xs) = ground (arith, lex_leb_refl xs)

-- The entry of a task in the scheduler's index of the stored tasks.
abbrev pub has_state_id : Bytes → TaskState → Bool
has_state_id id t = bytes_eq t.task_id id

ids-lex_leb :
    (id : Bytes) (t u : TaskState)
    → has_state_id id t ≡ true
    → has_state_id id u ≡ true
    → lex_leb t.task_id u.task_id ≡ true
ids-lex_leb id t u ht hu =
    rw ((bytes_eq_iff t.task_id id).0 ht, (bytes_eq_iff u.task_id id).0 hu) (lex_leb_refl id)

find-insert_by_id :
    (id : Bytes) (t : TaskState) (us : List TaskState)
    → find_where (has_state_id id) (insert_by_id t us) ≡ find_where (has_state_id id) (t ∷ us)
unfolding find_where insert_by_id
find-insert_by_id id t [] = refl
find-insert_by_id id t (u ∷ us) = ground (arith, ids-lex_leb id t u, find-insert_by_id id t us)

-- The order of the listing does not change which stored state a task has.
pub find-scan_all :
    (id : Bytes) (rows : List TaskRow)
    → find_where (has_state_id id) (scan_all rows) ≡ scan_row (find_where (has_task_id id) rows)
unfolding find_where scan_all scan_task_state
find-scan_all id [] = refl
find-scan_all id (r ∷ rs) =
    rw (find-insert_by_id id (scan_task_state r) (scan_all rs)) ground (arith, find-scan_all id rs)
