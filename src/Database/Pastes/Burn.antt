-- ===== src/Database/Pastes/Burn.antt =====
-- `IncrementViewsAndCheckBurn`: what one call does, and what a sequence of calls does.
use pastebin.Base.{
  ℕ, ◌+◌, ◌-◌, ◌<◌, ◌≡◌, ◌≢◌, refl, ◌∙◌, Bool, true, false, List, [], ◌∷◌, none, some, arith, Bytes,
  bytes_eq_iff, leb, if◌then◌else◌, length, inl, inr, Bool-cases, find_where, delete_where,
  update_where, find-delete_self, find-delete_other, find-passes, find-update, find-update_other,
  update-absent,
}
use pastebin.Model.{Paste}
use pastebin.Database.State.{
  Db, Error, paste_not_found, Result, ok, err, SameTables, transaction-atomic, run_with, statement,
  transaction,
}
use pastebin.Database.Pastes.Ops.{
  has_id, viewed, bump_views, delete_row, check_burn, is_burned, view_and_check,
  increment_views_and_check_burn,
}

-- The rows that a view leaves: without the paste if the view burns it.
unfoldable pub viewed_rows : ℕ → Bytes → Paste → List Paste → List Paste
viewed_rows now id p rows =
    if is_burned (viewed now p)
    then delete_where (has_id id) (update_where (has_id id) (viewed now) rows)
    else update_where (has_id id) (viewed now) rows

module _ (now : ℕ) (id : Bytes) where
  pub find-viewed_self :
      (rows : List Paste) {p : Paste}
      → find_where (has_id id) rows ≡ some p
      → find_where (has_id id) (update_where (has_id id) (viewed now) rows) ≡ some (viewed now p)
  find-viewed_self rows {p} h =
      find-update (has_id id) (has_id id) (viewed now) (λ x. refl) rows
      ∙ rw h (rw (find-passes (has_id id) rows h) refl)

  -- With no failing statement, a view of a stored paste counts it and burns it at its threshold.
  pub increment_found :
      (d : Db) {p : Paste}
      → d.faults ≡ []
      → find_where (has_id id) d.pastes ≡ some p
      → increment_views_and_check_burn now id d ≡ (
        ok (p.views + 1, is_burned (viewed now p)),
        record d { pastes = viewed_rows now id p d.pastes },
      )
  unfolding increment_views_and_check_burn view_and_check transaction statement run_with bump_views
      check_burn delete_row is_burned viewed_rows
  increment_found d {p} healthy found = ground (arith, find-viewed_self d.pastes found)

  -- Every other paste is left as it was.
  pub viewed_rows-other :
      (other : Bytes) (p : Paste) (rows : List Paste)
      → other ≢ id
      → find_where (has_id other) (viewed_rows now id p rows) ≡ find_where (has_id other) rows
  unfolding viewed_rows
  viewed_rows-other other p rows ne = elim (Bool-cases (is_burned (viewed now p))) [
    | inl e ↦ rw e (find-delete_other (has_id id) (has_id other) apart _ ∙ kept)
    | inr e ↦ rw e kept
  ]
    where
      apart : (x : Paste) → has_id other x ≡ true → has_id id x ≡ false
      apart x h = ground (arith, bytes_eq_iff x.id other, bytes_eq_iff x.id id)

      kept :
          find_where (has_id other) (update_where (has_id id) (viewed now) rows)
          ≡ find_where (has_id other) rows
      kept = find-update_other (has_id id) (has_id other) (viewed now) (λ x. refl) apart rows

  -- The paste itself is found with its view counted, or gone if the view burned it.
  pub find-viewed_rows_self :
      (rows : List Paste) {p : Paste}
      → find_where (has_id id) rows ≡ some p
      → find_where (has_id id) (viewed_rows now id p rows)
        ≡ (if is_burned (viewed now p) then none else some (viewed now p))
  unfolding viewed_rows
  find-viewed_rows_self rows {p} found = elim (Bool-cases (is_burned (viewed now p))) [
    | inl e ↦ rw e (find-delete_self (has_id id) _)
    | inr e ↦ rw e (find-viewed_self rows found)
  ]

  -- A view of a paste that is not there is refused, and nothing changes.
  pub increment_absent :
      (d : Db)
      → d.faults ≡ []
      → find_where (has_id id) d.pastes ≡ none
      → increment_views_and_check_burn now id d ≡ (err paste_not_found, d)
  unfolding increment_views_and_check_burn view_and_check transaction statement run_with bump_views
  increment_absent d healthy absent =
      ground (arith, update-absent (has_id id) (viewed now) d.pastes absent)

  -- A call that fails, whichever statement of its transaction failed, leaves every table as it was.
  pub increment-atomic :
      (d : Db) {e : Error}
      → (increment_views_and_check_burn now id d).0 ≡ err e
      → SameTables (increment_views_and_check_burn now id d).1 d
  unfolding increment_views_and_check_burn
  increment-atomic d h = transaction-atomic (view_and_check now id) d h

-- A sequence of views, at the instants of a list: their answers, and what is stored behind them.
unfoldable pub serve : List ℕ → Bytes → Db → List (Result (ℕ × Bool)) × Db
serve [] id d = ([], d)
serve (t ∷ ts) id d =
    let step = increment_views_and_check_burn t id d in
    let rest = serve ts id step.1 in (step.0 ∷ rest.0, rest.1)

-- What the readers of a burn-after paste are told: the running count, and `burned` at the threshold.
unfoldable pub countdown : ℕ → ℕ → List ℕ → List (Result (ℕ × Bool))
countdown burn views [] = []
countdown burn views (t ∷ ts) = ok (views + 1, leb burn (views + 1)) ∷ countdown burn (views + 1) ts

module _ (id : Bytes) where
  serve_rest :
      (ts : List ℕ) (d : Db) (p : Paste)
      → d.faults ≡ []
      → find_where (has_id id) d.pastes ≡ some p
      → p.views < p.burn_after
      → length ts ≡ p.burn_after - p.views
      → ((serve ts id d).0 ≡ countdown p.burn_after p.views ts)
        × (find_where (has_id id) (serve ts id d).1.pastes ≡ none)
        × ((serve ts id d).1.faults ≡ [])
  unfolding serve countdown is_burned viewed_rows
  serve_rest [] d p healthy found room len = absurd (omega arith)
  serve_rest (t ∷ []) d p healthy found room len =
      let last : is_burned (viewed t p) ≡ true = ground arith in
      rw (increment_found t id d healthy found, last)
        (ground arith, find-delete_self (has_id id) _, healthy)
  serve_rest (t ∷ u ∷ ts) d p healthy found room len =
      let more : is_burned (viewed t p) ≡ false = ground arith in
      let left = record d { pastes = update_where (has_id id) (viewed t) d.pastes } in
      let (answers, gone, still) =
        serve_rest (u ∷ ts) left (viewed t p) healthy (find-viewed_self t id d.pastes found)
          (ground arith) (omega arith) in
      rw (increment_found t id d healthy found, more) (ground (arith, answers), gone, still)

  -- With no failing statement, a stored paste that burns after `burn_after` views, and has views left,
  -- is served to exactly as many readers as it has views left: each is told the running count, only
  -- the last that the paste burned; then it is gone, and the next reader is refused.
  pub burn_after_reading :
      (ts : List ℕ) (now : ℕ) (d : Db) {p : Paste}
      → d.faults ≡ []
      → find_where (has_id id) d.pastes ≡ some p
      → p.views < p.burn_after
      → length ts ≡ p.burn_after - p.views
      → ((serve ts id d).0 ≡ countdown p.burn_after p.views ts)
        × (find_where (has_id id) (serve ts id d).1.pastes ≡ none)
        × ((increment_views_and_check_burn now id (serve ts id d).1).0 ≡ err paste_not_found)
  burn_after_reading ts now d {p} healthy found room len =
      let (answers, gone, still) = serve_rest ts d p healthy found room len in
      (answers, gone, rw (increment_absent now id (serve ts id d).1 still gone) refl)
