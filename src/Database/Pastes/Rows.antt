-- ===== src/Database/Pastes/Rows.antt =====
-- What is stored after a paste operation: lookups, the primary key, and the view counts.
use pastebin.Base.{
  ℕ, ◌<◌, ◌≡◌, ◌⊎◌, inl, inr, refl, ◌∙◌, Bool, false, List, [], ◌∷◌, ◌++◌, none, some, arith, Bytes,
  bytes_eq_iff, bytes_eq_refl, Bool-cases, All, All-append, All-delete_of, find_where, delete_where,
  update_where, find-update, update-absent, delete-update, find-delete_none, find-append_none,
  find-append_other,
}
use pastebin.Model.{Paste}
use pastebin.Database.State.{Db, ok, ◌>>◌, statement, run_with, transaction}
use pastebin.Database.Pastes.Ops.{
  has_id, viewed, stamp, create_paste, get_paste_by_id, bump_views, delete_row, check_burn,
  view_and_check, increment_views_and_check_burn, is_burned,
}
use pastebin.Database.Pastes.Burn.{viewed_rows, find-viewed_self}

-- With no failing statement, a new paste is stored last, and read back as it was stamped.
pub get-create :
    (now : ℕ) (p : Paste) (d : Db)
    → d.faults ≡ []
    → find_where (has_id p.id) d.pastes ≡ none
    → (create_paste now p >> get_paste_by_id p.id) d
      ≡ (ok (some (stamp now p)), record d { pastes = d.pastes ++ stamp now p ∷ [] })
unfolding create_paste get_paste_by_id statement run_with stamp find_where
get-create now p d healthy fresh =
    ground
      (arith, bytes_eq_refl p.id, find-append_none (has_id p.id) d.pastes (stamp now p ∷ []) fresh)

-- What a view can leave, whichever statements fail: the rows as they were, or those of a view of the
-- stored paste.
module _ (now : ℕ) (id : Bytes) (d : Db) where
  pub increment_rows_absent :
      find_where (has_id id) d.pastes ≡ none
      → (increment_views_and_check_burn now id d).1.pastes ≡ d.pastes
  unfolding increment_views_and_check_burn view_and_check transaction statement run_with bump_views
  increment_rows_absent absent =
      ground (arith, update-absent (has_id id) (viewed now) d.pastes absent)

  pub increment_rows_found :
      {p : Paste}
      → find_where (has_id id) d.pastes ≡ some p
      → ((increment_views_and_check_burn now id d).1.pastes ≡ d.pastes)
        ⊎ ((increment_views_and_check_burn now id d).1.pastes ≡ viewed_rows now id p d.pastes)
  unfolding increment_views_and_check_burn view_and_check transaction statement run_with bump_views
      check_burn delete_row is_burned viewed_rows
  increment_rows_found {p} found = ground (arith, find-viewed_self now id d.pastes {p = p} found)

-- The primary key: no identifier stands in two rows.
abbrev pub IsKeyed : List Paste → Type 0
IsKeyed [] = Unit
IsKeyed (p ∷ rows) = (find_where (has_id p.id) rows ≡ none) × IsKeyed rows

-- A burn-after paste has views left.
abbrev pub IsLive : Paste → Type 0
IsLive p = (p.burn_after ≡ 0) ⊎ (p.views < p.burn_after)

pub record IsValid (rows : List Paste) : Type 0 where
  pub keyed : IsKeyed rows
  pub live : All IsLive rows

IsKeyed-delete :
    (dead : Paste → Bool) (rows : List Paste) → IsKeyed rows → IsKeyed (delete_where dead rows)
unfolding delete_where
IsKeyed-delete dead [] h = tt
IsKeyed-delete dead (p ∷ rows) (k, h) = elim (Bool-cases (dead p)) [
  | inl e ↦ rw e (IsKeyed-delete dead rows h)
  | inr e ↦ rw e (find-delete_none dead (has_id p.id) rows k, IsKeyed-delete dead rows h)
]

IsKeyed-viewed :
    (now : ℕ) (id : Bytes) (rows : List Paste)
    → IsKeyed rows
    → IsKeyed (update_where (has_id id) (viewed now) rows)
unfolding update_where
IsKeyed-viewed now id [] h = tt
IsKeyed-viewed now id (p ∷ rows) (k, h) = elim (Bool-cases (has_id id p)) [
  | inl e ↦ rw e (kept, IsKeyed-viewed now id rows h)
  | inr e ↦ rw e (kept, IsKeyed-viewed now id rows h)
]
  where
    kept : find_where (has_id p.id) (update_where (has_id id) (viewed now) rows) ≡ none
    kept = find-update (has_id id) (has_id p.id) (viewed now) (λ x. refl) rows ∙ rw k refl

IsKeyed-concat :
    (q : Paste) (rows : List Paste)
    → find_where (has_id q.id) rows ≡ none
    → IsKeyed rows
    → IsKeyed (rows ++ q ∷ [])
unfolding find_where
IsKeyed-concat q [] fresh h = (refl, tt)
IsKeyed-concat q (p ∷ rows) fresh (k, h) = elim (Bool-cases (has_id q.id p)) [
  | inl e ↦ absurd (ground arith)
  | inr e ↦ (
    find-append_other (has_id p.id) rows q
          (ground (arith, bytes_eq_iff p.id q.id, bytes_eq_iff q.id p.id))
        ∙ k,
    IsKeyed-concat q rows (ground arith) h,
  )
]

All-IsLive-viewed :
    (now : ℕ) (id : Bytes) (p : Paste) (rows : List Paste)
    → find_where (has_id id) rows ≡ some p
    → is_burned (viewed now p) ≡ false
    → IsKeyed rows
    → All IsLive rows
    → All IsLive (update_where (has_id id) (viewed now) rows)
unfolding find_where update_where is_burned
All-IsLive-viewed now id p [] found stays keyed live = tt
All-IsLive-viewed now id p (x ∷ rows) found stays (k, keyed) (l, live) =
    elim (Bool-cases (has_id id x)) [
      | inl e ↦
          let same : x ≡ p = ground arith in
          let here : x.id ≡ id = (bytes_eq_iff x.id id).0 e in
          let rest : update_where (has_id id) (viewed now) rows ≡ rows =
            update-absent (has_id id) (viewed now) rows (rw here at k) in
          rw (e, rest) (unfold is_burned in ground arith, live)
      | inr e ↦ rw e (l, All-IsLive-viewed now id p rows (ground arith) stays keyed live)
    ]

pub viewed_rows-IsValid :
    (now : ℕ) (id : Bytes) (p : Paste) (rows : List Paste)
    → find_where (has_id id) rows ≡ some p
    → IsValid rows
    → IsValid (viewed_rows now id p rows)
unfolding viewed_rows
viewed_rows-IsValid now id p rows found v = elim (Bool-cases (is_burned (viewed now p))) [
  | inl e ↦
      rw (e, delete-update (has_id id) (viewed now) (λ x. refl) rows)
        (record {
          keyed = IsKeyed-delete (has_id id) rows v.keyed;
          live = All-delete_of (has_id id) IsLive rows v.live;
        })
  | inr e ↦ rw e (record {
    keyed = IsKeyed-viewed now id rows v.keyed;
    live = All-IsLive-viewed now id p rows found e v.keyed v.live;
  })
]

pub delete-IsValid :
    (dead : Paste → Bool) (rows : List Paste) → IsValid rows → IsValid (delete_where dead rows)
delete-IsValid dead rows v = record {
  keyed = IsKeyed-delete dead rows v.keyed;
  live = All-delete_of dead IsLive rows v.live;
}

pub concat-IsValid :
    (q : Paste) (rows : List Paste)
    → find_where (has_id q.id) rows ≡ none
    → IsLive q
    → IsValid rows
    → IsValid (rows ++ q ∷ [])
concat-IsValid q rows fresh l v = record {
  keyed = IsKeyed-concat q rows fresh v.keyed;
  live = All-append IsLive rows (q ∷ []) v.live (l, tt);
}
