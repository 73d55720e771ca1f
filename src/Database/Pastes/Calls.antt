-- ===== src/Database/Pastes/Calls.antt =====
-- Sequences of paste operations, whichever of their statements fail.
use pastebin.Base.{
  ℕ, ◌≡◌, ◌⊎◌, inl, inr, Bool, false, List, [], ◌∷◌, ◌++◌, none, arith, Bytes, Option-cases, All,
  find_where, delete_where, delete_none,
}
use pastebin.Model.{Paste}
use pastebin.Database.State.{Db, ok, statement, run_with}
use pastebin.Database.Pastes.Ops.{
  has_id, stamp, create_paste, increment_views_and_check_burn, delete_row, delete_paste,
  delete_paste_by_token, delete_matching, is_expired, is_burned, delete_expired_pastes,
  delete_burned_pastes,
}
use pastebin.Database.Pastes.Rows.{
  IsLive, IsValid, increment_rows_absent, increment_rows_found, viewed_rows-IsValid, delete-IsValid,
  concat-IsValid,
}

-- A call of one of the operations that write the table of pastes.
pub data Call : Type 0 where
  create : ℕ → Paste → Call
  view : ℕ → Bytes → Call
  delete : Bytes → Call
  delete_by_token : Bytes → Bytes → Call
  expire : ℕ → Call
  purge : Call

unfoldable pub run_call : Call → Db → Db
run_call (create now p) d = (create_paste now p d).1
run_call (view now id) d = (increment_views_and_check_burn now id d).1
run_call (delete id) d = (delete_paste id d).1
run_call (delete_by_token id hash) d = (delete_paste_by_token id hash d).1
run_call (expire now) d = (delete_expired_pastes now d).1
run_call purge d = (delete_burned_pastes d).1

unfoldable pub run_calls : List Call → Db → Db
run_calls [] d = d
run_calls (c ∷ cs) d = run_calls cs (run_call c d)

-- Pastes are created unviewed, as the handlers do.
abbrev pub IsUnviewed : Call → Type 0
IsUnviewed (create now p) = p.views ≡ 0
IsUnviewed _ = Unit

-- A delete either runs or changes nothing.
delete_row-rows :
    (id : Bytes) (d : Db)
    → ((delete_row id d).1.pastes ≡ d.pastes)
      ⊎ ((delete_row id d).1.pastes ≡ delete_where (has_id id) d.pastes)
unfolding delete_row statement run_with
delete_row-rows id d = ground arith

create-rows :
    (now : ℕ) (p : Paste) (d : Db)
    → ((create_paste now p d).1.pastes ≡ d.pastes)
      ⊎ ((find_where (has_id p.id) d.pastes ≡ none)
          × ((create_paste now p d).1.pastes ≡ d.pastes ++ stamp now p ∷ []))
unfolding create_paste statement run_with
create-rows now p d = ground arith

delete_paste-rows :
    (id : Bytes) (d : Db)
    → ((delete_paste id d).1.pastes ≡ d.pastes)
      ⊎ ((delete_paste id d).1.pastes ≡ delete_where (has_id id) d.pastes)
unfolding delete_paste statement run_with
delete_paste-rows id d = ground arith

delete_paste_by_token-rows :
    (id hash : Bytes) (d : Db)
    → ((delete_paste_by_token id hash d).1.pastes ≡ d.pastes)
      ⊎ ((delete_paste_by_token id hash d).1.pastes ≡ delete_where (has_id id) d.pastes)
unfolding delete_paste_by_token delete_row statement run_with
delete_paste_by_token-rows id hash d = ground arith

delete_matching-rows :
    (dead : Paste → Bool) (d : Db)
    → ((delete_matching dead d).1.pastes ≡ d.pastes)
      ⊎ ((delete_matching dead d).1.pastes ≡ delete_where dead d.pastes)
unfolding delete_matching statement run_with
delete_matching-rows dead d = ground arith

IsValid-of_delete :
    (dead : Paste → Bool) (before now : List Paste)
    → IsValid before
    → (now ≡ before) ⊎ (now ≡ delete_where dead before)
    → IsValid now
IsValid-of_delete dead before now v (inl same) = rw same v
IsValid-of_delete dead before now v (inr gone) = rw gone (delete-IsValid dead before v)

view-IsValid :
    (now : ℕ) (id : Bytes) (d : Db)
    → IsValid d.pastes
    → IsValid (increment_views_and_check_burn now id d).1.pastes
view-IsValid now id d v = elim (Option-cases (find_where (has_id id) d.pastes)) [
  | inl absent ↦ rw (increment_rows_absent now id d absent) v
  | inr (p, found) ↦ elim (increment_rows_found now id d found) [
    | inl same ↦ rw same v
    | inr seen ↦ rw seen (viewed_rows-IsValid now id p d.pastes found v)
  ]
]

create-IsValid :
    (now : ℕ) (p : Paste) (d : Db)
    → p.views ≡ 0
    → IsValid d.pastes
    → IsValid (create_paste now p d).1.pastes
create-IsValid now p d unviewed v = elim (create-rows now p d) [
  | inl same ↦ rw same v
  | inr (fresh, stored) ↦
      rw stored (concat-IsValid (stamp now p) d.pastes (fresh_stamp fresh) live v)
]
  where
    fresh_stamp :
        find_where (has_id p.id) d.pastes ≡ none
        → find_where (has_id (stamp now p).id) d.pastes ≡ none
    fresh_stamp h = unfold stamp in h

    live : IsLive (stamp now p)
    live = unfold stamp in ground arith

pub run_call-IsValid :
    (c : Call) (d : Db) → IsUnviewed c → IsValid d.pastes → IsValid (run_call c d).pastes
unfolding run_call delete_expired_pastes delete_burned_pastes
run_call-IsValid (create now p) d h v = create-IsValid now p d h v
run_call-IsValid (view now id) d h v = view-IsValid now id d v
run_call-IsValid (delete id) d h v =
    IsValid-of_delete (has_id id) d.pastes _ v (delete_paste-rows id d)
run_call-IsValid (delete_by_token id hash) d h v =
    IsValid-of_delete (has_id id) d.pastes _ v (delete_paste_by_token-rows id hash d)
run_call-IsValid (expire now) d h v =
    IsValid-of_delete (is_expired now) d.pastes _ v (delete_matching-rows (is_expired now) d)
run_call-IsValid purge d h v =
    IsValid-of_delete is_burned d.pastes _ v (delete_matching-rows is_burned d)

-- In a table where no identifier is stored twice and every burn-after paste has views left, this
-- stays so whatever operations run, and whichever of their statements fail, if pastes are created
-- with no views.
pub run_calls-IsValid :
    (cs : List Call) (d : Db)
    → All IsUnviewed cs
    → IsValid d.pastes
    → IsValid (run_calls cs d).pastes
unfolding run_calls
run_calls-IsValid [] d h v = v
run_calls-IsValid (c ∷ cs) d (h, hs) v =
    run_calls-IsValid cs (run_call c d) hs (run_call-IsValid c d h v)

not_burned : (rows : List Paste) → All IsLive rows → All (λ p. is_burned p ≡ false) rows
unfolding is_burned
not_burned [] h = tt
not_burned (p ∷ rows) (l, h) = (ground arith, not_burned rows h)

-- The clean-up `DeleteBurnedPastes` has nothing to do: after any operations on a table that was valid,
-- with pastes created with no views, it deletes no paste and reports 0 if it does not fail.
pub delete_burned-nothing :
    (cs : List Call) (d : Db)
    → All IsUnviewed cs
    → IsValid d.pastes
    → (run_calls cs d).faults ≡ []
    → delete_burned_pastes (run_calls cs d) ≡ (ok 0, run_calls cs d)
unfolding delete_burned_pastes delete_matching statement run_with
delete_burned-nothing cs d h v healthy = ground (
  arith,
  delete_none is_burned (run_calls cs d).pastes (not_burned _ (run_calls-IsValid cs d h v).live),
)
