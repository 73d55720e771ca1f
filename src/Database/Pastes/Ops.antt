-- ===== src/Database/Pastes/Ops.antt =====
-- The statements of the paste operations.
use pastebin.Base.{
  ℕ, ◌+◌, ◌-◌, ◌*◌, Bool, true, false, not, ◌&&◌, List, [], ◌∷◌, ◌++◌, map, Option, none, some,
  Bytes, codes, bytes_eq, ltb, leb, ◌==◌, if◌then◌else◌, length, take, drop, find_where,
  filter_where, delete_where, count_where, update_where,
}
use pastebin.Base.Sort.{order_desc}
use pastebin.Model.{Paste, PasteListItem, to_list_item}
use pastebin.Database.State.{
  Db, paste_not_found, constraint, invalid_token, M, Result, ok, err, ◌>>=◌, ◌>>◌, return, throw,
  statement, transaction,
}

abbrev pub has_id : Bytes → Paste → Bool
has_id id p = bytes_eq p.id id

-- What `CreatePaste` writes into the paste that it is given.
unfoldable pub stamp : ℕ → Paste → Paste
stamp now p = record p {
  created_at = now;
  updated_at = now;
  title = if bytes_eq p.title [] then codes "Untitled" else p.title;
  language = if bytes_eq p.language [] && not p.is_link then codes "text" else p.language;
}

-- INSERT, under the primary key `id`.
abbrev pub insert_paste : Paste → Db → Option Paste → Result (Unit {0}) × Db
insert_paste p d (some old) = (err constraint, d)
insert_paste p d none = (ok tt, record d { pastes = d.pastes ++ p ∷ [] })

unfoldable pub create_paste : ℕ → Paste → M (Unit {0})
create_paste now p = statement λ d. insert_paste (stamp now p) d (find_where (has_id p.id) d.pastes)

unfoldable pub get_paste_by_id : Bytes → M (Option Paste)
get_paste_by_id id = statement λ d. (ok (find_where (has_id id) d.pastes), d)

-- `expires_at IS NULL OR expires_at > now`
unfoldable pub is_unexpired : ℕ → Paste → Bool
is_unexpired now p = elim p.expires_at [ none ↦ true | some t ↦ ltb now t ]

unfoldable pub is_listed : ℕ → Paste → Bool
unfolding is_unexpired
is_listed now p = p.visibility == 0 && is_unexpired now p

-- The rows in the order of the listing, and one page of them.
unfoldable pub listing : ℕ → List Paste → List PasteListItem
listing now rows =
    map to_list_item (order_desc (λ p. p.created_at) (filter_where (is_listed now) rows))

unfoldable pub get_public_pastes : ℕ → ℕ → ℕ → M (List PasteListItem × ℕ)
get_public_pastes now page limit = do
  let page' = if ltb page 1 then 1 else page
  let limit' = if ltb limit 1 then 1 else limit
  let offset = (page' - 1) * limit'
  total ← statement λ d. (ok (count_where (is_listed now) d.pastes), d)
  items ← statement λ d. (ok (take limit' (drop offset (listing now d.pastes))), d)
  return (items, total)

abbrev pub viewed : ℕ → Paste → Paste
viewed now p = record p { views = p.views + 1; updated_at = now }

-- UPDATE … RETURNING views, burn_after
abbrev pub returning : Option Paste → M (ℕ × ℕ)
returning none d = (err paste_not_found, d)
returning (some p) d = (ok (p.views, p.burn_after), d)

unfoldable pub bump_views : ℕ → Bytes → M (ℕ × ℕ)
bump_views now id = statement λ d.
    let rows = update_where (has_id id) (viewed now) d.pastes in
    returning (find_where (has_id id) rows) (record d { pastes = rows })

unfoldable pub delete_row : Bytes → M (Unit {0})
delete_row id = statement λ d. (ok tt, record d { pastes = delete_where (has_id id) d.pastes })

-- Deletes the row when the count has reached the threshold; the answer is `burned`.
unfoldable pub check_burn : Bytes → ℕ → ℕ → M Bool
unfolding delete_row
check_burn id views burn =
    if ltb 0 burn && leb burn views then (do delete_row id; return true) else return false

unfoldable pub view_and_check : ℕ → Bytes → M (ℕ × Bool)
unfolding bump_views check_burn
view_and_check now id = do
  (views, burn) ← bump_views now id
  burned ← check_burn id views burn
  return (views, burned)

unfoldable pub increment_views_and_check_burn : ℕ → Bytes → M (ℕ × Bool)
unfolding view_and_check transaction
increment_views_and_check_burn now id = transaction (view_and_check now id)

-- `RowsAffected() == 0` is an error.
abbrev pub deleted_rows : Bytes → Db → ℕ → Result (Unit {0}) × Db
deleted_rows id d n =
    if n == 0
    then (err paste_not_found, d)
    else (ok tt, record d { pastes = delete_where (has_id id) d.pastes })

unfoldable pub delete_paste : Bytes → M (Unit {0})
delete_paste id = statement λ d. deleted_rows id d (count_where (has_id id) d.pastes)

abbrev pub check_delete_token : Bytes → Option Paste → M (Unit {0})
check_delete_token hash none = throw invalid_token
check_delete_token hash (some p) =
    if bytes_eq p.delete_token_hash hash then return tt else throw invalid_token

unfoldable pub delete_paste_by_token : Bytes → Bytes → M (Unit {0})
unfolding delete_row
delete_paste_by_token id hash = do
  row ← statement λ d. (ok (find_where (has_id id) d.pastes), d)
  check_delete_token hash row
  delete_row id

unfoldable pub delete_matching : (Paste → Bool) → M ℕ
delete_matching dead =
    statement
      λ d. (ok (count_where dead d.pastes), record d { pastes = delete_where dead d.pastes })

-- `expires_at IS NOT NULL AND expires_at <= now`
unfoldable pub is_expired : ℕ → Paste → Bool
is_expired now p = elim p.expires_at [ none ↦ false | some t ↦ leb t now ]

unfoldable pub delete_expired_pastes : ℕ → M ℕ
unfolding delete_matching is_expired
delete_expired_pastes now = delete_matching (is_expired now)

-- `burn_after > 0 AND views >= burn_after`
unfoldable pub is_burned : Paste → Bool
is_burned p = ltb 0 p.burn_after && leb p.burn_after p.views

unfoldable pub delete_burned_pastes : M ℕ
unfolding delete_matching is_burned
delete_burned_pastes = delete_matching is_burned

unfoldable pub count_pastes : M ℕ
count_pastes = statement λ d. (ok (length d.pastes), d)
