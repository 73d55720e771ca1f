-- ===== src/Database/Pastes/Listing.antt =====
-- The public listing: its order, its pages, and what the clean-up of expired pastes does to it.
use pastebin.Base.{
  ℕ, zero, suc, ◌+◌, ◌-◌, ◌*◌, ◌/◌, ◌≤◌, ◌≡◌, refl, sym, ◌∙◌, ap, true, false, List, [], ◌∷◌, ◌++◌,
  map, arith, ltb, if◌then◌else◌, length, take, drop, length-take, length-map, drop-drop,
  take-take-drop, take_all, All, All-take, All-drop, count_where, length-filter_where,
  All-filter_where, filter-delete_other, All-delete_where, count-delete,
}
use pastebin.Base.Sort.{
  order_desc, order_desc-IsDesc, length-order_desc, All-order_desc, IsDesc, IsDesc-take,
  IsDesc-drop, IsDesc-map,
}
use pastebin.Model.{Paste, PasteListItem, to_list_item}
use pastebin.Database.State.{Db, M, ok, ◌>>=◌, return, statement, run_with}
use pastebin.Database.Pastes.Ops.{
  is_unexpired, is_listed, listing, get_public_pastes, is_expired, delete_matching,
  delete_expired_pastes,
}

-- An item of a listing is that of a stored public paste which has not expired.
pub record ListsPublic (now : ℕ) (i : PasteListItem) : Type 0 where
  pub paste : Paste
  pub shown : to_list_item paste ≡ i
  pub listed : is_listed now paste ≡ true

All-ListsPublic :
    (now : ℕ) (rows : List Paste)
    → All (λ p. is_listed now p ≡ true) rows
    → All (ListsPublic now) (map to_list_item rows)
All-ListsPublic now [] h = tt
All-ListsPublic now (p ∷ rows) (l, h) =
    (record { paste = p; shown = refl; listed = l }, All-ListsPublic now rows h)

module _ (now : ℕ) (rows : List Paste) where
  listing-ListsPublic : All (ListsPublic now) (listing now rows)
  unfolding listing
  listing-ListsPublic = All-ListsPublic now _ (
      All-order_desc (λ p. p.created_at) (λ p. is_listed now p ≡ true) _
        (All-filter_where (is_listed now) rows))

  listing-IsDesc : IsDesc (λ i. i.created_at) (listing now rows)
  unfolding listing to_list_item
  listing-IsDesc =
      IsDesc-map to_list_item (λ i. i.created_at) _ (order_desc-IsDesc (λ p. p.created_at) _)

  pub length-listing : length (listing now rows) ≡ count_where (is_listed now) rows
  unfolding listing
  length-listing =
      length-map to_list_item _
      ∙ length-order_desc (λ p. p.created_at) _
      ∙ length-filter_where (is_listed now) rows

page_shape :
    (now page limit : ℕ) (d : Db) {items : List PasteListItem} {total : ℕ}
    → (get_public_pastes now page limit d).0 ≡ ok (items, total)
    → (items
        ≡ take (if ltb limit 1 then 1 else limit) (
            drop
              (((if ltb page 1 then 1 else page) - 1) * (if ltb limit 1 then 1 else limit))
              (listing now d.pastes)))
      × (total ≡ count_where (is_listed now) d.pastes)
unfolding get_public_pastes statement run_with
page_shape now page limit d h = ground arith

-- What the page of a request holds: at most `limit` items (one if `limit` is 0), newest first, each
-- of a stored public paste that has not expired; and the total is that of the whole listing.
pub page_lem :
    (now page limit : ℕ) (d : Db) {items : List PasteListItem} {total : ℕ}
    → (get_public_pastes now page limit d).0 ≡ ok (items, total)
    → (length items ≤ (if ltb limit 1 then 1 else limit))
      × All (ListsPublic now) items
      × IsDesc (λ i. i.created_at) items
      × (total ≡ length (listing now d.pastes))
page_lem now page limit d h =
    let (items_are, total_is) = page_shape now page limit d h in
    let rows = listing now d.pastes in
    let limit' = if ltb limit 1 then 1 else limit in
    let offset = ((if ltb page 1 then 1 else page) - 1) * limit' in
    rw items_are (
      omega (arith, length-take limit' (drop offset rows)),
      All-take (ListsPublic now) limit' _
          (All-drop (ListsPublic now) offset rows (listing-ListsPublic now d.pastes)),
      IsDesc-take (λ i. i.created_at) limit' _
          (IsDesc-drop (λ i. i.created_at) offset rows (listing-IsDesc now d.pastes)),
      total_is ∙ sym (length-listing now d.pastes),
    )

-- The pages `page`, `page + 1`, … of the listing, `n` of them, put together.
unfoldable pub fetch_pages : ℕ → ℕ → ℕ → ℕ → M (List PasteListItem)
fetch_pages now limit page zero = return []
fetch_pages now limit page (suc n) = do
  (items, _) ← get_public_pastes now page limit
  rest ← fetch_pages now limit (page + 1) n
  return (items ++ rest)

module _ (now limit : ℕ) (d : Db) where
  get_page :
      (k : ℕ)
      → 1 ≤ limit
      → d.faults ≡ []
      → get_public_pastes now (k + 1) limit d ≡ (
        ok (
          take limit (drop (k * limit) (listing now d.pastes)),
          count_where (is_listed now) d.pastes,
        ),
        d,
      )
  unfolding get_public_pastes statement run_with
  get_page k l healthy = let e : k + 1 - 1 ≡ k = omega arith in ground arith

  fetch_from :
      (n k : ℕ)
      → 1 ≤ limit
      → d.faults ≡ []
      → fetch_pages now limit (k + 1) n d
        ≡ (ok (take (n * limit) (drop (k * limit) (listing now d.pastes))), d)
  unfolding fetch_pages
  fetch_from zero k l healthy = let e : 0 * limit ≡ 0 = omega arith in rw e refl
  fetch_from (suc n) k l healthy =
      let next = fetch_from n (k + 1) l healthy in
      let e : (k + 1) * limit ≡ k * limit + limit = omega arith in
      let e' : suc n * limit ≡ limit + n * limit = omega arith in
      rw
        (
          get_page k l healthy,
          next,
          e,
          e',
          ← drop-drop (k * limit) limit (listing now d.pastes),
          take-take-drop,
        )
        refl

  -- With no failing statement and a limit of at least 1, the pages that the handler announces,
  -- `(total + limit - 1) / limit` of them, hold together exactly the whole listing, in its order.
  pub pages_cover :
      1 ≤ limit
      → d.faults ≡ []
      → fetch_pages now limit 1 ((count_where (is_listed now) d.pastes + limit - 1) / limit) d
        ≡ (ok (listing now d.pastes), d)
  pages_cover l healthy =
      let rows = listing now d.pastes in
      let n = (count_where (is_listed now) d.pastes + limit - 1) / limit in
      let enough : length rows ≤ n * limit = grind (arith, length-listing now d.pastes) in
      let e : 0 * limit ≡ 0 = omega arith in
      let e' : 0 + 1 ≡ 1 = omega arith in
      rw (rw (e, e', take_all rows (n * limit) enough) at (fetch_from n 0 l healthy)) refl

-- With no failing statement, the clean-up of expired pastes reports the number of expired rows and
-- deletes that many; no row that is left is expired; and a listing at the same instant is what it
-- was before.
pub delete_expired_lem :
    (now : ℕ) (d : Db)
    → d.faults ≡ []
    → ((delete_expired_pastes now d).0 ≡ ok (count_where (is_expired now) d.pastes))
      × (listing now (delete_expired_pastes now d).1.pastes ≡ listing now d.pastes)
      × All (λ p. is_expired now p ≡ false) (delete_expired_pastes now d).1.pastes
      × (count_where (is_expired now) d.pastes + length (delete_expired_pastes now d).1.pastes
          ≡ length d.pastes)
unfolding delete_expired_pastes delete_matching statement run_with listing
delete_expired_lem now d healthy =
    rw (healthy, run_with)
      (
        refl,
        ap (λ rows. map to_list_item (order_desc (λ p. p.created_at) rows))
            (filter-delete_other (is_expired now) (is_listed now) apart d.pastes),
        All-delete_where (is_expired now) d.pastes,
        count-delete (is_expired now) d.pastes,
      )
  where
    apart : (p : Paste) → is_listed now p ≡ true → is_expired now p ≡ false
    apart p h = unfold is_listed is_unexpired is_expired in ground arith
