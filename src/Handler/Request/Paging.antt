-- ===== src/Handler/Request/Paging.antt =====
-- The pages that `ListPastes` announces.
use pastebin.Base.{
  ℕ, ◌+◌, ◌-◌, ◌/◌, ◌≤◌, ◌≡◌, refl, ◌∙◌, ap, List, [], arith, ltb, if◌then◌else◌, length, All,
}
use mathlib.Core.Path.{subst}
use pastebin.Model.{PasteListItem}
use pastebin.Database.State.{Db, Result, ok, err}
use pastebin.Database.Pastes.Ops.{listing, get_public_pastes}
use pastebin.Database.Pastes.Listing.{
  ListsPublic, fetch_pages, pages_cover, page_lem, length-listing,
}
use pastebin.Handler.Request.{Page, page_limit, page_of, list_pastes}

page_limit_bounds : (limit : ℕ) → (1 ≤ page_limit limit) × (page_limit limit ≤ 250)
page_limit_bounds limit = ground arith

abbrev answer_of : Page → Result Page → Page
answer_of other (ok answer) = answer
answer_of other (err e) = other

abbrev given : List PasteListItem → ℕ → Result (List PasteListItem × ℕ)
given items total = ok (items, total)

page_answer :
    (page limit : ℕ) (r : Result (List PasteListItem × ℕ) × Db) {answer : Page}
    → (page_of page limit r).0 ≡ ok answer
    → (r.0 ≡ ok (answer.items, answer.total))
      × (answer.limit ≡ limit)
      × (answer.pages ≡ (answer.total + limit - 1) / limit)
page_answer page limit (ok (items, total), d) {answer} h =
    subst
      (λ (a : Page).
        (given items total ≡ given a.items a.total)
        × (a.limit ≡ limit)
        × (a.pages ≡ (a.total + limit - 1) / limit))
      (ap (answer_of answer) h) (refl, refl, refl)
page_answer page limit (err e, d) h = absurd (cc h)

-- With no failing statement, an answer of the listing has at most 250 items, each of a stored public paste
-- that has not expired; and the pages that it announces, fetched one after the other with its limit, hold
-- exactly the whole listing, in its order.
pub list_pastes_lem :
    (now page limit : ℕ) (d : Db) {answer : Page}
    → d.faults ≡ []
    → (list_pastes now page limit d).0 ≡ ok answer
    → (length answer.items ≤ 250)
      × All (ListsPublic now) answer.items
      × (fetch_pages now answer.limit 1 answer.pages d ≡ (ok (listing now d.pastes), d))
unfolding list_pastes
list_pastes_lem now page limit d {answer} healthy h =
    let (got, lim, pages) =
      page_answer (if ltb page 1 then 1 else page) (page_limit limit)
        (get_public_pastes now (if ltb page 1 then 1 else page) (page_limit limit) d)
        {answer = answer} h in
    let (short, public, sorted, total) =
      page_lem now (if ltb page 1 then 1 else page) (page_limit limit) d {items = answer.items}
        {total = answer.total} got in
    let bounds = page_limit_bounds limit in
    (
      ground (arith, short, bounds),
      public,
      rw (lim, pages, total ∙ length-listing now d.pastes)
          (pages_cover now (page_limit limit) d bounds.0 healthy),
    )
