-- ===== src/Handler/Request.antt =====
-- src/handler/paste.go: what a request may ask for, as the size of a body, the expiry of a paste and a
-- page of the listing.
pub mod Limits
pub mod Paging
use pastebin.Base.{
  ℕ, zero, suc, ◌+◌, ◌-◌, ◌*◌, ◌/◌, ◌%◌, ◌^◌, Bool, true, false, ◌&&◌, List, [], ◌∷◌, Option, none,
  some, Bytes, codes, bytes_eq, ltb, leb, ◌==◌, if◌then◌else◌, length, take,
}
use pastebin.Base.Int.{ℤ, pos, negsuc, is_positive, pos_part, add_duration}
use pastebin.Base.Text.{parse_int}
use pastebin.Model.{PasteListItem}
use pastebin.Database.State.{Db, M, Result, ok, err}
use pastebin.Database.Pastes.Ops.{get_public_pastes}

-- The fields of the handler that limit a body; `SetMaxSize` takes a limit below 0 for 0.
pub record Sizes : Type 0 where
  pub max_size_bytes : ℕ
  pub max_size_set : Bool

abbrev pub default_max_size_bytes : ℕ
default_max_size_bytes = 10_485_760

unfoldable pub set_max_size : ℤ → Sizes → Sizes
set_max_size n h = record { max_size_bytes = pos_part n; max_size_set = true }

unfoldable pub max_size : Sizes → ℕ
max_size h = if h.max_size_set then h.max_size_bytes else default_max_size_bytes

unfoldable pub effective_read_limit : Sizes → ℕ
unfolding max_size
effective_read_limit h = let n = max_size h in if leb n 0 then 2 ^ 63 - 2 else n

-- What `io.LimitReader(r, limit + 1)` lets through: nothing where the sum wraps to a negative number.
abbrev pub read_bound : ℕ → ℕ
read_bound limit = if ltb (limit + 1) (2 ^ 63) then limit + 1 else 0

unfoldable pub read_limited : ℕ → Bytes → Bytes × Bool
read_limited limit body =
    let raw = take (read_bound limit) body in
    if ltb limit (length raw) then (take limit raw, true) else (raw, false)

abbrev pub hour : ℕ
hour = 3_600_000_000_000

abbrev pub first_match : Bytes → List (Bytes × ℕ) → Option ℕ
first_match s [] = none
first_match s ((name, d) ∷ rest) =
    let other = first_match s rest in if bytes_eq s name then some d else other

abbrev pub named_expiries : List (Bytes × ℕ)
named_expiries =
    (codes "1h", hour)
    ∷ (codes "1d", 24 * hour)
    ∷ (codes "1w", 168 * hour)
    ∷ (codes "1m", 720 * hour)
    ∷ (codes "3m", 2160 * hour)
    ∷ (codes "6m", 4320 * hour)
    ∷ (codes "18m", 12960 * hour)
    ∷ (codes "1y", 8760 * hour)
    ∷ (codes "2y", 17520 * hour)
    ∷ []

abbrev pub max_expiry_seconds : ℕ
max_expiry_seconds = 315_360_000

-- `time.Duration(sec) * time.Second`, on 64 bits.
unfoldable pub seconds : ℕ → ℕ
seconds sec = (sec * 1_000_000_000) % 2 ^ 64

abbrev pub raw_seconds : Option ℤ → Option ℕ
raw_seconds none = none
raw_seconds (some z) =
    if is_positive z && leb (pos_part z) max_expiry_seconds
    then some (seconds (pos_part z))
    else none

abbrev pub or_raw : Bytes → Option ℕ → Option ℕ
or_raw s none = raw_seconds (parse_int s)
or_raw s (some d) = some d

abbrev pub from_now : ℕ → Option ℕ → Option ℕ
from_now now none = none
from_now now (some d) = some (add_duration now d)

unfoldable pub parse_expiry : ℕ → Bytes → Option ℕ
unfolding seconds parse_int
parse_expiry now s = from_now now (or_raw s (first_match s named_expiries))

-- A page of `ListPastes`: the items, the page, the limit, the total and the number of pages.
pub record Page : Type 0 where
  pub items : List PasteListItem
  pub page : ℕ
  pub limit : ℕ
  pub total : ℕ
  pub pages : ℕ

-- The limit that a query gives: 250 for none, for one below 1 and for more.
abbrev pub page_limit : ℕ → ℕ
page_limit limit = if ltb limit 1 then 250 else if ltb 250 limit then 250 else limit

abbrev pub page_of : ℕ → ℕ → Result (List PasteListItem × ℕ) × Db → Result Page × Db
page_of page limit (err e, d) = (err e, d)
page_of page limit (ok (items, total), d) = (
  ok (record {
    items = items;
    page = page;
    limit = limit;
    total = total;
    pages = (total + limit - 1) / limit;
  }),
  d,
)

unfoldable pub list_pastes : ℕ → ℕ → ℕ → M Page
list_pastes now page limit d =
    let page' = if ltb page 1 then 1 else page in
    page_of page' (page_limit limit) (get_public_pastes now page' (page_limit limit) d)
