-- ===== src/Handler/Serve/Reading.antt =====
-- What a reader is given: no expired paste, and of a burn-after paste no more views than it has.
use pastebin.Base.{
  ℕ, ◌+◌, ◌-◌, ◌<◌, ◌≡◌, refl, ap, ◌∙◌, Bool, true, false, List, [], ◌∷◌, Option, none, some, arith,
  Bytes, length, All, inl, inr, Bool-cases, Option-cases, find_where,
}
use pastebin.Model.{Paste}
use pastebin.Database.State.{Result, ok, err, statement, run_with}
use pastebin.Database.Pastes.Ops.{has_id, viewed, is_burned, get_paste_by_id}
use pastebin.Database.Pastes.Burn.{increment_found, viewed_rows, find-viewed_rows_self}
use pastebin.Cache.Driver.{Driver}
use pastebin.Handler.Codes.{not_found}
use pastebin.Handler.Cached.{
  Codec, World, usable, decoded, cached, paste_cache_key, get_cached_paste, cache_paste, cache_in,
  invalidate_in, invalidate_paste_cache,
}
use pastebin.Handler.Serve.{
  Loaded, live, refused, has_expired, query, enforce_expiry, load_row, load_from, load_live_paste,
  after_view, get_paste,
}

module _ {S : Type 0} (driver : Driver S) (codec : Codec) where
  enforce-unexpired :
      (now : ℕ) (id : Bytes) (p : Paste) (w : World S) {q : Paste}
      → (enforce_expiry driver codec now id p w).0 ≡ live q
      → has_expired now q ≡ false
  enforce-unexpired now id p w {q} h = elim (Bool-cases (has_expired now p)) [
    | inl e ↦ absurd (cc (rw e at h))
    | inr e ↦ ground arith
  ]

  load_row-unexpired :
      (now : ℕ) (id : Bytes) (r : Result (Option Paste) × World S) {q : Paste}
      → (load_row driver codec now id r).0 ≡ live q
      → has_expired now q ≡ false
  load_row-unexpired now id (err e, w) h = cc
  load_row-unexpired now id (ok none, w) h = cc
  load_row-unexpired now id (ok (some p), w) h = enforce-unexpired now id p _ h

  load_from-unexpired :
      (now : ℕ) (id : Bytes) (r : Option Paste × World S) {q : Paste}
      → (load_from driver codec now id r).0 ≡ live q
      → has_expired now q ≡ false
  load_from-unexpired now id (some p, w) h = enforce-unexpired now id p w h
  load_from-unexpired now id (none, w) h = load_row-unexpired now id _ h

  -- Whatever the cache holds and whichever statements fail, no expired paste is loaded for a reader.
  pub load-unexpired :
      (now : ℕ) (id : Bytes) (w : World S) {q : Paste}
      → (load_live_paste driver codec now id w).0 ≡ live q
      → has_expired now q ≡ false
  unfolding load_live_paste
  load-unexpired now id w h = load_from-unexpired now id _ h

  -- The cache serves nothing for the identifier.
  abbrev pub IsUncached : Bytes → Option S → Type 0
  IsUncached id none = Unit
  IsUncached id (some c) =
      (raw : Bytes)
      → driver.held (paste_cache_key id) c ≡ some raw
      → usable driver codec (codec.decode raw) ≡ none

  decoded-none :
      (now : ℕ) (id : Bytes) (c : S)
      → IsUncached id (some c)
      → decoded driver codec (driver.get now (paste_cache_key id) c).0 ≡ none
  decoded-none now id c u = elim (Option-cases (driver.get now (paste_cache_key id) c).0) [
    | inl e ↦ rw e refl
    | inr (raw, e) ↦ rw e (u raw (driver.get-held now (paste_cache_key id) c e))
  ]

  cached-none :
      (now : ℕ) (id : Bytes) (c : Option S)
      → IsUncached id c
      → ((cached driver codec now id c).0 ≡ none) × IsUncached id (cached driver codec now id c).1
  cached-none now id none u = (refl, tt)
  cached-none now id (some c) u =
      (decoded-none now id c u, λ raw h. u raw (driver.held-get now _ _ c h))

  -- The cache behind a lookup.
  looked_up : ℕ → Bytes → World S → World S
  looked_up now id w = record w { cache = (cached driver codec now id w.cache).1 }

  load_uncached :
      (now : ℕ) (id : Bytes) (w : World S)
      → IsUncached id w.cache
      → load_live_paste driver codec now id w
        ≡ load_row driver codec now id (query (get_paste_by_id id) (looked_up now id w))
  unfolding load_live_paste get_cached_paste looked_up
  load_uncached now id w u = rw (cached-none now id w.cache u).0 refl

  not_stored :
      (now : ℕ) (p : Paste) (c : Option S) → 0 < p.burn_after → cache_in driver codec now p c ≡ c
  not_stored now p none burns = refl
  not_stored now p (some c) burns = ground arith

  load_burning :
      (now : ℕ) (id : Bytes) (w : World S) {p : Paste}
      → w.db.faults ≡ []
      → IsUncached id w.cache
      → find_where (has_id id) w.db.pastes ≡ some p
      → 0 < p.burn_after
      → has_expired now p ≡ false
      → load_live_paste driver codec now id w ≡ (live p, looked_up now id w)
  unfolding cache_paste
  load_burning now id w {p} healthy u found burns fresh =
      load_uncached now id w u
      ∙ ap (load_row driver codec now id) row_found
      ∙ rw (fresh, not_stored now p (looked_up now id w).cache burns) refl
    where
      row_found :
          query (get_paste_by_id id) (looked_up now id w) ≡ (ok (some p), looked_up now id w)
      row_found = unfold get_paste_by_id statement run_with looked_up in ground arith

  viewed_world :
      (id : Bytes) (views : ℕ) (burned : Bool) (w : World S)
      → IsUncached id w.cache
      → ((after_view driver codec id (ok (views, burned), w)).db ≡ w.db)
        × IsUncached id (after_view driver codec id (ok (views, burned), w)).cache
  unfolding invalidate_paste_cache
  viewed_world id views true w u = (refl, kept w.cache u)
    where
      kept : (c : Option S) → IsUncached id c → IsUncached id (invalidate_in driver codec id c)
      kept none v = tt
      kept (some c) v = λ raw h. v raw (driver.held-delete _ _ c h).1
  viewed_world id views false w u = (refl, u)

  -- A burn-after paste that has not expired is read from the database, shown with the count of this
  -- view, and left with that view counted, or deleted by it.
  get_burning :
      (now : ℕ) (id : Bytes) (w : World S) {p : Paste}
      → w.db.faults ≡ []
      → IsUncached id w.cache
      → find_where (has_id id) w.db.pastes ≡ some p
      → 0 < p.burn_after
      → has_expired now p ≡ false
      → ((get_paste driver codec now id w).0
          ≡ live (record p { views = p.views + 1; delete_token_hash = [] }))
        × ((get_paste driver codec now id w).1.db
            ≡ record w.db { pastes = viewed_rows now id p w.db.pastes })
        × IsUncached id (get_paste driver codec now id w).1.cache
  unfolding get_paste looked_up
  get_burning now id w {p} healthy u found burns fresh =
      rw
        (
          load_burning now id w healthy u found burns fresh,
          increment_found now id w.db healthy found,
        )
        (
          refl,
          (viewed_world id (p.views + 1) (is_burned (viewed now p)) left kept).0,
          (viewed_world id (p.views + 1) (is_burned (viewed now p)) left kept).1,
        )
    where
      left : World S
      left = record {
        db = record w.db { pastes = viewed_rows now id p w.db.pastes };
        cache = (cached driver codec now id w.cache).1;
      }

      kept : IsUncached id left.cache
      kept = (cached-none now id w.cache u).1

  -- A sequence of requests for a paste.
  unfoldable pub get_all : List ℕ → Bytes → World S → List Loaded × World S
  get_all [] id w = ([], w)
  get_all (t ∷ ts) id w =
      let step = get_paste driver codec t id w in
      let rest = get_all ts id step.1 in (step.0 ∷ rest.0, rest.1)

-- The paste as its readers are shown it, with the count of views rising, and the instant of the view
-- before.
unfoldable pub showings : Paste → List ℕ → List Loaded
showings p [] = []
showings p (t ∷ ts) =
    live (record p { views = p.views + 1; delete_token_hash = [] }) ∷ showings (viewed t p) ts

module _ {S : Type 0} (driver : Driver S) (codec : Codec) (id : Bytes) where
  -- What is left when the views are used up.
  record IsGone (w : World S) : Type 0 where
    healthy : w.db.faults ≡ []
    uncached : IsUncached driver codec id w.cache
    absent : find_where (has_id id) w.db.pastes ≡ none

  get_gone :
      (now : ℕ) (w : World S) → IsGone w → (get_paste driver codec now id w).0 ≡ refused not_found
  unfolding get_paste
  get_gone now w g = rw (load_uncached driver codec now id w g.uncached, row_missing) refl
    where
      row_missing :
          query (get_paste_by_id id) (looked_up driver codec now id w)
          ≡ (ok none, looked_up driver codec now id w)
      row_missing =
          let h = g.healthy in
          let a = g.absent in unfold get_paste_by_id statement run_with looked_up in ground arith

  requests :
      (ts : List ℕ) (w : World S) (p : Paste)
      → w.db.faults ≡ []
      → IsUncached driver codec id w.cache
      → find_where (has_id id) w.db.pastes ≡ some p
      → p.views < p.burn_after
      → All (λ t. has_expired t p ≡ false) ts
      → length ts ≡ p.burn_after - p.views
      → ((get_all driver codec ts id w).0 ≡ showings p ts) × IsGone (get_all driver codec ts id w).1
  unfolding get_all showings
  requests [] w p healthy u found room fresh len = absurd (omega arith)
  requests (t ∷ []) w p healthy u found room (f, fs) len =
      let (told, left, uncached) =
        get_burning driver codec t id w healthy u found (omega arith) f in
      let last : is_burned (viewed t p) ≡ true = unfold is_burned in ground arith in
      (
        rw told refl,
        record {
          healthy = rw left healthy;
          uncached = uncached;
          absent = rw left (find-viewed_rows_self t id w.db.pastes found ∙ rw last refl);
        },
      )
  requests (t ∷ t' ∷ ts) w p healthy u found room (f, fs) len =
      let (told, left, uncached) =
        get_burning driver codec t id w healthy u found (omega arith) f in
      let more : is_burned (viewed t p) ≡ false = unfold is_burned in ground arith in
      let (answers, spent) =
        requests (t' ∷ ts) (get_paste driver codec t id w).1 (viewed t p) (rw left healthy) uncached
          (rw left (find-viewed_rows_self t id w.db.pastes found ∙ rw more refl)) (omega arith)
          (unfold has_expired in fs) (omega arith) in
      (rw (told, answers) refl, spent)

  -- Over a healthy database, a stored burn-after paste that has views left, that the cache does not
  -- serve and that expires before none of the requests is shown to exactly as many requests as it has
  -- views left, each with the count after it; the next is told `NOT_FOUND`.
  pub requests_burn :
      (ts : List ℕ) (now : ℕ) (w : World S) {p : Paste}
      → w.db.faults ≡ []
      → IsUncached driver codec id w.cache
      → find_where (has_id id) w.db.pastes ≡ some p
      → p.views < p.burn_after
      → All (λ t. has_expired t p ≡ false) ts
      → length ts ≡ p.burn_after - p.views
      → ((get_all driver codec ts id w).0 ≡ showings p ts)
        × ((get_paste driver codec now id (get_all driver codec ts id w).1).0 ≡ refused not_found)
  requests_burn ts now w {p} healthy u found room fresh len =
      let (answers, spent) = requests ts w p healthy u found room fresh len in
      (answers, get_gone now (get_all driver codec ts id w).1 spent)
