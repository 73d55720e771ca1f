-- ===== src/RateLimit/Window.antt =====
-- No window of time holds more accepted requests than the limit.
use pastebin.Base.{
  ℕ, ◌+◌, ◌-◌, ◌≤◌, ◌≡◌, refl, sym, ◌∙◌, Bool, List, [], ◌∷◌, ◌++◌, arith, leb, if◌then◌else◌,
  length, inl, inr, Bool-cases, length-append, filter_where, count_where,
}
use pastebin.RateLimit.{is_after, unexpired, bucket_allow}

-- One call: the two readings of the clock.
pub record Attempt : Type 0 where
  pub now : ℕ
  pub stamp : ℕ

-- The calls in order: the instants that were accepted so far, and the bucket.
unfoldable pub run : ℕ → ℕ → List Attempt → List ℕ → List ℕ → List ℕ × List ℕ
run limit window [] accepted bucket = (accepted, bucket)
run limit window (a ∷ as') accepted bucket =
    let r = bucket_allow limit window a.now a.stamp bucket in
    run limit window as' (if r.0 then accepted ++ a.stamp ∷ [] else accepted) r.1

-- The clock does not run backwards.
abbrev pub InOrder : ℕ → List Attempt → Type 0
InOrder from [] = Unit
InOrder from (a ∷ as') = (from ≤ a.now) × InOrder a.now as'

abbrev pub last_now : ℕ → List Attempt → ℕ
last_now from [] = from
last_now from (a ∷ as') = last_now a.now as'

count-append :
    (p : ℕ → Bool) (xs : List ℕ) (y : ℕ)
    → count_where p (xs ++ y ∷ []) ≡ count_where p xs + count_where p (y ∷ [])
unfolding count_where
count-append p [] y = omega arith
count-append p (x ∷ xs) y = ground (arith, count-append p xs y)

count-filter :
    (c x : ℕ) (xs : List ℕ)
    → c ≤ x
    → count_where (is_after x) (filter_where (is_after c) xs) ≡ count_where (is_after x) xs
unfolding count_where filter_where
count-filter c x [] le = refl
count-filter c x (y ∷ ys) le = ground (arith, count-filter c x ys le)

count-le-length : (p : ℕ → Bool) (xs : List ℕ) → count_where p xs ≤ length xs
unfolding count_where
count-le-length p [] = omega arith
count-le-length p (x ∷ xs) = ground (arith, count-le-length p xs)

-- Past the cutoff the bucket counts what was accepted, and it is never over the limit.
record Tracks (limit cutoff : ℕ) (accepted bucket : List ℕ) : Type 0 where
  counted :
      (x : ℕ) → cutoff ≤ x → count_where (is_after x) accepted ≡ count_where (is_after x) bucket
  bounded : length bucket ≤ limit

length-unexpired : (window now : ℕ) (xs : List ℕ) → length (unexpired window now xs) ≤ length xs
unfolding unexpired filter_where
length-unexpired window now [] = omega arith
length-unexpired window now (x ∷ xs) = ground (arith, length-unexpired window now xs)

Tracks-step :
    (limit window from : ℕ) (a : Attempt) (accepted bucket : List ℕ)
    → from ≤ a.now
    → Tracks limit (from - window) accepted bucket
    → Tracks limit
        (a.now - window)
        (if (bucket_allow limit window a.now a.stamp bucket).0
          then accepted ++ a.stamp ∷ []
          else accepted)
        (bucket_allow limit window a.now a.stamp bucket).1
unfolding bucket_allow
Tracks-step limit window from a accepted bucket le t =
    elim (Bool-cases (leb limit (length (unexpired window a.now bucket)))) [
      | inl full ↦ rw full (record {
        counted = same;
        bounded = omega (arith, length-unexpired window a.now bucket, t.bounded);
      })
      | inr room ↦ rw room (record {
        counted = λ x h. omega (
          arith,
          count-append (is_after x) accepted a.stamp,
          count-append (is_after x) (unexpired window a.now bucket) a.stamp,
          same x h,
        );
        bounded = ground (arith, length-append (unexpired window a.now bucket) (a.stamp ∷ []));
      })
    ]
  where
    same :
        (x : ℕ)
        → a.now - window ≤ x
        → count_where (is_after x) accepted
          ≡ count_where (is_after x) (unexpired window a.now bucket)
    same x h =
        t.counted x (omega arith)
        ∙ sym (unfold unexpired in count-filter (a.now - window) x bucket h)

run-Tracks :
    (limit window : ℕ) (as' : List Attempt) (from : ℕ) (accepted bucket : List ℕ)
    → InOrder from as'
    → Tracks limit (from - window) accepted bucket
    → Tracks limit
        (last_now from as' - window)
        (run limit window as' accepted bucket).0
        (run limit window as' accepted bucket).1
unfolding run
run-Tracks limit window [] from accepted bucket o t = t
run-Tracks limit window (a ∷ as') from accepted bucket (le, o) t =
    run-Tracks limit window as' a.now _ _ o (Tracks-step limit window from a accepted bucket le t)

-- From an empty bucket, whatever calls come in the order of the clock, the window that ends at the last call, or at any
-- instant after it, holds at most `limit` accepted requests.
pub window-le-limit :
    (limit window : ℕ) (as' : List Attempt) (instant : ℕ)
    → InOrder 0 as'
    → last_now 0 as' ≤ instant
    → count_where (is_after (instant - window)) (run limit window as' [] []).0 ≤ limit
window-le-limit limit window as' instant o le =
    let t =
      run-Tracks limit window as' 0 [] [] o
        (record { counted = λ x h. refl; bounded = omega arith }) in
    omega (
      arith,
      t.counted (instant - window) (omega arith),
      t.bounded,
      count-le-length (is_after (instant - window)) (run limit window as' [] []).1,
    )
