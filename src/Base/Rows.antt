-- ===== src/Base/Rows.antt =====
-- The rows of a table as a list, and what SELECT, UPDATE, DELETE and COUNT with a WHERE do to it.
use Prim.Native.Nat.{ℕ, suc, ◌+◌, ◌≤◌}
use mathlib.Core.Path.{◌≡◌, refl, subst}
use mathlib.Core.Logic.{inl, inr}
use mathlib.Core.Bool.{Bool, true, false}
use mathlib.Core.List.{List, [], ◌∷◌, ◌++◌}
use mathlib.Core.Option
use mathlib.Core.Option.{Option, none, some, some-injective}
use native.Mathlib.Omega.{arith}
use pastebin.Base.Tests.{if◌then◌else◌, Bool-cases}
use pastebin.Base.Lists.{length, All}

module _ {ℓ} {A : Type ℓ} (p : A → Bool) where
  -- The first row that passes the test.
  unfoldable pub find_where : List A → Option A
  find_where [] = none
  find_where (x ∷ xs) = if p x then some x else find_where xs

  unfoldable pub filter_where : List A → List A
  filter_where [] = []
  filter_where (x ∷ xs) = if p x then x ∷ filter_where xs else filter_where xs

  unfoldable pub delete_where : List A → List A
  delete_where [] = []
  delete_where (x ∷ xs) = if p x then delete_where xs else x ∷ delete_where xs

  unfoldable pub count_where : List A → ℕ
  count_where [] = 0
  count_where (x ∷ xs) = if p x then suc (count_where xs) else count_where xs

  unfoldable pub update_where : (A → A) → List A → List A
  update_where f [] = []
  update_where f (x ∷ xs) = (if p x then f x else x) ∷ update_where f xs

  pub find-delete_self : (xs : List A) → find_where (delete_where xs) ≡ none
  unfolding find_where delete_where
  find-delete_self [] = refl
  find-delete_self (x ∷ xs) = ground (arith, find-delete_self xs)

  pub count-delete : (xs : List A) → count_where xs + length (delete_where xs) ≡ length xs
  unfolding count_where delete_where
  count-delete [] = omega arith
  count-delete (x ∷ xs) = ground (arith, count-delete xs)

  pub length-filter_where : (xs : List A) → length (filter_where xs) ≡ count_where xs
  unfolding count_where filter_where
  length-filter_where [] = refl
  length-filter_where (x ∷ xs) = ground (arith, length-filter_where xs)

  pub find-passes : (xs : List A) {x : A} → find_where xs ≡ some x → p x ≡ true
  unfolding find_where
  find-passes [] h = cc
  find-passes (y ∷ xs) {x} h = elim (Bool-cases (p y)) [
    | inl e ↦ subst (λ z. p z ≡ true) (some-injective y x (rw e at h)) e
    | inr e ↦ find-passes xs (rw e at h)
  ]

  pub delete-absent : (xs : List A) → find_where xs ≡ none → delete_where xs ≡ xs
  unfolding find_where delete_where
  delete-absent [] h = refl
  delete-absent (x ∷ xs) h = ground (arith, delete-absent xs)

  pub update-absent : (f : A → A) (xs : List A) → find_where xs ≡ none → update_where f xs ≡ xs
  unfolding find_where update_where
  update-absent f [] h = refl
  update-absent f (x ∷ xs) h = ground (arith, update-absent f xs)

  pub count-eq-zero : (xs : List A) → find_where xs ≡ none → count_where xs ≡ 0
  unfolding find_where count_where
  count-eq-zero [] h = refl
  count-eq-zero (x ∷ xs) h = ground (arith, count-eq-zero xs)

  pub count-zero_find : (xs : List A) → count_where xs ≡ 0 → find_where xs ≡ none
  unfolding find_where count_where
  count-zero_find [] h = refl
  count-zero_find (x ∷ xs) h = ground (arith, count-zero_find xs)

  pub All-filter_where : (xs : List A) → All (λ x. p x ≡ true) (filter_where xs)
  unfolding filter_where
  All-filter_where [] = tt
  All-filter_where (x ∷ xs) = ground (arith, All-filter_where xs)

  pub All-delete_where : (xs : List A) → All (λ x. p x ≡ false) (delete_where xs)
  unfolding delete_where
  All-delete_where [] = tt
  All-delete_where (x ∷ xs) = ground (arith, All-delete_where xs)

  pub All-delete_of {κ} : (P : A → Type κ) (xs : List A) → All P xs → All P (delete_where xs)
  unfolding delete_where
  All-delete_of P [] h = tt
  All-delete_of P (x ∷ xs) h = elim (Bool-cases (p x)) [
    | inl e ↦ rw e (All-delete_of P xs h.1)
    | inr e ↦ rw e (h.0, All-delete_of P xs h.1)
  ]

module _ {ℓ} {A : Type ℓ} (p q : A → Bool) where
  -- A delete that no row of interest passes is not seen.
  pub find-delete_other :
      ((x : A) → q x ≡ true → p x ≡ false)
      → (xs : List A) → find_where q (delete_where p xs) ≡ find_where q xs
  unfolding find_where delete_where
  find-delete_other apart [] = refl
  find-delete_other apart (x ∷ xs) = ground (arith, apart x, find-delete_other apart xs)

  -- What a lookup finds after an update that keeps the lookup's test.
  pub find-update :
      (f : A → A)
      → ((x : A) → q (f x) ≡ q x)
      → (xs : List A)
      → find_where q (update_where p f xs)
        ≡ Option.map (λ x. if p x then f x else x) (find_where q xs)
  unfolding find_where update_where
  find-update f keeps [] = refl
  find-update f keeps (x ∷ xs) = ground (arith, keeps x, find-update f keeps xs)

module _ {ℓ} {A : Type ℓ} (p q : A → Bool) where
  pub find-update_other :
      (f : A → A)
      → ((x : A) → q (f x) ≡ q x)
      → ((x : A) → q x ≡ true → p x ≡ false)
      → (xs : List A) → find_where q (update_where p f xs) ≡ find_where q xs
  unfolding find_where update_where
  find-update_other f keeps apart [] = refl
  find-update_other f keeps apart (x ∷ xs) =
      ground (arith, keeps x, apart x, find-update_other f keeps apart xs)

module _ {ℓ} {A : Type ℓ} (p q : A → Bool) where
  -- A delete of rows that a filter drops anyway is not seen.
  pub filter-delete_other :
      ((x : A) → q x ≡ true → p x ≡ false)
      → (xs : List A) → filter_where q (delete_where p xs) ≡ filter_where q xs
  unfolding filter_where delete_where
  filter-delete_other apart [] = refl
  filter-delete_other apart (x ∷ xs) = ground (arith, apart x, filter-delete_other apart xs)

module _ {ℓ} {A : Type ℓ} (p q : A → Bool) where
  pub find-delete_none :
      (xs : List A) → find_where q xs ≡ none → find_where q (delete_where p xs) ≡ none
  unfolding find_where delete_where
  find-delete_none [] h = refl
  find-delete_none (x ∷ xs) h = ground (arith, find-delete_none xs)

module _ {ℓ} {A : Type ℓ} (p : A → Bool) where
  pub find-append_none :
      (xs ys : List A) → find_where p xs ≡ none → find_where p (xs ++ ys) ≡ find_where p ys
  unfolding find_where
  find-append_none [] ys h = refl
  find-append_none (x ∷ xs) ys h = ground (arith, find-append_none xs ys)

  pub find-append_some :
      (xs ys : List A) {x : A} → find_where p xs ≡ some x → find_where p (xs ++ ys) ≡ some x
  unfolding find_where
  find-append_some [] ys h = cc
  find-append_some (y ∷ xs) ys {x} h = ground (arith, find-append_some xs ys {x = x}, h)

  pub find-append_other :
      (xs : List A) (y : A) → p y ≡ false → find_where p (xs ++ y ∷ []) ≡ find_where p xs
  unfolding find_where
  find-append_other [] y h = ground arith
  find-append_other (x ∷ xs) y h = ground (arith, find-append_other xs y)

module _ {ℓ} {A : Type ℓ} (p : A → Bool) where
  -- An update of rows that a delete then drops is not seen.
  pub delete-update :
      (f : A → A)
      → ((x : A) → p (f x) ≡ p x)
      → (xs : List A) → delete_where p (update_where p f xs) ≡ delete_where p xs
  unfolding delete_where update_where
  delete-update f keeps [] = refl
  delete-update f keeps (x ∷ xs) = ground (arith, keeps x, delete-update f keeps xs)

  pub delete_none :
      (xs : List A) → All (λ x. p x ≡ false) xs → (delete_where p xs ≡ xs) × (count_where p xs ≡ 0)
  unfolding delete_where count_where
  delete_none [] h = (refl, refl)
  delete_none (x ∷ xs) h = ground (arith, delete_none xs h.1)

module _ {ℓ} {A : Type ℓ} (p q : A → Bool) where
  -- An update that keeps a test keeps the number of rows that pass it.
  pub count-update_keeps :
      (f : A → A)
      → ((x : A) → q (f x) ≡ q x)
      → (xs : List A) → count_where q (update_where p f xs) ≡ count_where q xs
  unfolding count_where update_where
  count-update_keeps f keeps [] = refl
  count-update_keeps f keeps (x ∷ xs) = ground (arith, keeps x, count-update_keeps f keeps xs)

  -- A test that implies another passes no more rows.
  pub count-le :
      ((x : A) → p x ≡ true → q x ≡ true) → (xs : List A) → count_where p xs ≤ count_where q xs
  unfolding count_where
  count-le imp [] = omega arith
  count-le imp (x ∷ xs) = ground (arith, imp x, count-le imp xs)
