-- ===== src/Base/Sort.antt =====
-- `ORDER BY key DESC`: rows in falling order of a key, rows of one key in the order of the table.
use Prim.Native.Nat.{ℕ, zero, suc, ◌≤◌}
use mathlib.Core.Path.{◌≡◌, refl}
use mathlib.Core.List.{List, [], ◌∷◌, Perm, map}
use mathlib.Core.List.Perm
use mathlib.Core.Logic.{inl, inr}
use native.Mathlib.Omega.{arith}
use pastebin.Base.Tests.{leb, if◌then◌else◌, Bool-cases}
use pastebin.Base.Lists.{length, take, drop, All, All-take}

module _ {ℓ} {A : Type ℓ} (key : A → ℕ) where
  unfoldable pub insert_desc : A → List A → List A
  insert_desc x [] = x ∷ []
  insert_desc x (y ∷ ys) = if leb (key y) (key x) then x ∷ y ∷ ys else y ∷ insert_desc x ys

  unfoldable pub order_desc : List A → List A
  unfolding insert_desc
  order_desc [] = []
  order_desc (x ∷ xs) = insert_desc x (order_desc xs)

  -- Every key of the list is at most that of each element before it.
  abbrev pub IsDesc : List A → Type 0
  IsDesc [] = Unit
  IsDesc (x ∷ xs) = All (λ y. key y ≤ key x) xs × IsDesc xs

  insert_desc-All :
      (b : ℕ) (x : A) (xs : List A)
      → key x ≤ b
      → All (λ y. key y ≤ b) xs
      → All (λ y. key y ≤ b) (insert_desc x xs)
  unfolding insert_desc
  insert_desc-All b x [] h _ = (h, tt)
  insert_desc-All b x (y ∷ ys) h all = elim (Bool-cases (leb (key y) (key x))) [
    | inl e ↦ rw e (h, all)
    | inr e ↦ rw e (all.0, insert_desc-All b x ys h all.1)
  ]

  All-weaken : (a b : ℕ) (xs : List A) → a ≤ b → All (λ y. key y ≤ a) xs → All (λ y. key y ≤ b) xs
  All-weaken a b [] h _ = tt
  All-weaken a b (x ∷ xs) h (p, all) = (omega arith, All-weaken a b xs h all)

  insert_desc-IsDesc : (x : A) (xs : List A) → IsDesc xs → IsDesc (insert_desc x xs)
  unfolding insert_desc
  insert_desc-IsDesc x [] _ = (tt, tt)
  insert_desc-IsDesc x (y ∷ ys) (below, rest) = elim (Bool-cases (leb (key y) (key x))) [
    | inl e ↦
        let le : key y ≤ key x = ground arith in
        rw e ((le, All-weaken (key y) (key x) ys le below), (below, rest))
    | inr e ↦ rw e (insert_desc-All (key y) x ys (ground arith) below, insert_desc-IsDesc x ys rest)
  ]

  pub order_desc-IsDesc : (xs : List A) → IsDesc (order_desc xs)
  unfolding order_desc
  order_desc-IsDesc [] = tt
  order_desc-IsDesc (x ∷ xs) = insert_desc-IsDesc x (order_desc xs) (order_desc-IsDesc xs)

  insert_desc-perm : (x : A) (xs : List A) → Perm (insert_desc x xs) (x ∷ xs)
  unfolding insert_desc
  insert_desc-perm x [] = Perm.refl (x ∷ [])
  insert_desc-perm x (y ∷ ys) = elim (Bool-cases (leb (key y) (key x))) [
    | inl e ↦ rw e (Perm.refl (x ∷ y ∷ ys))
    | inr e ↦ rw e (Perm.trans (Perm.cons y (insert_desc-perm x ys)) (Perm.swap x y ys))
  ]

  pub order_desc-perm : (xs : List A) → Perm (order_desc xs) xs
  unfolding order_desc
  order_desc-perm [] = Perm.refl []
  order_desc-perm (x ∷ xs) =
      Perm.trans (insert_desc-perm x (order_desc xs)) (Perm.cons x (order_desc-perm xs))

  length-insert_desc : (x : A) (xs : List A) → length (insert_desc x xs) ≡ suc (length xs)
  unfolding insert_desc
  length-insert_desc x [] = refl
  length-insert_desc x (y ∷ ys) = ground (arith, length-insert_desc x ys)

  pub length-order_desc : (xs : List A) → length (order_desc xs) ≡ length xs
  unfolding order_desc
  length-order_desc [] = refl
  length-order_desc (x ∷ xs) =
      omega (arith, length-insert_desc x (order_desc xs), length-order_desc xs)

  pub insert_desc-keeps {κ} :
      (P : A → Type κ) (x : A) (xs : List A) → P x → All P xs → All P (insert_desc x xs)
  unfolding insert_desc
  insert_desc-keeps P x [] h _ = (h, tt)
  insert_desc-keeps P x (y ∷ ys) h all = elim (Bool-cases (leb (key y) (key x))) [
    | inl e ↦ rw e (h, all)
    | inr e ↦ rw e (all.0, insert_desc-keeps P x ys h all.1)
  ]

  pub All-order_desc {κ} : (P : A → Type κ) (xs : List A) → All P xs → All P (order_desc xs)
  unfolding order_desc
  All-order_desc P [] h = tt
  All-order_desc P (x ∷ xs) (h, all) =
      insert_desc-keeps P x (order_desc xs) h (All-order_desc P xs all)

  pub IsDesc-drop : (n : ℕ) (xs : List A) → IsDesc xs → IsDesc (drop n xs)
  IsDesc-drop zero xs h = h
  IsDesc-drop (suc n) [] h = tt
  IsDesc-drop (suc n) (x ∷ xs) (_, h) = IsDesc-drop n xs h

  pub IsDesc-take : (n : ℕ) (xs : List A) → IsDesc xs → IsDesc (take n xs)
  IsDesc-take zero xs h = tt
  IsDesc-take (suc n) [] h = tt
  IsDesc-take (suc n) (x ∷ xs) (b, h) = (All-take (λ y. key y ≤ key x) n xs b, IsDesc-take n xs h)

module _ {ℓ κ} {A : Type ℓ} {B : Type κ} (f : A → B) (key : B → ℕ) where
  All-map : (b : ℕ) (xs : List A) → All (λ x. key (f x) ≤ b) xs → All (λ y. key y ≤ b) (map f xs)
  All-map b [] h = tt
  All-map b (x ∷ xs) (p, h) = (p, All-map b xs h)

  pub IsDesc-map : (xs : List A) → IsDesc (λ x. key (f x)) xs → IsDesc key (map f xs)
  IsDesc-map [] h = tt
  IsDesc-map (x ∷ xs) (b, h) = (All-map (key (f x)) xs b, IsDesc-map xs h)
