-- ===== src/Task/Order.antt =====
-- `sort.Slice` by a rising key; elements of one key keep their order, as they do in Go up to a dozen of them.
use mathlib.Core.Path.{subst}
use mathlib.Core.List.Memᴰ
use mathlib.Core.List.Perm
use mathlib.Core.List.{Memᴰ, Perm}
use pastebin.Base.{
  ℕ, ◌≤◌, ◌≡◌, List, [], ◌∷◌, ◌++◌, refl, sym, ap, inl, inr, arith, ltb, leb, if◌then◌else◌,
  Bool-cases, All,
}
use pastebin.Base.Sort.{order_desc, insert_desc}

module _ {ℓ} {A : Type ℓ} where
  pub All-Mem {κ} : (P : A → Type κ) (x : A) (xs : List A) → All P xs → Memᴰ x xs → P x
  All-Mem P x [] all h = absurd (Memᴰ.not-nil h)
  All-Mem P x (y ∷ ys) (p, all) (Memᴰ.head e) = subst P (sym e) p
  All-Mem P x (y ∷ ys) (p, all) (Memᴰ.tail h) = All-Mem P x ys all h

  pub all_of {κ} : (P : A → Type κ) (xs : List A) → ((x : A) → Memᴰ x xs → P x) → All P xs
  all_of P [] h = tt
  all_of P (x ∷ xs) h = (h x (Memᴰ.head refl), all_of P xs (λ y m. h y (Memᴰ.tail m)))

  -- A list that is not empty has a last element.
  pub last_of : (x : A) (xs : List A) → (init : List A) × (last : A) × (x ∷ xs ≡ init ++ last ∷ [])
  last_of x [] = ([], x, refl)
  last_of x (y ∷ ys) = let (init, last, e) = last_of y ys in (x ∷ init, last, ap (λ l. x ∷ l) e)

module _ {ℓ} {A : Type ℓ} (key : A → ℕ) where
  unfoldable pub insert_asc : A → List A → List A
  insert_asc x [] = x ∷ []
  insert_asc x (y ∷ ys) = if ltb (key y) (key x) then y ∷ insert_asc x ys else x ∷ y ∷ ys

  unfoldable pub order_asc : List A → List A
  unfolding insert_asc
  order_asc [] = []
  order_asc (x ∷ xs) = insert_asc x (order_asc xs)

  -- Every key is at least that of each element before it.
  abbrev pub IsAsc : List A → Type 0
  IsAsc [] = Unit
  IsAsc (x ∷ xs) = All (λ y. key x ≤ key y) xs × IsAsc xs

  above : (a b : ℕ) (xs : List A) → a ≤ b → All (λ y. b ≤ key y) xs → All (λ y. a ≤ key y) xs
  above a b [] h _ = tt
  above a b (x ∷ xs) h (p, all) = (omega arith, above a b xs h all)

  insert_asc-All {κ} :
      (P : A → Type κ) (x : A) (xs : List A) → P x → All P xs → All P (insert_asc x xs)
  unfolding insert_asc
  insert_asc-All P x [] p all = (p, tt)
  insert_asc-All P x (y ∷ ys) p (q, all) = elim (Bool-cases (ltb (key y) (key x))) [
    | inl e ↦ rw e (q, insert_asc-All P x ys p all)
    | inr e ↦ rw e (p, (q, all))
  ]

  insert_asc-IsAsc : (x : A) (xs : List A) → IsAsc xs → IsAsc (insert_asc x xs)
  unfolding insert_asc
  insert_asc-IsAsc x [] h = (tt, tt)
  insert_asc-IsAsc x (y ∷ ys) (low, h) = elim (Bool-cases (ltb (key y) (key x))) [
    | inl e ↦
        let le : key y ≤ key x = ground arith in
        rw e (insert_asc-All (λ w. key y ≤ key w) x ys le low, insert_asc-IsAsc x ys h)
    | inr e ↦
        let le : key x ≤ key y = ground arith in
        rw e ((le, above (key x) (key y) ys le low), (low, h))
  ]

  pub order_asc-IsAsc : (xs : List A) → IsAsc (order_asc xs)
  unfolding order_asc
  order_asc-IsAsc [] = tt
  order_asc-IsAsc (x ∷ xs) = insert_asc-IsAsc x (order_asc xs) (order_asc-IsAsc xs)

  insert_asc-perm : (x : A) (xs : List A) → Perm (insert_asc x xs) (x ∷ xs)
  unfolding insert_asc
  insert_asc-perm x [] = Perm.refl (x ∷ [])
  insert_asc-perm x (y ∷ ys) = elim (Bool-cases (ltb (key y) (key x))) [
    | inr e ↦ rw e (Perm.refl (x ∷ y ∷ ys))
    | inl e ↦ rw e (Perm.trans (Perm.cons y (insert_asc-perm x ys)) (Perm.swap x y ys))
  ]

  pub order_asc-perm : (xs : List A) → Perm (order_asc xs) xs
  unfolding order_asc
  order_asc-perm [] = Perm.refl []
  order_asc-perm (x ∷ xs) =
      Perm.trans (insert_asc-perm x (order_asc xs)) (Perm.cons x (order_asc-perm xs))

  insert_asc-Mem : (z x : A) (xs : List A) → Memᴰ z (x ∷ xs) → Memᴰ z (insert_asc x xs)
  unfolding insert_asc
  insert_asc-Mem z x [] m = m
  insert_asc-Mem z x (y ∷ ys) m = elim (Bool-cases (ltb (key y) (key x))) [
    | inr e ↦ rw e m
    | inl e ↦ rw e (elim m [
      | Memᴰ.head s ↦ Memᴰ.tail (insert_asc-Mem z x ys (Memᴰ.head s))
      | Memᴰ.tail t ↦ elim t [
        | Memᴰ.head s ↦ Memᴰ.head s
        | Memᴰ.tail u ↦ Memᴰ.tail (insert_asc-Mem z x ys (Memᴰ.tail u))
      ]
    ])
  ]

  pub order_asc-Mem : (z : A) (xs : List A) → Memᴰ z xs → Memᴰ z (order_asc xs)
  unfolding order_asc
  order_asc-Mem z [] m = m
  order_asc-Mem z (x ∷ xs) (Memᴰ.head s) = insert_asc-Mem z x (order_asc xs) (Memᴰ.head s)
  order_asc-Mem z (x ∷ xs) (Memᴰ.tail t) =
      insert_asc-Mem z x (order_asc xs) (Memᴰ.tail (order_asc-Mem z xs t))

  insert_desc-Mem : (z x : A) (xs : List A) → Memᴰ z (x ∷ xs) → Memᴰ z (insert_desc key x xs)
  unfolding insert_desc
  insert_desc-Mem z x [] m = m
  insert_desc-Mem z x (y ∷ ys) m = elim (Bool-cases (leb (key y) (key x))) [
    | inl e ↦ rw e m
    | inr e ↦ rw e (elim m [
      | Memᴰ.head s ↦ Memᴰ.tail (insert_desc-Mem z x ys (Memᴰ.head s))
      | Memᴰ.tail t ↦ elim t [
        | Memᴰ.head s ↦ Memᴰ.head s
        | Memᴰ.tail u ↦ Memᴰ.tail (insert_desc-Mem z x ys (Memᴰ.tail u))
      ]
    ])
  ]

  pub order_desc-Mem : (z : A) (xs : List A) → Memᴰ z xs → Memᴰ z (order_desc key xs)
  unfolding order_desc
  order_desc-Mem z [] m = m
  order_desc-Mem z (x ∷ xs) (Memᴰ.head s) = insert_desc-Mem z x (order_desc key xs) (Memᴰ.head s)
  order_desc-Mem z (x ∷ xs) (Memᴰ.tail t) =
      insert_desc-Mem z x (order_desc key xs) (Memᴰ.tail (order_desc-Mem z xs t))

  -- The last element of a rising list has the largest key.
  pub IsAsc-last :
      (init : List A) (last : A)
      → IsAsc (init ++ last ∷ [])
      → All (λ y. key y ≤ key last) (init ++ last ∷ [])
  IsAsc-last [] last h = (omega arith, tt)
  IsAsc-last (x ∷ init) last (low, h) =
      let rest = IsAsc-last init last h in
      (All-Mem (λ y. key x ≤ key y) last (init ++ last ∷ []) low (at_end init), rest)
    where
      at_end : (l : List A) → Memᴰ last (l ++ last ∷ [])
      at_end [] = Memᴰ.head refl
      at_end (y ∷ l) = Memᴰ.tail (at_end l)
