-- ===== src/Base/Affix.antt =====
-- What the prefixes, suffixes and separators of a text are.
use Prim.Native.Nat.{ℕ}
use mathlib.Core.Path.{◌≡◌, refl, sym, ap, ◌∙◌}
use mathlib.Core.Logic.{inl, inr}
use mathlib.Core.Bool.{true}
use mathlib.Core.Option.{Option, none, some}
use mathlib.Core.List.{[], ◌∷◌, ◌++◌, reverse, reverse-append, reverse-reverse}
use native.Mathlib.Omega.{arith}
use pastebin.Base.Tests.{Bool-cases}
use pastebin.Base.Lists.{drop, length}
use pastebin.Base.Text.{Bytes, has_prefix, has_suffix, cut_text, prepend}

pub has_prefix-append : (s p : Bytes) → has_prefix s p ≡ true → (rest : Bytes) × (s ≡ p ++ rest)
unfolding has_prefix
has_prefix-append s [] h = (s, refl)
has_prefix-append [] (c ∷ p) h = absurd (cc)
has_prefix-append (x ∷ s) (c ∷ p) h =
    let (rest, e) = has_prefix-append s p (ground arith) in
    let same : x ≡ c = ground arith in (rest, cc)

pub has_suffix-append : (s p : Bytes) → has_suffix s p ≡ true → (rest : Bytes) × (s ≡ rest ++ p)
unfolding has_suffix
has_suffix-append s p h =
    let (rest, e) = has_prefix-append (reverse s) (reverse p) h in
    (
      reverse rest,
      sym (reverse-reverse s)
          ∙ ap reverse e
          ∙ reverse-append (reverse p) rest
          ∙ ap (λ t. reverse rest ++ t) (reverse-reverse p),
    )

drop-append : (p rest : Bytes) → drop (length p) (p ++ rest) ≡ rest
drop-append [] rest = refl
drop-append (c ∷ p) rest = drop-append p rest

pub drop-prefix : (s p : Bytes) → has_prefix s p ≡ true → p ++ drop (length p) s ≡ s
drop-prefix s p h = let (rest, e) = has_prefix-append s p h in rw (e, drop-append p rest) refl

-- The parts of a cut text stand around the separator.
prepend_parts :
    (sep s : Bytes) (c : ℕ) (o : Option (Bytes × Bytes)) (a b : Bytes)
    → ((x y : Bytes) → o ≡ some (x, y) → s ≡ x ++ (sep ++ y))
    → prepend c o ≡ some (a, b)
    → c ∷ s ≡ a ++ (sep ++ b)
prepend_parts sep s c none a b ih h = absurd (cc)
prepend_parts sep s c (some (x, y)) a b ih h =
    let e = ih x y refl in
    let first : a ≡ c ∷ x = cc in let second : b ≡ y = cc in rw (first, second) (ap (λ t. c ∷ t) e)

pub cut_text-append : (sep s a b : Bytes) → cut_text sep s ≡ some (a, b) → s ≡ a ++ (sep ++ b)
unfolding cut_text
cut_text-append sep [] a b h = absurd (cc)
cut_text-append sep (c ∷ s) a b h = elim (Bool-cases (has_prefix (c ∷ s) sep)) [
  | inl p ↦
      let found : ◌≡◌ {A = Option (Bytes × Bytes)} (some ([], drop (length sep) (c ∷ s)))
          (some (a, b)) =
        rw p at h in
      let first : a ≡ [] = cc in
      let second : b ≡ drop (length sep) (c ∷ s) = cc in
      rw (first, second) (sym (drop-prefix (c ∷ s) sep p))
  | inr p ↦ prepend_parts sep s c (cut_text sep s) a b (cut_text-append sep s) (rw p at h)
]
