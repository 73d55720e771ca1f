-- ===== src/Logging/Writer/Files.antt =====
-- Files by name: what `put`, `remove` and the pruning leave of a name.
use pastebin.Base.{
  ℕ, ◌≡◌, ◌≢◌, refl, sym, ap, ◌∙◌, Bool, true, false, none, some, List, [], ◌∷◌, ◌++◌, Bytes,
  bytes_eq, bytes_eq_iff, bytes_eq_refl, arith, if◌then◌else◌, if_rule, Bool-cases, ◌⊎◌, inl, inr,
  length, length-append,
}
use pastebin.Logging.Directory.{File, Directory, find, remove, put}
use pastebin.Logging.Writer.{remove_all}

bytes_differ : (a b : Bytes) → a ≢ b → bytes_eq a b ≡ false
bytes_differ a b h = elim (Bool-cases (bytes_eq a b)) [
  | inl e ↦ absurd (h ((bytes_eq_iff a b).0 e))
  | inr e ↦ e
]

pub find_name : (n : Bytes) (fs : Directory) (f : File) → find n fs ≡ some f → f.name ≡ n
unfolding find
find_name n [] f h = absurd (cc)
find_name n (g ∷ fs) f h = elim (Bool-cases (bytes_eq g.name n)) [
  | inl e ↦
      let same : g ≡ f = ground (arith, h, e) in
      ap (λ x. x.name) (sym same) ∙ (bytes_eq_iff g.name n).0 e
  | inr e ↦ find_name n fs f (ground (arith, h, e))
]

pub find-remove_self : (n : Bytes) (fs : Directory) → find n (remove n fs) ≡ none
unfolding find remove
find-remove_self n [] = refl
find-remove_self n (f ∷ fs) = elim (Bool-cases (bytes_eq f.name n)) [
  | inl e ↦ rw e (find-remove_self n fs)
  | inr e ↦ rw e (rw e (find-remove_self n fs))
]

pub find-remove_other : (n m : Bytes) (fs : Directory) → n ≢ m → find n (remove m fs) ≡ find n fs
unfolding find remove
find-remove_other n m [] h = refl
find-remove_other n m (f ∷ fs) h = elim (Bool-cases (bytes_eq f.name m)) [
  | inl e ↦
      let same = (bytes_eq_iff f.name m).0 e in
      let other : bytes_eq f.name n ≡ false = bytes_differ f.name n (λ q. h (sym q ∙ same)) in
      rw (e, other) (find-remove_other n m fs h)
  | inr e ↦ rw e (ground (arith, find-remove_other n m fs h))
]

pub find-put_self : (f : File) (fs : Directory) → find f.name (put f fs) ≡ some f
unfolding find put
find-put_self f fs = rw (bytes_eq_refl f.name) refl

pub find-put_other :
    (n : Bytes) (f : File) (fs : Directory) → n ≢ f.name → find n (put f fs) ≡ find n fs
unfolding find put
find-put_other n f fs h =
    let other : bytes_eq f.name n ≡ false = bytes_differ f.name n (λ q. h (sym q)) in
    rw other (find-remove_other n f.name fs h)

-- A name that is not taken stays so when files are removed.
pub find-remove-none :
    (n m : Bytes) (fs : Directory) → find n fs ≡ none → find n (remove m fs) ≡ none
unfolding find remove
find-remove-none n m [] h = refl
find-remove-none n m (f ∷ fs) h = elim (Bool-cases (bytes_eq f.name n)) [
  | inl e ↦ absurd (cc)
  | inr e ↦
      let rest = find-remove-none n m fs (ground arith) in
      elim (Bool-cases (bytes_eq f.name m)) [ inl d ↦ rw d rest | inr d ↦ rw (d, e) rest ]
]

pub find-remove_all-none :
    (removes : Bytes → Bool) (names : List Bytes) (n : Bytes) (fs : Directory)
    → find n fs ≡ none
    → find n (remove_all removes names fs).0 ≡ none
unfolding remove_all
find-remove_all-none removes [] n fs h = h
find-remove_all-none removes (m ∷ names) n fs h =
    find-remove_all-none removes names n (if removes m then remove m fs else fs) (
      if_rule (λ l. find n l ≡ none) (removes m) (remove m fs) fs (λ r. find-remove-none n m fs h)
        (λ r. h))

-- A text is not one that continues it.
pub longer_differs : (a : Bytes) (c : ℕ) (b : Bytes) → a ≢ a ++ c ∷ b
longer_differs a c b e = absurd (omega (arith, ap (length {0}) e, length-append {0} a (c ∷ b)))

pub texts_differ : (a b : Bytes) → (a ≡ b) ⊎ (a ≢ b)
texts_differ a b = elim (Bool-cases (bytes_eq a b)) [
  | inl e ↦ inl ((bytes_eq_iff a b).0 e)
  | inr e ↦ inr (λ q. let t : bytes_eq a b ≡ true = (bytes_eq_iff a b).1 q in cc)
]
