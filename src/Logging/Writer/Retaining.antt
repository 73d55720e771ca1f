-- ===== src/Logging/Writer/Retaining.antt =====
-- Which archives the retention by count leaves.
use mathlib.Core.Path.{subst}
use mathlib.Core.List.Memᴰ
use mathlib.Core.List.{Memᴰ, append_assoc}
use pastebin.Base.{
  ℕ, zero, suc, ◌+◌, ◌-◌, ◌<◌, ◌≡◌, ◌⊎◌, inl, inr, refl, ap, ◌∙◌, Bool, true, false, none, List, [],
  ◌∷◌, ◌++◌, map, Bytes, codes, arith, leb, Bool-cases, drop, All, All-drop, drop-eq-nil,
}
use pastebin.Base.Sort.{order_desc, All-order_desc}
use pastebin.Base.Text.{has_prefix}
use pastebin.Base.Affix.{has_prefix-append}
use pastebin.Logging.{keep_count}
use pastebin.Logging.Directory.{File, Directory, find, remove}
use pastebin.Logging.Writer.{
  FileWriter, Os, Policy, names_under, doomed, remove_all, prune, is_forever,
}
use pastebin.Logging.Writer.Files.{
  find-remove_self, find-remove_other, find-remove_all-none, longer_differs, texts_differ,
}

drop_next : (k : ℕ) (f : File) (fs : Directory) → 0 < k → drop k (f ∷ fs) ≡ drop (k - 1) fs
drop_next zero f fs h = absurd (omega arith)
drop_next (suc k) f fs h = let e : suc k - 1 ≡ k = omega arith in rw e refl

-- From the index `i` on, all but the first `n - i` files go.
doomed_count :
    (n now i : ℕ) (fs : Directory)
    → doomed (keep_count n) now i fs ≡ map (λ f. f.name) (drop (n - i) fs)
unfolding doomed
doomed_count n now i [] = let e = drop-eq-nil {A = File} (n - i) [] (omega arith) in rw e refl
doomed_count n now i (f ∷ fs) = elim (Bool-cases (leb n i)) [
  | inl e ↦
      let z : n - i ≡ 0 = ground arith in
      let y : n - (i + 1) ≡ 0 = ground arith in
      rw (e, z) (ap (λ l. f.name ∷ l) (doomed_count n now (i + 1) fs ∙ rw y refl))
  | inr e ↦
      let step : n - i - 1 ≡ n - (i + 1) = omega arith in
      rw (e, drop_next (n - i) f fs (ground arith), step) (doomed_count n now (i + 1) fs)
]

-- When nothing fails, the names that are listed are gone, and no other.
abbrev Clears : List Bytes → Directory → Directory → Type 0
Clears names before after =
    (m : Bytes)
    → (Memᴰ m names × (find m after ≡ none)) ⊎ ((¬ Memᴰ m names) × (find m after ≡ find m before))

Clears-cons :
    (n : Bytes) (names : List Bytes) (before after : Directory)
    → find n after ≡ none
    → Clears names (remove n before) after
    → Clears (n ∷ names) before after
Clears-cons n names before after gone h m = elim (h m) [
  | inl (in_names, none_left) ↦ inl (Memᴰ.tail in_names, none_left)
  | inr (other, same) ↦ elim (texts_differ m n) [
    | inl e ↦ inl (Memᴰ.head e, rw e gone)
    | inr d ↦ inr (
      λ mem. elim mem [ Memᴰ.head e ↦ d e | Memᴰ.tail t ↦ other t ],
      same ∙ find-remove_other m n before d,
    )
  ]
]

remove_all-Clears :
    (removes : Bytes → Bool) (names : List Bytes) (fs : Directory)
    → ((n : Bytes) → removes n ≡ true)
    → Clears names fs (remove_all removes names fs).0
unfolding remove_all
remove_all-Clears removes [] fs h = λ m. inr (Memᴰ.not-nil, refl)
remove_all-Clears removes (n ∷ names) fs h =
    let rest = remove_all-Clears removes names (remove n fs) h in
    let gone = find-remove_all-none removes names n (remove n fs) (find-remove_self n fs) in
    rw (h n) (Clears-cons n names fs (remove_all removes names (remove n fs)).0 gone rest)

-- The live file is none of the rotated ones.
abbrev Under : Bytes → File → Type 0
Under prefix f = has_prefix f.name prefix ≡ true

names_under-All : (prefix : Bytes) (fs : Directory) → All (Under prefix) (names_under prefix fs)
unfolding names_under
names_under-All prefix [] = tt
names_under-All prefix (f ∷ fs) = elim (Bool-cases (has_prefix f.name prefix)) [
  | inl e ↦ rw e (e, names_under-All prefix fs)
  | inr e ↦ rw e (names_under-All prefix fs)
]

not_listed :
    (path : Bytes) (fs : Directory)
    → All (Under (path ++ codes ".")) fs
    → ¬ Memᴰ path (map (λ f. f.name) fs)
not_listed path [] h m = Memᴰ.not-nil m
not_listed path (f ∷ fs) (u, h) m = elim m [
  | Memᴰ.head e ↦
      let (rest, shape) = has_prefix-append f.name (path ++ codes ".") u in
      longer_differs path b'.' rest (e ∙ shape ∙ append_assoc path (codes ".") rest)
  | Memᴰ.tail t ↦ not_listed path fs h t
]

-- The rotated files, newest first.
abbrev pub archives : Policy → FileWriter → Directory
archives p w = order_desc (λ f. f.mod_time) (names_under (p.path ++ codes ".") w.dir)

-- With retention by count, on a system where nothing fails: of the rotated files, newest first, those behind the first
-- `n` are gone, and no other file is changed; the live file is none of them.
pub prune_newest :
    (gzip : Bytes → Bytes) (os : Os) (p : Policy) (n now : ℕ) (w : FileWriter)
    → p.keep ≡ keep_count n
    → ((m : Bytes) → os.removes m ≡ true)
    → ((m : Bytes)
        → (Memᴰ m (map (λ f. f.name) (drop n (archives p w)))
            × (find m (prune gzip os p now w).0.dir ≡ none))
          ⊎ ((¬ Memᴰ m (map (λ f. f.name) (drop n (archives p w))))
              × (find m (prune gzip os p now w).0.dir ≡ find m w.dir)))
      × (¬ Memᴰ p.path (map (λ f. f.name) (drop n (archives p w))))
unfolding prune
prune_newest gzip os p n now w k h =
    let files = archives p w in
    let names : doomed p.keep now 0 files ≡ map (λ f. f.name) (drop n files) =
      ap (λ keep. doomed keep now 0 files) k
      ∙ doomed_count n now 0 files
      ∙ ap (λ (i : ℕ). map (λ f. f.name) (drop i files)) (omega arith) in
    let limited : is_forever p.keep ≡ false = ap is_forever k in
    let cleared =
      subst (λ l. Clears l w.dir (remove_all os.removes (doomed p.keep now 0 files) w.dir).0) names
        (remove_all-Clears os.removes (doomed p.keep now 0 files) w.dir h) in
    let under = All-drop (Under (p.path ++ codes ".")) n files (
      All-order_desc (λ f. f.mod_time) (Under (p.path ++ codes "."))
        (names_under (p.path ++ codes ".") w.dir) (names_under-All (p.path ++ codes ".") w.dir)) in
    (rw limited cleared, not_listed p.path (drop n files) under)
