-- ===== src/Task/SizeCap/Fits.antt =====
-- What the cap on the size leaves of the backups.
use mathlib.Core.Path.{subst}
use mathlib.Core.List.Memᴰ
use mathlib.Core.List.{Memᴰ, Perm}
use pastebin.Task.Order.{
  All-Mem, all_of, last_of, insert_asc, order_asc, IsAsc, order_asc-IsAsc, order_asc-perm,
  order_asc-Mem, IsAsc-last,
}
use pastebin.Base.{
  ℕ, zero, suc, ◌-◌, ◌≤◌, ◌<◌, ◌≡◌, ◌⊎◌, refl, sym, ap, Bool, true, false, List, [], ◌∷◌, ◌++◌, map,
  inl, inr, arith, Bytes, ltb, ◌==◌, take, drop, length, Bool-cases, All, ◌+◌, ◌∙◌,
}
use pastebin.Task.SizeCap.{BackupFile, total_size, dropped, prune, apply_size_cap}

-- The oldest `k` backups are gone, and no fewer would have done.
abbrev pub IsLeast : ℕ → List BackupFile → List Bytes × List BackupFile → Type 0
IsLeast cap files r =
    (k : ℕ) × (r.0 ≡ map (λ f. f.name) (take k files))
    × (r.1 ≡ drop k files)
    × ((total_size r.1 ≤ cap) ⊎ (length r.1 ≤ 1))
    × ((k ≡ 0) ⊎ (cap < total_size (drop (k - 1) files)))

pred_suc : (k : ℕ) → suc k - 1 ≡ k
pred_suc k = omega arith

over_before :
    (cap k : ℕ) (f : BackupFile) (files : List BackupFile)
    → cap < total_size (f ∷ files)
    → (k ≡ 0) ⊎ (cap < total_size (drop (k - 1) files))
    → cap < total_size (drop k (f ∷ files))
over_before cap zero f files over least = over
over_before cap (suc k) f files over (inl h) = absurd (omega arith)
over_before cap (suc k) f files over (inr h) =
    subst (λ n. cap < total_size (drop n files)) (pred_suc k) h

prune-IsLeast :
    (cap total : ℕ) (files : List BackupFile)
    → total ≡ total_size files
    → IsLeast cap files (prune (λ name. true) cap total files)
unfolding prune total_size
prune-IsLeast cap total [] same = (0, refl, refl, inr (omega arith), inl refl)
prune-IsLeast cap total (f ∷ []) same = (0, refl, refl, inr (omega arith), inl refl)
prune-IsLeast cap total (f ∷ g ∷ files) same = elim (Bool-cases (ltb cap total)) [
  | inr fits ↦ rw fits (0, refl, refl, inl (ground arith), inl refl)
  | inl over ↦
      let (k, names, kept, small, least) =
        prune-IsLeast cap (total - f.size) (g ∷ files) (omega arith) in
      rw over (
        suc k,
        ap (λ l. f.name ∷ l) names,
        kept,
        small,
        inr (
            subst (λ n. cap < total_size (drop n (f ∷ g ∷ files))) (sym (pred_suc k))
              (over_before cap k f (g ∷ files) (ground arith) least)),
      )
]

-- The list ends with the backup.
abbrev Ends : BackupFile → List BackupFile → Type 0
Ends x files = (kept : List BackupFile) × (files ≡ kept ++ x ∷ [])

dropped-Ends :
    (b : Bool) (f x : BackupFile) (removed failed : List Bytes × List BackupFile)
    → Ends x removed.1
    → Ends x failed.1
    → Ends x (dropped b f removed failed).1
dropped-Ends true f x removed failed a c = a
dropped-Ends false f x removed failed a (kept, same) = (f ∷ kept, ap (λ l. f ∷ l) same)

prune-Ends :
    (remove : Bytes → Bool) (cap total : ℕ) (files : List BackupFile) (x : BackupFile)
    → Ends x (prune remove cap total (files ++ x ∷ [])).1
unfolding prune
prune-Ends remove cap total [] x = ([], refl)
prune-Ends remove cap total (f ∷ []) x = elim (Bool-cases (ltb cap total)) [
  | inr fits ↦ rw fits (f ∷ [], refl)
  | inl over ↦
      rw over (dropped-Ends (remove f.name) f x ([], x ∷ []) ([], x ∷ []) ([], refl) ([], refl))
]
prune-Ends remove cap total (f ∷ g ∷ files) x = elim (Bool-cases (ltb cap total)) [
  | inr fits ↦ rw fits (f ∷ g ∷ files, refl)
  | inl over ↦ rw over (
      dropped-Ends (remove f.name) f x (prune remove cap (total - f.size) (g ∷ files ++ x ∷ []))
        (prune remove cap total (g ∷ files ++ x ∷ []))
        (prune-Ends remove cap (total - f.size) (g ∷ files) x)
        (prune-Ends remove cap total (g ∷ files) x))
]

total_size-insert_asc :
    (x : BackupFile) (files : List BackupFile)
    → total_size (insert_asc (λ f. f.date) x files) ≡ x.size + total_size files
unfolding total_size insert_asc
total_size-insert_asc x [] = refl
total_size-insert_asc x (f ∷ files) = elim (Bool-cases (ltb f.date x.date)) [
  | inl e ↦ rw e (omega (arith, total_size-insert_asc x files))
  | inr e ↦ rw e refl
]

total_size-order_asc :
    (files : List BackupFile) → total_size files ≡ total_size (order_asc (λ f. f.date) files)
unfolding total_size order_asc
total_size-order_asc [] = refl
total_size-order_asc (x ∷ files) =
    omega
      (arith, total_size-order_asc files, total_size-insert_asc x (order_asc (λ f. f.date) files))

-- Whatever files cannot be removed, a backup of the newest date stays.
pub apply_size_cap-newest :
    (remove : Bytes → Bool) (cap : ℕ) (files : List BackupFile) (x : BackupFile)
    → Memᴰ x files
    → (z : BackupFile) × Memᴰ z (apply_size_cap remove cap files).1
      × All (λ f. f.date ≤ z.date) files
unfolding apply_size_cap
apply_size_cap-newest remove cap files x there =
    let (init, z, e) =
      filled (order_asc (λ f. f.date) files) (order_asc-Mem (λ f. f.date) x files there) in
    let most = subst (All (λ f. f.date ≤ z.date)) (sym e) (
      IsAsc-last (λ f. f.date) init z
        (subst (IsAsc (λ f. f.date)) e (order_asc-IsAsc (λ f. f.date) files))) in
    let all : All (λ f. f.date ≤ z.date) files =
      all_of (λ f. f.date ≤ z.date) files
        (λ f m.
          All-Mem (λ f. f.date ≤ z.date) f (order_asc (λ f. f.date) files) most
            (order_asc-Mem (λ f. f.date) f files m)) in
    elim (Bool-cases (cap == 0)) [
      | inl c ↦ rw c (z, subst (Memᴰ z) (sym e) (at_end init z), all)
      | inr c ↦
          let (kept, ends) = prune-Ends remove cap (total_size files) init z in
          let stays : (prune remove cap (total_size files) (order_asc (λ f. f.date) files)).1
              ≡ kept ++ z ∷ [] =
            ap (λ l. (prune remove cap (total_size files) l).1) e ∙ ends in
          rw c (z, subst (Memᴰ z) (sym stays) (at_end kept z), all)
    ]
  where
    at_end : (l : List BackupFile) (z : BackupFile) → Memᴰ z (l ++ z ∷ [])
    at_end [] z = Memᴰ.head refl
    at_end (y ∷ l) z = Memᴰ.tail (at_end l z)

    filled :
        (l : List BackupFile)
        → Memᴰ x l
        → (init : List BackupFile) × (z : BackupFile) × (l ≡ init ++ z ∷ [])
    filled [] m = absurd (Memᴰ.not-nil m)
    filled (y ∷ l) m = last_of y l

-- When no removal fails and there is a cap, of the backups in the order of their dates the oldest go, as few as bring
-- the total size under the cap; if nothing does, all but the newest.
pub apply_size_cap-IsLeast :
    (cap : ℕ) (files : List BackupFile)
    → 0 < cap
    → (sorted : List BackupFile) × (Perm sorted files)
      × IsAsc (λ f. f.date) sorted
      × IsLeast cap sorted (apply_size_cap (λ name. true) cap files)
unfolding apply_size_cap
apply_size_cap-IsLeast cap files some_cap =
    let on : (cap == 0) ≡ false = ground arith in
    let sorted = order_asc (λ f. f.date) files in
    (
      sorted,
      order_asc-perm (λ f. f.date) files,
      order_asc-IsAsc (λ f. f.date) files,
      rw on (prune-IsLeast cap (total_size files) sorted (total_size-order_asc files)),
    )
