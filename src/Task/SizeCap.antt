-- ===== src/Task/SizeCap.antt =====
-- src/task/backup_guard.go: `applySizeCap`, on the backups of a project in the order of the directory: the files
-- whose names have a date. Their sizes add up to less than 2 ^ 63.
pub mod Fits
use pastebin.Task.Order.{order_asc}
use pastebin.Base.{
  ℕ, ◌+◌, ◌-◌, Bool, true, false, List, [], ◌∷◌, Bytes, if◌then◌else◌, ltb, leb, ◌==◌,
}

-- The date is the number that the eight digits of the date in the name make: the texts, of one length, are in its order.
pub record BackupFile : Type 0 where
  pub name : Bytes
  pub date : ℕ
  pub size : ℕ

unfoldable pub total_size : List BackupFile → ℕ
total_size [] = 0
total_size (f ∷ files) = f.size + total_size files

abbrev pub dropped :
    Bool
    → BackupFile
    → List Bytes × List BackupFile
    → List Bytes × List BackupFile
    → List Bytes × List BackupFile
dropped true f removed failed = (f.name ∷ removed.0, removed.1)
dropped false f removed failed = (failed.0, f ∷ failed.1)

module _ (remove : Bytes → Bool) (cap : ℕ) where
  -- The loop: the names that are deleted, and the backups that stay. It leaves the last one.
  unfoldable pub prune : ℕ → List BackupFile → List Bytes × List BackupFile
  prune total [] = ([], [])
  prune total (f ∷ []) = ([], f ∷ [])
  prune total (f ∷ g ∷ files) =
      let removed = prune (total - f.size) (g ∷ files) in
      let failed = prune total (g ∷ files) in
      if ltb cap total then dropped (remove f.name) f removed failed else ([], f ∷ g ∷ files)

  -- The names that are deleted, and the backups that stay, oldest first; a cap of 0 is none.
  unfoldable pub apply_size_cap : List BackupFile → List Bytes × List BackupFile
  unfolding total_size prune order_asc
  apply_size_cap files =
      let sorted = order_asc (λ f. f.date) files in
      if cap == 0 then ([], sorted) else prune (total_size files) sorted
