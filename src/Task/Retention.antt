-- ===== src/Task/Retention.antt =====
-- src/task/task.go: `applyRetention` on the backups of a project in the order of the directory. Days are counted from
-- 1 January of the year 1; no backup is of the year 0.
pub mod Tiers
pub mod Dates
pub mod Entries
pub mod Newest
use pastebin.Base.{
  ℕ, ◌+◌, Bool, true, false, ◌&&◌, List, [], ◌∷◌, ◌++◌, Bytes, if◌then◌else◌, ltb, leb, ◌==◌, ◌-◌,
  ◌/◌, ◌%◌, ◌||◌, Option, some, none, bytes_eq,
}
use pastebin.Base.Sort.{order_desc}
use pastebin.Calendar.{year_of, month_of, day_of, weekday_of, first_of}
use pastebin.Task.SizeCap.{BackupFile, apply_size_cap}

-- Limits below 0 act as 0 does.
pub record BackupRetention : Type 0 where
  pub max_backups : ℕ
  pub keep_weekly : ℕ
  pub keep_monthly : ℕ
  pub keep_yearly : ℕ

pub data Tier : Type 0 where
  yearly monthly weekly daily : Tier

unfoldable pub classify : BackupRetention → ℕ → Tier
unfolding month_of day_of weekday_of
classify ret t =
    if (month_of t == 1) && ((day_of t == 1) && ltb 0 ret.keep_yearly)
    then yearly
    else if (day_of t == 1) && ltb 0 ret.keep_monthly
    then monthly
    else if (weekday_of t == 0) && ltb 0 ret.keep_weekly
    then weekly
    else daily

-- How many backups of a tier have been seen.
pub record Counts : Type 0 where
  pub count_yearly : ℕ
  pub count_monthly : ℕ
  pub count_weekly : ℕ
  pub count_daily : ℕ

abbrev pub no_counts : Counts
no_counts = record { count_yearly = 0; count_monthly = 0; count_weekly = 0; count_daily = 0 }

unfoldable pub add_one : Tier → Counts → Counts
add_one yearly c = record c { count_yearly = c.count_yearly + 1 }
add_one monthly c = record c { count_monthly = c.count_monthly + 1 }
add_one weekly c = record c { count_weekly = c.count_weekly + 1 }
add_one daily c = record c { count_daily = c.count_daily + 1 }

unfoldable pub keeps : BackupRetention → Tier → Counts → Bool
keeps ret yearly c = leb c.count_yearly ret.keep_yearly
keeps ret monthly c = leb c.count_monthly ret.keep_monthly
keeps ret weekly c = leb c.count_weekly ret.keep_weekly
keeps ret daily c = leb c.count_daily ret.max_backups

-- A backup with a date, as `time.Parse` reads it.
pub record BackupEntry : Type 0 where
  pub name : Bytes
  pub day : ℕ

-- `time.Parse("2006-01-02", …)` on the eight digits: the day, if there is one of that year and month.
unfoldable pub parse_date : ℕ → Option ℕ
unfolding year_of month_of first_of
parse_date n =
    let y = n / 10_000 in
    let m = n / 100 % 100 in
    let d = n % 100 in
    let day = first_of y m + d - 1 in
    if leb 1 y
      && (leb 1 m && (leb m 12 && (leb 1 d && ((year_of day == y) && (month_of day == m)))))
    then some day
    else none

abbrev pub with_day : BackupFile → Option ℕ → List BackupEntry → List BackupEntry
with_day f none rest = rest
with_day f (some day) rest = record { name = f.name; day = day } ∷ rest

-- The first loop of `applyRetention`.
unfoldable pub dated : List BackupFile → List BackupEntry
unfolding parse_date
dated [] = []
dated (f ∷ files) = with_day f (parse_date f.date) (dated files)

-- The names that are deleted, and the backups that stay.
abbrev pub settle :
    Bool → Bool → BackupEntry → List Bytes × List BackupEntry → List Bytes × List BackupEntry
settle true removed b (deleted, kept) = (deleted, b ∷ kept)
settle false true b (deleted, kept) = (b.name ∷ deleted, kept)
settle false false b (deleted, kept) = (deleted, b ∷ kept)

unfoldable pub is_among : Bytes → List Bytes → Bool
unfolding bytes_eq
is_among n [] = false
is_among n (m ∷ names) = bytes_eq n m || is_among n names

-- The directory behind the deletions.
unfoldable pub left_of : List Bytes → List BackupFile → List BackupFile
unfolding is_among
left_of deleted [] = []
left_of deleted (f ∷ files) =
    let rest = left_of deleted files in if is_among f.name deleted then rest else f ∷ rest

-- `remove` is the success of `os.Remove`.
module _ (remove : Bytes → Bool) (ret : BackupRetention) where
  unfoldable pub apply_counts : Counts → List BackupEntry → List Bytes × List BackupEntry
  unfolding classify add_one keeps
  apply_counts c [] = ([], [])
  apply_counts c (b ∷ backups) =
      let t = classify ret b.day in
      settle (keeps ret t (add_one t c)) (remove b.name) b (apply_counts (add_one t c) backups)

  -- `applySizeCap` reads the directory again, with the backups whose dates are none.
  abbrev pub with_cap : ℕ → List BackupFile → List Bytes → List Bytes × List BackupFile
  with_cap cap files deleted =
      let r = apply_size_cap remove cap (left_of deleted files) in (deleted ++ r.0, r.1)

  -- The count limits, newest first, and then the cap on the size: the names that are deleted, and the files that
  -- stay.
  unfoldable pub apply_retention : ℕ → List BackupFile → List Bytes × List BackupFile
  unfolding apply_counts apply_size_cap dated left_of
  apply_retention cap files =
      with_cap cap files (apply_counts no_counts (order_desc (λ b. b.day) (dated files))).0
