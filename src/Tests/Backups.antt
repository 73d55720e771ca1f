-- ===== src/Tests/Backups.antt =====
-- Tests of the limits on backups.
use pastebin.Base.{
  Bytes, bytes_eq, bytes_eq_iff, ◌≢◌, none, All, false, ◌≤◌, ◌≡◌, refl, true, [], ◌∷◌, List, codes,
  arith, take, filter_where,
}
use pastebin.Task.SizeCap.{BackupFile, apply_size_cap}
use mathlib.Core.List.{Memᴰ, Perm}
use pastebin.Calendar.{year_of, month_of, first_of}
use pastebin.Task.Order.{IsAsc, order_asc}
use pastebin.Task.SizeCap.Fits.{IsLeast, apply_size_cap-IsLeast}
use pastebin.Task.Retention.{
  BackupRetention, BackupEntry, parse_date, weekly, no_counts, apply_counts, apply_retention,
}
use pastebin.Task.Retention.Tiers.{in_tier, allowed, apply_counts-take}
use pastebin.Task.Retention.Entries.{Distinct, HasDates}
use pastebin.Task.Retention.Newest.{apply_retention_newest}

-- Monday 1 January of the year 1, and the two days behind it.
abbrev first_day : BackupFile
first_day = record { name = codes "p_backup_0001-01-01.tar.gz"; date = 10101; size = 5 }

abbrev second_day : BackupFile
second_day = record { name = codes "p_backup_0001-01-02.tar.gz"; date = 10102; size = 4 }

abbrev third_day : BackupFile
third_day = record { name = codes "p_backup_0001-01-03.tar.gz"; date = 10103; size = 3 }

abbrev backups : List BackupFile
backups = first_day ∷ second_day ∷ third_day ∷ []

abbrev limits : BackupRetention
limits = record { max_backups = 2; keep_weekly = 0; keep_monthly = 0; keep_yearly = 1 }

apply_size_cap-IsLeast_example :
    (sorted : List BackupFile) × (Perm sorted backups)
    × IsAsc (λ f. f.date) sorted
    × IsLeast 8 sorted (apply_size_cap (λ name. true) 8 backups)
apply_size_cap-IsLeast_example = apply_size_cap-IsLeast 8 backups (omega arith)

-- A plain and an encrypted backup of one day, in the order of the directory: the plain one goes.
same_day :
    (apply_size_cap
      (λ name. true)
      5
      (second_day ∷ record second_day { name = codes "p_backup_0001-01-02.tar.gz.enc" } ∷ [])).0
    ≡ second_day.name ∷ []
unfolding apply_size_cap order_asc
same_day = refl

-- A 30 February is no date, but a file of it counts for the cap.
no_date : parse_date 20_250_230 ≡ none
unfolding parse_date
no_date = refl

abbrev entries : List BackupEntry
entries =
    record { name = codes "c"; day = 2 }
    ∷ record { name = codes "b"; day = 1 }
    ∷ record { name = codes "a"; day = 0 }
    ∷ []

apply_counts-take_example :
    filter_where (in_tier limits weekly) (apply_counts (λ name. true) limits no_counts entries).1
    ≡ take (allowed limits weekly) (filter_where (in_tier limits weekly) entries)
apply_counts-take_example = apply_counts-take limits weekly entries

differ : (a b : Bytes) → bytes_eq a b ≡ false → a ≢ b
differ a b h e = ground (arith, bytes_eq_iff a b)

backups-Distinct : Distinct backups
unfolding bytes_eq
backups-Distinct = (
  (differ first_day.name second_day.name refl, (differ first_day.name third_day.name refl, tt)),
  ((differ second_day.name third_day.name refl, tt), (tt, tt)),
)

backups-HasDates : HasDates backups
unfolding parse_date year_of month_of first_of
backups-HasDates = (refl, (refl, (refl, tt)))

apply_retention_newest_example :
    (z : BackupFile) × Memᴰ z (apply_retention (λ name. false) limits 8 backups).1
    × All (λ f. f.date ≤ z.date) backups
apply_retention_newest_example =
    apply_retention_newest (λ name. false) limits 8 backups first_day (omega arith) backups-Distinct
      backups-HasDates (Memᴰ.head refl)
