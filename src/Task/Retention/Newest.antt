-- ===== src/Task/Retention/Newest.antt =====
-- The backup that the limits never delete.
use pastebin.Base.{
  ℕ, ◌≤◌, ◌≡◌, refl, ap, ◌∙◌, Bool, true, ◌&&◌, List, [], ◌∷◌, Bytes, arith, if◌then◌else◌, ltb,
  inl, inr, sym, Bool-cases, false, All, ◌≢◌, bytes_eq_iff, ◌==◌,
}
use pastebin.Base.Sort.{order_desc, All-order_desc, IsDesc, order_desc-IsDesc}
use pastebin.Task.Order.{All-Mem, all_of, order_desc-Mem}
use mathlib.Core.List.Memᴰ
use mathlib.Core.List.{Memᴰ}
use mathlib.Core.Path.{subst}
use pastebin.Calendar.{month_of, day_of, weekday_of}
use pastebin.Task.SizeCap.{BackupFile}
use pastebin.Task.SizeCap.Fits.{apply_size_cap-newest}
use pastebin.Task.Retention.{
  BackupRetention, Counts, Counts, BackupEntry, dated, is_among, left_of, settle, yearly, monthly,
  weekly, daily, classify, no_counts, add_one, keeps, apply_counts, with_cap, apply_retention,
}
use pastebin.Task.Retention.Dates.{parse_date_mono}
use pastebin.Task.Retention.Entries.{
  Distinct, Apart, HasDates, Stems, dated-Stems, dated-Apart, order-Apart, dated-Mem,
}

-- One of the limits that put a backup into its tier is above 0.
chosen_kept :
    (january first sunday : Bool) (ret : BackupRetention)
    → 1 ≤ ret.max_backups
    → (let t =
          if january && (first && ltb 0 ret.keep_yearly)
          then yearly
          else if first && ltb 0 ret.keep_monthly
          then monthly
          else if sunday && ltb 0 ret.keep_weekly
          then weekly
          else daily in
        keeps ret t (add_one t no_counts) ≡ true)
unfolding keeps add_one
chosen_kept january first sunday ret h = ground arith

first_kept :
    (ret : BackupRetention) (day : ℕ)
    → 1 ≤ ret.max_backups
    → keeps ret (classify ret day) (add_one (classify ret day) no_counts) ≡ true
unfolding classify
first_kept ret day h = chosen_kept (month_of day == 1) (day_of day == 1) (weekday_of day == 0) ret h

left_of-Mem :
    (f : BackupFile) (deleted : List Bytes) (files : List BackupFile)
    → Memᴰ f files
    → is_among f.name deleted ≡ false
    → Memᴰ f (left_of deleted files)
unfolding left_of
left_of-Mem f deleted [] m h = absurd (Memᴰ.not-nil m)
left_of-Mem f deleted (g ∷ files) (Memᴰ.head e) h =
    let kept : is_among g.name deleted ≡ false = ap (λ x. is_among x.name deleted) (sym e) ∙ h in
    rw kept (Memᴰ.head e)
left_of-Mem f deleted (g ∷ files) (Memᴰ.tail m) h = elim (Bool-cases (is_among g.name deleted)) [
  | inl e ↦ rw e (left_of-Mem f deleted files m h)
  | inr e ↦ rw e (Memᴰ.tail (left_of-Mem f deleted files m h))
]

settle-among :
    (n : Bytes) (keep removed : Bool) (b : BackupEntry) (r : List Bytes × List BackupEntry)
    → n ≢ b.name
    → is_among n r.0 ≡ false
    → is_among n (settle keep removed b r).0 ≡ false
unfolding is_among
settle-among n true removed b (deleted, kept) h e = e
settle-among n false true b (deleted, kept) h e = ground (arith, bytes_eq_iff n b.name)
settle-among n false false b (deleted, kept) h e = e

module _ (remove : Bytes → Bool) (ret : BackupRetention) where
  counts-among :
      (n : Bytes) (c : Counts) (entries : List BackupEntry)
      → All (λ e. n ≢ e.name) entries
      → is_among n (apply_counts remove ret c entries).0 ≡ false
  unfolding apply_counts is_among
  counts-among n c [] all = refl
  counts-among n c (b ∷ entries) (h, all) =
      let t = classify ret b.day in
      settle-among n (keeps ret t (add_one t c)) (remove b.name) b
        (apply_counts remove ret (add_one t c) entries) h (counts-among n (add_one t c) entries all)

  first_left :
      (b : BackupEntry) (entries : List BackupEntry)
      → 1 ≤ ret.max_backups
      → Apart (b ∷ entries)
      → is_among b.name (apply_counts remove ret no_counts (b ∷ entries)).0 ≡ false
  unfolding apply_counts
  first_left b entries h (all, apart) =
      let t = classify ret b.day in
      rw (first_kept ret b.day h) (counts-among b.name (add_one t no_counts) entries all)

  -- The newest date stays, whichever entry comes first.
  newest_left :
      (cap : ℕ) (files : List BackupFile) (x : BackupFile) (sorted : List BackupEntry)
      → order_desc (λ b. b.day) (dated files) ≡ sorted
      → 1 ≤ ret.max_backups
      → Distinct files
      → HasDates files
      → Memᴰ x files
      → (z : BackupFile) × Memᴰ z
          (with_cap remove ret cap files (apply_counts remove ret no_counts sorted).0).1
        × All (λ f. f.date ≤ z.date) files
  newest_left cap files x [] e h apart dates m =
      let (b, there, p) = dated-Mem x files m dates in
      absurd (Memᴰ.not-nil (subst (Memᴰ b) e (order_desc-Mem (λ b. b.day) b (dated files) there)))
  newest_left cap files x (b ∷ entries) e h apart dates m =
      let (f, at, name, day) =
        (subst (All (Stems files)) e
          (All-order_desc (λ b. b.day) (Stems files) (dated files) (dated-Stems files))).0 in
      let deleted = (apply_counts remove ret no_counts (b ∷ entries)).0 in
      let alone = subst Apart e (order-Apart (dated files) (dated-Apart files apart)) in
      let kept : is_among f.name deleted ≡ false =
        ap (λ n. is_among n deleted) name ∙ first_left b entries h alone in
      let there = left_of-Mem f deleted files at kept in
      let (z, stays, top) = apply_size_cap-newest remove cap (left_of deleted files) f there in
      let above : f.date ≤ z.date =
        All-Mem (λ g. g.date ≤ z.date) f (left_of deleted files) top there in
      let falling =
        (subst (IsDesc (λ b. b.day)) e (order_desc-IsDesc (λ b. b.day) (dated files))).0 in
      (
        z,
        stays,
        all_of (λ g. g.date ≤ z.date) files
            (λ g m'.
              let (c, c_there, p) = dated-Mem g files m' dates in
              let c_sorted =
                subst (Memᴰ c) e (order_desc-Mem (λ b. b.day) c (dated files) c_there) in
              let below : c.day ≤ b.day =
                All-Mem (λ y. y.day ≤ b.day) c (b ∷ entries) (omega arith, falling) c_sorted in
              omega (arith, parse_date_mono g.date f.date c.day b.day p day below)),
      )

  -- In a directory with a backup, where no two files have one name and every name has a date: with one backup to keep
  -- at least, a backup of the newest date stays, whatever the other limits, the cap on the size and the files that
  -- cannot be removed.
  pub apply_retention_newest :
      (cap : ℕ) (files : List BackupFile) (x : BackupFile)
      → 1 ≤ ret.max_backups
      → Distinct files
      → HasDates files
      → Memᴰ x files
      → (z : BackupFile) × Memᴰ z (apply_retention remove ret cap files).1
        × All (λ f. f.date ≤ z.date) files
  unfolding apply_retention
  apply_retention_newest cap files x h apart dates m =
      newest_left cap files x (order_desc (λ b. b.day) (dated files)) refl h apart dates m
