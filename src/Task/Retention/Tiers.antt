-- ===== src/Task/Retention/Tiers.antt =====
-- What the count limits leave of each tier.
use pastebin.Base.{
  ℕ, zero, suc, ◌+◌, ◌-◌, ◌≡◌, refl, sym, ap, ◌∙◌, Bool, true, false, List, [], ◌∷◌, arith,
  if◌then◌else◌, leb, take, filter_where, Bool-cases, inl, inr,
}
use pastebin.Task.Retention.{
  BackupEntry, BackupRetention, Tier, yearly, monthly, weekly, daily, classify, Counts, no_counts,
  add_one, keeps, apply_counts,
}

abbrev pub same_tier : Tier → Tier → Bool
same_tier yearly yearly = true
same_tier monthly monthly = true
same_tier weekly weekly = true
same_tier daily daily = true
same_tier _ _ = false

-- How many backups of a tier may stay, and how many have been seen.
abbrev pub allowed : BackupRetention → Tier → ℕ
allowed ret yearly = ret.keep_yearly
allowed ret monthly = ret.keep_monthly
allowed ret weekly = ret.keep_weekly
allowed ret daily = ret.max_backups

abbrev seen : Tier → Counts → ℕ
seen yearly c = c.count_yearly
seen monthly c = c.count_monthly
seen weekly c = c.count_weekly
seen daily c = c.count_daily

abbrev pub in_tier : BackupRetention → Tier → BackupEntry → Bool
in_tier ret t b = same_tier (classify ret b.day) t

seen_add :
    (t u : Tier) (c : Counts)
    → seen u (add_one t c) ≡ (if same_tier t u then seen u c + 1 else seen u c)
unfolding add_one
seen_add yearly yearly c = refl
seen_add yearly monthly c = refl
seen_add yearly weekly c = refl
seen_add yearly daily c = refl
seen_add monthly yearly c = refl
seen_add monthly monthly c = refl
seen_add monthly weekly c = refl
seen_add monthly daily c = refl
seen_add weekly yearly c = refl
seen_add weekly monthly c = refl
seen_add weekly weekly c = refl
seen_add weekly daily c = refl
seen_add daily yearly c = refl
seen_add daily monthly c = refl
seen_add daily weekly c = refl
seen_add daily daily c = refl

keeps_seen :
    (ret : BackupRetention) (t : Tier) (c : Counts) → keeps ret t c ≡ leb (seen t c) (allowed ret t)
unfolding keeps
keeps_seen ret yearly c = refl
keeps_seen ret monthly c = refl
keeps_seen ret weekly c = refl
keeps_seen ret daily c = refl

same_tier_eq : (t u : Tier) → same_tier t u ≡ true → t ≡ u
same_tier_eq yearly yearly h = refl
same_tier_eq monthly monthly h = refl
same_tier_eq weekly weekly h = refl
same_tier_eq daily daily h = refl
same_tier_eq _ _ h = cc

take_nil : (n : ℕ) → take {A = BackupEntry} n [] ≡ []
take_nil zero = refl
take_nil (suc n) = refl

room_left : (a n : ℕ) → leb (n + 1) a ≡ true → a - n ≡ suc (a - (n + 1))
room_left a n h = ground arith

no_room : (a n : ℕ) → leb (n + 1) a ≡ false → (a - n ≡ 0) × (a - (n + 1) ≡ 0)
no_room a n h = ground arith

unseen : (ret : BackupRetention) (t : Tier) → allowed ret t - seen t no_counts ≡ allowed ret t
unseen ret yearly = omega arith
unseen ret monthly = omega arith
unseen ret weekly = omega arith
unseen ret daily = omega arith

module _ (ret : BackupRetention) (t : Tier) where
  counted :
      (c : Counts) (backups : List BackupEntry)
      → filter_where (in_tier ret t) (apply_counts (λ name. true) ret c backups).1
        ≡ take (allowed ret t - seen t c) (filter_where (in_tier ret t) backups)
  unfolding apply_counts filter_where
  counted c [] = sym (take_nil (allowed ret t - seen t c))
  counted c (b ∷ backups) =
      let u = classify ret b.day in
      let rest = counted (add_one u c) backups in
      let now = seen_add u t c in
      let kept = keeps_seen ret u (add_one u c) in
      elim (Bool-cases (same_tier u t)) [
        | inl here ↦
            let same = same_tier_eq u t here in
            let decided : keeps ret u (add_one u c) ≡ leb (seen t c + 1) (allowed ret t) =
              kept
              ∙ ap (λ x. leb (seen x (add_one u c)) (allowed ret x)) same
              ∙ ap (λ n. leb n (allowed ret t)) (now ∙ rw here refl) in
            elim (Bool-cases (leb (seen t c + 1) (allowed ret t))) [
              | inl room ↦
                  let more : allowed ret t - seen t c ≡ suc (allowed ret t - (seen t c + 1)) =
                    room_left (allowed ret t) (seen t c) room in
                  rw (decided, room, here, more)
                    (ap (λ l. b ∷ l)
                      (rest
                        ∙ ap (λ n. take (allowed ret t - n) (filter_where (in_tier ret t) backups))
                            (now ∙ rw here refl)))
              | inr full ↦
                  let none_left : allowed ret t - seen t c ≡ 0 =
                    (no_room (allowed ret t) (seen t c) full).0 in
                  let none_then : allowed ret t - (seen t c + 1) ≡ 0 =
                    (no_room (allowed ret t) (seen t c) full).1 in
                  rw (decided, full, here, none_left)
                    (rest
                      ∙ ap (λ n. take (allowed ret t - n) (filter_where (in_tier ret t) backups))
                          (now ∙ rw here refl)
                      ∙ ap (λ n. take n (filter_where (in_tier ret t) backups)) none_then)
            ]
        | inr there ↦
            let rest' =
              rest
              ∙ ap (λ n. take (allowed ret t - n) (filter_where (in_tier ret t) backups))
                  (now ∙ rw there refl) in
            elim (Bool-cases (keeps ret u (add_one u c))) [
              | inl stays ↦ rw (stays, there) rest'
              | inr goes ↦ rw (goes, there) rest'
            ]
      ]

  -- When no removal fails, the count limits leave of each tier, yearly, monthly, weekly and daily, its newest
  -- backups, as many as the tier may have, in the order of the list.
  pub apply_counts-take :
      (backups : List BackupEntry)
      → filter_where (in_tier ret t) (apply_counts (λ name. true) ret no_counts backups).1
        ≡ take (allowed ret t) (filter_where (in_tier ret t) backups)
  apply_counts-take backups =
      counted no_counts backups
      ∙ ap (λ n. take n (filter_where (in_tier ret t) backups)) (unseen ret t)
