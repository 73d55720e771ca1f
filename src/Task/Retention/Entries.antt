-- ===== src/Task/Retention/Entries.antt =====
-- What the entries of `applyRetention` have of the files of the directory.
use pastebin.Base.{
  ℕ, ◌≡◌, refl, ap, ◌∙◌, true, List, [], ◌∷◌, Bytes, leb, Option, some, none, is_some, inl, inr,
  sym, Bool-cases, All, ◌≢◌,
}
use pastebin.Base.Sort.{order_desc, insert_desc, insert_desc-keeps, All-order_desc}
use mathlib.Core.List.Memᴰ
use mathlib.Core.List.{Memᴰ}
use pastebin.Task.SizeCap.{BackupFile}
use pastebin.Task.Retention.{BackupEntry, parse_date, dated, with_day}

-- No two files have one name.
abbrev pub Distinct : List BackupFile → Type 0
Distinct [] = Unit
Distinct (f ∷ files) = All (λ g. f.name ≢ g.name) files × Distinct files

abbrev pub Apart : List BackupEntry → Type 0
Apart [] = Unit
Apart (b ∷ entries) = All (λ e. b.name ≢ e.name) entries × Apart entries

-- Every file has a date.
abbrev pub HasDates : List BackupFile → Type 0
HasDates [] = Unit
HasDates (f ∷ files) = (is_some (parse_date f.date) ≡ true) × HasDates files

-- The entry is that of a file of the list.
abbrev pub Stems : List BackupFile → BackupEntry → Type 0
Stems files b =
    (f : BackupFile) × Memᴰ f files × (f.name ≡ b.name) × (parse_date f.date ≡ some b.day)

with_day-Stems :
    (f : BackupFile) (files : List BackupFile) (o : Option ℕ) (rest : List BackupEntry)
    → parse_date f.date ≡ o
    → All (Stems (f ∷ files)) rest
    → All (Stems (f ∷ files)) (with_day f o rest)
with_day-Stems f files none rest e all = all
with_day-Stems f files (some day) rest e all = ((f, Memᴰ.head refl, refl, e), all)

Stems-more :
    (f : BackupFile) (files : List BackupFile) (rest : List BackupEntry)
    → All (Stems files) rest
    → All (Stems (f ∷ files)) rest
Stems-more f files [] all = tt
Stems-more f files (b ∷ rest) ((g, m, n, d), all) =
    ((g, Memᴰ.tail m, n, d), Stems-more f files rest all)

pub dated-Stems : (files : List BackupFile) → All (Stems files) (dated files)
unfolding dated
dated-Stems [] = tt
dated-Stems (f ∷ files) =
    with_day-Stems f files (parse_date f.date) (dated files) refl
      (Stems-more f files (dated files) (dated-Stems files))

with_day-All :
    (n : Bytes) (f : BackupFile) (o : Option ℕ) (rest : List BackupEntry)
    → n ≢ f.name
    → All (λ e. n ≢ e.name) rest
    → All (λ e. n ≢ e.name) (with_day f o rest)
with_day-All n f none rest h all = all
with_day-All n f (some day) rest h all = (h, all)

dated-All :
    (n : Bytes) (files : List BackupFile)
    → All (λ g. n ≢ g.name) files
    → All (λ e. n ≢ e.name) (dated files)
unfolding dated
dated-All n [] all = tt
dated-All n (f ∷ files) (h, all) =
    with_day-All n f (parse_date f.date) (dated files) h (dated-All n files all)

with_day-Apart :
    (f : BackupFile) (o : Option ℕ) (rest : List BackupEntry)
    → All (λ e. f.name ≢ e.name) rest
    → Apart rest
    → Apart (with_day f o rest)
with_day-Apart f none rest all h = h
with_day-Apart f (some day) rest all h = (all, h)

pub dated-Apart : (files : List BackupFile) → Distinct files → Apart (dated files)
unfolding dated
dated-Apart [] h = tt
dated-Apart (f ∷ files) (all, h) =
    with_day-Apart f (parse_date f.date) (dated files) (dated-All f.name files all)
      (dated-Apart files h)

insert-Apart :
    (b : BackupEntry) (entries : List BackupEntry)
    → All (λ e. b.name ≢ e.name) entries
    → Apart entries
    → Apart (insert_desc (λ e. e.day) b entries)
unfolding insert_desc
insert-Apart b [] all h = (tt, tt)
insert-Apart b (e ∷ entries) (n, all) (low, h) = elim (Bool-cases (leb e.day b.day)) [
  | inl le ↦ rw le ((n, all), (low, h))
  | inr le ↦ rw le (
    insert_desc-keeps (λ x. x.day) (λ x. e.name ≢ x.name) b entries (λ q. n (sym q)) low,
    insert-Apart b entries all h,
  )
]

pub order-Apart :
    (entries : List BackupEntry) → Apart entries → Apart (order_desc (λ e. e.day) entries)
unfolding order_desc
order-Apart [] h = tt
order-Apart (b ∷ entries) (all, h) =
    insert-Apart b (order_desc (λ e. e.day) entries)
      (All-order_desc (λ e. e.day) (λ e. b.name ≢ e.name) entries all) (order-Apart entries h)

-- The entry of a file with a date.
pub dated-Mem :
    (f : BackupFile) (files : List BackupFile)
    → Memᴰ f files
    → HasDates files
    → (b : BackupEntry) × Memᴰ b (dated files) × (parse_date f.date ≡ some b.day)
unfolding dated
dated-Mem f [] m h = absurd (Memᴰ.not-nil m)
dated-Mem f (g ∷ files) (Memᴰ.head e) (d, h) =
    let (b, m, p) = first_dated g (parse_date g.date) (dated files) refl d in
    (b, m, ap (λ x. parse_date x.date) e ∙ p)
  where
    first_dated :
        (g : BackupFile) (o : Option ℕ) (rest : List BackupEntry)
        → parse_date g.date ≡ o
        → is_some o ≡ true
        → (b : BackupEntry) × Memᴰ b (with_day g o rest) × (parse_date g.date ≡ some b.day)
    first_dated g none rest e t = absurd (cc)
    first_dated g (some day) rest e t = (record { name = g.name; day = day }, Memᴰ.head refl, e)
dated-Mem f (g ∷ files) (Memᴰ.tail m) (d, h) =
    let (b, n, p) = dated-Mem f files m h in (b, later_dated (parse_date g.date) n, p)
  where
    later_dated :
        (o : Option ℕ) {b : BackupEntry}
        → Memᴰ b (dated files)
        → Memᴰ b (with_day g o (dated files))
    later_dated none n = n
    later_dated (some day) n = Memᴰ.tail n
