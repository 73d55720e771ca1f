-- ===== src/Logging/Writer/Rotating.antt =====
-- A rotation that succeeds leaves the name of the live file free.
use mathlib.Core.Path.{subst}
use mathlib.Core.List.{append_assoc}
use pastebin.Base.{
  ℕ, ◌≡◌, ◌≢◌, inl, inr, refl, ap, ◌∙◌, Bool, true, false, Option, none, some, ◌∷◌, ◌++◌, Bytes,
  codes, if◌then◌else◌, if_rule, Bool-cases, is_some,
}
use pastebin.Base.Sort.{order_desc}
use pastebin.Logging.Periods.{day_number, date_text, second_of, clock_text}
use pastebin.Logging.Directory.{File, Directory, find, remove, put}
use pastebin.Logging.Writer.{
  FileWriter, Os, Policy, Zipping, untouched, broken, done, remove_all, names_under, doomed, prune,
  rotated_name, zip_outcome, gzip_and_remove, then_prune, retained, renamed, do_rotate,
  close_locked, is_forever, is_keep_none,
}
use pastebin.Logging.Writer.Files.{
  find-remove_self, find-put_other, find-remove-none, find-remove_all-none, longer_differs,
}

-- A rotated file is called after the path.
pub rotated_name_behind :
    (gzip : Bytes → Bytes) (os : Os) (p : Policy) (now : ℕ) (dir : Directory)
    → (rest : Bytes) × (rotated_name gzip os p now dir ≡ p.path ++ b'.' ∷ rest)
unfolding rotated_name
rotated_name_behind gzip os p now dir =
    let dated = p.path ++ b'.' ∷ date_text (day_number now) in
    if_rule (λ (n : Bytes). (rest : Bytes) × (n ≡ p.path ++ b'.' ∷ rest)) (is_some (find dated dir))
      (dated ++ b'_' ∷ clock_text (second_of now)) dated
      (λ t. (
        date_text (day_number now) ++ b'_' ∷ clock_text (second_of now),
        append_assoc p.path (b'.' ∷ date_text (day_number now)) (b'_' ∷ clock_text (second_of now)),
      ))
      (λ t. (date_text (day_number now), refl))

-- Behind each step the live name is free, if the step succeeds.
abbrev pub Frees : Policy → FileWriter × Bool → Type 0
Frees p r = (r.0.is_open ≡ false) × (find p.path r.0.dir ≡ none)

prune-Frees :
    (gzip : Bytes → Bytes) (os : Os) (p : Policy) (now : ℕ) (w : FileWriter)
    → Frees p (w, true)
    → Frees p (prune gzip os p now w)
unfolding prune
prune-Frees gzip os p now w (c, h) =
    let names =
      doomed p.keep now 0
        (order_desc (λ f. f.mod_time) (names_under (p.path ++ codes ".") w.dir)) in
    if_rule (Frees p) (is_forever p.keep) (w, true)
      (
        record w { dir = (remove_all os.removes names w.dir).0 },
        (remove_all os.removes names w.dir).1,
      )
      (λ t. (c, h)) (λ t. (c, find-remove_all-none os.removes names p.path w.dir h))

zip-Frees :
    (gzip : Bytes → Bytes) (os : Os) (p : Policy) (now : ℕ) (n : Bytes) (z : Zipping)
    (o : Option File) (w : FileWriter)
    → p.path ≢ n ++ codes ".gz"
    → Frees p (w, true)
    → Frees p (zip_outcome gzip os p now n z o w)
zip-Frees gzip os p now n untouched o w d h = h
zip-Frees gzip os p now n broken o w d (c, h) =
    (c, find-remove-none p.path (n ++ codes ".gz") w.dir h)
zip-Frees gzip os p now n done none w d h = h
zip-Frees gzip os p now n done (some f) w d (c, h) =
    let target : File = record { name = n ++ codes ".gz"; text = gzip f.text; mod_time = now } in
    let free = find-put_other p.path target w.dir d ∙ h in
    if_rule (Frees p) (os.removes n) (record w { dir = remove n (put target w.dir) }, true)
      (record w { dir = put target w.dir }, false)
      (λ t. (c, find-remove-none p.path n (put target w.dir) free)) (λ t. (c, free))

then_prune-Frees :
    (gzip : Bytes → Bytes) (os : Os) (p : Policy) (now : ℕ) (r : FileWriter × Bool)
    → Frees p r
    → Frees p (then_prune gzip os p now r)
then_prune-Frees gzip os p now (w, true) h = prune-Frees gzip os p now w h
then_prune-Frees gzip os p now (w, false) h = h

retained-Frees :
    (gzip : Bytes → Bytes) (os : Os) (p : Policy) (now : ℕ) (n : Bytes) (w : FileWriter)
    → p.path ≢ n ++ codes ".gz"
    → Frees p (w, true)
    → Frees p (retained gzip os p now n w)
unfolding gzip_and_remove
retained-Frees gzip os p now n w d (c, h) =
    if_rule (Frees p) (is_keep_none p.keep)
      (if os.removes n then (record w { dir = remove n w.dir }, true) else (w, false))
      (if p.compress
        then then_prune gzip os p now (gzip_and_remove gzip os p now n w)
        else prune gzip os p now w)
      (λ t.
        if_rule (Frees p) (os.removes n) (record w { dir = remove n w.dir }, true) (w, false)
          (λ u. (c, find-remove-none p.path n w.dir h)) (λ u. (c, h)))
      (λ t.
        if_rule (Frees p) p.compress (then_prune gzip os p now (gzip_and_remove gzip os p now n w))
          (prune gzip os p now w)
          (λ u.
            then_prune-Frees gzip os p now (gzip_and_remove gzip os p now n w)
              (zip-Frees gzip os p now n os.zips (find n w.dir) w d (c, h)))
          (λ u. prune-Frees gzip os p now w (c, h)))

pub not_done : (w v : FileWriter) → ¬ (◌≡◌ {A = FileWriter × Bool} (w, false) (v, true))
not_done w v e = cc

renamed-Frees :
    (gzip : Bytes → Bytes) (os : Os) (p : Policy) (now : ℕ) (n rest : Bytes) (o : Option File)
    (w v : FileWriter)
    → n ≡ p.path ++ b'.' ∷ rest
    → w.is_open ≡ false
    → renamed gzip os p now n o w ≡ (v, true)
    → Frees p (v, true)
renamed-Frees gzip os p now n rest none w v e c h = absurd (cc)
renamed-Frees gzip os p now n rest (some f) w v e c h =
    let moved : FileWriter = record w {
      dir = put (record f { name = n }) (remove p.path w.dir);
      size = 0;
      period_start = now;
    } in
    let after =
      λ (b : Bool). (if b then retained gzip os p now n moved else (w, false)) ≡ (v, true) in
    let apart : p.path ≢ n = λ q. longer_differs p.path b'.' rest (q ∙ e) in
    let apart_gz : p.path ≢ n ++ codes ".gz" = λ q.
      longer_differs p.path b'.' (rest ++ codes ".gz")
        (q ∙ ap (λ t. t ++ codes ".gz") e ∙ append_assoc p.path (b'.' ∷ rest) (codes ".gz")) in
    let free : find p.path moved.dir ≡ none =
      find-put_other p.path (record f { name = n }) (remove p.path w.dir) apart
      ∙ find-remove_self p.path w.dir in
    elim (Bool-cases os.renames) [
      | inr r ↦ absurd (not_done w v (subst after r h))
      | inl r ↦
          subst (Frees p) (subst after r h)
            (retained-Frees gzip os p now n moved apart_gz (c, free))
    ]

pub do_rotate-Frees :
    (gzip : Bytes → Bytes) (os : Os) (p : Policy) (now : ℕ) (w v : FileWriter)
    → do_rotate gzip os p now w ≡ (v, true)
    → Frees p (v, true)
unfolding do_rotate
do_rotate-Frees gzip os p now w v h =
    let (rest, e) = rotated_name_behind gzip os p now w.dir in
    renamed-Frees gzip os p now (rotated_name gzip os p now w.dir) rest (find p.path w.dir)
      (close_locked w) v e refl h
