-- ===== src/Logging/Writer/Sizes.antt =====
-- The size of the live file.
use mathlib.Core.Path.{subst}
use pastebin.Base.{
  ℕ, ◌+◌, ◌≤◌, ◌<◌, ◌≡◌, ◌⊎◌, inl, inr, refl, sym, ap, ◌∙◌, Bool, true, false, ◌&&◌, Option, none,
  some, [], ◌∷◌, ◌++◌, Bytes, arith, if◌then◌else◌, if_rule, ltb, ◌==◌, Bool-cases, take, length,
  length-append, take_all,
}
use pastebin.Base.Int.{pos, is_positive, pos_part}
use pastebin.Logging.Directory.{File, find, put}
use pastebin.Logging.Writer.{
  FileWriter, Os, Policy, opened, open_file, needs_rotate, do_rotate, close_locked, with_newline,
  appended, write_text, then_write, then_open, rotated_write, write_line, crosses,
}
use pastebin.Logging.Writer.Files.{find-put_self, find_name}
use pastebin.Logging.Writer.Rotating.{Frees, do_rotate-Frees, not_done}

-- The writer has a handle, and its size is that of the file.
abbrev pub IsOpened : Policy → FileWriter → Type 0
IsOpened p w =
    (w.is_open ≡ true)
    × ((f : File) × (find p.path w.dir ≡ some f) × (f.name ≡ p.path) × (length f.text ≡ w.size))

abbrev pub Mirrors : Policy → FileWriter → Type 0
Mirrors p w = (w.is_open ≡ false) ⊎ IsOpened p w

-- A file that was just opened on a free name is empty.
opened-IsOpened :
    (gzip : Bytes → Bytes) (os : Os) (p : Policy) (now : ℕ) (o : Option File) (w : FileWriter)
    → find p.path w.dir ≡ o
    → IsOpened p (opened gzip os p now o w)
opened-IsOpened gzip os p now none w h =
    let fresh : File = record { name = p.path; text = []; mod_time = now } in
    (refl, (fresh, find-put_self fresh w.dir, refl, refl))
opened-IsOpened gzip os p now (some f) w h = (refl, (f, h, find_name p.path w.dir f h, refl))

pub open_file-IsOpened :
    (gzip : Bytes → Bytes) (os : Os) (p : Policy) (opens : Bool) (now : ℕ) (w v : FileWriter)
    → Mirrors p w
    → open_file gzip os p opens now w ≡ (v, true)
    → IsOpened p v
unfolding open_file
open_file-IsOpened gzip os p opens now w v m h = elim (Bool-cases w.is_open) [
  | inl o ↦ elim m [
    | inl closed ↦ absurd (cc)
    | inr held ↦ let same : w ≡ v = ground (arith, h, o) in subst (IsOpened p) same held
  ]
  | inr c ↦ elim (Bool-cases opens) [
    | inl e ↦
        let same : opened gzip os p now (find p.path w.dir) w ≡ v = ground (arith, h, c, e) in
        subst (IsOpened p) same (opened-IsOpened gzip os p now (find p.path w.dir) w refl)
    | inr e ↦ absurd (ground (arith, h, c, e))
  ]
]

-- The file at the path ends with the text, and it is within the limit or it is the text.
abbrev pub Fits : Policy → ℕ → Bytes → FileWriter → Type 0
Fits p limit line w =
    (f : File) × (old : Bytes) × (find p.path w.dir ≡ some f)
    × (f.text ≡ old ++ line)
    × ((length f.text ≤ limit) ⊎ (f.text ≡ line))

write_dir :
    (gzip : Bytes → Bytes) (os : Os) (p : Policy) (now : ℕ) (line : Bytes) (w : FileWriter)
    → (write_text gzip os p now line w).0.dir
      ≡ appended now (take (os.takes (length line)) line) (find p.path w.dir) w.dir
unfolding write_text
write_dir gzip os p now line w =
    let n = os.takes (length line) in
    let next : FileWriter = record w {
      size = w.size + n;
      dir = appended now (take n line) (find p.path w.dir) w.dir;
    } in
    if_rule (λ (x : FileWriter). x.dir ≡ next.dir) p.hold_open next (close_locked next) (λ t. refl)
      (λ t. refl)

write_whole :
    (gzip : Bytes → Bytes) (os : Os) (p : Policy) (now : ℕ) (line : Bytes) (w : FileWriter)
    → (write_text gzip os p now line w).1 ≡ true
    → length line ≤ os.takes (length line)
unfolding write_text
write_whole gzip os p now line w h = ground (arith, h)

-- Behind a write that succeeds, the line stands at the end of the file.
written :
    (gzip : Bytes → Bytes) (os : Os) (p : Policy) (now : ℕ) (line : Bytes) (w v : FileWriter)
    (f : File)
    → find p.path w.dir ≡ some f
    → f.name ≡ p.path
    → write_text gzip os p now line w ≡ (v, true)
    → (g : File) × (find p.path v.dir ≡ some g) × (g.name ≡ p.path) × (g.text ≡ f.text ++ line)
unfolding write_text
written gzip os p now line w v f h e r =
    let n = os.takes (length line) in
    let whole : take n line ≡ line =
      take_all line n (write_whole gzip os p now line w (ap (λ x. x.1) r)) in
    let g : File = record f { text = f.text ++ line; mod_time = now } in
    let dir : v.dir ≡ put g w.dir =
      ap (λ (x : FileWriter × Bool). x.0.dir) (sym r)
      ∙ write_dir gzip os p now line w
      ∙ rw (h, whole) refl in
    (g, rw dir (subst (λ m. find m (put g w.dir) ≡ some g) e (find-put_self g w.dir)), e, refl)

empty_of : (s : Bytes) → length s ≡ 0 → s ≡ []
empty_of [] h = refl
empty_of (c ∷ s) h = absurd (omega arith)

rotates :
    {zero_size large_size over : Bool} (rest : Bool)
    → zero_size ≡ false
    → large_size ≡ true
    → over ≡ true
    → ¬ ((if zero_size then false else if large_size && over then true else rest) ≡ false)
rotates rest a b c h = ground (arith, a, b, c, h)

module _ (gzip : Bytes → Bytes) (os : Os) (p : Policy) (now : ℕ) where
  reopened_empty :
      (opens : Bool) (w v : FileWriter)
      → Frees p (w, true)
      → open_file gzip os p opens now w ≡ (v, true)
      → (f : File) × (find p.path v.dir ≡ some f) × (f.name ≡ p.path) × (f.text ≡ [])
  unfolding open_file
  reopened_empty opens w v (closed, free) h = elim (Bool-cases opens) [
    | inr e ↦ absurd (ground (arith, h, closed, e))
    | inl e ↦
        let fresh : File = record { name = p.path; text = []; mod_time = now } in
        let same : opened gzip os p now (find p.path w.dir) w ≡ v = ground (arith, h, closed, e) in
        let made : opened gzip os p now none w ≡ v =
          ap (λ o. opened gzip os p now o w) (sym free) ∙ same in
        (
          fresh,
          ap (λ (x : FileWriter). find p.path x.dir) (sym made) ∙ find-put_self fresh w.dir,
          refl,
          refl,
        )
  ]

  write_fresh :
      (limit : ℕ) (line : Bytes) (r : FileWriter × Bool) (w v : FileWriter)
      → Frees p (w, true)
      → open_file gzip os p os.reopens now w ≡ r
      → then_write gzip os p now line r ≡ (v, true)
      → Fits p limit line v
  write_fresh limit line (x, false) w v free e h = absurd (not_done x v h)
  write_fresh limit line (x, true) w v free e h =
      let (f, found, name, empty) = reopened_empty os.reopens w x free e in
      let (g, there, named, text) = written gzip os p now line x v f found name h in
      let only : g.text ≡ line = text ∙ ap (λ t. t ++ line) empty in (g, [], there, only, inr only)

  write_rotated :
      (limit : ℕ) (line : Bytes) (r : FileWriter × Bool) (w v : FileWriter)
      → do_rotate gzip os p now w ≡ r
      → then_write gzip os p now line (then_open gzip os p now r) ≡ (v, true)
      → Fits p limit line v
  write_rotated limit line (x, false) w v e h = absurd (not_done x v h)
  write_rotated limit line (x, true) w v e h =
      write_fresh limit line (open_file gzip os p os.reopens now x) x v
        (do_rotate-Frees gzip os p now w x e) refl h

  -- A rotation that is not needed leaves room, or the file is empty.
  room :
      (limit n : ℕ) (w : FileWriter)
      → p.rotate.max_bytes ≡ pos limit
      → 0 < limit
      → needs_rotate gzip os p n now w ≡ false
      → (w.size ≡ 0) ⊎ (w.size + n ≤ limit)
  unfolding needs_rotate
  room limit n w e some_limit h =
      let positive : is_positive (pos limit) ≡ true = ground arith in
      let bound : pos_part p.rotate.max_bytes ≡ limit = ap pos_part e in
      let on : is_positive p.rotate.max_bytes ≡ true = ap is_positive e ∙ positive in
      elim (Bool-cases (w.size == 0)) [
        | inl z ↦ inl (ground arith)
        | inr z ↦ elim (Bool-cases (ltb (pos_part p.rotate.max_bytes) (w.size + n))) [
          | inr small ↦ inr (ground (arith, bound))
          | inl large ↦ absurd (rotates (crosses gzip os p w.period_start now) z on large h)
        ]
      ]

  write_kept :
      (limit : ℕ) (line : Bytes) (w v : FileWriter)
      → IsOpened p w
      → (w.size ≡ 0) ⊎ (w.size + length line ≤ limit)
      → write_text gzip os p now line w ≡ (v, true)
      → Fits p limit line v
  write_kept limit line w v (held, (f, found, name, size)) fits h =
      let (g, there, named, text) = written gzip os p now line w v f found name h in
      let total : length g.text ≡ length f.text + length line =
        ap (length {0}) text ∙ length-append f.text line in
      (
        g,
        f.text,
        there,
        text,
        elim fits [
          | inr le ↦ inl (omega arith)
          | inl z ↦
              let empty : f.text ≡ [] = empty_of f.text (omega arith) in
              inr (text ∙ ap (λ t. t ++ line) empty)
        ],
      )

  write_opened :
      (limit : ℕ) (line : Bytes) (w v : FileWriter) (b : Bool)
      → p.rotate.max_bytes ≡ pos limit
      → 0 < limit
      → IsOpened p w
      → needs_rotate gzip os p (length line) now w ≡ b
      → then_write gzip os p now line
          (if b then then_open gzip os p now (do_rotate gzip os p now w) else (w, true))
        ≡ (v, true)
      → Fits p limit line v
  write_opened limit line w v true e some_limit o b h =
      write_rotated limit line (do_rotate gzip os p now w) w v refl h
  write_opened limit line w v false e some_limit o b h =
      write_kept limit line w v o (room limit (length line) w e some_limit b) h

  write_ready :
      (limit : ℕ) (line : Bytes) (r : FileWriter × Bool) (w v : FileWriter)
      → p.rotate.max_bytes ≡ pos limit
      → 0 < limit
      → Mirrors p w
      → open_file gzip os p os.opens now w ≡ r
      → rotated_write gzip os p now line r ≡ (v, true)
      → Fits p limit line v
  write_ready limit line (x, false) w v e some_limit m o h = absurd (not_done x v h)
  write_ready limit line (x, true) w v e some_limit m o h =
      write_opened limit line x v (needs_rotate gzip os p (length line) now x) e some_limit
        (open_file-IsOpened gzip os p os.opens now w x m o) refl h

-- With a limit, and a size that is the file's whenever there is a handle, a write that succeeds leaves a file
-- which ends with the line and its newline, and which is within the limit or holds this line alone.
pub write_line-Fits :
    (gzip : Bytes → Bytes) (os : Os) (p : Policy) (now limit : ℕ) (line : Bytes) (w v : FileWriter)
    → p.rotate.max_bytes ≡ pos limit
    → 0 < limit
    → Mirrors p w
    → write_line gzip os p now line w ≡ (v, true)
    → Fits p limit (with_newline line) v
unfolding write_line
write_line-Fits gzip os p now limit line w v e some_limit m h =
    write_ready gzip os p now limit (with_newline line) (open_file gzip os p os.opens now w) w v e
      some_limit m refl h
