-- ===== src/Logging/Writer/Outcome.antt =====
-- When a write to a log succeeds.
use pastebin.Base.{
  ℕ, ◌<◌, ◌≡◌, ◌⊎◌, inl, inr, refl, ap, Bool, true, false, some, List, [], ◌∷◌, Bytes, arith,
  if◌then◌else◌, Bool-cases, length,
}
use pastebin.Base.Int.{pos}
use pastebin.Logging.Directory.{File, Directory, find, remove}
use pastebin.Logging.Writer.{
  FileWriter, Os, Policy, remove_all, prune, retained, gzip_and_remove, rotated_name, is_forever,
  is_keep_none, open_file, needs_rotate, do_rotate, with_newline, write_text, then_write, then_open,
  rotated_write, write_line,
}
use pastebin.Logging.Writer.Files.{find-put_self}
use pastebin.Logging.Writer.Keeping.{IsHealthy}
use pastebin.Logging.Writer.Sizes.{IsOpened, Mirrors, Fits, open_file-IsOpened, write_line-Fits}

-- A system in which nothing fails and every write is whole.
pub record IsReliable (os : Os) : Type 0 where
  pub opens : os.opens ≡ true
  pub reopens : os.reopens ≡ true
  pub keeps : IsHealthy os
  pub takes : (n : ℕ) → os.takes n ≡ n

remove_all_done :
    (removes : Bytes → Bool) (names : List Bytes) (dir : Directory)
    → ((n : Bytes) → removes n ≡ true)
    → (remove_all removes names dir).1 ≡ true
unfolding remove_all
remove_all_done removes [] dir h = refl
remove_all_done removes (n ∷ names) dir h =
    rw (h n) (remove_all_done removes names (remove n dir) h)

module _ (gzip : Bytes → Bytes) (os : Os) (p : Policy) (now : ℕ) (good : IsReliable os) where
  prune_done : (w : FileWriter) → (prune gzip os p now w).1 ≡ true
  unfolding prune
  prune_done w = elim (Bool-cases (is_forever p.keep)) [
    | inl e ↦ rw e refl
    | inr e ↦ rw e (remove_all_done os.removes _ w.dir good.keeps.removes)
  ]

  retained_done :
      (n : Bytes) (w : FileWriter) (f : File)
      → find n w.dir ≡ some f
      → (retained gzip os p now n w).1 ≡ true
  unfolding gzip_and_remove
  retained_done n w f e = elim (Bool-cases (is_keep_none p.keep)) [
    | inl k ↦ rw (k, good.keeps.removes n) refl
    | inr k ↦ elim (Bool-cases p.compress) [
      | inr c ↦ simp (k, c) (prune_done w)
      | inl c ↦ simp (k, c, good.keeps.zips, e, good.keeps.removes n) (prune_done _)
    ]
  ]

  do_rotate_done :
      (w : FileWriter) (f : File)
      → find p.path w.dir ≡ some f
      → (do_rotate gzip os p now w).1 ≡ true
  unfolding do_rotate
  do_rotate_done w f e =
      let n = rotated_name gzip os p now w.dir in
      let g : File = record f { name = n } in
      simp (e, good.keeps.renames) (retained_done n _ g (find-put_self g (remove p.path w.dir)))

  write_text_done : (line : Bytes) (w : FileWriter) → (write_text gzip os p now line w).1 ≡ true
  unfolding write_text
  write_text_done line w = rw (good.takes (length line)) (ground arith)

  open_done :
      (opens : Bool) (w : FileWriter) → opens ≡ true → (open_file gzip os p opens now w).1 ≡ true
  unfolding open_file
  open_done opens w e = ground (arith, e)

  write_opened_done :
      (line : Bytes) (w : FileWriter) (b : Bool)
      → IsOpened p w
      → (then_write gzip os p now line
          (if b then then_open gzip os p now (do_rotate gzip os p now w) else (w, true))).1
        ≡ true
  write_opened_done line w false o = write_text_done line w
  write_opened_done line w true (held, (f, found, name, size)) =
      rotated (do_rotate gzip os p now w) (do_rotate_done w f found)
    where
      written : (r : FileWriter × Bool) → r.1 ≡ true → (then_write gzip os p now line r).1 ≡ true
      written (x, true) e = write_text_done line x
      written (x, false) e = absurd (cc)

      rotated :
          (r : FileWriter × Bool)
          → r.1 ≡ true
          → (then_write gzip os p now line (then_open gzip os p now r)).1 ≡ true
      rotated (x, true) e =
          written (open_file gzip os p os.reopens now x) (open_done os.reopens x good.reopens)
      rotated (x, false) e = absurd (cc)

  write_ready_done :
      (line : Bytes) (r : FileWriter × Bool) (w : FileWriter)
      → Mirrors p w
      → open_file gzip os p os.opens now w ≡ r
      → (rotated_write gzip os p now line r).1 ≡ true
  write_ready_done line (x, false) w m e =
      let opened_now = open_done os.opens w good.opens in
      let refused : (open_file gzip os p os.opens now w).1 ≡ false = ap (λ r. r.1) e in absurd (cc)
  write_ready_done line (x, true) w m e =
      write_opened_done line x (needs_rotate gzip os p (length line) now x)
        (open_file-IsOpened gzip os p os.opens now w x m e)

  -- Nothing but the system makes a write fail.
  pub write_line_done :
      (line : Bytes) (w : FileWriter) → Mirrors p w → (write_line gzip os p now line w).1 ≡ true
  unfolding write_line
  write_line_done line w m =
      write_ready_done (with_newline line) (open_file gzip os p os.opens now w) w m refl

-- With a limit, and a size that is the file's whenever there is a handle, a write leaves a file which ends with
-- the line and its newline, and which is within the limit or holds this line alone; or it tells that it
-- failed, which it does only if a call of the system failed or wrote a part of the line.
pub write_line_outcome :
    (gzip : Bytes → Bytes) (os : Os) (p : Policy) (now limit : ℕ) (line : Bytes) (w : FileWriter)
    → p.rotate.max_bytes ≡ pos limit
    → 0 < limit
    → Mirrors p w
    → (((write_line gzip os p now line w).1 ≡ true)
        × Fits p limit (with_newline line) (write_line gzip os p now line w).0)
      ⊎ (((write_line gzip os p now line w).1 ≡ false) × (¬ IsReliable os))
write_line_outcome gzip os p now limit line w e some_limit m =
    elim (Bool-cases (write_line gzip os p now line w).1) [
      | inl t ↦
          let v = (write_line gzip os p now line w).0 in
          inl (t, write_line-Fits gzip os p now limit line w v e some_limit m (ap (λ b. (v, b)) t))
      | inr f ↦ inr (f, λ good. let t = write_line_done gzip os p now good line w m in cc)
    ]
