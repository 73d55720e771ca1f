-- ===== src/Logging/Writer/Keeping.antt =====
-- A rotation that keeps the archive as it is.
use pastebin.Base.{
  ℕ, ◌≡◌, ◌≢◌, ◌⊎◌, inl, inr, refl, ap, ◌∙◌, Bool, true, false, none, some, Bytes, arith,
  if◌then◌else◌,
}
use pastebin.Logging.{forever}
use pastebin.Logging.Directory.{File, Directory, find, remove, put}
use pastebin.Logging.Writer.{
  FileWriter, Os, Policy, done, prune, rotated_name, retained, renamed, do_rotate, close_locked,
  dated_name,
}
use pastebin.Logging.Writer.Files.{
  find-remove_self, find-remove_other, find-put_self, find-put_other, longer_differs, texts_differ,
}
use pastebin.Logging.Writer.Rotating.{rotated_name_behind}

-- A system in which nothing fails.
pub record IsHealthy (os : Os) : Type 0 where
  pub renames : os.renames ≡ true
  pub zips : os.zips ≡ done
  pub removes : (n : Bytes) → os.removes n ≡ true

pub rotated_free :
    (gzip : Bytes → Bytes) (os : Os) (p : Policy) (now : ℕ) (dir : Directory)
    → find (dated_name p.path now) dir ≡ none
    → rotated_name gzip os p now dir ≡ dated_name p.path now
unfolding rotated_name
rotated_free gzip os p now dir h = rw h refl

abbrev pub live : Policy → Bytes → ℕ → File
live p text t = record { name = p.path; text = text; mod_time = t }

abbrev pub moved : Policy → Bytes → File → FileWriter → ℕ → FileWriter
moved p n f w now = record w {
  is_open = false;
  dir = put (record f { name = n }) (remove p.path w.dir);
  size = 0;
  period_start = now;
}

pub do_rotate-moved :
    (gzip : Bytes → Bytes) (os : Os) (p : Policy) (now : ℕ) (w : FileWriter) (f : File)
    → IsHealthy os
    → p.keep ≡ forever
    → find p.path w.dir ≡ some f
    → do_rotate gzip os p now w
      ≡ retained gzip os p now
          (rotated_name gzip os p now w.dir)
          (moved p (rotated_name gzip os p now w.dir) f w now)
unfolding do_rotate
do_rotate-moved gzip os p now w f h k e =
    let n = rotated_name gzip os p now w.dir in
    ap (λ o. renamed gzip os p now n o (close_locked w)) e
    ∙ ap
        (λ (b : Bool).
          if b then retained gzip os p now n (moved p n f w now) else (close_locked w, false))
        h.renames

retained_plain :
    (gzip : Bytes → Bytes) (os : Os) (p : Policy) (now : ℕ) (n : Bytes) (w : FileWriter)
    → p.keep ≡ forever
    → p.compress ≡ false
    → retained gzip os p now n w ≡ (w, true)
unfolding prune
retained_plain gzip os p now n w k c = ground (arith, k, c)

-- A move changes nothing but the two names.
pub moved_others :
    (p : Policy) (name : Bytes) (f : File) (w : FileWriter) (now : ℕ) (n : Bytes)
    → (n ≡ p.path) ⊎ (n ≡ name) ⊎ (find n (moved p name f w now).dir ≡ find n w.dir)
moved_others p name f w now n = elim (texts_differ n p.path) [
  | inl e ↦ inl e
  | inr a ↦ elim (texts_differ n name) [
    | inl e ↦ inr (inl e)
    | inr b ↦ inr (
        inr (
          find-put_other n (record f { name = name }) (remove p.path w.dir) b
          ∙ find-remove_other n p.path w.dir a))
  ]
]

-- Without compression and with every archive kept, a rotation on a system where nothing fails succeeds and loses nothing: if
-- the name of the archive is free, the live file stands under it afterwards, the path is free, and every other file is as
-- it was.
pub do_rotate_keeps :
    (gzip : Bytes → Bytes) (os : Os) (p : Policy) (now : ℕ) (w : FileWriter) (f : File)
    → IsHealthy os
    → p.keep ≡ forever
    → p.compress ≡ false
    → find p.path w.dir ≡ some f
    → find (rotated_name gzip os p now w.dir) w.dir ≡ none
    → ((do_rotate gzip os p now w).1 ≡ true)
      × (find (rotated_name gzip os p now w.dir) (do_rotate gzip os p now w).0.dir
          ≡ some (record f { name = rotated_name gzip os p now w.dir }))
      × (find p.path (do_rotate gzip os p now w).0.dir ≡ none)
      × ((n : Bytes)
          → (n ≡ p.path)
            ⊎ (n ≡ rotated_name gzip os p now w.dir)
            ⊎ (find n (do_rotate gzip os p now w).0.dir ≡ find n w.dir))
do_rotate_keeps gzip os p now w f h k c e free =
    let name = rotated_name gzip os p now w.dir in
    let next = moved p name f w now in
    let result : do_rotate gzip os p now w ≡ (next, true) =
      do_rotate-moved gzip os p now w f h k e ∙ retained_plain gzip os p now name next k c in
    let (behind, shape) = rotated_name_behind gzip os p now w.dir in
    let apart : p.path ≢ name = λ q. longer_differs p.path b'.' behind (q ∙ shape) in
    rw result (
      refl,
      find-put_self (record f { name = name }) (remove p.path w.dir),
      find-put_other p.path (record f { name = name }) (remove p.path w.dir) apart
          ∙ find-remove_self p.path w.dir,
      moved_others p name f w now,
    )
