-- ===== src/Logging/Writer/Archives.antt =====
-- What becomes of the archives in a rotation that compresses.
use mathlib.Core.Path.{subst}
use mathlib.Core.List.{append_assoc}
use pastebin.Base.{
  ℕ, ◌≡◌, ◌≢◌, ◌⊎◌, inl, inr, refl, sym, ap, ◌∙◌, true, Option, none, some, ◌∷◌, ◌++◌, Bytes, codes,
  arith,
}
use pastebin.Logging.{forever}
use pastebin.Logging.Periods.{day_number, date_text}
use pastebin.Logging.Directory.{File, Directory, find, remove, put}
use pastebin.Logging.Writer.{
  FileWriter, Os, Policy, prune, gzip_and_remove, retained, do_rotate, dated_name,
}
use pastebin.Logging.Writer.Files.{
  find-remove_self, find-remove_other, find-put_self, find-put_other, longer_differs, texts_differ,
}
use pastebin.Logging.Writer.Keeping.{
  IsHealthy, rotated_free, live, moved, do_rotate-moved, moved_others,
}

abbrev pub zipped_name : Bytes → ℕ → Bytes
zipped_name path now = dated_name path now ++ codes ".gz"

retained_zipped :
    (gzip : Bytes → Bytes) (os : Os) (p : Policy) (now : ℕ) (n : Bytes) (w : FileWriter) (f : File)
    → IsHealthy os
    → p.keep ≡ forever
    → p.compress ≡ true
    → find n w.dir ≡ some f
    → retained gzip os p now n w ≡ (
      record w {
        dir =
            remove n
              (put (record { name = n ++ codes ".gz"; text = gzip f.text; mod_time = now }) w.dir);
      },
      true,
    )
unfolding prune gzip_and_remove
retained_zipped gzip os p now n w f h k c e = ground (arith, k, c, e, h.zips, h.removes n)

-- The archives behind a rotation that compresses: the new one stands under the name of its day.
abbrev pub Zips : (Bytes → Bytes) → Policy → ℕ → Bytes → Directory → Directory → Type 0
Zips gzip p now text before after =
    (find p.path after ≡ none)
    × (find (dated_name p.path now) after ≡ none)
    × (find (zipped_name p.path now) after
        ≡ some (record { name = zipped_name p.path now; text = gzip text; mod_time = now }))
    × ((n : Bytes)
        → (n ≡ p.path)
          ⊎ (n ≡ dated_name p.path now)
          ⊎ (n ≡ zipped_name p.path now)
          ⊎ (find n after ≡ find n before))

do_rotate-Zips :
    (gzip : Bytes → Bytes) (os : Os) (p : Policy) (now : ℕ) (w : FileWriter) (f : File)
    → IsHealthy os
    → p.keep ≡ forever
    → p.compress ≡ true
    → find p.path w.dir ≡ some f
    → find (dated_name p.path now) w.dir ≡ none
    → ((do_rotate gzip os p now w).1 ≡ true)
      × Zips gzip p now f.text w.dir (do_rotate gzip os p now w).0.dir
do_rotate-Zips gzip os p now w f h k c e free =
    let name = dated_name p.path now in
    let next = moved p name f w now in
    let dated : File = record f { name = name } in
    let zip : File = record { name = name ++ codes ".gz"; text = gzip f.text; mod_time = now } in
    let there : find name next.dir ≡ some dated = find-put_self dated (remove p.path w.dir) in
    let result : do_rotate gzip os p now w
        ≡ (record next { dir = remove name (put zip next.dir) }, true) =
      do_rotate-moved gzip os p now w f h k e
      ∙ ap (λ m. retained gzip os p now m (moved p m f w now))
          (rotated_free gzip os p now w.dir free)
      ∙ retained_zipped gzip os p now name next dated h k c there in
    let apart : p.path ≢ name = longer_differs p.path b'.' (date_text (day_number now)) in
    let apart_zip : p.path ≢ zip.name = λ q.
      longer_differs p.path b'.' (date_text (day_number now) ++ codes ".gz")
        (q ∙ append_assoc p.path (b'.' ∷ date_text (day_number now)) (codes ".gz")) in
    let named : zip.name ≢ name = λ q. longer_differs name b'.' (codes "gz") (sym q) in
    rw result (
      refl,
      (
        find-remove_other p.path name (put zip next.dir) apart
            ∙ find-put_other p.path zip next.dir apart_zip
            ∙ find-put_other p.path dated (remove p.path w.dir) apart
            ∙ find-remove_self p.path w.dir,
        find-remove_self name (put zip next.dir),
        find-remove_other zip.name name (put zip next.dir) named ∙ find-put_self zip next.dir,
        λ n. elim (texts_differ n name) [
          | inl b ↦ inr (inl b)
          | inr b ↦ elim (texts_differ n zip.name) [
            | inl z ↦ inr (inr (inl z))
            | inr z ↦ elim (moved_others p name f w now n) [
              | inl a ↦ inl a
              | inr (inl d) ↦ inr (inl d)
              | inr (inr same) ↦ inr (
                  inr (
                    inr (
                      find-remove_other n name (put zip next.dir) b
                      ∙ find-put_other n zip next.dir z
                      ∙ same)))
            ]
          ]
        ],
      ),
    )

-- The state in which a new live file has been written since.
abbrev pub with_live : Policy → Bytes → ℕ → FileWriter → FileWriter
with_live p text t w = record w { dir = put (live p text t) w.dir }

with_live-dated :
    (p : Policy) (text : Bytes) (t now : ℕ) (w : FileWriter)
    → find (dated_name p.path now) w.dir ≡ none
    → find (dated_name p.path now) (with_live p text t w).dir ≡ none
with_live-dated p text t now w h =
    find-put_other (dated_name p.path now) (live p text t) w.dir
      (λ q. longer_differs p.path b'.' (date_text (day_number now)) (sym q))
    ∙ h

-- What was written to the live file since is at the path alone.
same_or_named :
    (p : Policy) (text : Bytes) (t now : ℕ) (w : FileWriter) (n : Bytes) (after : Directory)
    → (n ≡ p.path)
      ⊎ (n ≡ dated_name p.path now)
      ⊎ (n ≡ zipped_name p.path now)
      ⊎ (find n after ≡ find n (with_live p text t w).dir)
    → (n ≡ p.path)
      ⊎ (n ≡ dated_name p.path now)
      ⊎ (n ≡ zipped_name p.path now)
      ⊎ (find n after ≡ find n w.dir)
same_or_named p text t now w n after (inl a) = inl a
same_or_named p text t now w n after (inr (inl b)) = inr (inl b)
same_or_named p text t now w n after (inr (inr (inl c))) = inr (inr (inl c))
same_or_named p text t now w n after (inr (inr (inr same))) = elim (texts_differ n p.path) [
  | inl a ↦ inl a
  | inr a ↦ inr (inr (inr (same ∙ find-put_other n (live p text t) w.dir a)))
]

both_same :
    (a b c n : Bytes) (first second third : Option File)
    → (n ≡ a) ⊎ (n ≡ b) ⊎ (n ≡ c) ⊎ (third ≡ second)
    → (n ≡ a) ⊎ (n ≡ b) ⊎ (n ≡ c) ⊎ (second ≡ first)
    → (n ≡ a) ⊎ (n ≡ b) ⊎ (n ≡ c) ⊎ (third ≡ first)
both_same a b c n first second third (inr (inr (inr e))) (inr (inr (inr f))) =
    inr (inr (inr (e ∙ f)))
both_same a b c n first second third (inl e) f = inl e
both_same a b c n first second third (inr (inl e)) f = inr (inl e)
both_same a b c n first second third (inr (inr (inl e))) f = inr (inr (inl e))
both_same a b c n first second third e (inl f) = inl f
both_same a b c n first second third e (inr (inl f)) = inr (inl f)
both_same a b c n first second third e (inr (inr (inl f))) = inr (inr (inl f))

module _ (gzip : Bytes → Bytes) (os : Os) (p : Policy) (w : FileWriter) (t u : ℕ)
    (first second : Bytes) where
  -- The writer behind the first rotation, and behind the second.
  abbrev pub once : FileWriter
  once = (do_rotate gzip os p t (with_live p first t w)).0

  abbrev pub twice : FileWriter
  twice = (do_rotate gzip os p u (with_live p second u once)).0

  -- Two rotations of one day, with compression and every archive kept, on a system where nothing fails, and with no
  -- file of the day's uncompressed name at first: the first archive stands under the compressed name of the day,
  -- then the second takes its place. The live and the dated name are free, and every file of another name is as it
  -- was at first: what the first rotation stored is in none of them.
  pub second_rotation_replaces :
      IsHealthy os
      → p.keep ≡ forever
      → p.compress ≡ true
      → day_number u ≡ day_number t
      → find (dated_name p.path t) w.dir ≡ none
      → (find (zipped_name p.path t) once.dir
          ≡ some (record { name = zipped_name p.path t; text = gzip first; mod_time = t }))
        × (find (zipped_name p.path t) twice.dir
            ≡ some (record { name = zipped_name p.path t; text = gzip second; mod_time = u }))
        × (find p.path twice.dir ≡ none)
        × (find (dated_name p.path t) twice.dir ≡ none)
        × ((n : Bytes)
            → (n ≡ p.path)
              ⊎ (n ≡ dated_name p.path t)
              ⊎ (n ≡ zipped_name p.path t)
              ⊎ (find n twice.dir ≡ find n w.dir))
  second_rotation_replaces h k c day free =
      let name : dated_name p.path u ≡ dated_name p.path t =
        ap (λ d. p.path ++ (b'.' ∷ date_text d)) day in
      let (done1, (gone1, dated1, zip1, others1)) =
        do_rotate-Zips gzip os p t (with_live p first t w) (live p first t) h k c
          (find-put_self (live p first t) w.dir) (with_live-dated p first t t w free) in
      let free2 : find (dated_name p.path u) (with_live p second u once).dir ≡ none =
        with_live-dated p second u u once (subst (λ m. find m once.dir ≡ none) (sym name) dated1) in
      let (done2, (gone2, dated2, zip2, others2)) =
        do_rotate-Zips gzip os p u (with_live p second u once) (live p second u) h k c
          (find-put_self (live p second u) once.dir) free2 in
      (
        zip1,
        subst
            (λ m.
              find (m ++ codes ".gz") twice.dir
              ≡ some (record { name = m ++ codes ".gz"; text = gzip second; mod_time = u }))
            name zip2,
        gone2,
        subst (λ m. find m twice.dir ≡ none) name dated2,
        λ n.
            both_same p.path (dated_name p.path t) (zipped_name p.path t) n (find n w.dir)
              (find n once.dir) (find n twice.dir)
              (subst
                (λ m.
                  (n ≡ p.path)
                  ⊎ (n ≡ m)
                  ⊎ (n ≡ m ++ codes ".gz")
                  ⊎ (find n twice.dir ≡ find n once.dir))
                name (same_or_named p second u u once n twice.dir (others2 n)))
              (same_or_named p first t t w n once.dir (others1 n)),
      )
