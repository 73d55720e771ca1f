-- ===== src/Server/Report/Sanitized.antt =====
-- What a sanitized component is.
use mathlib.Core.List.{reverse, reverse_aux}
use pastebin.Base.{
  ℕ, ◌+◌, ◌≤◌, ◌<◌, ◌≡◌, ◌≢◌, refl, Bool, true, [], ◌∷◌, ◌++◌, Bytes, codes, arith, if◌then◌else◌,
  if_rule, leb, ◌==◌, length, length-append, All, All-append,
}
use pastebin.Base.Text.{trim_left, trim_right, trim_space, to_lower, is_digit}
use pastebin.Server.Report.{
  is_kept, kept_byte, keep_from, is_dash, or_unspecified, sanitize_component,
}

abbrev Kept : ℕ → Type 0
Kept c = is_kept c ≡ true

-- Kept bytes, at most 64.
abbrev IsShort : Bytes → Type 0
IsShort s = All Kept s × (length s ≤ 64)

kept_byte-IsShort : (c : ℕ) → All Kept (kept_byte c) × (length (kept_byte c) ≤ 1)
kept_byte-IsShort c =
    if_rule (λ s. All Kept s × (length s ≤ 1)) (is_kept c) (c ∷ [])
      (if c == b' ' then b'-' ∷ [] else []) (λ k. ((k, tt), omega arith))
      (λ k.
        if_rule (λ s. All Kept s × (length s ≤ 1)) (c == b' ') (b'-' ∷ []) []
          (λ e. ((unfold is_kept is_digit in refl, tt), omega arith)) (λ e. (tt, omega arith)))

-- While the loop runs there is room for another byte.
keep_from-IsShort : (out s : Bytes) → All Kept out → length out < 64 → IsShort (keep_from out s)
unfolding keep_from
keep_from-IsShort out [] a b = (a, omega arith)
keep_from-IsShort out (c ∷ s) a b =
    let (kept, short) = kept_byte-IsShort c in
    let next = out ++ kept_byte c in
    let all = All-append Kept out (kept_byte c) a kept in
    let size : length next ≡ length out + length (kept_byte c) = length-append out (kept_byte c) in
    if_rule IsShort (leb 64 (length next)) next (keep_from next s) (λ full. (all, omega arith))
      (λ room. keep_from-IsShort next s all (ground (arith, room)))

trim_left-IsShort : (cut : ℕ → Bool) (s : Bytes) → IsShort s → IsShort (trim_left cut s)
unfolding trim_left
trim_left-IsShort cut [] h = h
trim_left-IsShort cut (c ∷ s) ((k, all), size) =
    if_rule IsShort (cut c) (trim_left cut s) (c ∷ s)
      (λ e. trim_left-IsShort cut s (all, omega arith)) (λ e. ((k, all), size))

reverse_aux-IsShort :
    (s r : Bytes) → All Kept s → All Kept r → length s + length r ≤ 64 → IsShort (reverse_aux s r)
reverse_aux-IsShort [] r a b h = (b, omega arith)
reverse_aux-IsShort (c ∷ s) r (k, a) b h = reverse_aux-IsShort s (c ∷ r) a (k, b) (omega arith)

reverse-IsShort : (s : Bytes) → IsShort s → IsShort (reverse s)
reverse-IsShort s (a, h) = reverse_aux-IsShort s [] a tt (omega arith)

trim_right-IsShort : (cut : ℕ → Bool) (s : Bytes) → IsShort s → IsShort (trim_right cut s)
unfolding trim_right
trim_right-IsShort cut s h =
    reverse-IsShort (trim_left cut (reverse s))
      (trim_left-IsShort cut (reverse s) (reverse-IsShort s h))

unspecified-Kept : All Kept (codes "unspecified")
unfolding is_kept is_digit
unspecified-Kept =
    (refl, (refl, (refl, (refl, (refl, (refl, (refl, (refl, (refl, (refl, (refl, tt)))))))))))

or_unspecified-IsShort :
    (s : Bytes) → IsShort s → IsShort (or_unspecified s) × (or_unspecified s ≢ [])
or_unspecified-IsShort [] h = ((unspecified-Kept, omega arith), λ e. cc)
or_unspecified-IsShort (c ∷ s) h = (h, λ e. cc)

-- Whatever is sent, the component that is stored is not empty, has at most 64 bytes, and holds lower case letters, digits
-- and `-`, `_`, `/`, `.` only.
pub sanitize_component-IsShort :
    (text : Bytes)
    → All (λ c. is_kept c ≡ true) (sanitize_component text)
      × (length (sanitize_component text) ≤ 64)
      × (sanitize_component text ≢ [])
unfolding sanitize_component
sanitize_component-IsShort text =
    let kept = keep_from-IsShort [] (trim_space (to_lower text)) tt (omega arith) in
    let left = trim_left-IsShort is_dash (keep_from [] (trim_space (to_lower text))) kept in
    let out = trim_left is_dash (keep_from [] (trim_space (to_lower text))) in
    let ((all, size), filled) =
      or_unspecified-IsShort (trim_right is_dash out) (trim_right-IsShort is_dash out left) in
    (all, size, filled)
