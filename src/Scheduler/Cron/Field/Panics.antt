-- ===== src/Scheduler/Cron/Field/Panics.antt =====
-- Where a field may end the program.
use pastebin.Base.{
  ℕ, zero, suc, ◌+◌, ◌≤◌, ◌<◌, ◌^◌, ◌≡◌, ◌≢◌, refl, Bool, true, false, ◌||◌, ◌⊎◌, List, [], ◌∷◌,
  Option, none, some, inl, inr, arith, Bytes, codes, bytes_eq, ltb, leb, ◌==◌, drop, Bool-cases,
}
use pastebin.Base.Int.{ℤ, pos, negsuc}
use pastebin.Base.Text.{has_prefix, split, cut, in_range, unsigned, parse_signed, parse_int}
use pastebin.Scheduler.Cron.Next.{FieldSet}
use pastebin.Scheduler.Cron.Field.{
  no_bits, set_bit, Parsed, parsed, invalid, panics, set_steps, parse_step, parse_range,
  parse_value, parse_bounds, parse_part, parse_parts, parse_field,
}

in_range-bounded :
    (sign : Bool) (o : Option ℕ) {n : ℕ} → in_range sign o ≡ some (pos n) → n < 2 ^ 63
in_range-bounded true none h = absurd (cc h)
in_range-bounded false none h = absurd (cc h)
in_range-bounded true (some m) {n} h = ground arith
in_range-bounded false (some zero) {n} h = ground arith
in_range-bounded false (some (suc m)) {n} h = ground arith

signed-bounded : (c : ℕ) (s : Bytes) {n : ℕ} → parse_signed c s ≡ some (pos n) → n < 2 ^ 63
signed-bounded c s {n} h = elim (Bool-cases (c == b'-')) [
  | inl e ↦ in_range-bounded false (unsigned s) {n = n} (rw e at h)
  | inr e ↦ elim (Bool-cases (c == b'+')) [
    | inl e' ↦ in_range-bounded true (unsigned s) {n = n} (rw (e, e') at h)
    | inr e' ↦ in_range-bounded true (unsigned (c ∷ s)) {n = n} (rw (e, e') at h)
  ]
]

parse_int-bounded : (s : Bytes) {n : ℕ} → parse_int s ≡ some (pos n) → n < 2 ^ 63
unfolding parse_int
parse_int-bounded [] h = absurd (cc h)
parse_int-bounded (c ∷ s) {n} h = signed-bounded c s {n = n} h

module _ (hi : ℕ) (small : hi < 2 ^ 62) where
  set_steps-safe :
      (fuel v step : ℕ) (f : FieldSet)
      → step < 2 ^ 63
      → (v ≡ 0) ⊎ (step ≤ v)
      → set_steps fuel v hi step f ≢ panics
  unfolding set_steps
  set_steps-safe zero v step f fits at = λ h. cc h
  set_steps-safe (suc fuel) v step f fits at = elim (Bool-cases (ltb hi v)) [
    | inl e ↦ rw e (λ h. cc h)
    | inr e ↦
        let in_bits : leb (2 ^ 63) (v + step) ≡ false = ground arith in
        rw (e, in_bits) (set_steps-safe fuel (v + step) step (set_bit v f) fits (inr (omega arith)))
  ]

  step-safe :
      (n : Option ℤ) (f : FieldSet)
      → ((k : ℕ) → n ≡ some (pos k) → k < 2 ^ 63)
      → parse_step 0 hi n f ≢ panics
  step-safe none f fits = λ h. cc h
  step-safe (some (negsuc n)) f fits = λ h. cc h
  step-safe (some (pos zero)) f fits = λ h. cc h
  step-safe (some (pos (suc n))) f fits =
      set_steps-safe (suc hi) 0 (suc n) f (fits (suc n) refl) (inl refl)

  range-safe : (a b : Option ℤ) (f : FieldSet) → parse_range 0 hi a b f ≢ panics
  range-safe none b f = λ h. cc h
  range-safe (some (negsuc n)) b f = λ h. cc h
  range-safe (some (pos start)) none f = λ h. cc h
  range-safe (some (pos start)) (some (negsuc n)) f = λ h. cc h
  range-safe (some (pos start)) (some (pos end)) f =
      elim (Bool-cases (ltb start 0 || ltb hi end || ltb end start)) [
        | inl e ↦ rw e (λ h. cc h)
        | inr e ↦ rw e (λ h. cc h)
      ]

  value-safe : (n : Option ℤ) (f : FieldSet) → parse_value 0 hi n f ≢ panics
  value-safe none f = λ h. cc h
  value-safe (some (negsuc n)) f = λ h. cc h
  value-safe (some (pos n)) f = elim (Bool-cases (ltb n 0 || ltb hi n)) [
    | inl e ↦ rw e (λ h. cc h)
    | inr e ↦ rw e (λ h. cc h)
  ]

  bounds-safe :
      (part : Bytes) (o : Option (Bytes × Bytes)) (f : FieldSet)
      → parse_bounds 0 hi part o f ≢ panics
  bounds-safe part none f = value-safe (parse_int part) f
  bounds-safe part (some (a, b)) f = range-safe (parse_int a) (parse_int b) f

  part-safe : (part : Bytes) (f : FieldSet) → parse_part 0 hi part f ≢ panics
  unfolding parse_part
  part-safe part f = elim (Bool-cases (has_prefix part (codes "*/"))) [
    | inl e ↦
        rw e
          (step-safe (parse_int (drop 2 part)) f (λ k h. parse_int-bounded (drop 2 part) {n = k} h))
    | inr e ↦ rw e (bounds-safe part (cut b'-' part) f)
  ]

  parts-safe : (parts : List Bytes) (r : Parsed) → r ≢ panics → parse_parts 0 hi parts r ≢ panics
  unfolding parse_parts
  parts-safe [] r safe = safe
  parts-safe (part ∷ parts) invalid safe = λ h. cc h
  parts-safe (part ∷ parts) panics safe = safe
  parts-safe (part ∷ parts) (parsed f) safe =
      parts-safe parts (parse_part 0 hi part f) (part-safe part f)

-- The parsing of a field whose values start at 0, as those of the minutes, the hours and the days of the week,
-- ends with a set or with the error, whatever the text: no step runs out of the set.
pub parse_field_safe : (hi : ℕ) (s : Bytes) → hi < 2 ^ 62 → parse_field 0 hi s ≢ panics
unfolding parse_field parse_parts
parse_field_safe hi s small = elim (Bool-cases (bytes_eq s (codes "*"))) [
  | inl e ↦ rw e (λ h. cc h)
  | inr e ↦ rw e (parts-safe hi small (split s b',') (parsed no_bits) (λ h. cc h))
]
