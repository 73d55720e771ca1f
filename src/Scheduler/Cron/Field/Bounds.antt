-- ===== src/Scheduler/Cron/Field/Bounds.antt =====
-- The values of a field that is parsed.
use pastebin.Base.{
  ℕ, zero, suc, ◌+◌, ◌-◌, ◌≤◌, ◌^◌, ◌≡◌, refl, sym, ap, ◌∙◌, true, false, ◌||◌, List, [], ◌∷◌, ◌++◌,
  ◌⊎◌, Option, none, some, inl, inr, arith, Bytes, codes, bytes_eq, ltb, leb, ◌==◌, drop,
  Bool-cases,
}
use mathlib.Core.Path.{subst}
use pastebin.Base.Int.{ℤ, pos, negsuc}
use pastebin.Base.Text.{has_prefix, split, split_from, cut, parse_int}
use pastebin.Scheduler.Cron.Next.{FieldSet}
use pastebin.Scheduler.Cron.Field.{
  star, no_bits, set_bit, Parsed, parsed, invalid, panics, set_steps, set_range, parse_step,
  parse_range, parse_value, parse_bounds, parse_part, parse_parts, parse_field,
}

-- A set without a star, with a value in it, and with values from `lo` to `hi` only.
record IsProper (lo hi : ℕ) (f : FieldSet) : Type 0 where
  pub plain : f.star ≡ false
  pub value : (v : ℕ) × (f.bits v ≡ true)
  pub within : (v : ℕ) → f.bits v ≡ true → (lo ≤ v) × (v ≤ hi)

-- The same of a set that may be empty yet.
record IsBounded (lo hi : ℕ) (f : FieldSet) : Type 0 where
  pub plain : f.star ≡ false
  pub within : (v : ℕ) → f.bits v ≡ true → (lo ≤ v) × (v ≤ hi)

parsed-injective : (f g : FieldSet) → parsed f ≡ parsed g → f ≡ g
parsed-injective f g h = ap (λ r. elim r [ parsed x ↦ x | _ ↦ f ]) h

split_from_cons :
    (sep : ℕ) (part s : Bytes)
    → (x : Bytes) × (rest : List Bytes) × (split_from sep part s ≡ x ∷ rest)
unfolding split_from
split_from_cons sep part [] = (part, [], refl)
split_from_cons sep part (c ∷ s) = elim (Bool-cases (c == sep)) [
  | inl e ↦ rw e (part, split_from sep [] s, refl)
  | inr e ↦ rw e (split_from_cons sep (part ++ c ∷ []) s)
]

split_cons : (s : Bytes) (sep : ℕ) → (x : Bytes) × (rest : List Bytes) × (split s sep ≡ x ∷ rest)
unfolding split
split_cons s sep = split_from_cons sep [] s

module _ (lo hi : ℕ) where
  set_bit-IsProper :
      (v : ℕ) (f : FieldSet) → lo ≤ v → v ≤ hi → IsBounded lo hi f → IsProper lo hi (set_bit v f)
  unfolding set_bit
  set_bit-IsProper v f low high b = record {
    plain = b.plain;
    value = (v, ground arith);
    within =
        λ x h. elim (Bool-cases (x == v)) [ inl e ↦ ground arith | inr e ↦ b.within x (rw e at h) ];
  }

  bounded : {f : FieldSet} → IsProper lo hi f → IsBounded lo hi f
  bounded p = record { plain = p.plain; within = p.within }

  set_range-IsProper :
      (left v : ℕ) (f : FieldSet)
      → lo ≤ v
      → v + left ≤ suc hi
      → IsProper lo hi f
      → IsProper lo hi (set_range left v f)
  unfolding set_range
  set_range-IsProper zero v f low high p = p
  set_range-IsProper (suc left) v f low high p =
      set_range-IsProper left (suc v) (set_bit v f) (omega arith) (omega arith)
        (set_bit-IsProper v f low (omega arith) (bounded p))

  set_steps-IsProper :
      (fuel v step : ℕ) (f : FieldSet) {g : FieldSet}
      → lo ≤ v
      → IsProper lo hi f
      → set_steps fuel v hi step f ≡ parsed g
      → IsProper lo hi g
  unfolding set_steps
  set_steps-IsProper zero v step f {g} low p h = subst (IsProper lo hi) (parsed-injective f g h) p
  set_steps-IsProper (suc fuel) v step f {g} low p h = elim (Bool-cases (ltb hi v)) [
    | inl e ↦ subst (IsProper lo hi) (parsed-injective f g (rw e at h)) p
    | inr e ↦ elim (Bool-cases (leb (2 ^ 63) (v + step))) [
      | inl over ↦ absurd (cc (rw (e, over) at h))
      | inr fits ↦
          set_steps-IsProper fuel (v + step) step (set_bit v f) {g = g} (omega arith)
            (set_bit-IsProper v f low (ground arith) (bounded p)) (rw (e, fits) at h)
    ]
  ]

  step-IsProper :
      (n : Option ℤ) (f : FieldSet) {g : FieldSet}
      → lo ≤ hi
      → IsBounded lo hi f
      → parse_step lo hi n f ≡ parsed g
      → IsProper lo hi g
  unfolding set_steps
  step-IsProper none f order b h = absurd (cc h)
  step-IsProper (some (negsuc n)) f order b h = absurd (cc h)
  step-IsProper (some (pos zero)) f order b h = absurd (cc h)
  step-IsProper (some (pos (suc n))) f {g} order b h = elim (Bool-cases (ltb hi lo)) [
    | inl e ↦ absurd (ground arith)
    | inr e ↦ elim (Bool-cases (leb (2 ^ 63) (lo + suc n))) [
      | inl over ↦ absurd (cc (rw (e, over) at h))
      | inr fits ↦
          set_steps-IsProper hi (lo + suc n) (suc n) (set_bit lo f) {g = g} (omega arith)
            (set_bit-IsProper lo f (omega arith) order b) (rw (e, fits) at h)
    ]
  ]

  range-IsProper :
      (a b' : Option ℤ) (f : FieldSet) {g : FieldSet}
      → IsBounded lo hi f
      → parse_range lo hi a b' f ≡ parsed g
      → IsProper lo hi g
  unfolding set_range
  range-IsProper none b' f b h = absurd (cc h)
  range-IsProper (some (negsuc n)) b' f b h = absurd (cc h)
  range-IsProper (some (pos start)) none f b h = absurd (cc h)
  range-IsProper (some (pos start)) (some (negsuc n)) f b h = absurd (cc h)
  range-IsProper (some (pos start)) (some (pos end)) f {g} b h =
      elim (Bool-cases (ltb start lo || ltb hi end || ltb end start)) [
        | inl e ↦ absurd (cc (rw e at h))
        | inr e ↦
            let count : suc end - start ≡ suc (end - start) = ground arith in
            subst (IsProper lo hi)
              (ap (λ k. set_range k start f) (sym count)
                ∙ parsed-injective (set_range (suc end - start) start f) g (rw e at h))
              (set_range-IsProper (end - start) (suc start) (set_bit start f) (ground arith)
                (ground arith) (set_bit-IsProper start f (ground arith) (ground arith) b))
      ]

  value-IsProper :
      (n : Option ℤ) (f : FieldSet) {g : FieldSet}
      → IsBounded lo hi f
      → parse_value lo hi n f ≡ parsed g
      → IsProper lo hi g
  value-IsProper none f b h = absurd (cc h)
  value-IsProper (some (negsuc n)) f b h = absurd (cc h)
  value-IsProper (some (pos n)) f {g} b h = elim (Bool-cases (ltb n lo || ltb hi n)) [
    | inl e ↦ absurd (cc (rw e at h))
    | inr e ↦
        subst (IsProper lo hi) (parsed-injective (set_bit n f) g (rw e at h))
          (set_bit-IsProper n f (ground arith) (ground arith) b)
  ]

  bounds-IsProper :
      (part : Bytes) (o : Option (Bytes × Bytes)) (f : FieldSet) {g : FieldSet}
      → IsBounded lo hi f
      → parse_bounds lo hi part o f ≡ parsed g
      → IsProper lo hi g
  bounds-IsProper part none f {g} b h = value-IsProper (parse_int part) f {g = g} b h
  bounds-IsProper part (some (x, y)) f {g} b h =
      range-IsProper (parse_int x) (parse_int y) f {g = g} b h

  part-IsProper :
      (part : Bytes) (f : FieldSet) {g : FieldSet}
      → lo ≤ hi
      → IsBounded lo hi f
      → parse_part lo hi part f ≡ parsed g
      → IsProper lo hi g
  unfolding parse_part
  part-IsProper part f {g} order b h = elim (Bool-cases (has_prefix part (codes "*/"))) [
    | inl e ↦ step-IsProper (parse_int (drop 2 part)) f {g = g} order b (rw e at h)
    | inr e ↦ bounds-IsProper part (cut b'-' part) f {g = g} b (rw e at h)
  ]

  parts-IsProper :
      (parts : List Bytes) (r : Parsed) {g : FieldSet}
      → lo ≤ hi
      → ((f : FieldSet) → r ≡ parsed f → IsProper lo hi f)
      → parse_parts lo hi parts r ≡ parsed g
      → IsProper lo hi g
  unfolding parse_parts
  parts-IsProper [] r {g} order p h = p g h
  parts-IsProper (part ∷ parts) invalid order p h = absurd (cc h)
  parts-IsProper (part ∷ parts) panics order p h = absurd (cc h)
  parts-IsProper (part ∷ parts) (parsed f) {g} order p h =
      parts-IsProper parts (parse_part lo hi part f) {g = g} order
        (λ f' e. part-IsProper part f {g = f'} order (bounded (p f refl)) e) h

  -- A field that is parsed and is not a star has a value, and has no value out of its bounds.
  pub parse_field_bounded :
      (s : Bytes) (v : ℕ) {f : FieldSet}
      → lo ≤ hi
      → parse_field lo hi s ≡ parsed f
      → f.star ≡ false
      → ((w : ℕ) × (f.bits w ≡ true)) × ((f.bits v ≡ false) ⊎ ((lo ≤ v) × (v ≤ hi)))
  unfolding parse_field parse_parts star
  parse_field_bounded s v {f} order h plain = elim (Bool-cases (bytes_eq s (codes "*"))) [
    | inl e ↦ absurd (cc (ap (λ x. x.star) (parsed-injective star f (rw e at h)), plain))
    | inr e ↦
        let (part, parts, same) = split_cons s b',' in
        let p =
          parts-IsProper parts (parse_part lo hi part no_bits) {g = f} order
            (λ f' e'.
              part-IsProper part no_bits {g = f'} order
                (record { plain = refl; within = λ x held. absurd (cc held) }) e')
            (ap (λ l. parse_parts lo hi l (parsed no_bits)) (sym same) ∙ (rw e at h)) in
        (
          p.value,
          elim (Bool-cases (f.bits v)) [
            | inl held ↦ inr (p.within v held)
            | inr missing ↦ inl missing
          ],
        )
  ]
