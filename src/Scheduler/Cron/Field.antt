-- ===== src/Scheduler/Cron/Field.antt =====
-- src/scheduler/cron.go: `ParseSchedule`, `parseCron` and `parseField`.
pub mod Bounds
pub mod Panics
pub mod Daily
use pastebin.Base.{
  ℕ, zero, suc, ◌+◌, ◌-◌, ◌*◌, ◌%◌, ◌^◌, Bool, true, false, not, ◌&&◌, ◌||◌, List, [], ◌∷◌, Option,
  none, some, Bytes, codes, bytes_eq, if◌then◌else◌, ltb, leb, ◌==◌, drop,
}
use pastebin.Base.Int.{ℤ, pos, negsuc, add_duration}
use pastebin.Base.Text.{
  has_prefix, has_suffix, trim_prefix, trim_suffix, trim_space, split, contains_byte, cut, fields,
  parse_int,
}
use pastebin.Scheduler.Cron.Next.{FieldSet, CronExpr, Zone, next}
use pastebin.Scheduler.{Schedule}

unfoldable pub star : FieldSet
star = record { bits = λ v. false; star = true }

abbrev pub no_bits : FieldSet
no_bits = record { bits = λ v. false; star = false }

-- `f.bits[v] = true`, for a `v` below 64
unfoldable pub set_bit : ℕ → FieldSet → FieldSet
set_bit v f = record f { bits = λ x. if x == v then true else f.bits x }

unfoldable pub single : ℕ → FieldSet
unfolding set_bit
single v = set_bit v no_bits

-- A field that is parsed, the error, or the index out of range that ends the program.
pub data Parsed : Type 0 where
  parsed : FieldSet → Parsed
  invalid panics : Parsed

-- `for v := lo; v <= hi; v += step`: the sum wraps on 64 bits, and the set has no negative index. The set holds
-- every `v` on the way, so `hi + 1` rounds are fuel enough.
unfoldable pub set_steps : ℕ → ℕ → ℕ → ℕ → FieldSet → Parsed
unfolding set_bit
set_steps zero v hi step f = parsed f
set_steps (suc fuel) v hi step f =
    let rest = set_steps fuel (v + step) hi step (set_bit v f) in
    if ltb hi v then parsed f else if leb (2 ^ 63) (v + step) then panics else rest

-- `for v := start; v <= end; v++`, with the rounds left.
unfoldable pub set_range : ℕ → ℕ → FieldSet → FieldSet
unfolding set_bit
set_range zero v f = f
set_range (suc left) v f = set_range left (suc v) (set_bit v f)

module _ (lo hi : ℕ) where
  abbrev pub parse_step : Option ℤ → FieldSet → Parsed
  parse_step none f = invalid
  parse_step (some (negsuc n)) f = invalid
  parse_step (some (pos zero)) f = invalid
  parse_step (some (pos (suc n))) f = set_steps (suc hi) lo hi (suc n) f

  abbrev pub parse_range : Option ℤ → Option ℤ → FieldSet → Parsed
  parse_range (some (pos start)) (some (pos end)) f =
      if ltb start lo || ltb hi end || ltb end start
      then invalid
      else parsed (set_range (suc end - start) start f)
  parse_range _ _ f = invalid

  abbrev pub parse_value : Option ℤ → FieldSet → Parsed
  parse_value (some (pos n)) f = if ltb n lo || ltb hi n then invalid else parsed (set_bit n f)
  parse_value _ f = invalid

  abbrev pub parse_bounds : Bytes → Option (Bytes × Bytes) → FieldSet → Parsed
  parse_bounds part none f = parse_value (parse_int part) f
  parse_bounds part (some (a, b)) f = parse_range (parse_int a) (parse_int b) f

  unfoldable pub parse_part : Bytes → FieldSet → Parsed
  unfolding set_steps set_range
  parse_part part f =
      if has_prefix part (codes "*/")
      then parse_step (parse_int (drop 2 part)) f
      else parse_bounds part (cut b'-' part) f

  unfoldable pub parse_parts : List Bytes → Parsed → Parsed
  unfolding parse_part
  parse_parts [] r = r
  parse_parts (part ∷ parts) invalid = invalid
  parse_parts (part ∷ parts) panics = panics
  parse_parts (part ∷ parts) (parsed f) = parse_parts parts (parse_part part f)

  unfoldable pub parse_field : Bytes → Parsed
  unfolding parse_parts star
  parse_field s =
      if bytes_eq s (codes "*") then parsed star else parse_parts (split s b',') (parsed no_bits)

-- A schedule that is parsed, the error, or the end of the program.
pub data Scheduled : Type 0 where
  schedule : Schedule → Scheduled
  malformed crashed : Scheduled

-- The instants that `Next` is given carry the location.
module _ (zone : Zone) where
  unfoldable pub of_cron : CronExpr → Schedule
  of_cron c = record { next = next zone c; text = c.raw }

  abbrev pub field_or : Parsed → (FieldSet → Scheduled) → Scheduled
  field_or (parsed f) rest = rest f
  field_or invalid rest = malformed
  field_or panics rest = crashed

  abbrev pub parse_fields : Bytes → List Bytes → Scheduled
  parse_fields expr (a ∷ b ∷ c ∷ d ∷ e ∷ []) = field_or (parse_field 0 59 a) λ minute.
      field_or (parse_field 0 23 b) λ hour. field_or (parse_field 1 31 c) λ dom.
        field_or (parse_field 1 12 d) λ month. field_or (parse_field 0 6 e) λ dow. schedule (
          of_cron (record {
            raw = expr;
            minute = minute;
            hour = hour;
            dom = dom;
            month = month;
            dow = dow;
          }))
  parse_fields expr _ = malformed

  unfoldable pub parse_cron : Bytes → Scheduled
  unfolding parse_field of_cron
  parse_cron expr = parse_fields expr (fields expr)

  -- `n * 24 * time.Hour`, on 64 bits.
  abbrev pub days : Option ℤ → Option ℕ
  days (some (pos (suc n))) = some ((suc n * 86_400_000_000_000) % 2 ^ 64)
  days _ = none

  abbrev pub positive : Option ℤ → Option ℕ
  positive (some (pos (suc n))) = some (suc n)
  positive _ = none

  module _ (go_duration : Bytes → Option ℤ) where
    -- `go_duration` is `time.ParseDuration`, in nanoseconds.
    unfoldable pub parse_duration : Bytes → Option ℕ
    parse_duration text =
        let s = trim_space text in
        if has_suffix s (codes "d")
        then days (parse_int (trim_suffix s (codes "d")))
        else positive (go_duration s)

    abbrev pub every : Bytes → Option ℕ → Scheduled
    every expr none = malformed
    every expr (some d) = schedule (record { next = λ t. add_duration t d; text = expr })

    abbrev pub named : Bytes → FieldSet → FieldSet → FieldSet → FieldSet → FieldSet → Scheduled
    named expr minute hour dom month dow = schedule (
        of_cron (record {
          raw = expr;
          minute = minute;
          hour = hour;
          dom = dom;
          month = month;
          dow = dow;
        }))

    abbrev pub parse_trimmed : Bytes → Scheduled
    parse_trimmed expr =
        if bytes_eq expr []
        then malformed
        else if bytes_eq expr (codes "@hourly")
        then named expr (single 0) star star star star
        else if bytes_eq expr (codes "@daily") || bytes_eq expr (codes "@midnight")
        then named expr (single 0) (single 0) star star star
        else if bytes_eq expr (codes "@weekly")
        then named expr (single 0) (single 0) star star (single 0)
        else if bytes_eq expr (codes "@monthly")
        then named expr (single 0) (single 0) (single 1) star star
        else if bytes_eq expr (codes "@yearly") || bytes_eq expr (codes "@annually")
        then named expr (single 0) (single 0) (single 1) (single 1) star
        else if has_prefix expr (codes "@every ")
        then every expr (parse_duration (trim_prefix expr (codes "@every ")))
        else parse_cron expr

    unfoldable pub parse_schedule : Bytes → Scheduled
    unfolding parse_duration parse_cron single
    parse_schedule expr = parse_trimmed (trim_space expr)
