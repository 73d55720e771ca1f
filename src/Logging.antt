-- ===== src/Logging.antt =====
-- src/logging/rotate.go: the policies of rotation and retention, as their settings are read.
pub mod Directory
pub mod Periods
pub mod Writer
use pastebin.Base.{
  ℕ, zero, suc, ◌+◌, ◌-◌, ◌*◌, ◌^◌, Bool, true, false, not, ◌&&◌, ◌||◌, Option, none, some, List,
  [], ◌∷◌, Bytes, codes, bytes_eq, if◌then◌else◌, ltb, ◌==◌, take, drop, length, is_some,
}
use pastebin.Base.Int.{ℤ, pos, negsuc, is_positive, is_zero, pos_part, wrap64}
use pastebin.Base.Text.{has_suffix, trim_suffix, trim_space, to_lower, split, cut, parse_int}

pub data Interval : Type 0 where
  no_interval daily weekly monthly yearly : Interval

-- A `max_bytes` that is not above 0 is no limit.
pub record RotatePolicy : Type 0 where
  pub interval : Interval
  pub max_bytes : ℤ

pub data KeepPolicy : Type 0 where
  keep_none forever : KeepPolicy
  keep_count : ℕ → KeepPolicy
  keep_age : ℤ → KeepPolicy  -- in nanoseconds

abbrev pub never : RotatePolicy
never = record { interval = no_interval; max_bytes = pos 0 }

unfoldable pub interval_of : Bytes → Interval
unfolding bytes_eq
interval_of tok =
    if bytes_eq tok (codes "daily")
    then daily
    else if bytes_eq tok (codes "weekly")
    then weekly
    else if bytes_eq tok (codes "monthly")
    then monthly
    else if bytes_eq tok (codes "yearly")
    then yearly
    else no_interval

abbrev pub is_set : Interval → Bool
is_set no_interval = false
is_set _ = true

abbrev pub is_empty : Bytes → Bool
is_empty [] = true
is_empty (c ∷ s) = false

-- A count that is above 0.
abbrev pub counted : Option ℤ → Option ℕ
counted none = none
counted (some z) = if is_positive z then some (pos_part z) else none

abbrev pub with_unit : Option ℕ → ℕ → Option (ℕ × ℕ)
with_unit none unit = none
with_unit (some n) unit = some (n, unit)

unfoldable pub parse_size : Bytes → Option (ℕ × ℕ)
unfolding has_suffix trim_suffix trim_space parse_int
parse_size tok =
    if has_suffix tok (codes "mb")
    then with_unit (counted (parse_int (trim_space (trim_suffix tok (codes "mb"))))) (2 ^ 20)
    else if has_suffix tok (codes "gb")
    then with_unit (counted (parse_int (trim_space (trim_suffix tok (codes "gb"))))) (2 ^ 30)
    else none

-- The product is one of 64 bits.
abbrev pub add_size : RotatePolicy → Option (ℕ × ℕ) → Option RotatePolicy
add_size p none = none
add_size p (some (n, unit)) =
    if is_zero p.max_bytes then some (record p { max_bytes = wrap64 (n * unit) }) else none

unfoldable pub add_token : RotatePolicy → Bytes → Option RotatePolicy
unfolding interval_of parse_size bytes_eq
add_token p tok =
    if is_set (interval_of tok)
    then (if is_set p.interval then none else some (record p { interval = interval_of tok }))
    else if bytes_eq tok (codes "never") || is_empty tok
    then none
    else add_size p (parse_size tok)

abbrev pub and_then :
    Option RotatePolicy → (RotatePolicy → Option RotatePolicy) → Option RotatePolicy
and_then none f = none
and_then (some p) f = f p

unfoldable pub add_tokens : List Bytes → RotatePolicy → Option RotatePolicy
unfolding add_token trim_space
add_tokens [] p = some p
add_tokens (tok ∷ toks) p = and_then (add_token p (trim_space tok)) (add_tokens toks)

unfoldable pub parse_rotate : Bytes → Option RotatePolicy
unfolding add_tokens trim_space to_lower split bytes_eq
parse_rotate text =
    let s = trim_space (to_lower text) in
    if is_empty s || bytes_eq s (codes "never") then some never else add_tokens (split s b',') never

-- A count that is not below 0.
abbrev pub natural : Option ℤ → Option ℕ
natural (some (pos n)) = some n
natural (some (negsuc n)) = none
natural none = none

abbrev pub count_of : Option ℕ → Option KeepPolicy
count_of none = none
count_of (some n) = some (keep_count n)

abbrev pub age_of : ℕ → Option ℕ → Option KeepPolicy
age_of mult none = none
age_of mult (some n) = some (keep_age (wrap64 (n * mult)))

-- The nanoseconds of a day, a week and 30 days; 0 for any other letter.
abbrev pub day_length : ℕ
day_length = 86400000000000

abbrev pub multiplier : ℕ → ℕ
multiplier c =
    if c == b'd'
    then day_length
    else if c == b'w'
    then 7 * day_length
    else if c == b'm'
    then 30 * day_length
    else 0

abbrev pub last_byte : Bytes → ℕ
last_byte [] = 0
last_byte (c ∷ []) = c
last_byte (c ∷ d ∷ s) = last_byte (d ∷ s)

abbrev pub plain_or_age : Bytes → Option KeepPolicy
plain_or_age s =
    let mult = multiplier (last_byte s) in
    if ltb 1 (length s) && not (mult == 0)
    then age_of mult (counted (parse_int (take (length s - 1) s)))
    else count_of (natural (parse_int s))

-- The form `prefix:count`; a text that begins with the colon is none of them.
abbrev pub prefixed : Bytes → Option (Bytes × Bytes) → Option KeepPolicy
prefixed s none = plain_or_age s
prefixed s (some ([], b)) = plain_or_age s
prefixed s (some (c ∷ a, b)) =
    if is_some (natural (parse_int b)) && is_set (interval_of (c ∷ a))
    then count_of (natural (parse_int b))
    else none

unfoldable pub parse_keep : Bytes → Option KeepPolicy
unfolding trim_space to_lower bytes_eq cut parse_int interval_of
parse_keep text =
    let s = trim_space (to_lower text) in
    if is_empty s || bytes_eq s (codes "none")
    then some keep_none
    else if bytes_eq s (codes "forever")
    then some forever
    else prefixed s (cut b':' s)
