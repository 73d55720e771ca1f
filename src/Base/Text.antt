-- ===== src/Base/Text.antt =====
-- Texts as lists of bytes, and the functions of Go's `strings` and `strconv` that the program calls.
use Prim.Native.Nat.{zero, ℕ, ◌+◌, ◌-◌, ◌*◌, ◌/◌, ◌%◌, ◌^◌, suc}
use Prim.Native.Char.{code}
use Prim.Native.String.{String}
use mathlib.Core.Path.{◌≡◌, refl}
use mathlib.Core.Logic.{◌↔◌}
use mathlib.Core.Bool.{Bool, true, false, ◌&&◌, ◌||◌}
use mathlib.Core.List.{List, [], ◌∷◌, ◌++◌, reverse, map}
use mathlib.Core.Option.{Option, none, some}
use native.Mathlib.Omega.{arith}
use pastebin.Base.Tests.{ltb, leb, ◌==◌, if◌then◌else◌}
use pastebin.Base.Int.{ℤ, pos, negsuc}
use pastebin.Base.Lists.{length, drop, take}

abbrev pub Bytes : Type 0
Bytes = List ℕ

-- The code points of a literal: its bytes, every literal here being ASCII.
abbrev pub codes : String → Bytes
codes String.[] = []
codes (String.◌∷◌ c s) = code c ∷ codes s

unfoldable pub bytes_eq : Bytes → Bytes → Bool
bytes_eq [] [] = true
bytes_eq (x ∷ xs) (y ∷ ys) = (x == y) && bytes_eq xs ys
bytes_eq _ _ = false

eq_of_bytes_eq : (xs ys : Bytes) → bytes_eq xs ys ≡ true → xs ≡ ys
unfolding bytes_eq
eq_of_bytes_eq [] [] h = refl
eq_of_bytes_eq (x ∷ xs) (y ∷ ys) h = ground (arith, eq_of_bytes_eq xs ys)
eq_of_bytes_eq _ _ h = cc

pub bytes_eq_refl : (xs : Bytes) → bytes_eq xs xs ≡ true
unfolding bytes_eq
bytes_eq_refl [] = refl
bytes_eq_refl (x ∷ xs) = ground (arith, bytes_eq_refl xs)

pub bytes_eq_iff : (xs ys : Bytes) → (bytes_eq xs ys ≡ true) ↔ (xs ≡ ys)
bytes_eq_iff xs ys = (eq_of_bytes_eq xs ys, λ e. rw e (bytes_eq_refl ys))

-- `strings.HasPrefix(s, p)`
unfoldable pub has_prefix : Bytes → Bytes → Bool
has_prefix s [] = true
has_prefix [] (c ∷ p) = false
has_prefix (x ∷ s) (c ∷ p) = (x == c) && has_prefix s p

-- `strings.HasSuffix(s, p)`
unfoldable pub has_suffix : Bytes → Bytes → Bool
unfolding has_prefix
has_suffix s p = has_prefix (reverse s) (reverse p)

-- `strings.TrimPrefix(s, p)` and `strings.TrimSuffix(s, p)`
unfoldable pub trim_prefix : Bytes → Bytes → Bytes
unfolding has_prefix
trim_prefix s p = if has_prefix s p then drop (length p) s else s

unfoldable pub trim_suffix : Bytes → Bytes → Bytes
unfolding has_suffix
trim_suffix s p = if has_suffix s p then take (length s - length p) s else s

unfoldable pub trim_left : (ℕ → Bool) → Bytes → Bytes
trim_left cut [] = []
trim_left cut (c ∷ s) = if cut c then trim_left cut s else c ∷ s

-- `strings.TrimRight(s, cut)` for a set of single bytes
unfoldable pub trim_right : (ℕ → Bool) → Bytes → Bytes
unfolding trim_left
trim_right cut s = reverse (trim_left cut (reverse s))

-- The white space of `unicode.IsSpace`, each code point in UTF-8.
abbrev pub spaces : List Bytes
spaces =
    (9 ∷ [])
    ∷ (10 ∷ [])
    ∷ (11 ∷ [])
    ∷ (12 ∷ [])
    ∷ (13 ∷ [])
    ∷ (32 ∷ [])
    ∷ (194 ∷ 133 ∷ [])
    ∷ (194 ∷ 160 ∷ [])
    ∷ (225 ∷ 154 ∷ 128 ∷ [])
    ∷ (226 ∷ 128 ∷ 128 ∷ [])
    ∷ (226 ∷ 128 ∷ 129 ∷ [])
    ∷ (226 ∷ 128 ∷ 130 ∷ [])
    ∷ (226 ∷ 128 ∷ 131 ∷ [])
    ∷ (226 ∷ 128 ∷ 132 ∷ [])
    ∷ (226 ∷ 128 ∷ 133 ∷ [])
    ∷ (226 ∷ 128 ∷ 134 ∷ [])
    ∷ (226 ∷ 128 ∷ 135 ∷ [])
    ∷ (226 ∷ 128 ∷ 136 ∷ [])
    ∷ (226 ∷ 128 ∷ 137 ∷ [])
    ∷ (226 ∷ 128 ∷ 138 ∷ [])
    ∷ (226 ∷ 128 ∷ 168 ∷ [])
    ∷ (226 ∷ 128 ∷ 169 ∷ [])
    ∷ (226 ∷ 128 ∷ 175 ∷ [])
    ∷ (226 ∷ 129 ∷ 159 ∷ [])
    ∷ (227 ∷ 128 ∷ 128 ∷ [])
    ∷ []

-- The length of the first of the texts that begins `s`; 0 if none does.
unfoldable pub prefix_length : List Bytes → Bytes → ℕ
unfolding has_prefix
prefix_length [] s = 0
prefix_length (p ∷ ps) s =
    let other = prefix_length ps s in if has_prefix s p then length p else other

-- Drops the texts from the front; a round drops a byte at least, so the length is fuel enough.
unfoldable pub trim_front : List Bytes → ℕ → Bytes → Bytes
unfolding prefix_length
trim_front ps zero s = s
trim_front ps (suc n) s =
    let k = prefix_length ps s in
    let rest = trim_front ps n (drop k s) in if k == 0 then s else rest

unfoldable pub trim_front_all : List Bytes → Bytes → Bytes
unfolding trim_front
trim_front_all ps s = trim_front ps (length s) s

-- `strings.TrimSpace`
unfoldable pub trim_space : Bytes → Bytes
unfolding trim_front_all
trim_space s = reverse (trim_front_all (map reverse spaces) (reverse (trim_front_all spaces s)))

-- `strings.ToLower`, for ASCII
unfoldable pub to_lower : Bytes → Bytes
to_lower = map (λ c. if leb b'A' c && leb c b'Z' then c + 32 else c)

-- `strings.ContainsAny(s, chars)`
unfoldable pub contains_byte : Bytes → ℕ → Bool
contains_byte [] b = false
contains_byte (c ∷ s) b = (c == b) || contains_byte s b

unfoldable pub contains_any : Bytes → Bytes → Bool
unfolding contains_byte
contains_any [] chars = false
contains_any (c ∷ s) chars = contains_byte chars c || contains_any s chars

-- `strings.Split(s, sep)` for one byte, with the part read so far.
unfoldable pub split_from : ℕ → Bytes → Bytes → List Bytes
split_from sep part [] = part ∷ []
split_from sep part (c ∷ s) =
    let next = split_from sep [] s in
    let more = split_from sep (part ++ c ∷ []) s in if c == sep then part ∷ next else more

unfoldable pub split : Bytes → ℕ → List Bytes
unfolding split_from
split s sep = split_from sep [] s

unfoldable pub is_digit : ℕ → Bool
is_digit c = leb b'0' c && leb c b'9'

-- The value of decimal digits behind the number `n`; `none` at any other byte.
unfoldable pub digits_from : ℕ → Bytes → Option ℕ
unfolding is_digit
digits_from n [] = some n
digits_from n (c ∷ s) =
    let rest = digits_from (n * 10 + (c - b'0')) s in if is_digit c then rest else none

-- 64 bits, signed; out of range is an error.
abbrev pub in_range : Bool → Option ℕ → Option ℤ
in_range sign none = none
in_range true (some n) = if ltb n (2 ^ 63) then some (pos n) else none
in_range false (some zero) = some (pos 0)
in_range false (some (suc n)) = if ltb n (2 ^ 63) then some (negsuc n) else none

abbrev pub unsigned : Bytes → Option ℕ
unsigned [] = none
unsigned (c ∷ s) = digits_from 0 (c ∷ s)

abbrev pub parse_signed : ℕ → Bytes → Option ℤ
parse_signed c s =
    if c == b'-'
    then in_range false (unsigned s)
    else if c == b'+'
    then in_range true (unsigned s)
    else in_range true (unsigned (c ∷ s))

-- `strconv.ParseInt(s, 10, 64)` and `strconv.Atoi(s)`
unfoldable pub parse_int : Bytes → Option ℤ
unfolding digits_from
parse_int [] = none
parse_int (c ∷ s) = parse_signed c s

-- `strings.SplitN(s, sep, 2)` for one byte: the parts before and behind the first; none if there is none.
unfoldable pub cut : ℕ → Bytes → Option (Bytes × Bytes)
cut sep [] = none
cut sep (c ∷ s) =
    if c == sep
    then some ([], s)
    else elim (cut sep s) [ none ↦ none | some (a, b) ↦ some (c ∷ a, b) ]

-- A field that ends, if there is one.
abbrev pub flush : Bytes → List Bytes → List Bytes
flush [] rest = rest
flush (c ∷ part) rest = (c ∷ part) ∷ rest

-- `strings.Fields(s)`, with the field read so far; a round drops a byte at least, so the length is fuel enough.
unfoldable pub fields_from : ℕ → Bytes → Bytes → List Bytes
unfolding prefix_length
fields_from n part [] = flush part []
fields_from zero part (c ∷ s) = flush part []
fields_from (suc n) part (c ∷ s) =
    let k = prefix_length spaces (c ∷ s) in
    let next = fields_from n [] (drop k (c ∷ s)) in
    let more = fields_from n (part ++ c ∷ []) s in if k == 0 then more else flush part next

unfoldable pub fields : Bytes → List Bytes
unfolding fields_from
fields s = fields_from (length s) [] s

-- `strings.Cut(s, sep)` for a separator that is not empty.
abbrev pub prepend : ℕ → Option (Bytes × Bytes) → Option (Bytes × Bytes)
prepend c none = none
prepend c (some (a, b)) = some (c ∷ a, b)

unfoldable pub cut_text : Bytes → Bytes → Option (Bytes × Bytes)
unfolding has_prefix
cut_text sep [] = none
cut_text sep (c ∷ s) =
    let rest = cut_text sep s in
    if has_prefix (c ∷ s) sep then some ([], drop (length sep) (c ∷ s)) else prepend c rest

-- `hex.EncodeToString`
abbrev pub hex_digit : ℕ → ℕ
hex_digit n = if ltb n 10 then b'0' + n else b'a' + n - 10

unfoldable pub hex : Bytes → Bytes
hex [] = []
hex (b ∷ raw) = hex_digit (b / 16) ∷ hex_digit (b % 16) ∷ hex raw
