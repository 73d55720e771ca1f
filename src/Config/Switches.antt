-- ===== src/Config/Switches.antt =====
-- src/config/bool.go: ParseBool, MustParseBool, IsTruthy and IsFalsy.
pub mod Words
use Prim.Native.String.{String}
use pastebin.Base.{
  Bool, true, false, ◌||◌, Option, none, some, List, [], ◌∷◌, map, Bytes, codes, bytes_eq,
  if◌then◌else◌,
}
use pastebin.Base.Text.{trim_space, to_lower}

abbrev pub truthy_values : List Bytes
truthy_values = map codes (
    "1" ∷ "y" ∷ "t" ∷ "yes" ∷ "true" ∷ "on" ∷ "ok" ∷ "enable" ∷ "enabled" ∷ "yep" ∷ "yup" ∷ "yeah"
    ∷ "aye" ∷ "si" ∷ "oui" ∷ "da" ∷ "hai" ∷ "affirmative" ∷ "accept" ∷ "allow" ∷ "grant" ∷ "sure"
    ∷ "totally" ∷ [])

abbrev pub falsy_values : List Bytes
falsy_values = map codes (
    "0" ∷ "n" ∷ "f" ∷ "no" ∷ "false" ∷ "off" ∷ "disable" ∷ "disabled" ∷ "nope" ∷ "nah" ∷ "nay"
    ∷ "nein" ∷ "non" ∷ "niet" ∷ "iie" ∷ "lie" ∷ "negative" ∷ "reject" ∷ "block" ∷ "revoke" ∷ "deny"
    ∷ "never" ∷ "noway" ∷ [])

unfoldable pub is_word : Bytes → List Bytes → Bool
unfolding bytes_eq
is_word s [] = false
is_word s (w ∷ words) = bytes_eq s w || is_word s words

abbrev pub is_empty : Bytes → Bool
is_empty [] = true
is_empty (c ∷ s) = false

-- `none` is the error.
unfoldable pub parse_bool : Bytes → Bool → Option Bool
parse_bool text default =
    let s = trim_space (to_lower text) in
    if is_empty s
    then some default
    else if is_word s truthy_values
    then some true
    else if is_word s falsy_values
    then some false
    else none

-- `none` is the panic.
abbrev pub must_parse_bool : Bytes → Bool → Option Bool
must_parse_bool text default = parse_bool text default

unfoldable pub is_truthy : Bytes → Bool
is_truthy text = is_word (trim_space (to_lower text)) truthy_values

unfoldable pub is_falsy : Bytes → Bool
is_falsy text = is_word (trim_space (to_lower text)) falsy_values
