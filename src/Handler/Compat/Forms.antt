-- ===== src/Handler/Compat/Forms.antt =====
-- src/handler/compat.go: what the forms of the compatibility endpoints ask for. An error is its status; the one of
-- Stikked is a text that is sent with 200.
use pastebin.Base.{
  ℕ, suc, ◌*◌, ◌%◌, ◌^◌, ◌||◌, List, [], ◌∷◌, Option, none, some, ◌⊎◌, inl, inr, Bytes, codes,
  bytes_eq, if◌then◌else◌,
}
use pastebin.Base.Int.{ℤ, pos}
use pastebin.Base.Text.{trim_space, parse_int}
use pastebin.Model.{visibility_public, visibility_unlisted}
use pastebin.Handler.Request.{hour, first_match, from_now}
use pastebin.Handler.Compat.{Wanted}

abbrev pub pastebin_expiries : List (Bytes × ℕ)
pastebin_expiries =
    (codes "10M", 600_000_000_000)
    ∷ (codes "1H", hour)
    ∷ (codes "1D", 24 * hour)
    ∷ (codes "1W", 168 * hour)
    ∷ (codes "2W", 336 * hour)
    ∷ (codes "1M", 720 * hour)
    ∷ (codes "6M", 4320 * hour)
    ∷ (codes "1Y", 8760 * hour)
    ∷ []

unfoldable pub parse_pastebin_expiry : ℕ → Bytes → Option ℕ
parse_pastebin_expiry now code = from_now now (first_match code pastebin_expiries)

abbrev pub or_text : Bytes → Bytes
or_text lang = if bytes_eq lang [] then codes "text" else lang

abbrev pub pastebin_wanted : ℕ → Bytes → Bytes → Bytes → Bytes → Bytes → ℕ ⊎ Wanted
pastebin_wanted now content title lang priv expire =
    if bytes_eq (trim_space content) []
    then inl 400
    else inr (record {
      title = title;
      content = content;
      lang = or_text lang;
      visibility =
          if bytes_eq priv (codes "1") || bytes_eq priv (codes "2")
          then visibility_unlisted
          else visibility_public;
      burn_after = 0;
      expires_at = parse_pastebin_expiry now expire;
    })

-- A positive number times a unit, on 64 bits.
abbrev pub times_unit : ℕ → Option ℤ → Option ℕ
times_unit unit (some (pos (suc n))) = some ((suc n * unit) % 2 ^ 64)
times_unit unit _ = none

abbrev pub len_wanted : ℕ → Bytes → Bytes → Bytes → Bytes → Bytes → ℕ ⊎ Wanted
len_wanted now body title syntax expiration one_use =
    if bytes_eq (trim_space body) []
    then inl 400
    else inr (record {
      title = title;
      content = body;
      lang = or_text syntax;
      visibility = visibility_public;
      burn_after = if bytes_eq one_use (codes "true") then 1 else 0;
      expires_at = from_now now (times_unit 1_000_000_000 (parse_int expiration));
    })

abbrev pub stikked_wanted : ℕ → Bytes → Bytes → Bytes → Bytes → Bytes → ℕ ⊎ Wanted
stikked_wanted now text title lang priv expire =
    if bytes_eq (trim_space text) []
    then inl 200
    else inr (record {
      title = title;
      content = text;
      lang = or_text lang;
      visibility = if bytes_eq priv (codes "1") then visibility_unlisted else visibility_public;
      burn_after = 0;
      expires_at = from_now now (times_unit 60_000_000_000 (parse_int expire));
    })

abbrev pub hastebin_wanted : Bytes → ℕ ⊎ Wanted
hastebin_wanted body =
    if bytes_eq (trim_space body) []
    then inl 400
    else inr (record {
      title = [];
      content = body;
      lang = codes "text";
      visibility = visibility_public;
      burn_after = 0;
      expires_at = none;
    })
