-- ===== src/Database/Tokens/Ops.antt =====
-- The statements of the token operations. A hash is given as its hex digits.
use pastebin.Base.{
  ℕ, ◌+◌, Bool, false, not, ◌&&◌, ◌||◌, List, [], ◌∷◌, ◌++◌, Option, none, some, Bytes, bytes_eq,
  leb, ◌==◌, if◌then◌else◌, is_some, find_where, filter_where, delete_where, count_where,
  update_where,
}
use mathlib.Core.Option
use pastebin.Base.Sort.{order_desc}
use pastebin.Database.State.{
  Db, Token, constraint, invalid_token, token_not_found, token_revoked, token_expired,
  no_such_token, M, Result, ok, err, ◌>>=◌, return, throw, statement, ignore_error, unix,
}

abbrev pub has_hash : Bytes → Token → Bool
has_hash hash t = bytes_eq t.token_hash hash

-- INSERT; the column `token_hash` is UNIQUE.
abbrev pub insert_token : Token → Db → Option Token → Result (Unit {0}) × Db
insert_token t d (some old) = (err constraint, d)
insert_token t d none =
    (ok tt, record d { tokens = d.tokens ++ t ∷ []; next_token = d.next_token + 1 })

abbrev pub new_token : ℕ → ℕ → Bytes → Bytes → Bytes → Bytes → Option ℕ → Token
new_token id now hash prefix resource_type resource_id expires_at = record {
  id = id;
  token_hash = hash;
  token_prefix = prefix;
  resource_type = resource_type;
  resource_id = resource_id;
  created_at = unix now;
  expires_at = Option.map unix expires_at;
  last_used_at = none;
  revoked_at = none;
  revoked_reason = none;
}

unfoldable pub create_api_token : ℕ → Bytes → Bytes → Bytes → Bytes → Option ℕ → M (Unit {0})
create_api_token now hash prefix resource_type resource_id expires_at = statement λ d.
    insert_token (new_token d.next_token now hash prefix resource_type resource_id expires_at) d
      (find_where (has_hash hash) d.tokens)

-- `expiresAt.Valid && expiresAt.Int64 <= now`
abbrev pub has_lapsed : ℕ → Option ℕ → Bool
has_lapsed now none = false
has_lapsed now (some t) = leb t (unix now)

-- The checks behind the query; a token that fails one of them is refused as if it were not there.
abbrev pub check_token : ℕ → Bytes → Option Token → M ℕ
check_token now hash none = throw invalid_token
check_token now hash (some t) =
    if not (bytes_eq t.token_hash hash)
    then throw invalid_token
    else if is_some t.revoked_at
    then throw invalid_token
    else if has_lapsed now t.expires_at
    then throw invalid_token
    else return t.id

abbrev pub use_of : Bytes → Bytes → Bytes → Token → Bool
use_of hash resource_type resource_id t =
    bytes_eq t.token_hash hash
    && bytes_eq t.resource_type resource_type
    && bytes_eq t.resource_id resource_id

unfoldable pub touch_token : ℕ → ℕ → M (Unit {0})
touch_token now id = statement λ d. (
  ok tt,
  record d {
    tokens =
        update_where (λ t. t.id == id) (λ t. record t { last_used_at = some (unix now) }) d.tokens;
  },
)

unfoldable pub verify_api_token : ℕ → Bytes → Bytes → Bytes → M (Unit {0})
unfolding ignore_error touch_token
verify_api_token now hash resource_type resource_id = do
  row ← statement λ d. (ok (find_where (use_of hash resource_type resource_id) d.tokens), d)
  id ← check_token now hash row
  ignore_error (touch_token now id)

-- ORDER BY created_at DESC LIMIT 1
unfoldable pub newest : List Token → Option Token
newest rows = elim (order_desc (λ t. t.created_at) rows) [ [] ↦ none | t ∷ ts ↦ some t ]

abbrev pub check_reusable : ℕ → Bytes → Option Token → M (Unit {0})
check_reusable now hash none = throw token_not_found
check_reusable now hash (some t) =
    if not (bytes_eq t.token_hash hash)
    then throw token_not_found
    else if is_some t.revoked_at
    then throw token_revoked
    else if has_lapsed now t.expires_at
    then throw token_expired
    else return tt

abbrev pub kind_of : Bytes → Bytes → Token → Bool
kind_of hash resource_type t = bytes_eq t.token_hash hash && bytes_eq t.resource_type resource_type

unfoldable pub validate_api_token : ℕ → Bytes → Bytes → M (Unit {0})
validate_api_token now hash resource_type = do
  row ← statement λ d. (ok (newest (filter_where (kind_of hash resource_type) d.tokens)), d)
  check_reusable now hash row

abbrev pub has_active_prefix : Bytes → Token → Bool
has_active_prefix prefix t = bytes_eq t.token_prefix prefix && not (is_some t.revoked_at)

abbrev pub revoked : ℕ → Bytes → Token → Token
revoked now reason t = record t { revoked_at = some (unix now); revoked_reason = some reason }

abbrev pub revoked_rows : ℕ → Bytes → Bytes → Db → ℕ → Result (Unit {0}) × Db
revoked_rows now prefix reason d n = if n == 0 then (err no_such_token, d) else (
  ok tt,
  record d { tokens = update_where (has_active_prefix prefix) (revoked now reason) d.tokens },
)

unfoldable pub revoke_api_token : ℕ → Bytes → Bytes → M (Unit {0})
revoke_api_token now prefix reason =
    statement
      λ d. revoked_rows now prefix reason d (count_where (has_active_prefix prefix) d.tokens)

-- Every token that is not revoked, newest first; the hash is left out of the answer.
unfoldable pub list_api_tokens : M (List Token)
list_api_tokens = statement λ d. (
  ok (order_desc (λ t. t.created_at) (filter_where (λ t. not (is_some t.revoked_at)) d.tokens)),
  d,
)

abbrev pub active_or_error : Option Token → M Token
active_or_error none = throw no_such_token
active_or_error (some t) = return t

unfoldable pub get_api_token_by_prefix : Bytes → M Token
get_api_token_by_prefix prefix = do
  row ← statement λ d. (ok (find_where (has_active_prefix prefix) d.tokens), d)
  active_or_error row

-- `revoked_at IS NOT NULL OR (expires_at IS NOT NULL AND expires_at <= now)`
unfoldable pub is_dead : ℕ → Token → Bool
is_dead now t = is_some t.revoked_at || has_lapsed now t.expires_at

unfoldable pub delete_expired_api_tokens : ℕ → M ℕ
unfolding is_dead
delete_expired_api_tokens now = statement λ d. (
  ok (count_where (is_dead now) d.tokens),
  record d { tokens = delete_where (is_dead now) d.tokens },
)
