-- ===== src/Cache/Memory.antt =====
-- `memoryCache`: a map from prefixed keys to entries. The Go map is a list with one row for a key.
pub mod Laws
pub mod Refines
use pastebin.Base.{
  ℕ, ◌+◌, ◌≡◌, Bool, true, false, not, ◌&&◌, List, [], ◌∷◌, ◌++◌, Option, none, some, Bytes,
  bytes_eq, ltb, ◌==◌, if◌then◌else◌, find_where, delete_where, count_where,
}
use pastebin.Base.Int.{ℤ, pos, negsuc, is_positive, is_zero, pos_part}

-- `expires_at` is 0 (Go's zero time) for an entry that does not expire.
pub record Entry : Type 0 where
  pub key : Bytes
  pub value : Bytes
  pub expires_at : ℕ

pub record MemoryCache : Type 0 where
  pub entries : List Entry
  pub prefix : Bytes
  pub default_ttl : ℤ

-- The hour that `New` puts in place of a default TTL of 0, in nanoseconds.
abbrev pub hour : ℕ
hour = 3_600_000_000_000

unfoldable pub new_memory_cache : Bytes → ℤ → MemoryCache
new_memory_cache prefix ttl = record {
  entries = [];
  prefix = prefix;
  default_ttl = if is_zero ttl then pos hour else ttl;
}

abbrev pub has_key : Bytes → Entry → Bool
has_key key e = bytes_eq e.key key

-- `!e.expiresAt.IsZero() && now.After(e.expiresAt)`
unfoldable pub is_stale : ℕ → Entry → Bool
is_stale now e = not (e.expires_at == 0) && ltb e.expires_at now

-- The lookup under the read lock: the entry, if there is one.
unfoldable pub peek : Bytes → MemoryCache → Option Entry
peek key c = find_where (has_key (c.prefix ++ key)) c.entries

-- `delete(c.data, c.key(key))` under the write lock, in `Delete` and at the end of a `Get` that met a
-- stale entry.
unfoldable pub delete : Bytes → MemoryCache → MemoryCache
delete key c = record c { entries = delete_where (has_key (c.prefix ++ key)) c.entries }

-- The rest of a `Get` whose lookup found the given entry: `c` is the cache at the second lock, which other requests
-- may have changed since the lookup.
abbrev pub serve : ℕ → Bytes → MemoryCache → Option Entry → Option Bytes × MemoryCache
serve now key c none = (none, c)
serve now key c (some e) = if is_stale now e then (none, delete key c) else (some e.value, c)

-- `Get`, with nothing between its two locks; `none` is `ErrCacheMiss`.
unfoldable pub get : ℕ → Bytes → MemoryCache → Option Bytes × MemoryCache
unfolding peek
get now key c = serve now key c (peek key c)

unfoldable pub expiry : ℕ → ℤ → ℤ → ℕ
expiry now default_ttl ttl =
    let ttl' = if is_zero ttl then default_ttl else ttl in
    if is_positive ttl' then now + pos_part ttl' else 0

unfoldable pub set : ℕ → Bytes → Bytes → ℤ → MemoryCache → MemoryCache
unfolding expiry
set now key value ttl c =
    let row : Entry = record {
      key = c.prefix ++ key;
      value = value;
      expires_at = expiry now c.default_ttl ttl;
    } in
    record c { entries = row ∷ delete_where (has_key (c.prefix ++ key)) c.entries }

-- One sweep of `reaper`: the number of evicted entries, and the cache.
unfoldable pub reap : ℕ → MemoryCache → ℕ × MemoryCache
reap now c = (
  count_where (is_stale now) c.entries,
  record c { entries = delete_where (is_stale now) c.entries },
)
