-- ===== src/Cache/Memory/Laws.antt =====
-- What `Get` answers behind `Set`, `Delete`, a sweep of the reaper, and a race with another `Set`.
use Prim.Native.Nat.{◌≤◌}
use mathlib.Core.List.{append_cancel_left}
use pastebin.Base.{
  ℕ, ◌≡◌, ◌≢◌, ◌⊎◌, refl, sym, ap, ◌∙◌, true, false, not, ◌&&◌, List, [], ◌∷◌, ◌++◌, Option, none,
  some, arith, Bytes, bytes_eq, bytes_eq_iff, bytes_eq_refl, ltb, ◌==◌, if◌then◌else◌, Bool-cases,
  inl, inr, find_where, delete_where, find-delete_self, find-delete_other, find-delete_none,
}
use pastebin.Base.Int.{ℤ}
use pastebin.Cache.Memory.{
  Entry, MemoryCache, has_key, is_stale, peek, delete, serve, get, set, expiry, reap,
}

module _ (now : ℕ) (key : Bytes) where
  -- A value is served from the instant it was set to its expiry; at a TTL of 0 that of the default,
  -- and for ever where the TTL in force is negative. After its expiry the key is missed.
  pub get-set_self :
      (set_at : ℕ) (value : Bytes) (ttl : ℤ) (c : MemoryCache)
      → (get now key (set set_at key value ttl c)).0 ≡ (
          if not (expiry set_at c.default_ttl ttl == 0) && ltb (expiry set_at c.default_ttl ttl) now
          then none
          else some value)
  unfolding get set peek is_stale find_where
  get-set_self set_at value ttl c = ground (arith, bytes_eq_refl (c.prefix ++ key))

  apart :
      (c : MemoryCache) (other : Bytes)
      → other ≢ key
      → (e : Entry) → has_key (c.prefix ++ key) e ≡ true
      → has_key (c.prefix ++ other) e ≡ false
  apart c other ne e h = ground (
    arith,
    bytes_eq_iff e.key (c.prefix ++ key),
    bytes_eq_iff e.key (c.prefix ++ other),
    λ (same : c.prefix ++ other ≡ c.prefix ++ key). ne (append_cancel_left c.prefix other key same),
  )

  pub peek-delete_other :
      (other : Bytes) (c : MemoryCache) → other ≢ key → peek key (delete other c) ≡ peek key c
  unfolding peek delete
  peek-delete_other other c ne =
      find-delete_other (has_key (c.prefix ++ other)) (has_key (c.prefix ++ key)) (apart c other ne)
        c.entries

  pub peek-set_other :
      (set_at : ℕ) (other value : Bytes) (ttl : ℤ) (c : MemoryCache)
      → other ≢ key
      → peek key (set set_at other value ttl c) ≡ peek key c
  unfolding peek set find_where
  peek-set_other set_at other value ttl c ne = ground (
    arith,
    bytes_eq_iff (c.prefix ++ other) (c.prefix ++ key),
    λ (same : c.prefix ++ other ≡ c.prefix ++ key). ne (append_cancel_left c.prefix other key same),
    find-delete_other (has_key (c.prefix ++ other)) (has_key (c.prefix ++ key)) (apart c other ne)
        c.entries,
  )

  -- The answer of `Get` for what its lookup found.
  fresh : Option Entry → Option Bytes
  fresh none = none
  fresh (some e) = if is_stale now e then none else some e.value

  get-fresh : (c : MemoryCache) → (get now key c).0 ≡ fresh (peek key c)
  unfolding get fresh
  get-fresh c = ground arith

  -- Storing or deleting under another key changes no answer.
  pub get-other :
      (set_at : ℕ) (other value : Bytes) (ttl : ℤ) (c : MemoryCache)
      → other ≢ key
      → ((get now key (set set_at other value ttl c)).0 ≡ (get now key c).0)
        × ((get now key (delete other c)).0 ≡ (get now key c).0)
  get-other set_at other value ttl c ne = (
    get-fresh _ ∙ ap fresh (peek-set_other set_at other value ttl c ne) ∙ sym (get-fresh c),
    get-fresh _ ∙ ap fresh (peek-delete_other other c ne) ∙ sym (get-fresh c),
  )

  pub peek-delete_self : (c : MemoryCache) → peek key (delete key c) ≡ none
  unfolding peek delete
  peek-delete_self c = find-delete_self (has_key (c.prefix ++ key)) c.entries

  -- A deleted key is missed.
  pub get-delete_self : (c : MemoryCache) → (get now key (delete key c)).0 ≡ none
  unfolding fresh
  get-delete_self c = get-fresh _ ∙ rw (peek-delete_self c) refl

-- The Go map holds a key once.
abbrev pub IsKeyed : List Entry → Type 0
IsKeyed [] = Unit
IsKeyed (e ∷ rows) = (find_where (has_key e.key) rows ≡ none) × IsKeyed rows

module _ (now swept : ℕ) (key : Bytes) where
  fresh_reaped :
      (full : Bytes) (rows : List Entry)
      → swept ≤ now
      → IsKeyed rows
      → fresh now key (find_where (has_key full) (delete_where (is_stale swept) rows))
        ≡ fresh now key (find_where (has_key full) rows)
  unfolding fresh find_where delete_where is_stale
  fresh_reaped full [] le u = refl
  fresh_reaped full (e ∷ rows) le (k, u) = elim (Bool-cases (has_key full e)) [
    | inl here ↦
        let same : e.key ≡ full = (bytes_eq_iff e.key full).0 here in
        let rest : find_where (has_key full) (delete_where (is_stale swept) rows) ≡ none =
          find-delete_none (is_stale swept) (has_key full) rows (rw same at k) in
        ground (arith, rest)
    | inr there ↦ ground (arith, fresh_reaped full rows le u)
  ]

  -- In a cache that holds a key once, a sweep of the reaper changes no answer of a `Get` at that
  -- instant or later.
  pub get-reap :
      (c : MemoryCache)
      → swept ≤ now
      → IsKeyed c.entries
      → (get now key (reap swept c).1).0 ≡ (get now key c).0
  unfolding reap peek
  get-reap c le u =
      get-fresh now key _
      ∙ fresh_reaped (c.prefix ++ key) c.entries le u
      ∙ sym (get-fresh now key c)

pub peek-set_self :
    (now : ℕ) (key value : Bytes) (ttl : ℤ) (c : MemoryCache)
    → peek key (set now key value ttl c)
      ≡ some (record {
        key = c.prefix ++ key;
        value = value;
        expires_at = expiry now c.default_ttl ttl;
      })
unfolding peek set find_where
peek-set_self now key value ttl c = ground (arith, bytes_eq_refl (c.prefix ++ key))

-- A `Get` leaves what is stored under a key, or deletes it.
pub peek-get :
    (now : ℕ) (j k : Bytes) (c : MemoryCache)
    → (peek j (get now k c).1 ≡ peek j c) ⊎ (peek j (get now k c).1 ≡ none)
unfolding get
peek-get now j k c = elim (Bool-cases (bytes_eq j k)) [
  | inl e ↦
      let same : j ≡ k = (bytes_eq_iff j k).0 e in
      rw same (ground (arith, peek-delete_self now k c))
  | inr e ↦ inl (
      ground (
        arith,
        bytes_eq_iff j k,
        peek-delete_other now j k c (λ same. cc (e, (bytes_eq_iff j k).1 (sym same))),
      ))
]

-- A `Get` looks a key up under the read lock and finds a stale entry in `c`. Before it takes the write lock, other
-- requests make any cache of it, and one stores a value under the key that is fresh for longer: a `Get` would be
-- served that value. But the rest of the first `Get` answers a miss and deletes the value, so that it is missed.
pub stored_entry_lost :
    (now set_at later : ℕ) (key value : Bytes) (ttl : ℤ) (c between : MemoryCache) {e : Entry}
    → peek key c ≡ some e
    → is_stale now e ≡ true
    → later ≤ expiry set_at between.default_ttl ttl
    → ((get later key (set set_at key value ttl between)).0 ≡ some value)
      × ((serve now key (set set_at key value ttl between) (peek key c)).0 ≡ none)
      × ((get later key (serve now key (set set_at key value ttl between) (peek key c)).1).0 ≡ none)
stored_entry_lost now set_at later key value ttl c between {e} found stale fresh_until =
    let stored = set set_at key value ttl between in
    let rest : serve now key stored (peek key c) ≡ (none, delete key stored) =
      simp (found, stale) refl in
    (
      get-set_self later key set_at value ttl between ∙ ground arith,
      ap (λ r. r.0) rest,
      ap (λ r. (get later key r.1).0) rest ∙ get-delete_self later key stored,
    )
