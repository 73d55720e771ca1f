-- ===== src/Cache/Memory/Refines.antt =====
-- The cache against a map with expiries that never evicts: the answers of a run.
use pastebin.Base.{
  ℕ, ◌≤◌, ◌≡◌, refl, sym, ap, ◌∙◌, Bool, true, not, ◌&&◌, List, [], ◌∷◌, ◌++◌, Option, none, some,
  inl, inr, arith, Bytes, bytes_eq, bytes_eq_iff, ltb, ◌==◌, if◌then◌else◌, find_where,
  delete_where, find-delete_self, find-delete_none, Bool-cases,
}
use mathlib.Core.Path.{subst}
use pastebin.Base.Int.{ℤ, pos, is_zero}
use pastebin.Cache.Memory.{
  Entry, MemoryCache, has_key, is_stale, peek, delete, serve, get, expiry, set, reap, hour,
  new_memory_cache,
}
use pastebin.Cache.Memory.Laws.{IsKeyed, get-set_self, get-other, get-delete_self, get-reap}

-- The abstract store: for every key, the value and the expiry that were set last, 0 for no expiry.
abbrev pub Store : Type 0
Store = Bytes → Option (Bytes × ℕ)

-- A value is answered up to its expiry.
abbrev pub answer_at : ℕ → Option (Bytes × ℕ) → Option Bytes
answer_at now none = none
answer_at now (some (value, t)) = if not (t == 0) && ltb t now then none else some value

abbrev pub put : Bytes → Option (Bytes × ℕ) → Store → Store
put k o s = λ j. if bytes_eq j k then o else s j

-- A call of the cache; `sweep` is a round of the reaper.
pub data CacheCall : Type 0 where
  lookup : Bytes → CacheCall
  store : Bytes → Bytes → ℤ → CacheCall
  remove : Bytes → CacheCall
  sweep : CacheCall

-- A call at an instant: the answer of a lookup, none for the other calls, and the cache.
unfoldable pub step : ℕ → CacheCall → MemoryCache → Option Bytes × MemoryCache
unfolding get set delete reap
step now (lookup k) c = get now k c
step now (store k v ttl) c = (none, set now k v ttl c)
step now (remove k) c = (none, delete k c)
step now sweep c = (none, (reap now c).1)

unfoldable pub run_cache : List (ℕ × CacheCall) → MemoryCache → List (Option Bytes)
unfolding step
run_cache [] c = []
run_cache ((now, call) ∷ calls) c = let r = step now call c in r.0 ∷ run_cache calls r.1

module _ (default_ttl : ℤ) where
  -- The same calls of the abstract store.
  unfoldable pub step_store : ℕ → CacheCall → Store → Option Bytes × Store
  unfolding expiry
  step_store now (lookup k) s = (answer_at now (s k), s)
  step_store now (store k v ttl) s = (none, put k (some (v, expiry now default_ttl ttl)) s)
  step_store now (remove k) s = (none, put k none s)
  step_store now sweep s = (none, s)

  unfoldable pub run_store : List (ℕ × CacheCall) → Store → List (Option Bytes)
  unfolding step_store
  run_store [] s = []
  run_store ((now, call) ∷ calls) s = let r = step_store now call s in r.0 ∷ run_store calls r.1

-- The instants of a run do not go back.
abbrev pub IsTimed : ℕ → List (ℕ × CacheCall) → Type 0
IsTimed from [] = Unit
IsTimed from ((now, call) ∷ calls) = (from ≤ now) × IsTimed now calls

stale_later :
    (now later : ℕ) (e : Entry) → now ≤ later → is_stale now e ≡ true → is_stale later e ≡ true
unfolding is_stale
stale_later now later e le h = ground arith

stale_missed :
    (later : ℕ) (k : Bytes) (c : MemoryCache) {e : Entry}
    → peek k c ≡ some e
    → is_stale later e ≡ true
    → (get later k c).0 ≡ none
unfolding get
stale_missed later k c h stale = rw (h, stale) refl

-- The eviction at the end of a `Get` changes no answer of that instant or later.
evicted-get :
    (now later : ℕ) (j k : Bytes) (c : MemoryCache) {e : Entry}
    → now ≤ later
    → peek k c ≡ some e
    → is_stale now e ≡ true
    → (get later j (delete k c)).0 ≡ (get later j c).0
evicted-get now later j k c {e} le h stale = elim (Bool-cases (bytes_eq j k)) [
  | inl i ↦
      let same : j ≡ k = (bytes_eq_iff j k).0 i in
      rw same (
        get-delete_self later k c
        ∙ sym (stale_missed later k c {e = e} h (stale_later now later e le stale)))
  | inr i ↦
      (get-other later j 0 k [] c.default_ttl c (λ same. cc (i, (bytes_eq_iff j k).1 (sym same)))).1
]

served-get :
    (now later : ℕ) (j k : Bytes) (c : MemoryCache) (o : Option Entry)
    → now ≤ later
    → peek k c ≡ o
    → (get later j (serve now k c o).1).0 ≡ (get later j c).0
served-get now later j k c none le h = refl
served-get now later j k c (some e) le h = elim (Bool-cases (is_stale now e)) [
  | inl stale ↦ rw stale (evicted-get now later j k c {e = e} le h stale)
  | inr fresh ↦ rw fresh refl
]

IsKeyed-delete :
    (p : Entry → Bool) (rows : List Entry) → IsKeyed rows → IsKeyed (delete_where p rows)
unfolding delete_where
IsKeyed-delete p [] u = tt
IsKeyed-delete p (e ∷ rows) (k, u) = elim (Bool-cases (p e)) [
  | inl h ↦ rw h (IsKeyed-delete p rows u)
  | inr h ↦ rw h (find-delete_none p (has_key e.key) rows k, IsKeyed-delete p rows u)
]

module _ (default_ttl : ℤ) where
  -- From an instant on, the cache answers as the store.
  record Agrees (now : ℕ) (c : MemoryCache) (s : Store) : Type 0 where
    pub ttl : c.default_ttl ≡ default_ttl
    pub keyed : IsKeyed c.entries
    pub same :
        (key : Bytes) (later : ℕ) → now ≤ later → (get later key c).0 ≡ answer_at later (s key)

  serve-keeps :
      (now : ℕ) (k : Bytes) (c : MemoryCache) (o : Option Entry)
      → IsKeyed c.entries
      → ((serve now k c o).1.default_ttl ≡ c.default_ttl) × IsKeyed (serve now k c o).1.entries
  unfolding delete
  serve-keeps now k c none u = (refl, u)
  serve-keeps now k c (some e) u = elim (Bool-cases (is_stale now e)) [
    | inl stale ↦ rw stale (refl, IsKeyed-delete (has_key (c.prefix ++ k)) c.entries u)
    | inr fresh ↦ rw fresh (refl, u)
  ]

  lookup-Agrees :
      (now : ℕ) (k : Bytes) (c : MemoryCache) (s : Store)
      → Agrees now c s
      → Agrees now (get now k c).1 s
  unfolding get
  lookup-Agrees now k c s a =
      let (ttl, keyed) = serve-keeps now k c (peek k c) a.keyed in
      record {
        ttl = ttl ∙ a.ttl;
        keyed = keyed;
        same =
            λ key later le. served-get now later key k c (peek k c) le refl ∙ a.same key later le;
      }

  store-Agrees :
      (now : ℕ) (k v : Bytes) (ttl : ℤ) (c : MemoryCache) (s : Store)
      → Agrees now c s
      → Agrees now (set now k v ttl c) (put k (some (v, expiry now default_ttl ttl)) s)
  store-Agrees now k v ttl c s a = record {
    ttl = unfold set in a.ttl;
    keyed =
        unfold set in
        (
          find-delete_self (has_key (c.prefix ++ k)) c.entries,
          IsKeyed-delete (has_key (c.prefix ++ k)) c.entries a.keyed,
        );
    same = λ key later le. elim (Bool-cases (bytes_eq key k)) [
      | inl i ↦ rw i (
          subst
            (λ j.
              (get later j (set now k v ttl c)).0
              ≡ answer_at later (some (v, expiry now default_ttl ttl)))
            (sym ((bytes_eq_iff key k).0 i)) (get-set_self later k now v ttl c ∙ rw (a.ttl) refl))
      | inr i ↦ rw i (
          (get-other later key now k v ttl c (λ e. cc (i, (bytes_eq_iff key k).1 (sym e)))).0
          ∙ a.same key later le)
    ];
  }

  remove-Agrees :
      (now : ℕ) (k : Bytes) (c : MemoryCache) (s : Store)
      → Agrees now c s
      → Agrees now (delete k c) (put k none s)
  remove-Agrees now k c s a = record {
    ttl = unfold delete in a.ttl;
    keyed = unfold delete in IsKeyed-delete (has_key (c.prefix ++ k)) c.entries a.keyed;
    same = λ key later le. elim (Bool-cases (bytes_eq key k)) [
      | inl i ↦ rw i (
          subst (λ j. (get later j (delete k c)).0 ≡ none) (sym ((bytes_eq_iff key k).0 i))
            (get-delete_self later k c))
      | inr i ↦ rw i (
          (get-other later key now k [] default_ttl c
            (λ e. cc (i, (bytes_eq_iff key k).1 (sym e)))).1
          ∙ a.same key later le)
    ];
  }

  sweep-Agrees :
      (now : ℕ) (c : MemoryCache) (s : Store) → Agrees now c s → Agrees now (reap now c).1 s
  sweep-Agrees now c s a = record {
    ttl = unfold reap in a.ttl;
    keyed = unfold reap in IsKeyed-delete (is_stale now) c.entries a.keyed;
    same = λ key later le. get-reap later now key c le a.keyed ∙ a.same key later le;
  }

  later-Agrees :
      (now later : ℕ) (c : MemoryCache) (s : Store)
      → now ≤ later
      → Agrees now c s
      → Agrees later c s
  later-Agrees now later c s le a = record {
    ttl = a.ttl;
    keyed = a.keyed;
    same = λ key x h. a.same key x (omega arith);
  }

  step-Agrees :
      (now : ℕ) (call : CacheCall) (c : MemoryCache) (s : Store)
      → Agrees now c s
      → ((step now call c).0 ≡ (step_store default_ttl now call s).0)
        × Agrees now (step now call c).1 (step_store default_ttl now call s).1
  unfolding step step_store
  step-Agrees now (lookup k) c s a = (a.same k now (omega arith), lookup-Agrees now k c s a)
  step-Agrees now (store k v ttl) c s a = (refl, store-Agrees now k v ttl c s a)
  step-Agrees now (remove k) c s a = (refl, remove-Agrees now k c s a)
  step-Agrees now sweep c s a = (refl, sweep-Agrees now c s a)

  run-Agrees :
      (from : ℕ) (calls : List (ℕ × CacheCall)) (c : MemoryCache) (s : Store)
      → IsTimed from calls
      → Agrees from c s
      → run_cache calls c ≡ run_store default_ttl calls s
  unfolding run_cache run_store
  run-Agrees from [] c s timed a = refl
  run-Agrees from ((now, call) ∷ calls) c s (le, timed) a =
      let (answer, next) = step-Agrees now call c s (later-Agrees from now c s le a) in
      ap (λ x. x ∷ run_cache calls (step now call c).1) answer
      ∙ ap (λ l. (step_store default_ttl now call s).0 ∷ l)
          (run-Agrees now calls (step now call c).1 (step_store default_ttl now call s).1 timed
            next)

-- The cache implements the store that keeps every value up to its expiry: whatever calls are made of a new
-- cache, lookups, stores, deletes and rounds of the reaper, at instants that do not go back, each is answered as
-- the store answers it. What a lookup or the reaper evicts is never seen.
pub run_cache-run_store :
    (prefix : Bytes) (ttl : ℤ) (from : ℕ) (calls : List (ℕ × CacheCall))
    → IsTimed from calls
    → run_cache calls (new_memory_cache prefix ttl)
      ≡ run_store (if is_zero ttl then pos hour else ttl) calls (λ key. none)
unfolding new_memory_cache get peek find_where
run_cache-run_store prefix ttl from calls timed =
    run-Agrees (if is_zero ttl then pos hour else ttl) from calls (new_memory_cache prefix ttl)
      (λ key. none) timed (record { ttl = refl; keyed = tt; same = λ key later le. refl })
