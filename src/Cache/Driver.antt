-- ===== src/Cache/Driver.antt =====
-- The interface `Cache` as the handlers use it, with what they rely on, and its drivers "memory" and
-- "none". `none` is a miss or an error of the driver, which the handlers treat alike.
use mathlib.Core.Option
use pastebin.Base.{
  ℕ, ◌≡◌, ◌≢◌, ◌⊎◌, inl, inr, sym, ap, ◌∙◌, Option, none, some, arith, Bytes, bytes_eq,
  bytes_eq_iff, Bool-cases,
}
use pastebin.Base.Int.{ℤ}
use pastebin.Cache.Memory
use pastebin.Cache.Memory.{MemoryCache, Entry, is_stale, peek}
use pastebin.Cache.Memory.Laws.{
  peek-set_other, peek-delete_other, peek-delete_self, peek-set_self, peek-get,
}

pub record Driver (S : Type 0) : Type 0 where
  pub get : ℕ → Bytes → S → Option Bytes × S
  pub set : ℕ → Bytes → Bytes → ℤ → S → S
  pub delete : Bytes → S → S
  -- The value that is stored under a key, served or not.
  pub held : Bytes → S → Option Bytes
  pub get-held :
      (now : ℕ) (k : Bytes) (s : S) {v : Bytes} → (get now k s).0 ≡ some v → held k s ≡ some v
  pub held-get :
      (now : ℕ) (j k : Bytes) (s : S) {v : Bytes}
      → held j (get now k s).1 ≡ some v
      → held j s ≡ some v
  pub held-set :
      (now : ℕ) (j k x : Bytes) (ttl : ℤ) (s : S) {v : Bytes}
      → held j (set now k x ttl s) ≡ some v
      → ((j ≡ k) × (v ≡ x)) ⊎ (held j s ≡ some v)
  pub held-delete :
      (j k : Bytes) (s : S) {v : Bytes}
      → held j (delete k s) ≡ some v
      → (j ≢ k) × (held j s ≡ some v)

pub nothing_held : {v : Bytes} → none ≡ some v → ⊥
nothing_held h = cc

-- `noopCache`: every `Get` misses, and nothing is kept.
abbrev pub noop_driver : Driver (Unit {0})
noop_driver = record {
  get = λ now k s. (none, s);
  set = λ now k x ttl s. s;
  delete = λ k s. s;
  held = λ k s. none;
  get-held = λ now k s h. h;
  held-get = λ now j k s h. h;
  held-set = λ now j k x ttl s h. inr h;
  held-delete = λ j k s h. absurd (nothing_held h);
}

module _ (j k : Bytes) (c : MemoryCache) where
  pub memory_get-held :
      (now : ℕ) {v : Bytes}
      → (Memory.get now k c).0 ≡ some v
      → Option.map (λ (e : Entry). e.value) (peek k c) ≡ some v
  unfolding Memory.get peek
  memory_get-held now h = ground arith

  pub memory_held-get :
      (now : ℕ) {v : Bytes}
      → Option.map (λ (e : Entry). e.value) (peek j (Memory.get now k c).1) ≡ some v
      → Option.map (λ (e : Entry). e.value) (peek j c) ≡ some v
  memory_held-get now {v} h = elim (peek-get now j k c) [
    | inl same ↦ ap (Option.map (λ (e : Entry). e.value)) (sym same) ∙ h
    | inr gone ↦ absurd (cc (ap (Option.map (λ (e : Entry). e.value)) gone))
  ]

  pub memory_held-set :
      (now : ℕ) (x : Bytes) (ttl : ℤ) {v : Bytes}
      → Option.map (λ (e : Entry). e.value) (peek j (Memory.set now k x ttl c)) ≡ some v
      → ((j ≡ k) × (v ≡ x)) ⊎ (Option.map (λ (e : Entry). e.value) (peek j c) ≡ some v)
  memory_held-set now x ttl {v} h = elim (Bool-cases (bytes_eq j k)) [
    | inl e ↦
        let same : j ≡ k = (bytes_eq_iff j k).0 e in
        inl
          (same, cc (ap (Option.map (λ (e : Entry). e.value)) (peek-set_self now k x ttl c), same))
    | inr e ↦ inr (
        ap (Option.map (λ (e : Entry). e.value))
          (sym (peek-set_other 0 j now k x ttl c (λ same. cc (e, (bytes_eq_iff j k).1 (sym same)))))
        ∙ h)
  ]

  pub memory_held-delete :
      {v : Bytes}
      → Option.map (λ (e : Entry). e.value) (peek j (Memory.delete k c)) ≡ some v
      → (j ≢ k) × (Option.map (λ (e : Entry). e.value) (peek j c) ≡ some v)
  memory_held-delete {v} h = (
    differ,
    ap (Option.map (λ (e : Entry). e.value))
          (sym (peek-delete_other 0 j k c (λ same. differ (sym same))))
        ∙ h,
  )
    where
      differ : j ≢ k
      differ same = cc (ap (Option.map (λ (e : Entry). e.value)) (peek-delete_self 0 k c), same, h)

abbrev pub memory_driver : Driver MemoryCache
memory_driver = record {
  get = Memory.get;
  set = Memory.set;
  delete = Memory.delete;
  held = λ k c. Option.map (λ (e : Entry). e.value) (peek k c);
  get-held = λ now k c h. memory_get-held k k c now h;
  held-get = λ now j k c h. memory_held-get j k c now h;
  held-set = λ now j k x ttl c h. memory_held-set j k c now x ttl h;
  held-delete = λ j k c h. memory_held-delete j k c h;
}
