-- ===== src/RateLimit/Sweep.antt =====
-- What a round of `gc` changes for the clients: nothing.
use pastebin.Base.{
  ℕ, ◌-◌, ◌≤◌, ◌≡◌, refl, sym, ◌∙◌, false, not, List, [], ◌∷◌, none, arith, Bytes, bytes_eq_iff,
  inl, inr, Bool-cases, find_where, filter_where, delete_where, find-delete_none,
}
use pastebin.RateLimit.{
  unexpired, bucket_allow, Bucket, RateLimiter, has_ip, requests_of, limiter_allow, is_active, gc,
}

-- The Go map holds an address once.
abbrev pub IsKeyed : List Bucket → Type 0
IsKeyed [] = Unit
IsKeyed (b ∷ rows) = (find_where (has_ip b.ip) rows ≡ none) × IsKeyed rows

unexpired_idle :
    (window swept now : ℕ) (requests : List ℕ)
    → swept ≤ now
    → is_active (swept - window) requests ≡ false
    → unexpired window now requests ≡ []
unfolding unexpired is_active filter_where find_where
unexpired_idle window swept now [] le h = refl
unexpired_idle window swept now (t ∷ ts) le h =
    ground (arith, unexpired_idle window swept now ts le)

unexpired_nil : (window now : ℕ) → unexpired window now [] ≡ []
unfolding unexpired filter_where
unexpired_nil window now = refl

module _ (window swept now : ℕ) (ip : Bytes) where
  unexpired_swept :
      (rows : List Bucket)
      → swept ≤ now
      → IsKeyed rows
      → unexpired window now (
          requests_of (
            find_where
              (has_ip ip)
              (delete_where (λ b. not (is_active (swept - window) b.requests)) rows)))
        ≡ unexpired window now (requests_of (find_where (has_ip ip) rows))
  unfolding find_where delete_where
  unexpired_swept [] le u = refl
  unexpired_swept (b ∷ rows) le (k, u) = elim (Bool-cases (has_ip ip b)) [
    | inl here ↦
        let same : b.ip ≡ ip = (bytes_eq_iff b.ip ip).0 here in
        let rest =
          find-delete_none (λ b'. not (is_active (swept - window) b'.requests)) (has_ip ip) rows
            (rw same at k) in
        elim (Bool-cases (is_active (swept - window) b.requests)) [
          | inl active ↦ rw (active, here) refl
          | inr idle ↦
              rw (idle, here, rest)
                (unexpired_nil window now
                  ∙ sym (unexpired_idle window swept now b.requests le idle))
        ]
    | inr there ↦ ground (arith, unexpired_swept rows le u)
  ]

-- In a limiter that holds an address once, a round of `gc` changes no answer, at that instant or later,
-- for any address.
pub allow-gc :
    (swept now stamp : ℕ) (ip : Bytes) (rl : RateLimiter)
    → swept ≤ now
    → IsKeyed rl.buckets
    → (limiter_allow now stamp ip (gc swept rl)).0 ≡ (limiter_allow now stamp ip rl).0
unfolding limiter_allow gc bucket_allow
allow-gc swept now stamp ip rl le u =
    ground (arith, unexpired_swept rl.window swept now ip rl.buckets le u)
