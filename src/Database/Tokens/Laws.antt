-- ===== src/Database/Tokens/Laws.antt =====
-- Who is let in: the answers of `VerifyAPIToken`, before and after the other token operations.
use pastebin.Base.{
  ℕ, ◌≡◌, ◌≢◌, ◌⊎◌, inl, inr, refl, sym, ◌∙◌, ap, Bool, true, false, not, ◌&&◌, ◌||◌, List, [], ◌∷◌,
  Option, none, some, arith, Bytes, bytes_eq, bytes_eq_iff, if◌then◌else◌, is_some, Bool-cases,
  Option-cases, find-delete_other, find_where, delete_where, update_where, find-delete_none,
  find-update,
}
use pastebin.Database.State.{
  Db, Token, constraint, invalid_token, Result, ok, err, statement, run_with, ignore_error,
}
use pastebin.Database.Tokens.Ops.{
  has_hash, create_api_token, has_lapsed, use_of, touch_token, verify_api_token, has_active_prefix,
  revoked, revoke_api_token, is_dead, delete_expired_api_tokens,
}

-- The column `token_hash` is UNIQUE.
abbrev pub IsUnique : List Token → Type 0
IsUnique [] = Unit
IsUnique (t ∷ rows) = (find_where (has_hash t.token_hash) rows ≡ none) × IsUnique rows

IsUnique-delete :
    (dead : Token → Bool) (rows : List Token) → IsUnique rows → IsUnique (delete_where dead rows)
unfolding delete_where
IsUnique-delete dead [] u = tt
IsUnique-delete dead (t ∷ rows) (k, u) = elim (Bool-cases (dead t)) [
  | inl e ↦ rw e (IsUnique-delete dead rows u)
  | inr e ↦ rw e (find-delete_none dead (has_hash t.token_hash) rows k, IsUnique-delete dead rows u)
]

-- Access to a resource: a stored row for the hash and the resource, neither revoked nor lapsed.
unfoldable pub grants : ℕ → Bytes → Bytes → Bytes → Token → Bool
grants now hash kind id t =
    use_of hash kind id t && not (is_some t.revoked_at || has_lapsed now t.expires_at)

abbrev pub answer : Option Token → Result (Unit {0})
answer none = err invalid_token
answer (some t) = ok tt

module _ (now : ℕ) (hash kind id : Bytes) where
  -- What a stored table says of a token, with no failure of the engine.
  unfoldable pub verdict : List Token → Result (Unit {0})
  verdict rows = answer (find_where (grants now hash kind id) rows)

  pub no_use :
      (rows : List Token)
      → find_where (has_hash hash) rows ≡ none
      → find_where (grants now hash kind id) rows ≡ none
  unfolding find_where grants
  no_use [] h = refl
  no_use (t ∷ rows) h = ground (arith, no_use rows)

  verify_cases :
      (rows : List Token)
      → IsUnique rows
      → ((find_where (use_of hash kind id) rows ≡ none)
          × (find_where (grants now hash kind id) rows ≡ none))
        ⊎ ((t : Token) × (find_where (use_of hash kind id) rows ≡ some t)
            × (bytes_eq t.token_hash hash ≡ true)
            × (find_where (grants now hash kind id) rows
                ≡ (if is_some t.revoked_at || has_lapsed now t.expires_at then none else some t)))
  unfolding find_where grants
  verify_cases [] u = inl (refl, refl)
  verify_cases (t ∷ rows) (k, u) = elim (Bool-cases (use_of hash kind id t)) [
    | inl e ↦
        let same : t.token_hash ≡ hash = ground (arith, bytes_eq_iff t.token_hash hash) in
        let none_left : find_where (grants now hash kind id) rows ≡ none =
          no_use rows (rw same at k) in
        inr (t, ground arith, ground arith, ground arith)
    | inr e ↦ rw e (verify_cases rows u)
  ]

  -- With no failure of the engine and no hash stored twice, a token is accepted for a resource exactly
  -- when a row of the table has its hash and that resource, is not revoked and has not lapsed; else
  -- the answer is the one error `invalid_token`, whatever the reason.
  pub verify-verdict :
      (d : Db)
      → IsUnique d.tokens
      → d.faults ≡ []
      → (verify_api_token now hash kind id d).0 ≡ verdict d.tokens
  unfolding verify_api_token verdict statement run_with ignore_error
  verify-verdict d u healthy = elim (verify_cases d.tokens u) [
    | inl (a, b) ↦ ground arith
    | inr (t, a, b, c) ↦ ground arith
  ]

  verdict_sound :
      (rows : List Token)
      → verdict rows ≡ ok tt
      → (t : Token) × (find_where (grants now hash kind id) rows ≡ some t)
  unfolding verdict
  verdict_sound rows h = elim (Option-cases (find_where (grants now hash kind id) rows)) [
    | inl e ↦ absurd (ground arith)
    | inr found ↦ found
  ]

  -- The clean-up of dead tokens, run at the instant of a check, changes no answer.
  pub verdict-cleanup :
      (rows : List Token) → verdict (delete_where (is_dead now) rows) ≡ verdict rows
  unfolding verdict
  verdict-cleanup rows =
      ap answer (find-delete_other (is_dead now) (grants now hash kind id) apart rows)
    where
      apart : (t : Token) → grants now hash kind id t ≡ true → is_dead now t ≡ false
      apart t h = unfold grants is_dead in ground arith

  revoked-none :
      (instant : ℕ) (prefix reason : Bytes) (rows : List Token) {t : Token}
      → IsUnique rows
      → find_where (has_hash hash) rows ≡ some t
      → t.token_prefix ≡ prefix
      → find_where
          (grants now hash kind id)
          (update_where (has_active_prefix prefix) (revoked instant reason) rows)
        ≡ none
  unfolding find_where update_where grants
  revoked-none instant prefix reason [] u found same = cc
  revoked-none instant prefix reason (x ∷ rows) {t} (k, u) found same =
      elim (Bool-cases (has_hash hash x)) [
        | inl e ↦
            let here : x.token_hash ≡ hash = (bytes_eq_iff x.token_hash hash).0 e in
            let rest =
              no_use (update_where (has_active_prefix prefix) (revoked instant reason) rows) (
                find-update (has_active_prefix prefix) (has_hash hash) (revoked instant reason)
                  (λ y. refl) rows
                ∙ rw (rw here at k) refl) in
            ground (arith, rest, bytes_eq_iff x.token_prefix prefix)
        | inr e ↦
            ground (arith, revoked-none instant prefix reason rows {t = t} u (ground arith) same)
      ]

  -- A stored token, its hash stored once, whose prefix has been revoked with success, is refused at any
  -- instant for any resource by the table that the revocation leaves.
  pub revoke-verdict :
      (instant : ℕ) (prefix reason : Bytes) (d : Db) {t : Token}
      → IsUnique d.tokens
      → find_where (has_hash hash) d.tokens ≡ some t
      → t.token_prefix ≡ prefix
      → (revoke_api_token instant prefix reason d).0 ≡ ok tt
      → verdict (revoke_api_token instant prefix reason d).1.tokens ≡ err invalid_token
  unfolding verdict revoke_api_token statement run_with
  revoke-verdict instant prefix reason d {t} u found same done =
      ground (arith, revoked-none instant prefix reason d.tokens {t = t} u found same)

  other_none :
      (rows : List Token) {t : Token}
      → IsUnique rows
      → find_where (has_hash hash) rows ≡ some t
      → t.resource_id ≢ id
      → find_where (grants now hash kind id) rows ≡ none
  unfolding find_where grants
  other_none [] u found other = refl
  other_none (x ∷ rows) {t} (k, u) found other = elim (Bool-cases (has_hash hash x)) [
    | inl e ↦
        let here : x.token_hash ≡ hash = (bytes_eq_iff x.token_hash hash).0 e in
        let rest = no_use rows (rw here at k) in ground (arith, rest, bytes_eq_iff x.resource_id id)
    | inr e ↦ ground (arith, other_none rows {t = t} u (ground arith) other)
  ]

  -- An owner token cannot be linked to a second paste: with no failure of the engine, and its hash
  -- stored once, for one resource, the insert for another is refused by the UNIQUE column and changes
  -- nothing, and the token is refused for that other resource.
  pub reused_token_refused :
      (instant : ℕ) (prefix : Bytes) (expires_at : Option ℕ) (d : Db) {t : Token}
      → IsUnique d.tokens
      → d.faults ≡ []
      → find_where (has_hash hash) d.tokens ≡ some t
      → t.resource_id ≢ id
      → (create_api_token instant hash prefix kind id expires_at d ≡ (err constraint, d))
        × ((verify_api_token now hash kind id d).0 ≡ err invalid_token)
  unfolding verdict
  reused_token_refused instant prefix expires_at d {t} u healthy found other = (
    unfold create_api_token statement run_with in ground arith,
    verify-verdict d u healthy ∙ ap answer (other_none d.tokens {t = t} u found other),
  )

cleanup_tokens :
    (now : ℕ) (d : Db)
    → d.faults ≡ []
    → (delete_expired_api_tokens now d).1
      ≡ record d { tokens = delete_where (is_dead now) d.tokens }
unfolding delete_expired_api_tokens statement run_with
cleanup_tokens now d healthy = ground arith

-- With no failure of the engine and no hash stored twice, the clean-up of dead tokens, run at the
-- instant of a check, changes no answer of `VerifyAPIToken`: a token that it deletes was refused
-- already, with the same error.
pub verify-cleanup :
    (now : ℕ) (hash kind id : Bytes) (d : Db)
    → IsUnique d.tokens
    → d.faults ≡ []
    → (verify_api_token now hash kind id (delete_expired_api_tokens now d).1).0
      ≡ (verify_api_token now hash kind id d).0
verify-cleanup now hash kind id d u healthy = rw (cleanup_tokens now d healthy) (
    verify-verdict now hash kind id (record d { tokens = delete_where (is_dead now) d.tokens })
      (IsUnique-delete (is_dead now) d.tokens u) healthy
    ∙ verdict-cleanup now hash kind id d.tokens
    ∙ sym (verify-verdict now hash kind id d u healthy))

-- With no hash stored twice, and whichever statements fail, a token is accepted only if a stored row
-- grants the access.
pub verify_sound :
    (now : ℕ) (hash kind id : Bytes) (d : Db)
    → IsUnique d.tokens
    → (verify_api_token now hash kind id d).0 ≡ ok tt
    → (t : Token) × (find_where (grants now hash kind id) d.tokens ≡ some t)
unfolding verify_api_token statement run_with ignore_error
verify_sound now hash kind id d u h = elim (verify_cases now hash kind id d.tokens u) [
  | inl (a, b) ↦ absurd (ground arith)
  | inr (t, a, b, c) ↦ (t, ground arith)
]

-- Checking a token touches no paste.
pub verify_pastes :
    (now : ℕ) (hash kind id : Bytes) (d : Db)
    → (verify_api_token now hash kind id d).1.pastes ≡ d.pastes
unfolding verify_api_token statement run_with ignore_error touch_token
verify_pastes now hash kind id d = ground arith
