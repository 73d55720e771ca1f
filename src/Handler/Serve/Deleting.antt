-- ===== src/Handler/Serve/Deleting.antt =====
-- Who may delete a paste: the operator, or the bearer of a token that was stored for that paste.
use pastebin.Base.{
  ℕ, ◌≡◌, ◌⊎◌, inl, inr, refl, true, [], Option, none, some, arith, Bytes, codes, bytes_eq,
  Bool-cases, find_where, find-delete_self,
}
use pastebin.Database.State.{Token, Result, ok, err, statement, run_with}
use pastebin.Database.Pastes.Ops.{has_id, delete_paste}
use pastebin.Database.Tokens.Ops.{verify_api_token}
use pastebin.Database.Tokens.Laws.{IsUnique, grants, verify_sound, verify_pastes}
use pastebin.Cache.Driver.{Driver}
use pastebin.Handler.Codes.{Code}
use pastebin.Handler.Cached.{Codec, World, invalidate_paste_cache}
use pastebin.Handler.Serve.{
  query, delete_reply, delete_verified, matches, is_operator, delete_paste_request,
}

module _ {S : Type 0} (driver : Driver S) (codec : Codec) (sha256 : Bytes → Bytes)
    (operator : Option Bytes) where
  delete_reply-absent :
      (id : Bytes) (w : World S)
      → (delete_reply driver codec id (query (delete_paste id) w)).0 ≡ none
      → find_where
          (has_id id)
          (delete_reply driver codec id (query (delete_paste id) w)).1.db.pastes
        ≡ none
  unfolding delete_paste statement run_with invalidate_paste_cache
  delete_reply-absent id w h = ground (arith, find-delete_self (has_id id) w.db.pastes)

  delete_verified-absent :
      (id : Bytes) (r : Result (Unit {0}) × World S)
      → (delete_verified driver codec id r).0 ≡ none
      → (r.0 ≡ ok tt)
        × (find_where (has_id id) (delete_verified driver codec id r).1.db.pastes ≡ none)
  delete_verified-absent id (err e, w) h = cc
  delete_verified-absent id (ok u, w) h = (refl, delete_reply-absent id w h)

  -- With no hash stored twice, and whichever statements fail, the answer 200 is given only to the
  -- operator or to a token with a stored row that grants access to this paste, and after it the paste
  -- is gone.
  pub delete-authorized :
      (now : ℕ) (id token : Bytes) (w : World S)
      → IsUnique w.db.tokens
      → (delete_paste_request driver codec sha256 operator now id token w).0 ≡ none
      → ((is_operator driver codec sha256 operator token ≡ true)
          ⊎ ((t : Token) × (find_where (grants now (sha256 token) (codes "paste") id) w.db.tokens
                ≡ some t)))
        × (find_where
              (has_id id)
              (delete_paste_request driver codec sha256 operator now id token w).1.db.pastes
            ≡ none)
  unfolding delete_paste_request
  delete-authorized now id token w u h = elim (Bool-cases (bytes_eq token [])) [
    | inl empty ↦ absurd (cc (rw empty at h))
    | inr given ↦ elim (Bool-cases (matches operator (sha256 token))) [
      | inl e ↦ (inl e, rw (given, e) (delete_reply-absent id w (rw (given, e) at h)))
      | inr e ↦
          let (accepted, absent) =
            delete_verified-absent id
              (query (verify_api_token now (sha256 token) (codes "paste") id) w)
              (rw (given, e) at h) in
          (
            inr (verify_sound now (sha256 token) (codes "paste") id w.db u accepted),
            rw (given, e) absent,
          )
    ]
  ]

  -- Any other answer leaves every stored paste as it was.
  pub delete-refused :
      (now : ℕ) (id token : Bytes) (w : World S) {code : Code}
      → (delete_paste_request driver codec sha256 operator now id token w).0 ≡ some code
      → (delete_paste_request driver codec sha256 operator now id token w).1.db.pastes ≡ w.db.pastes
  unfolding delete_paste_request delete_paste statement run_with invalidate_paste_cache
  delete-refused now id token w {code} h =
      ground (arith, verify_pastes now (sha256 token) (codes "paste") id w.db)
