-- ===== src/Server/Report/Stored.antt =====
-- What is stored of a report.
use mathlib.Core.Path.{subst}
use pastebin.Server.Disclosure.{
  ReportTable, create_security_report, answered, submitted, handle_security_report,
}
use pastebin.Base.{
  ℕ, ◌⊎◌, Bool, true, ◌≡◌, inl, inr, refl, sym, ap, ◌∙◌, false, Option, none, some, List, [], ◌∷◌,
  ◌++◌, Bytes, codes, bytes_eq, arith, if◌then◌else◌, ltb, ◌==◌, take, drop, length, length-append,
  Bool-cases,
}
use pastebin.Base.Text.{hex, trim_space}
use pastebin.Server.Request.{is_empty}
use pastebin.Server.Sealing.{
  Ciphers, seal, open_sealed, nonce_size, encrypt_security_report, decrypt_any,
  decrypt_security_report, with_method, or_aes,
}
use pastebin.Server.Report.{
  Form, Triage, Supply, Refusal, SecurityReport, made, record_of, with_token, with_id, with_key,
  validated, validate, prepare_report, build_report_body, sanitize_component, component_label,
  shown_name, disclosure_days_of,
}

-- The parts of a stored record.
abbrev Parts : (Bytes → Bytes) → Ciphers → Form → Triage → Supply → SecurityReport → Type 0
Parts sha256 c f t s r =
    (key : Bytes) × (raw : Bytes) × (secret : Bytes) × (body : Bytes) × (method : Bytes)
    × (s.encryption_key ≡ some key)
    × (s.id_bytes ≡ some raw)
    × (s.token_bytes ≡ some secret)
    × (encrypt_security_report c s.public_key key s.nonce
          (build_report_body f t (codes "sec_" ++ take 16 (hex raw)))
        ≡ some (body, method))
    × (r ≡ made sha256 c f (codes "sec_" ++ take 16 (hex raw)) (take 32 (hex secret)) body method)

module _ (sha256 : Bytes → Bytes) (c : Ciphers) (f : Form) (t : Triage) (s : Supply)
    (r : SecurityReport) where
  from_record :
      (key raw secret : Bytes) (o : Option (Bytes × Bytes))
      → s.encryption_key ≡ some key
      → s.id_bytes ≡ some raw
      → s.token_bytes ≡ some secret
      → encrypt_security_report c s.public_key key s.nonce
          (build_report_body f t (codes "sec_" ++ take 16 (hex raw)))
        ≡ o
      → record_of sha256 c f (codes "sec_" ++ take 16 (hex raw)) (take 32 (hex secret)) o ≡ inr r
      → Parts sha256 c f t s r
  from_record key raw secret none k i u e h = absurd (cc)
  from_record key raw secret (some (body, method)) k i u e h =
      let same : r
          ≡ made sha256 c f (codes "sec_" ++ take 16 (hex raw)) (take 32 (hex secret)) body method =
        cc in
      (key, raw, secret, body, method, k, i, u, e, same)

  from_token :
      (key raw : Bytes) (o : Option Bytes)
      → s.encryption_key ≡ some key
      → s.id_bytes ≡ some raw
      → s.token_bytes ≡ o
      → with_token sha256 c f t s key (codes "sec_" ++ take 16 (hex raw)) o ≡ inr r
      → Parts sha256 c f t s r
  from_token key raw none k i u h = absurd (cc)
  from_token key raw (some secret) k i u h =
      from_record key raw secret
        (encrypt_security_report c s.public_key key s.nonce
          (build_report_body f t (codes "sec_" ++ take 16 (hex raw))))
        k i u refl h

  from_id :
      (key : Bytes) (o : Option Bytes)
      → s.encryption_key ≡ some key
      → s.id_bytes ≡ o
      → with_id sha256 c f t s key o ≡ inr r
      → Parts sha256 c f t s r
  from_id key none k i h = absurd (cc)
  from_id key (some raw) k i h = from_token key raw s.token_bytes k i refl h

  from_key :
      (o : Option Bytes)
      → s.encryption_key ≡ o
      → with_key sha256 c f t s o ≡ inr r
      → Parts sha256 c f t s r
  from_key none k h = absurd (cc)
  from_key (some key) k h = from_id key s.id_bytes k refl h

  from_validated :
      (o : Option Refusal) → validated sha256 c f t s o ≡ inr r → Parts sha256 c f t s r
  from_validated (some x) h = absurd (cc)
  from_validated none h = from_key s.encryption_key refl h

  handled : prepare_report sha256 c f t s ≡ inr r → Parts sha256 c f t s r
  unfolding prepare_report
  handled h = from_validated (validate f s) h

-- What the ciphers promise: AES opens what it sealed, with a nonce of the size it wants, and the private keys of the
-- project open what was encrypted to its public key.
pub record IsSound (c : Ciphers) (public : Bytes) (keys : List Bytes) (nonce : Option Bytes)
    : Type 0 where
  pub gcm : (key n plain : Bytes) → c.gcm_open key n (c.gcm_seal key n plain) ≡ some plain
  pub pgp :
      (plain sealed : Bytes)
      → c.pgp_encrypt public plain ≡ some sealed
      → decrypt_any c keys sealed ≡ some plain
  pub sized : (n : Bytes) → nonce ≡ some n → length n ≡ nonce_size

take_own : (n rest : Bytes) → take (length n) (n ++ rest) ≡ n
take_own [] rest = refl
take_own (x ∷ n) rest = ap (λ l. x ∷ l) (take_own n rest)

drop_own : (n rest : Bytes) → drop (length n) (n ++ rest) ≡ rest
drop_own [] rest = refl
drop_own (x ∷ n) rest = drop_own n rest

open-seal :
    (c : Ciphers) (public : Bytes) (keys : List Bytes) (nonce : Option Bytes)
    (key plain sealed : Bytes)
    → IsSound c public keys nonce
    → seal c key nonce plain ≡ some sealed
    → open_sealed c key sealed ≡ some plain
unfolding seal open_sealed
open-seal c public keys none key plain sealed h e = absurd (cc)
open-seal c public keys (some n) key plain sealed h e = elim (Bool-cases (length key == 32)) [
  | inr k ↦ absurd (ground (arith, k, e))
  | inl k ↦
      let inner = c.gcm_seal key n plain in
      let whole : n ++ inner ≡ sealed = ground (arith, k, e) in
      let size : length n ≡ 12 = h.sized n refl in
      let front : take 12 (n ++ inner) ≡ n =
        ap (λ i. take i (n ++ inner)) (sym size) ∙ take_own n inner in
      let back : drop 12 (n ++ inner) ≡ inner =
        ap (λ i. drop i (n ++ inner)) (sym size) ∙ drop_own n inner in
      let fits : ltb (length (n ++ inner)) 12 ≡ false =
        ground (arith, length-append n inner, size) in
      rw (k, sym whole, fits, front, back) (h.gcm key n plain)
]

decrypt-aes :
    (c : Ciphers) (public : Bytes) (keys : List Bytes) (nonce : Option Bytes)
    (key plain body method : Bytes) (o : Option Bytes)
    → IsSound c public keys nonce
    → seal c key nonce plain ≡ o
    → with_method c (codes "aes-256-gcm") o ≡ some (body, method)
    → decrypt_security_report c keys key body method ≡ some plain
decrypt-aes c public keys random key plain body method none h e m = absurd (cc)
decrypt-aes c public keys random key plain body method (some sealed) h e m =
    let first : sealed ≡ body = cc in
    let second : codes "aes-256-gcm" ≡ method = cc in
    rw (sym first, sym second)
      (unfold decrypt_security_report bytes_eq in
        open-seal c public keys random key plain sealed h e)

decrypt-pgp :
    (c : Ciphers) (public : Bytes) (keys : List Bytes) (nonce : Option Bytes)
    (key plain body method : Bytes) (o : Option Bytes)
    → IsSound c public keys nonce
    → c.pgp_encrypt public plain ≡ o
    → or_aes c o (with_method c (codes "aes-256-gcm") (seal c key nonce plain))
      ≡ some (body, method)
    → decrypt_security_report c keys key body method ≡ some plain
decrypt-pgp c public keys random key plain body method none h e m =
    decrypt-aes c public keys random key plain body method (seal c key random plain) h refl m
decrypt-pgp c public keys random key plain body method (some sealed) h e m =
    let first : sealed ≡ body = cc in
    let second : codes "pgp" ≡ method = cc in
    rw (sym first, sym second) (unfold decrypt_security_report bytes_eq in h.pgp plain sealed e)

decrypt-encrypt :
    (c : Ciphers) (public : Bytes) (keys : List Bytes) (nonce : Option Bytes)
    (key plain body method : Bytes)
    → IsSound c public keys nonce
    → encrypt_security_report c public key nonce plain ≡ some (body, method)
    → decrypt_security_report c keys key body method ≡ some plain
unfolding encrypt_security_report
decrypt-encrypt c public keys nonce key plain body method h e =
    elim (Bool-cases (is_empty public)) [
      | inl none_given ↦
          decrypt-aes c public keys nonce key plain body method (seal c key nonce plain) h refl (
            subst
              (λ b.
                (if b
                  then with_method c (codes "aes-256-gcm") (seal c key nonce plain)
                  else or_aes c (c.pgp_encrypt public plain)
                      (with_method c (codes "aes-256-gcm") (seal c key nonce plain)))
                ≡ some (body, method))
              none_given e)
      | inr given ↦
          decrypt-pgp c public keys nonce key plain body method (c.pgp_encrypt public plain) h refl
            (subst
              (λ b.
                (if b
                  then with_method c (codes "aes-256-gcm") (seal c key nonce plain)
                  else or_aes c (c.pgp_encrypt public plain)
                      (with_method c (codes "aes-256-gcm") (seal c key nonce plain)))
                ≡ some (body, method))
              given e)
    ]

-- A report that is stored can be read: with the key of the settings and the private keys of the project, the body
-- decrypts to the full text of the report, under the tracking id of the record.
pub decrypt-prepare_report :
    (sha256 : Bytes → Bytes) (c : Ciphers) (f : Form) (t : Triage) (s : Supply) (r : SecurityReport)
    (keys : List Bytes) (key : Bytes)
    → IsSound c s.public_key keys s.nonce
    → s.encryption_key ≡ some key
    → prepare_report sha256 c f t s ≡ inr r
    → decrypt_security_report c keys key r.encrypted_body r.enc_method
      ≡ some (build_report_body f t r.tracking_id)
decrypt-prepare_report sha256 c f t s r keys key h k e =
    let (key', raw, secret, body, method, k', i, u, enc, same) = handled sha256 c f t s r e in
    let keys_same : key' ≡ key = cc in
    rw same (
      decrypt-encrypt c s.public_key keys s.nonce key
        (build_report_body f t (codes "sec_" ++ take 16 (hex raw))) body method h
        (subst
          (λ x.
            encrypt_security_report c s.public_key x s.nonce
              (build_report_body f t (codes "sec_" ++ take 16 (hex raw)))
            ≡ some (body, method))
          keys_same enc))

prepared_metadata :
    (sha256 : Bytes → Bytes) (c : Ciphers) (f g : Form) (t u : Triage) (s : Supply)
    (r q : SecurityReport)
    → sanitize_component (component_label f) ≡ sanitize_component (component_label g)
    → trim_space f.severity ≡ trim_space g.severity
    → trim_space f.credit_preference ≡ trim_space g.credit_preference
    → shown_name f ≡ shown_name g
    → disclosure_days_of f ≡ disclosure_days_of g
    → prepare_report sha256 c f t s ≡ inr r
    → prepare_report sha256 c g u s ≡ inr q
    → record r { encrypted_body = []; enc_method = [] }
      ≡ record q { encrypted_body = []; enc_method = [] }
prepared_metadata sha256 c f g t u s r q a b d e k hf hg =
    let (key, raw, secret, body, method, k1, i1, u1, enc1, same1) = handled sha256 c f t s r hf in
    let (key2, raw2, secret2, body2, method2, k2, i2, u2, enc2, same2) =
      handled sha256 c g u s q hg in
    let ids : raw ≡ raw2 = cc in
    let tokens : secret ≡ secret2 = cc in rw (same1, same2, ids, tokens) (cc (a, b, d, e, k))

answered_report : (r q : SecurityReport) (a : Bool × ReportTable) → (answered r a).0 ≡ inr q → r ≡ q
answered_report r q (true, d) e = cc
answered_report r q (false, d) e = absurd (cc)

submitted_report :
    (now : ℕ) (o : Refusal ⊎ SecurityReport) (d : ReportTable) (q : SecurityReport)
    → (submitted now o d).0 ≡ inr q
    → o ≡ inr q
submitted_report now (inl x) d q e = absurd (cc)
submitted_report now (inr r) d q e =
    let same = answered_report r q (create_security_report now r d) e in cc

-- What is stored in the clear depends on the texts of the reporter only by the severity, the sanitized component, the
-- credit with the name of one who asks for it, and the days: two forms that agree in these leave records that differ
-- in nothing but the sealed body and its method.
pub handle_security_report_metadata :
    (sha256 : Bytes → Bytes) (c : Ciphers) (now later : ℕ) (f g : Form) (t u : Triage) (s : Supply)
    (d e : ReportTable) (r q : SecurityReport)
    → sanitize_component (component_label f) ≡ sanitize_component (component_label g)
    → trim_space f.severity ≡ trim_space g.severity
    → trim_space f.credit_preference ≡ trim_space g.credit_preference
    → shown_name f ≡ shown_name g
    → disclosure_days_of f ≡ disclosure_days_of g
    → (handle_security_report sha256 c now f t s d).0 ≡ inr r
    → (handle_security_report sha256 c later g u s e).0 ≡ inr q
    → record r { encrypted_body = []; enc_method = [] }
      ≡ record q { encrypted_body = []; enc_method = [] }
unfolding handle_security_report
handle_security_report_metadata sha256 c now later f g t u s d e r q a b p n k hf hg =
    prepared_metadata sha256 c f g t u s r q a b p n k
      (submitted_report now (prepare_report sha256 c f t s) d r hf)
      (submitted_report later (prepare_report sha256 c g u s) e q hg)
