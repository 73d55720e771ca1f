-- ===== src/Server/Report/Accepted.antt =====
-- What becomes of a report that passes the checks.
use mathlib.Core.Path.{subst}
use pastebin.Base.{
  ℕ, ◌⊎◌, Bool, false, sym, [], ◌∷◌, is_some, find_where, ◌≡◌, inl, inr, refl, ap, ◌∙◌, true,
  Option, none, some, List, ◌++◌, Bytes, codes, arith, ◌==◌, take, length, Bool-cases,
}
use pastebin.Base.Text.{hex}
use pastebin.Server.Request.{is_empty}
use pastebin.Server.Sealing.{
  Ciphers, seal, encrypt_security_report, decrypt_security_report, or_aes,
}
use pastebin.Server.Report.{
  Form, Triage, Supply, Refusal, not_stored, SecurityReport, made, record_of, with_token, with_id,
  with_key, validated, validate, prepare_report, build_report_body,
}
use pastebin.Server.Disclosure.{
  ReportTable, row_of, has_id, insert_report, tried, create_security_report, answered, submitted,
  handle_security_report,
}
use pastebin.Server.Report.Stored.{IsSound, decrypt-prepare_report}

or_aes_done :
    (c : Ciphers) (o : Option Bytes) (sealed method : Bytes)
    → (x : Bytes × Bytes) × (or_aes c o (some (sealed, method)) ≡ some x)
or_aes_done c none sealed method = ((sealed, method), refl)
or_aes_done c (some m) sealed method = ((m, codes "pgp"), refl)

-- With a key of 32 bytes and a nonce a body is sealed, by the one method or the other.
encrypt_done :
    (c : Ciphers) (public key n body : Bytes)
    → length key ≡ 32
    → (x : Bytes × Bytes) × (encrypt_security_report c public key (some n) body ≡ some x)
unfolding encrypt_security_report seal
encrypt_done c public key n body h =
    let k : (length key == 32) ≡ true = ground (arith, h) in
    let sealed = n ++ c.gcm_seal key n body in
    elim (Bool-cases (is_empty public)) [
      | inl e ↦ ((sealed, codes "aes-256-gcm"), simp (e, k) refl)
      | inr e ↦
          let (x, same) = or_aes_done c (c.pgp_encrypt public body) sealed (codes "aes-256-gcm") in
          (x, simp (e, k) same)
    ]

prepared_readable :
    (sha256 : Bytes → Bytes) (c : Ciphers) (f : Form) (t : Triage) (s : Supply) (keys : List Bytes)
    (key raw secret n : Bytes)
    → IsSound c s.public_key keys s.nonce
    → validate f s ≡ none
    → s.encryption_key ≡ some key
    → length key ≡ 32
    → s.id_bytes ≡ some raw
    → s.token_bytes ≡ some secret
    → s.nonce ≡ some n
    → (r : SecurityReport) × (prepare_report sha256 c f t s ≡ inr r)
      × (decrypt_security_report c keys key r.encrypted_body r.enc_method
          ≡ some (build_report_body f t r.tracking_id))
unfolding prepare_report
prepared_readable sha256 c f t s keys key raw secret n h v k size i u e =
    let id = codes "sec_" ++ take 16 (hex raw) in
    let ((body, method), sealed) =
      encrypt_done c s.public_key key n (build_report_body f t id) size in
    let there : encrypt_security_report c s.public_key key s.nonce (build_report_body f t id)
        ≡ some (body, method) =
      ap (λ o. encrypt_security_report c s.public_key key o (build_report_body f t id)) e
      ∙ sealed in
    let r = made sha256 c f id (take 32 (hex secret)) body method in
    let stored : prepare_report sha256 c f t s ≡ inr r =
      ap (validated sha256 c f t s) v
      ∙ ap (with_key sha256 c f t s) k
      ∙ ap (with_id sha256 c f t s key) i
      ∙ ap (with_token sha256 c f t s key id) u
      ∙ ap (record_of sha256 c f id (take 32 (hex secret))) there in
    (r, stored, decrypt-prepare_report sha256 c f t s r keys key h k stored)

-- The row of the report is put on the table; or nothing is, as the statement failed or the id was in use.
abbrev pub Settled :
    ℕ → SecurityReport → ReportTable → (Refusal ⊎ SecurityReport) × ReportTable → Type 0
Settled now r d result =
    ((result.0 ≡ inr r) × (result.1.rows ≡ row_of now r ∷ d.rows))
    ⊎ ((result.0 ≡ inl not_stored)
        × (result.1.rows ≡ d.rows)
        × ((take 1 d.faults ≡ true ∷ [])
            ⊎ (is_some (find_where (has_id r.tracking_id) d.rows) ≡ true)))

insert-Settled :
    (now : ℕ) (r : SecurityReport) (d : ReportTable) (faults : List Bool)
    → Settled now r d (answered r (insert_report now r (record { rows = d.rows; faults = faults })))
insert-Settled now r d faults =
    elim (Bool-cases (is_some (find_where (has_id r.tracking_id) d.rows))) [
      | inl used ↦ rw used (inr (refl, refl, inr refl))
      | inr free ↦ rw free (inl (refl, refl))
    ]

create-Settled :
    (now : ℕ) (r : SecurityReport) (d : ReportTable) (faults : List Bool)
    → d.faults ≡ faults
    → Settled now r d (answered r (tried now r d.rows faults))
create-Settled now r d [] e = insert-Settled now r d []
create-Settled now r d (true ∷ faults) e = inr (refl, refl, inl (ap (take 1) e))
create-Settled now r d (false ∷ faults) e = insert-Settled now r d faults

-- On a server with a key of 32 bytes and random bytes, a report that passes the checks is stored, or is refused as
-- not stored, with no change of the rows, if the statement fails or the tracking id is in use; and what is stored can
-- be read: with that key and the private keys of the project, the body decrypts to the full text of the
-- report, under the tracking id of the record.
pub accepted_readable :
    (sha256 : Bytes → Bytes) (c : Ciphers) (now : ℕ) (f : Form) (t : Triage) (s : Supply)
    (d : ReportTable) (keys : List Bytes) (key raw secret n : Bytes)
    → IsSound c s.public_key keys s.nonce
    → validate f s ≡ none
    → s.encryption_key ≡ some key
    → length key ≡ 32
    → s.id_bytes ≡ some raw
    → s.token_bytes ≡ some secret
    → s.nonce ≡ some n
    → (r : SecurityReport) × Settled now r d (handle_security_report sha256 c now f t s d)
      × (decrypt_security_report c keys key r.encrypted_body r.enc_method
          ≡ some (build_report_body f t r.tracking_id))
unfolding handle_security_report create_security_report
accepted_readable sha256 c now f t s d keys key raw secret n h v k size i u e =
    let (r, prepared, readable) =
      prepared_readable sha256 c f t s keys key raw secret n h v k size i u e in
    (
      r,
      subst (λ o. Settled now r d (submitted now o d)) (sym prepared)
          (create-Settled now r d d.faults refl),
      readable,
    )
