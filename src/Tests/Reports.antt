-- ===== src/Tests/Reports.antt =====
-- Tests of the security reports and of the values of the configuration.
use pastebin.Base.{
  inl, ap, find_where, none, ◌≡◌, refl, inr, false, some, [], ◌∷◌, ◌++◌, Bytes, codes, bytes_eq,
  take,
}
use pastebin.Base.Text.{
  has_prefix, trim_space, trim_front_all, trim_front, prefix_length, to_lower, parse_int,
  digits_from, is_digit, contains_byte, contains_any, hex, trim_left, trim_right,
}
use pastebin.Config.Switches.{is_word, is_truthy}
use pastebin.Server.Sealing.{
  Ciphers, seal, encrypt_security_report, decrypt_any, decrypt_security_report,
}
use pastebin.Server.Report.{
  Form, Triage, Supply, not_stored, SecurityReport, made, validate, prepare_report,
  build_report_body, sanitize_component, keep_from, is_kept, disclosure_days_of,
}
use pastebin.Server.Disclosure.{ReportTable, row_of, create_security_report, handle_security_report}
use pastebin.Server.Report.Accepted.{Settled, accepted_readable}
use pastebin.Server.Report.Stored.{IsSound, handle_security_report_metadata}

abbrev ciphers : Ciphers
ciphers = record {
  gcm_seal = λ key nonce plain. plain;
  gcm_open = λ key nonce sealed. some sealed;
  pgp_encrypt = λ public plain. some plain;
  pgp_decrypt = λ private sealed. some sealed;
}

abbrev form : Form
form = record {
  name = codes "Ann";
  email = codes "ann@example.org";
  gpg = [];
  component = codes "api";
  component_other = [];
  endpoint = [];
  severity = codes "High";
  summary = codes "s";
  steps = codes "t";
  impact = codes "i";
  suggested_fix = [];
  cve_requested = [];
  credit_preference = codes "no";
  credit_name = codes "Ann";
  agreement = codes "yes";
  disclosure_days = codes "30";
}

abbrev other_form : Form
other_form = record form { name = codes "Bob"; credit_name = codes "Bob"; summary = codes "x" }

abbrev triage : Triage
triage = record {
  timestamp = codes "now";
  user_agent = [];
  remote_ip = [];
  app_version = [];
  commit_hash = [];
}

abbrev key : Bytes
key = codes "0123456789abcdef0123456789abcdef"

abbrev nonce : Bytes
nonce = codes "0123456789ab"

abbrev supply : Supply
supply = record {
  captcha_asked = false;
  captcha_solved = false;
  encryption_key = some key;
  id_bytes = some (codes "01234567");
  token_bytes = some (codes "0123456789abcdef");
  public_key = [];
  nonce = some nonce;
}

abbrev hash : Bytes → Bytes
hash s = s

abbrev id : Bytes
id = codes "sec_" ++ take 16 (hex (codes "01234567"))

abbrev stored : Form → SecurityReport
stored f =
    made hash ciphers f id (take 32 (hex (codes "0123456789abcdef")))
      (nonce ++ build_report_body f triage id) (codes "aes-256-gcm")

form_stored : prepare_report hash ciphers form triage supply ≡ inr (stored form)
unfolding prepare_report validate encrypt_security_report seal bytes_eq trim_space trim_front_all
    trim_front prefix_length has_prefix to_lower is_word is_truthy contains_byte contains_any
form_stored = refl

other_stored : prepare_report hash ciphers other_form triage supply ≡ inr (stored other_form)
unfolding prepare_report validate encrypt_security_report seal bytes_eq trim_space trim_front_all
    trim_front prefix_length has_prefix to_lower is_word is_truthy contains_byte contains_any
other_stored = refl

ciphers-IsSound : IsSound ciphers [] (codes "private" ∷ []) (some nonce)
unfolding decrypt_any
ciphers-IsSound = record {
  gcm = λ k n plain. refl;
  pgp = λ plain sealed e. cc;
  sized = λ n e. let same : nonce ≡ n = cc in rw (← same) refl;
}

form_valid : validate form supply ≡ none
unfolding validate bytes_eq trim_space trim_front_all trim_front prefix_length has_prefix to_lower
    is_word is_truthy contains_byte contains_any
form_valid = refl

abbrev no_reports : ReportTable
no_reports = record { rows = []; faults = [] }

accepted_readable_example :
    (r : SecurityReport) × Settled 5 r no_reports
      (handle_security_report hash ciphers 5 form triage supply no_reports)
    × (decrypt_security_report ciphers (codes "private" ∷ []) key r.encrypted_body r.enc_method
        ≡ some (build_report_body form triage r.tracking_id))
accepted_readable_example =
    accepted_readable hash ciphers 5 form triage supply no_reports (codes "private" ∷ []) key
      (codes "01234567") (codes "0123456789abcdef") nonce ciphers-IsSound form_valid refl refl refl
      refl refl

-- The report is answered and its row is on the table; a second one with the same id is not stored.
stored_once :
    (handle_security_report hash ciphers 5 form triage supply no_reports
      ≡ (inr (stored form), record no_reports { rows = row_of 5 (stored form) ∷ [] }))
    × ((handle_security_report hash ciphers 6 other_form triage supply
          (record no_reports { rows = row_of 5 (stored form) ∷ [] })).0
        ≡ inl not_stored)
unfolding handle_security_report create_security_report find_where bytes_eq hex
stored_once = (simp form_stored refl, simp other_stored refl)

other_handled :
    (handle_security_report hash ciphers 6 other_form triage supply no_reports).0
    ≡ inr (stored other_form)
unfolding handle_security_report create_security_report find_where bytes_eq hex
other_handled = simp other_stored refl

handle_security_report_metadata_example :
    record (stored form) { encrypted_body = []; enc_method = [] }
    ≡ record (stored other_form) { encrypted_body = []; enc_method = [] }
unfolding bytes_eq trim_space trim_front_all trim_front prefix_length has_prefix
handle_security_report_metadata_example =
    handle_security_report_metadata hash ciphers 5 6 form other_form triage triage supply no_reports
      no_reports (stored form) (stored other_form) refl refl refl refl
      (unfold disclosure_days_of in refl) (ap (λ r. r.0) stored_once.0) other_handled

days : disclosure_days_of form ≡ 30
unfolding disclosure_days_of parse_int digits_from is_digit trim_space trim_front_all trim_front
    prefix_length has_prefix
days = refl

cleaned : sanitize_component (codes " <b>API Gateway</b>") ≡ codes "bapi-gateway/b"
unfolding sanitize_component keep_from is_kept is_digit trim_left trim_right to_lower trim_space
    trim_front_all trim_front prefix_length has_prefix
cleaned = refl
