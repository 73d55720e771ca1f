-- ===== src/Server/Report.antt =====
-- src/server/security_report.go: randomHex, sanitizeComponent, buildReportBody, and handleSecurityReport up to the
-- record that it stores. Texts are ASCII where a letter's case is changed.
pub mod Sanitized
pub mod Accepted
pub mod Stored
use pastebin.Base.{
  ℕ, zero, suc, ◌+◌, Bool, true, false, not, ◌&&◌, ◌||◌, Option, none, some, List, [], ◌∷◌, ◌++◌,
  ◌⊎◌, inl, inr, map, Bytes, codes, bytes_eq, if◌then◌else◌, ltb, leb, ◌==◌, take, length,
}
use pastebin.Base.Int.{ℤ, pos, negsuc}
use pastebin.Base.Text.{
  trim_space, to_lower, trim_left, trim_right, is_digit, contains_byte, contains_any, parse_int,
  hex,
}
use pastebin.Base.Decimal.{decimal}
use pastebin.Config.Switches.{is_word, is_truthy}
use pastebin.Server.Request.{is_empty}
use pastebin.Server.Sealing.{Ciphers, encrypt_security_report}

-- A byte that a component keeps.
unfoldable pub is_kept : ℕ → Bool
unfolding is_digit
is_kept c =
    (leb b'a' c && leb c b'z')
    || (is_digit c || ((c == b'-') || ((c == b'_') || ((c == b'/') || (c == b'.')))))

abbrev pub kept_byte : ℕ → Bytes
kept_byte c = if is_kept c then c ∷ [] else if c == b' ' then b'-' ∷ [] else []

-- The loop, with what is written so far: it stops behind the sixty-fourth byte.
unfoldable pub keep_from : Bytes → Bytes → Bytes
unfolding is_kept
keep_from out [] = out
keep_from out (c ∷ s) =
    let next = out ++ kept_byte c in
    let rest = keep_from next s in if leb 64 (length next) then next else rest

abbrev pub is_dash : ℕ → Bool
is_dash c = c == b'-'

abbrev pub or_unspecified : Bytes → Bytes
or_unspecified out = if is_empty out then codes "unspecified" else out

unfoldable pub sanitize_component : Bytes → Bytes
sanitize_component text =
    or_unspecified
      (trim_right is_dash (trim_left is_dash (keep_from [] (trim_space (to_lower text)))))

-- The fields of the form as they are sent.
pub record Form : Type 0 where
  pub name : Bytes
  pub email : Bytes
  pub gpg : Bytes
  pub component : Bytes
  pub component_other : Bytes
  pub endpoint : Bytes
  pub severity : Bytes
  pub summary : Bytes
  pub steps : Bytes
  pub impact : Bytes
  pub suggested_fix : Bytes
  pub cve_requested : Bytes
  pub credit_preference : Bytes
  pub credit_name : Bytes
  pub agreement : Bytes
  pub disclosure_days : Bytes

-- What else goes into a report: the time, the client, and the version of the server.
pub record Triage : Type 0 where
  pub timestamp : Bytes
  pub user_agent : Bytes
  pub remote_ip : Bytes
  pub app_version : Bytes
  pub commit_hash : Bytes

abbrev pub newline : Bytes
newline = 10 ∷ []

abbrev pub line : Bytes → Bytes → Bytes
line label value = label ++ (value ++ newline)

abbrev pub block : Bytes → Bytes → Bytes
block label value = label ++ (newline ++ (value ++ (newline ++ newline)))

abbrev pub if_given : Bytes → Bytes → Bytes
if_given value part = if is_empty value then [] else part

abbrev pub default_disclosure_days : ℕ
default_disclosure_days = 90

abbrev pub days_or_default : Option ℤ → ℕ
days_or_default (some (pos n)) = if leb 1 n && leb n 365 then n else default_disclosure_days
days_or_default _ = default_disclosure_days

unfoldable pub disclosure_days_of : Form → ℕ
disclosure_days_of f = days_or_default (parse_int (trim_space f.disclosure_days))

abbrev pub component_label : Form → Bytes
component_label f =
    let component = trim_space f.component in
    let other = trim_space f.component_other in
    if bytes_eq component (codes "other") && not (is_empty other) then other else component

unfoldable pub build_report_body : Form → Triage → Bytes → Bytes
build_report_body f t tracking_id =
    let gpg = trim_space f.gpg in
    let credit_name = trim_space f.credit_name in
    let endpoint = trim_space f.endpoint in
    let fix = trim_space f.suggested_fix in
    line (codes "Tracking ID: ") tracking_id
    ++ (line (codes "Received: ") (t.timestamp ++ newline)
        ++ (line (codes "Reporter: ")
              (trim_space f.name ++ (codes " <" ++ (trim_space f.email ++ codes ">")))
            ++ (if_given gpg (line (codes "Reporter PGP: ") gpg)
                ++ (codes "Credit preference: "
                    ++ (trim_space f.credit_preference
                        ++ (if_given credit_name (codes " (" ++ (credit_name ++ codes ")"))
                            ++ (newline
                                ++ (newline
                                    ++ (line (codes "Severity (self-assessed): ")
                                          (trim_space f.severity)
                                        ++ (line (codes "Affected component: ") (component_label f)
                                            ++ (if_given endpoint
                                                  (line (codes "Affected endpoint: ") endpoint)
                                                ++ (line (codes "CVE requested: ") (
                                                      if is_truthy f.cve_requested
                                                      then codes "yes"
                                                      else codes "no")
                                                    ++ (line (codes "Requested disclosure window: ")
                                                          (decimal (disclosure_days_of f)
                                                            ++ (codes " days" ++ newline))
                                                        ++ (block (codes "Summary:")
                                                            (trim_space f.summary)
                                                            ++ (block (codes "Steps to reproduce:")
                                                            (trim_space f.steps)
                                                            ++ (block (codes "Impact:")
                                                            (trim_space f.impact)
                                                            ++ (if_given fix
                                                            (block (codes "Suggested fix:") fix)
                                                            ++ (line (codes "-- triage metadata --")
                                                            []
                                                            ++ (line (codes "app_version: ")
                                                            t.app_version
                                                            ++ (line (codes "commit_hash: ")
                                                            t.commit_hash
                                                            ++ (line (codes "request_user_agent: ")
                                                            t.user_agent
                                                            ++ line (codes "request_ip: ")
                                                            t.remote_ip)))))))))))))))))))))

pub data Refusal : Type 0 where
  incomplete bad_email bad_severity bad_credit no_agreement bad_captcha no_key no_random not_sealed
        not_stored :
      Refusal

-- The record as it is given to CreateSecurityReport.
pub record SecurityReport : Type 0 where
  pub tracking_id : Bytes
  pub severity : Bytes
  pub component : Bytes
  pub encrypted_body : Bytes
  pub enc_method : Bytes
  pub credit_preference : Bytes
  pub credit_name : Bytes
  pub token_hash : Bytes
  pub disclosure_days : ℕ

abbrev pub valid_severities : List Bytes
valid_severities = map codes ("Critical" ∷ "High" ∷ "Medium" ∷ "Low" ∷ "Informational" ∷ [])

abbrev pub valid_credit_prefs : List Bytes
valid_credit_prefs = map codes ("name" ∷ "handle" ∷ "no" ∷ "anonymous" ∷ [])

abbrev pub is_incomplete : Form → Bool
is_incomplete f =
    is_empty (trim_space f.name)
    || (is_empty (trim_space f.email)
        || (is_empty (trim_space f.component)
            || (is_empty (trim_space f.severity)
                || (is_empty (trim_space f.summary)
                    || (is_empty (trim_space f.steps)
                        || (is_empty (trim_space f.impact)
                            || is_empty (trim_space f.credit_preference)))))))

-- What the server brings to a report: whether the captcha is asked and solved, the key of the settings, 8 and 16 random
-- bytes, the public key of the project and the nonce, each `none` if there is none.
pub record Supply : Type 0 where
  pub captcha_asked : Bool
  pub captcha_solved : Bool
  pub encryption_key : Option Bytes
  pub id_bytes : Option Bytes
  pub token_bytes : Option Bytes
  pub public_key : Bytes
  pub nonce : Option Bytes

unfoldable pub validate : Form → Supply → Option Refusal
validate f s =
    let email = trim_space f.email in
    if is_incomplete f
    then some incomplete
    else if not (contains_byte email b'@') || contains_any email (b' ' ∷ 9 ∷ 13 ∷ 10 ∷ [])
    then some bad_email
    else if not (is_word (trim_space f.severity) valid_severities)
    then some bad_severity
    else if not (is_word (trim_space f.credit_preference) valid_credit_prefs)
    then some bad_credit
    else if not (is_truthy f.agreement)
    then some no_agreement
    else if s.captcha_asked && not s.captcha_solved
    then some bad_captcha
    else none

-- The name that is shown, for those who ask for it.
abbrev pub shown_name : Form → Bytes
shown_name f =
    let pref = trim_space f.credit_preference in
    if bytes_eq pref (codes "anonymous") || bytes_eq pref (codes "no")
    then []
    else trim_space f.credit_name

-- `sha256` is the hash, `c` the ciphers.
module _ (sha256 : Bytes → Bytes) (c : Ciphers) where
  abbrev pub made : Form → Bytes → Bytes → Bytes → Bytes → SecurityReport
  made f id token body method = record {
    tracking_id = id;
    severity = trim_space f.severity;
    component = sanitize_component (component_label f);
    encrypted_body = body;
    enc_method = method;
    credit_preference = trim_space f.credit_preference;
    credit_name = shown_name f;
    token_hash = hex (sha256 token);
    disclosure_days = disclosure_days_of f;
  }

  abbrev pub record_of : Form → Bytes → Bytes → Option (Bytes × Bytes) → Refusal ⊎ SecurityReport
  record_of f id token none = inl not_sealed
  record_of f id token (some (body, method)) = inr (made f id token body method)

  abbrev pub sealed_for : Form → Triage → Supply → Bytes → Bytes → Bytes → Refusal ⊎ SecurityReport
  sealed_for f t s key id token =
      record_of f id token
        (encrypt_security_report c s.public_key key s.nonce (build_report_body f t id))

  abbrev pub with_token :
      Form → Triage → Supply → Bytes → Bytes → Option Bytes → Refusal ⊎ SecurityReport
  with_token f t s key id none = inl no_random
  with_token f t s key id (some raw) = sealed_for f t s key id (take 32 (hex raw))

  abbrev pub with_id : Form → Triage → Supply → Bytes → Option Bytes → Refusal ⊎ SecurityReport
  with_id f t s key none = inl no_random
  with_id f t s key (some raw) =
      with_token f t s key (codes "sec_" ++ take 16 (hex raw)) s.token_bytes

  abbrev pub with_key : Form → Triage → Supply → Option Bytes → Refusal ⊎ SecurityReport
  with_key f t s none = inl no_key
  with_key f t s (some key) = with_id f t s key s.id_bytes

  abbrev pub validated : Form → Triage → Supply → Option Refusal → Refusal ⊎ SecurityReport
  validated f t s (some refusal) = inl refusal
  validated f t s none = with_key f t s s.encryption_key

  -- The handler in front of the statement.
  unfoldable pub prepare_report : Form → Triage → Supply → Refusal ⊎ SecurityReport
  prepare_report f t s = validated f t s (validate f s)
