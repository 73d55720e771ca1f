-- ===== src/Server/Disclosure.antt =====
-- src/database/security_reports.go: CreateSecurityReport on the table security_reports; and handleSecurityReport of
-- src/server/security_report.go up to the mails that it sends.
use pastebin.Base.{
  ℕ, Bool, true, false, ◌⊎◌, inl, inr, List, [], ◌∷◌, Bytes, codes, bytes_eq, is_some,
  if◌then◌else◌, find_where,
}
use pastebin.Server.Sealing.{Ciphers}
use pastebin.Server.Report.{
  Form, Triage, Supply, Refusal, not_stored, SecurityReport, prepare_report,
}

-- A row: the record with what CreateSecurityReport adds to it.
pub record ReportRow : Type 0 where
  pub report : SecurityReport
  pub status : Bytes
  pub created_at : ℕ
  pub updated_at : ℕ

-- The table, and the failures to come, a flag for a statement.
pub record ReportTable : Type 0 where
  pub rows : List ReportRow
  pub faults : List Bool

abbrev pub has_id : Bytes → ReportRow → Bool
has_id id row = bytes_eq row.report.tracking_id id

abbrev pub row_of : ℕ → SecurityReport → ReportRow
row_of now r = record { report = r; status = codes "Received"; created_at = now; updated_at = now }

-- The insert, which the key of the table refuses for a tracking id that is in use.
abbrev pub insert_report : ℕ → SecurityReport → ReportTable → Bool × ReportTable
insert_report now r d =
    if is_some (find_where (has_id r.tracking_id) d.rows)
    then (false, d)
    else (true, record d { rows = row_of now r ∷ d.rows })

-- The statement with the failures to come.
abbrev pub tried : ℕ → SecurityReport → List ReportRow → List Bool → Bool × ReportTable
tried now r rows [] = insert_report now r (record { rows = rows; faults = [] })
tried now r rows (true ∷ faults) = (false, record { rows = rows; faults = faults })
tried now r rows (false ∷ faults) = insert_report now r (record { rows = rows; faults = faults })

unfoldable pub create_security_report : ℕ → SecurityReport → ReportTable → Bool × ReportTable
create_security_report now r d = tried now r d.rows d.faults

abbrev pub answered : SecurityReport → Bool × ReportTable → (Refusal ⊎ SecurityReport) × ReportTable
answered r (true, d) = (inr r, d)
answered r (false, d) = (inl not_stored, d)

abbrev pub submitted :
    ℕ → Refusal ⊎ SecurityReport → ReportTable → (Refusal ⊎ SecurityReport) × ReportTable
submitted now (inl refusal) d = (inl refusal, d)
submitted now (inr r) d = answered r (create_security_report now r d)

unfoldable pub handle_security_report :
    (Bytes → Bytes)
    → Ciphers
    → ℕ
    → Form
    → Triage
    → Supply
    → ReportTable
    → (Refusal ⊎ SecurityReport) × ReportTable
unfolding create_security_report prepare_report
handle_security_report sha256 c now f t s d = submitted now (prepare_report sha256 c f t s) d
