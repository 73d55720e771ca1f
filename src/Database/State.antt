-- ===== src/Database/State.antt =====
-- The tables, the errors, and statements and transactions as a state monad with errors.
use pastebin.Base.{ℕ, ◌-◌, ◌/◌, ◌≡◌, refl, Bool, true, false, List, [], ◌∷◌, Option, Bytes}
use pastebin.Model.{Paste}

-- A row of `api_tokens`; its times are Unix seconds.
pub record Token : Type 0 where
  pub id : ℕ
  pub token_hash : Bytes
  pub token_prefix : Bytes
  pub resource_type : Bytes
  pub resource_id : Bytes
  pub created_at : ℕ
  pub expires_at : Option ℕ
  pub last_used_at : Option ℕ
  pub revoked_at : Option ℕ
  pub revoked_reason : Option Bytes

-- A row of `scheduler_tasks`; `none` is NULL.
pub record TaskRow : Type 0 where
  pub task_id : Bytes
  pub task_name : Bytes
  pub schedule : Bytes
  pub last_run : Option ℕ
  pub last_status : Bytes
  pub last_error : Bytes
  pub next_run : Option ℕ
  pub run_count : ℕ
  pub fail_count : ℕ
  pub enabled : Bool

-- A row of `scheduler_history`.
pub record TaskHistory : Type 0 where
  pub task_id : Bytes
  pub started_at : ℕ
  pub finished_at : ℕ
  pub status : Bytes
  pub error_msg : Bytes
  pub duration_ms : ℕ

pub record Db : Type 0 where
  pub pastes : List Paste
  pub tokens : List Token
  pub next_token : ℕ
  pub tasks : List TaskRow
  pub history : List TaskHistory
  pub faults : List Bool

pub data Error : Type 0 where
  driver constraint paste_not_found invalid_token : Error
  token_not_found token_revoked token_expired no_such_token : Error

pub data Result {ℓ} (A : Type ℓ) : Type ℓ where
  ok : A → Result A
  err : Error → Result A

abbrev pub M : Type 0 → Type 0
M A = Db → Result A × Db

abbrev pub after : {A B : Type 0} → Result A × Db → (A → M B) → Result B × Db
after (ok a, d) f = f a d
after (err e, d) f = (err e, d)

infixl 5 ◌>>=◌ ◌>>◌
abbrev pub ◌>>=◌ : {A B : Type 0} → M A → (A → M B) → M B
◌>>=◌ m f d = after (m d) f

abbrev pub ◌>>◌ : {B : Type 0} → M (Unit {0}) → M B → M B
◌>>◌ first rest d = after (first d) (λ _. rest)

abbrev pub return : {A : Type 0} → A → M A
return a d = (ok a, d)

abbrev pub throw : {A : Type 0} → Error → M A
throw e d = (err e, d)

unfoldable pub run_with : {A : Type 0} → List Bool → M A → M A
run_with [] run d = run d
run_with (true ∷ rest) run d = (err driver, record d { faults = rest })
run_with (false ∷ rest) run d = run (record d { faults = rest })

-- One statement: it runs, unless the engine fails.
unfoldable pub statement : {A : Type 0} → M A → M A
unfolding run_with
statement run d = run_with d.faults run d

abbrev pub succeed : M (Unit {0})
succeed d = (ok tt, d)

-- The tables of the first state: what ROLLBACK leaves.
abbrev pub rollback : Db → Db → Db
rollback before now = record before { faults = now.faults }

abbrev pub undo : {A : Type 0} → Db → Result A × Db → Result A × Db
undo before (ok a, d) = (ok a, d)
undo before (err e, d) = (err e, rollback before d)

-- `BeginTx`, the body, and `Commit`; every error on the way rolls back.
unfoldable pub transaction : {A : Type 0} → M A → M A
unfolding statement
transaction body d = undo d (
    after (statement succeed d)
      (λ _ d'. after (body d') (λ a d''. after (statement succeed d'') (λ _. return a))))

-- `_, _ = s.db.ExecContext(…)`: the error is dropped.
unfoldable pub ignore_error : {A : Type 0} → M A → M (Unit {0})
ignore_error m d = (ok tt, (m d).1)

-- The tables are the same, whatever became of `faults`.
pub record SameTables (d e : Db) : Type 0 where
  pub pastes : d.pastes ≡ e.pastes
  pub tokens : d.tokens ≡ e.tokens
  pub next_token : d.next_token ≡ e.next_token
  pub tasks : d.tasks ≡ e.tasks
  pub history : d.history ≡ e.history

-- `t.Unix()`: the seconds since 1970, of an instant counted from the year 1.
abbrev pub unix : ℕ → ℕ
unix t = t / 1_000_000_000 - 62_135_596_800

undo-atomic :
    {A : Type 0} (before : Db) (r : Result A × Db) {e : Error}
    → (undo before r).0 ≡ err e
    → SameTables (undo before r).1 before
undo-atomic before (ok a, d) h = cc
undo-atomic before (err e, d) h = record {
  pastes = refl;
  tokens = refl;
  next_token = refl;
  tasks = refl;
  history = refl;
}

-- A transaction that fails leaves every table as it was.
pub transaction-atomic :
    {A : Type 0} (body : M A) (d : Db) {e : Error}
    → (transaction body d).0 ≡ err e
    → SameTables (transaction body d).1 d
unfolding transaction
transaction-atomic body d h = undo-atomic d _ h
