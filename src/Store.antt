-- ===== src/Store.antt =====
-- The trigger state database: src/trigger_state/store.rs, notification_store.rs and context.rs. A
-- table is the list of its rows, and each SQL statement is the function of `Table` that it says.
-- Times are seconds since 1970 and GitHub's IDs are natural numbers, where the source's test for a
-- positive one is a test against 0. A column that holds JSON holds the value.
pub mod Table
pub mod Inbox
pub mod Operations
pub mod Reserve
pub mod Claims
pub mod Leases
pub mod Admin
pub mod Plans
pub mod Sessions
pub mod Ledger
pub mod Calls
mod Budget
pub mod Lifecycle
mod Evolution
mod Refines
mod Kept
mod Fencing
mod Progress
mod Liveness
mod Recovery
mod Queue
mod Tests
use xero_bot.Text.{Text}
use xero_bot.Prelude.{Bool, Option, ℕ, [], List, some, min, true, none, false, ◌*◌, ◌^◌}

pub data State : Type 0 where
  pending running succeeded failed unknown superseded : State

abbrev pub is_state : State → State → Bool
is_state State.pending State.pending = true
is_state State.running State.running = true
is_state State.succeeded State.succeeded = true
is_state State.failed State.failed = true
is_state State.unknown State.unknown = true
is_state State.superseded State.superseded = true
is_state _ _ = false

-- `EventContext` of context.rs
pub record EventContext : Type 0 where
  pub delivery : Text
  pub event : Text
  pub action : Text
  pub repository_id : ℕ
  pub installation_id : ℕ
  pub repo : Text
  pub thread_id : ℕ
  pub number : ℕ
  pub is_pr : Bool
  pub comment_id : Option ℕ
  pub user_id : Option ℕ
  pub source_time : Text
  pub body : Option Text
  pub login : Option Text
  pub user_type : Option Text
  pub via_app_id : Option ℕ
  pub author : Option Text
  pub head_sha : Option Text
  pub base_sha : Option Text

-- `Value` is serde_json's.
pub record OperationSpec (Value : Type 0) : Type 0 where
  pub key : Text
  pub parent : Option Text
  pub kind : Text
  pub context : EventContext
  pub config_sha : Option Text
  pub request : Value

pub record Operation (Value : Type 0) : Type 0 where
  pub spec : OperationSpec Value
  pub state : State
  pub attempts : ℕ
  pub lease_delivery : Text
  pub sent : Bool
  pub result : Option Value
  pub detail : Text
  pub recipients : List Text

pub record Claim (Value : Type 0) : Type 0 where
  pub operation : Operation Value
  pub attempt : ℕ

pub record InboxItem : Type 0 where
  pub context : EventContext
  pub attempt : ℕ

-- a row of `inbox`
pub record InboxRow : Type 0 where
  pub delivery : Text
  pub context : EventContext
  pub state : State
  pub attempts : ℕ
  pub next_at : ℕ
  pub updated_at : ℕ
  pub detail : Text

-- a row of `operations`
pub record OperationRow (Value : Type 0) : Type 0 where
  pub key : Text
  pub parent : Option Text
  pub delivery : Text
  pub spec : OperationSpec Value
  pub lease_delivery : Text
  pub state : State
  pub attempts : ℕ
  pub sent : Bool
  pub result : Option Value
  pub detail : Text
  pub next_at : ℕ
  pub updated_at : ℕ

-- a row of `recipients`
pub record Recipient : Type 0 where
  pub installation : ℕ
  pub repository : ℕ
  pub pr : ℕ
  pub login : Text
  pub operation : Text
  pub committed : Bool

-- `SessionWake`
pub record SessionWake : Type 0 where
  pub installation_id : ℕ
  pub repository_id : ℕ
  pub thread_number : ℕ
  pub user_id : ℕ
  pub comment_id : ℕ
  pub source_at : ℕ

-- a row of `sessions`
pub record Session : Type 0 where
  pub installation : ℕ
  pub repository : ℕ
  pub thread : ℕ
  pub user : ℕ
  pub comment : ℕ
  pub source_at : ℕ

-- a row of `admin_audit`
pub record Audit : Type 0 where
  pub operation : Text
  pub decision : Text
  pub evidence : Text
  pub created_at : ℕ

-- a row of `path_notification_ledgers`
pub record LedgerRow : Type 0 where
  pub installation : ℕ
  pub repository : ℕ
  pub pr : ℕ
  pub verified_at : ℕ
  pub evidence : Text

pub record Db (Value : Type 0) : Type 0 where
  pub inbox : List InboxRow
  pub operations : List (OperationRow Value)
  pub recipients : List Recipient
  pub sessions : List Session
  pub audit : List Audit
  pub ledgers : List LedgerRow

-- the tables of a new database
abbrev pub empty : {Value : Type 0} → Db Value
empty = record {
  inbox = [];
  operations = [];
  recipients = [];
  sessions = [];
  audit = [];
  ledgers = [];
}

-- the messages of the errors, by what they say
pub data StoreError : Type 0 where
  delivery_reused stale_inbox_lease missing_operation stale_send stale_completion : StoreError
  invalid_completion sent_must_reconcile invalid_outcome unknown_key stale_attempt : StoreError
  not_unknown not_idempotent evidence_required unknown_decision not_manageable : StoreError
  unknown_needs_confirmation receipt_required receipt_unexpected bad_scope bad_login : StoreError
  bad_notification other_scope stale_body_lease stale_snapshot_lease bad_session : StoreError
  missing_labels stale_label_lease bad_restoration : StoreError

pub data Answer {ℓ} (A : Type ℓ) : Type ℓ where
  ok : A → Answer A
  err : StoreError → Answer A

infixl 5 ◌>>=◌ ◌>>◌
abbrev pub ◌>>=◌ {ℓ κ} : {A : Type ℓ} {B : Type κ} → Answer A → (A → Answer B) → Answer B
ok a >>= f = f a
err e >>= f = err e

abbrev pub ◌>>◌ {ℓ} : {B : Type ℓ} → Answer (Unit {0}) → Answer B → Answer B
m >> k = m >>= λ _. k

abbrev pub guard : Bool → StoreError → Answer (Unit {0})
guard true e = ok tt
guard false e = err e

-- `Option::ok_or`
abbrev pub ok_or {ℓ} : {A : Type ℓ} → Option A → StoreError → Answer A
ok_or none e = err e
ok_or (some a) e = ok a

-- A method that returns an error has rolled its transaction back: the database is as it was.
abbrev pub after : {Value A : Type 0} → Answer (A × Db Value) → Db Value → Db Value
after (ok r) db = r.1
after (err e) db = db

-- `retry_delay`
unfoldable pub retry_delay : ℕ → ℕ
retry_delay attempt = min (5 * 2 ^ min attempt 10) 3600
