-- ===== src/Store/Claims.antt =====
-- Claims of src/trigger_state/store.rs: an attempt on an operation, and the budget that it reserves.
use xero_bot.Text.{Text, text_eq, codes}
use xero_bot.Prelude.{
  List, ℕ, Bool, Option, false, ◌+◌, ◌&&◌, if◌then◌else◌, [], some, ◌==◌, ◌-◌, none, leb,
}
use xero_bot.Store.Table.{count_where, insert_or_ignore, update_where}
use xero_bot.Store.Operations.{operation, has_key}
use xero_bot.Store.{
  ◌>>=◌, ◌>>◌, OperationSpec, Claim, State, OperationRow, Answer, Db, ok, is_state, ok_or, guard,
  bad_scope, missing_operation, bad_notification, other_scope,
}
use xero_bot.Store.Reserve.{
  Requests, same_scope, of_context, is_positive_scope, check_recipients, normalized, reserve,
}

module _ {Value : Type 0} where
  -- the row that INSERT leaves, with the defaults of the table
  abbrev pub new_operation : OperationSpec Value → ℕ → OperationRow Value
  new_operation spec now = record {
    key = spec.key;
    parent = spec.parent;
    delivery = spec.context.delivery;
    spec = spec;
    lease_delivery = [];
    state = State.pending;
    attempts = 0;
    sent = false;
    result = none;
    detail = [];
    next_at = 0;
    updated_at = now;
  }

  abbrev pub inserted : OperationSpec Value → ℕ → Db Value → Db Value
  inserted spec now db = record db {
    operations = insert_or_ignore (has_key spec.key) (new_operation spec now) db.operations;
  }

  abbrev pub is_claimable : Text → ℕ → OperationRow Value → Bool
  is_claimable key now r = has_key key r && (is_state r.state State.pending && leb r.next_at now)

  abbrev pub begun : OperationSpec Value → ℕ → OperationRow Value → OperationRow Value
  begun spec now r = record r {
    state = State.running;
    attempts = r.attempts + 1;
    sent = false;
    updated_at = now;
    lease_delivery = spec.context.delivery;
  }

  -- `if max.is_some()`: the stored intent must be of the same pull request
  abbrev pub check_owner : OperationSpec Value → Option ℕ → Db Value → Answer (Unit {0})
  check_owner spec none db = ok tt
  check_owner spec (some max) db = do
    stored ← ok_or (operation spec.key db) missing_operation
    guard (same_scope stored.spec.context spec.context) other_scope

  -- `if let Some(max)`: reserve the budget, and note in the request who got no place
  unfoldable pub reserve_budget :
      Requests Value → OperationSpec Value → List Text → Option ℕ → Db Value → Db Value
  unfolding reserve count_where update_where normalized
  reserve_budget requests spec users none db = db
  reserve_budget requests spec users (some max) db =
      let ctx = spec.context in
      let r =
        reserve ctx spec.key (max - count_where (of_context ctx) db.recipients) (normalized users)
          db.recipients in
      record db {
        recipients = r.0;
        operations =
            update_where (has_key spec.key)
              (λ o. record o {
                spec = record (o.spec) { request = requests.with_suppressed o.spec.request r.1 };
              })
              db.operations;
      }

  abbrev pub claimed : Text → Db Value → Answer (Option (Claim Value) × Db Value)
  claimed key db = do
    op ← ok_or (operation key db) missing_operation
    ok (some (record { operation = op; attempt = op.attempts }), db)

  unfoldable pub claim_with_recipients :
      Requests Value
      → OperationSpec Value
      → List Text
      → Option ℕ
      → ℕ
      → Db Value
      → Answer (Option (Claim Value) × Db Value)
  unfolding check_recipients insert_or_ignore count_where update_where reserve_budget operation
  claim_with_recipients requests spec users max now db = do
    check_recipients spec.context.installation_id spec.context.repository_id spec.context.thread_id
        users
    let db1 = inserted spec now db
    check_owner spec max db1
    let db2 = record db1 {
      operations = update_where (is_claimable spec.key now) (begun spec now) db1.operations;
    }
    if count_where (is_claimable spec.key now) db1.operations == 0
        then ok (none, db1)
        else claimed spec.key (reserve_budget requests spec users max db2)

  unfoldable pub claim :
      Requests Value → OperationSpec Value → ℕ → Db Value → Answer (Option (Claim Value) × Db Value)
  unfolding claim_with_recipients
  claim requests spec now db = claim_with_recipients requests spec [] none now db

  unfoldable pub claim_notification :
      Requests Value
      → OperationSpec Value
      → List Text
      → ℕ
      → ℕ
      → Db Value
      → Answer (Option (Claim Value) × Db Value)
  unfolding claim_with_recipients
  claim_notification requests spec users max now db = do
    guard (leb max 10 && text_eq spec.kind (codes "comment")) bad_notification
    guard (is_positive_scope spec.context) bad_scope
    claim_with_recipients requests spec users (some max) now db
