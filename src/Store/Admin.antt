-- ===== src/Store/Admin.antt =====
-- The reconciliation of uncertain writes and the operator's decisions (src/trigger_state/store.rs),
-- and the restored ledger of recipients (src/trigger_state/notification_store.rs).
use xero_bot.Store.Operations.{has_key, operation}
use xero_bot.Store.Inbox.{has_delivery}
use xero_bot.Mask.{is_blank}
use mathlib.Core.Option
use xero_bot.Store.{
  OperationRow, Operation, Answer, ◌>>=◌, ◌>>◌, Db, ok, guard, ok_or, invalid_outcome, unknown_key,
  stale_attempt, not_unknown, not_idempotent, not_manageable, unknown_needs_confirmation,
  receipt_required, receipt_unexpected, evidence_required, unknown_decision, Recipient, State,
  retry_delay, is_state,
}
use xero_bot.Text.{Text, text_eq, codes, strip_suffix}
use xero_bot.Prelude.{
  Option, ℕ, List, Bool, false, if◌then◌else◌, none, some, ◌||◌, not, ◌==◌, ◌++◌, ◌∷◌, [], true,
  ◌&&◌, ◌+◌,
}
use xero_bot.Store.Table.{update_where, delete_where}
use xero_bot.Store.Reserve.{Requests, commit_recipients, release_recipients}

abbrev pub is_outcome : Text → Bool
is_outcome outcome =
    text_eq outcome (codes "succeeded")
    || (text_eq outcome (codes "not_sent") || text_eq outcome (codes "retry_idempotent"))

-- what an outcome does to the reservations of its operation
abbrev pub reconcile_recipients : Text → Text → List Recipient → List Recipient
reconcile_recipients outcome key rs =
    if text_eq outcome (codes "succeeded")
    then commit_recipients key rs
    else if text_eq outcome (codes "not_sent")
    then release_recipients key rs
    else rs

abbrev pub is_decision : Text → Bool
is_decision decision =
    text_eq decision (codes "confirm-success")
    || (text_eq decision (codes "confirm-not-sent") || text_eq decision (codes "retry"))

abbrev pub decide_recipients : Text → Text → List Recipient → List Recipient
decide_recipients decision key rs =
    if text_eq decision (codes "confirm-success")
    then commit_recipients key rs
    else if text_eq decision (codes "confirm-not-sent")
    then release_recipients key rs
    else rs

abbrev pub ends_in_assignees : Option Text → Bool
ends_in_assignees none = false
ends_in_assignees (some route) = elim (strip_suffix (codes "/assignees") route) [
  | none ↦ false
  | some _ ↦ true
]

module _ {Value : Type 0} where
  abbrev pub reconciled :
      (Text → Text)
      → Operation Value
      → Text
      → Option Value
      → Text
      → ℕ
      → OperationRow Value
      → OperationRow Value
  reconciled scrub op outcome result evidence now r = record r {
    state = if text_eq outcome (codes "succeeded") then State.succeeded else State.pending;
    sent = text_eq outcome (codes "succeeded");
    result = result;
    detail = scrub evidence;
    next_at =
        if text_eq outcome (codes "retry_idempotent") then now + retry_delay op.attempts else now;
    updated_at = now;
  }

  unfoldable pub resolve_unknown :
      (Text → Text)
      → Operation Value
      → Text
      → Option Value
      → Text
      → ℕ
      → Db Value
      → Answer (Unit {0} × Db Value)
  unfolding update_where delete_where operation
  resolve_unknown scrub expected outcome result evidence now db = do
    let key = expected.spec.key
    guard (is_outcome outcome) invalid_outcome
    op ← ok_or (operation key db) unknown_key
    guard (op.attempts == expected.attempts) stale_attempt
    guard (is_state expected.state State.unknown && is_state op.state State.unknown) not_unknown
    guard
        (not (text_eq outcome (codes "retry_idempotent"))
          || text_eq op.spec.kind (codes "ensure_labels"))
        not_idempotent
    ok (
      tt,
      record db {
        operations =
            update_where (λ r. has_key key r && is_state r.state State.unknown)
              (reconciled scrub op outcome result evidence now) db.operations;
        recipients = reconcile_recipients outcome key db.recipients;
      },
    )

  abbrev pub decided :
      Requests Value
      → (Text → Text)
      → Text
      → Text
      → Option Value
      → ℕ
      → OperationRow Value
      → OperationRow Value
  decided requests scrub decision evidence receipt now r = record r {
    state = if text_eq decision (codes "confirm-success") then State.succeeded else State.pending;
    sent = false;
    detail = scrub evidence;
    next_at = now;
    updated_at = now;
    result =
        if text_eq decision (codes "confirm-success")
        then Option.map requests.receipt receipt
        else none;
  }

  -- the planner above a managed operation runs again if it had failed
  abbrev pub is_failed_parent : Option Text → OperationRow Value → Bool
  is_failed_parent none r = false
  is_failed_parent (some parent) r = has_key parent r && is_state r.state State.failed

  abbrev pub has_receipt : Option Value → Bool
  has_receipt none = false
  has_receipt (some _) = true

  abbrev pub has_assignees_receipt : Requests Value → Option Value → Bool
  has_assignees_receipt requests none = false
  has_assignees_receipt requests (some r) = requests.has_assignees r

  abbrev pub check_decision :
      Requests Value → Operation Value → Text → Option Value → Answer (Unit {0})
  check_decision requests op decision receipt = do
    guard (is_state op.state State.unknown || is_state op.state State.failed) not_manageable
    guard (not (text_eq decision (codes "retry") && is_state op.state State.unknown))
        unknown_needs_confirmation
    guard
        (not (
          text_eq decision (codes "confirm-success")
          && (ends_in_assignees (requests.route op.spec.request)
              && not (has_assignees_receipt requests receipt))))
        receipt_required
    guard (not (has_receipt receipt && not (text_eq decision (codes "confirm-success"))))
        receipt_unexpected

  unfoldable pub administer_with_receipt :
      Requests Value
      → (Text → Text)
      → Text
      → Text
      → Text
      → Option Value
      → ℕ
      → Db Value
      → Answer (Unit {0} × Db Value)
  unfolding update_where delete_where operation is_blank
  administer_with_receipt requests scrub key decision evidence receipt now db = do
    guard (not (is_blank evidence)) evidence_required
    guard (is_decision decision) unknown_decision
    op ← ok_or (operation key db) unknown_key
    check_decision requests op decision receipt
    let rows =
        update_where (has_key key) (decided requests scrub decision evidence receipt now)
          db.operations
    ok (
      tt,
      record db {
        operations =
            update_where (is_failed_parent op.spec.parent)
              (λ r. record r { state = State.pending; next_at = now }) rows;
        recipients = decide_recipients decision key db.recipients;
        audit =
            db.audit
            ++ record {
              operation = key;
              decision = decision;
              evidence = scrub evidence;
              created_at = now;
            }
              ∷ [];
        inbox =
            update_where (has_delivery op.spec.context.delivery)
              (λ r. record r { state = State.pending; next_at = now }) db.inbox;
      },
    )

  -- `administer`
  unfoldable pub administer :
      Requests Value
      → (Text → Text)
      → Text
      → Text
      → Text
      → ℕ
      → Db Value
      → Answer (Unit {0} × Db Value)
  unfolding administer_with_receipt
  administer requests scrub key decision evidence now db =
      administer_with_receipt requests scrub key decision evidence none now db
