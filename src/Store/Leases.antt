-- ===== src/Store/Leases.antt =====
-- The steps of src/trigger_state/store.rs and notification_store.rs that a claim fences: an attempt is
-- marked, changed and completed only while its row is running with its number.
use xero_bot.Text.{Text, text_eq, codes}
use xero_bot.Prelude.{ℕ, Bool, Option, ◌&&◌, if◌then◌else◌, ◌==◌, not, true}
use xero_bot.Store.Table.{count_where, update_where, delete_where}
use xero_bot.Store.Operations.{operation, has_key}
use xero_bot.Store.{
  ◌>>=◌, ◌>>◌, OperationSpec, Claim, State, OperationRow, Answer, Db, ok, is_state, err, stale_send,
  stale_snapshot_lease, ok_or, guard, invalid_completion, missing_operation, sent_must_reconcile,
  stale_body_lease, stale_completion,
}
use xero_bot.Store.Reserve.{Requests, is_completion, settle_recipients}

module _ {Value : Type 0} where
  -- the rows of a live attempt
  abbrev pub is_leased : Claim Value → OperationRow Value → Bool
  is_leased c r =
      has_key c.operation.spec.key r && (r.attempts == c.attempt && is_state r.state State.running)

  unfoldable pub mark_sent : Claim Value → ℕ → Db Value → Answer (Unit {0} × Db Value)
  unfolding update_where count_where
  mark_sent c now db =
      if count_where (is_leased c) db.operations == 1
      then ok (
        tt,
        record db {
          operations =
              update_where (is_leased c) (λ r. record r { sent = true; updated_at = now })
                db.operations;
        },
      )
      else err stale_send

  -- `state == Superseded && operation.sent`
  abbrev pub check_unsent : State → Text → Db Value → Answer (Unit {0})
  check_unsent State.superseded key db = do
    op ← ok_or (operation key db) missing_operation
    guard (not op.sent) sent_must_reconcile
  check_unsent _ key db = ok tt

  unfoldable pub finish :
      (Text → Text)
      → Claim Value
      → State
      → Option Value
      → Text
      → ℕ
      → Db Value
      → Answer (Unit {0} × Db Value)
  unfolding update_where count_where delete_where operation
  finish scrub c state result detail now db = do
    let key = c.operation.spec.key
    guard (is_completion state) invalid_completion
    check_unsent state key db
    guard (count_where (is_leased c) db.operations == 1) stale_completion
    ok (
      tt,
      record db {
        operations =
            update_where (is_leased c)
              (λ r. record r {
                state = state;
                result = result;
                detail = scrub detail;
                updated_at = now;
              })
              db.operations;
        recipients = settle_recipients state key db.recipients;
      },
    )

  -- the automatic rule's planner takes the verified snapshot, before it starts
  unfoldable pub refresh_opened_snapshot :
      Claim Value → OperationSpec Value → ℕ → Db Value → Answer (Unit {0} × Db Value)
  unfolding update_where count_where
  refresh_opened_snapshot c spec now db =
      let held = λ (r : OperationRow Value).
        has_key spec.key r
        && (r.attempts == c.attempt
            && (is_state r.state State.running
                && (not r.sent && text_eq r.spec.kind (codes "opened")))) in
      if count_where held db.operations == 1
      then ok (
        tt,
        record db {
          operations =
              update_where held (λ r. record r { spec = spec; updated_at = now }) db.operations;
        },
      )
      else err stale_snapshot_lease

  unfoldable pub prepare_notification :
      Requests Value → Claim Value → Text → ℕ → Db Value → Answer (Unit {0} × Db Value)
  unfolding update_where operation
  prepare_notification requests c body now db = do
    op ← ok_or (operation c.operation.spec.key db) missing_operation
    guard
        (is_state op.state State.running
          && (not op.sent && (op.attempts == c.attempt && text_eq op.spec.kind (codes "comment"))))
        stale_body_lease
    ok (
      tt,
      record db {
        operations =
            update_where (has_key op.spec.key)
              (λ r. record r {
                spec = record (op.spec) { request = requests.with_body op.spec.request body };
                updated_at = now;
              })
              db.operations;
      },
    )
