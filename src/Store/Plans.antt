-- ===== src/Store/Plans.antt =====
-- `refresh_path_labels` of src/trigger_state/store.rs: a path planner narrows a label write that waits.
use xero_bot.Text.{Text, text_eq, codes}
use xero_bot.Prelude.{ℕ, Bool, Option, none, some, List, any, not, ◌==◌, ◌&&◌, if◌then◌else◌}
use xero_bot.Parser.Args.{is_empty}
use xero_bot.Store.{
  Answer, ◌>>=◌, ◌>>◌, Claim, Db, OperationRow, Operation, State, is_state, ok, guard, ok_or,
  missing_operation, stale_label_lease, missing_labels,
}
use xero_bot.Store.Table.{find_where, select_where, update_where}
use xero_bot.Store.Operations.{operation, has_key, has_parent}
use xero_bot.Store.Reserve.{Requests}

module _ {Value : Type 0} where
  abbrev pub is_label_write : Text → OperationRow Value → Bool
  is_label_write parent r =
      has_parent parent r
      && (text_eq r.spec.kind (codes "ensure_labels")
          && (is_state r.state State.pending && not r.sent))

  abbrev pub is_fresh : Text → OperationRow Value → Bool
  is_fresh key r = has_key key r && (is_state r.state State.pending && not r.sent)

module _ {Value : Type 0} (requests : Requests Value) where
  -- the labels that the write asked for, whatever their case
  unfoldable pub narrowed : List Text → List Text → List Text
  unfolding select_where
  narrowed original selected =
      select_where
        (λ label. any (λ old. text_eq (requests.lower old) (requests.lower label)) original)
        selected

  abbrev pub relabelled : Operation Value → List Text → ℕ → OperationRow Value → OperationRow Value
  relabelled child labels now r = record r {
    spec = record (child.spec) { request = requests.with_labels child.spec.request labels };
    state = if is_empty labels then State.superseded else State.pending;
    detail = codes "path labels revalidated against repository inventory";
    updated_at = now;
  }

  -- the write of the planner, if there is one
  unfoldable pub relabel :
      Option (OperationRow Value) → List Text → ℕ → Db Value → Answer (List Text × Db Value)
  unfolding operation update_where narrowed
  relabel none selected now db = ok (selected, db)
  relabel (some row) selected now db = do
    child ← ok_or (operation row.key db) missing_operation
    original ← ok_or (requests.labels child.spec.request) missing_labels
    let labels = narrowed original selected
    ok (
      labels,
      record db {
        operations = update_where (is_fresh row.key) (relabelled child labels now) db.operations;
      },
    )

  unfoldable pub refresh_path_labels :
      Claim Value → List Text → ℕ → Db Value → Answer (List Text × Db Value)
  unfolding operation find_where relabel
  refresh_path_labels parent selected now db = do
    active ← ok_or (operation parent.operation.spec.key db) missing_operation
    guard
        (is_state active.state State.running
          && (active.attempts == parent.attempt && text_eq active.spec.kind (codes "path")))
        stale_label_lease
    relabel (find_where (is_label_write parent.operation.spec.key) db.operations) selected now db
