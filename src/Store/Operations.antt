-- ===== src/Store/Operations.antt =====
-- The operations of src/trigger_state/store.rs that recover, refuse, supersede or revoke: none of them
-- needs a claim.
use xero_bot.Prelude.{none, some, Bool, Option, ℕ, ◌&&◌, List, any, leb, not, map, ◌||◌, false}
use xero_bot.Text.Order.{sort_texts}
use xero_bot.Text.{Text, text_eq, codes}
use xero_bot.Store.Table.{select_where, find_where, update_where, delete_where}
use xero_bot.Store.{OperationRow, Db, State, Bool, Operation, Option, ℕ, Recipient, is_state}

abbrev pub belongs_to : Text → Recipient → Bool
belongs_to key r = text_eq r.operation key

-- the logins of an operation, in their order
unfoldable pub logins_of : Text → List Recipient → List Text
unfolding select_where sort_texts
logins_of key rs = sort_texts (map (λ (r : Recipient). r.login) (select_where (belongs_to key) rs))

abbrev pub is_waiting : State → Bool
is_waiting state = is_state state State.pending || is_state state State.unknown

abbrev pub is_over : State → Bool
is_over state =
    is_state state State.superseded
    || (is_state state State.succeeded || is_state state State.failed)

module _ {Value : Type 0} where
  abbrev pub has_key : Text → OperationRow Value → Bool
  has_key key r = text_eq r.key key

  abbrev pub has_parent : Text → OperationRow Value → Bool
  has_parent parent r = elim r.parent [ none ↦ false | some p ↦ text_eq p parent ]

  abbrev pub to_operation : Db Value → OperationRow Value → Operation Value
  to_operation db r = record {
    spec = r.spec;
    state = r.state;
    attempts = r.attempts;
    lease_delivery = r.lease_delivery;
    sent = r.sent;
    result = r.result;
    detail = r.detail;
    recipients = logins_of r.key db.recipients;
  }

  -- `operation`, and `get`
  unfoldable pub operation : Text → Db Value → Option (Operation Value)
  unfolding find_where logins_of
  operation key db = elim (find_where (has_key key) db.operations) [
    | none ↦ none
    | some r ↦ some (to_operation db r)
  ]

  unfoldable pub recover_running : ℕ → ℕ → Db Value → Db Value
  unfolding update_where
  recover_running before now db = record db {
    inbox =
        update_where (λ r. is_state r.state State.running && leb r.updated_at before)
          (λ r. record r {
            state = State.unknown;
            detail = codes "planner interrupted";
            updated_at = now;
          })
          db.inbox;
    operations =
        update_where (λ r. is_state r.state State.running && leb r.updated_at before)
          (λ r. record r {
            state = State.unknown;
            detail = codes "owner lost or worker timed out";
            updated_at = now;
          })
          db.operations;
  }

  unfoldable pub recover_delivery : Text → ℕ → Db Value → Db Value
  unfolding update_where
  recover_delivery delivery now db = record db {
    operations =
        update_where (λ r. text_eq r.lease_delivery delivery && is_state r.state State.running)
          (λ r. record r {
            state = State.unknown;
            detail = codes "delivery worker ended without a receipt";
            updated_at = now;
          })
          db.operations;
  }

  -- the reservations of an operation that match a test on its row, and are not committed
  abbrev pub is_released_by :
      (OperationRow Value → Bool) → List (OperationRow Value) → Recipient → Bool
  is_released_by test rows r =
      not r.committed && any (λ o. text_eq o.key r.operation && test o) rows

  unfoldable pub fail_unsent : (Text → Text) → Text → Text → ℕ → Db Value → Db Value
  unfolding update_where delete_where
  fail_unsent scrub key detail now db =
      let rows =
        update_where (λ r. has_key key r && (is_waiting r.state && not r.sent))
          (λ r. record r {
            state = State.failed;
            detail = scrub detail;
            next_at = 0;
            updated_at = now;
          })
          db.operations in
      record db {
        operations = rows;
        recipients =
            delete_where
              (λ r.
                belongs_to key r
                && is_released_by (λ o. is_state o.state State.failed && not o.sent) rows r)
              db.recipients;
      }

  unfoldable pub supersede_unsent_children : Text → ℕ → Db Value → Db Value
  unfolding update_where delete_where
  supersede_unsent_children parent now db =
      let rows =
        update_where (λ r. has_parent parent r && (is_state r.state State.pending && not r.sent))
          (λ r. record r {
            state = State.superseded;
            detail = codes "parent snapshot superseded";
            updated_at = now;
          })
          db.operations in
      record db {
        operations = rows;
        recipients =
            delete_where
              (is_released_by
                (λ o. has_parent parent o && (is_state o.state State.superseded && not o.sent))
                rows)
              db.recipients;
      }

  unfoldable pub unresolved : Text → Db Value → Bool
  unresolved delivery db =
      any
        (λ (r : OperationRow Value).
          (text_eq r.delivery delivery || text_eq r.lease_delivery delivery)
          && (is_waiting r.state || is_state r.state State.running))
        db.operations

  abbrev pub is_planner : OperationRow Value → Bool
  is_planner r = text_eq r.spec.kind (codes "opened") || text_eq r.spec.kind (codes "path")

  unfoldable pub revoke_opened : Text → ℕ → Db Value → Db Value
  unfolding update_where delete_where
  revoke_opened key now db =
      let planners =
        update_where (λ r. has_key key r && (is_waiting r.state && is_planner r))
          (λ r. record r {
            state = State.superseded;
            detail = codes "automatic rule removed, disabled or changed";
            updated_at = now;
          })
          db.operations in
      let over = any (λ o. has_key key o && (is_over o.state && is_planner o)) planners in
      let rows =
        update_where (λ r. has_parent key r && (is_waiting r.state && (not r.sent && over)))
          (λ r. record r {
            state = State.superseded;
            detail = codes "automatic policy revoked";
            updated_at = now;
          })
          planners in
      record db {
        operations = rows;
        recipients =
            delete_where
              (is_released_by
                (λ o. has_parent key o && (is_state o.state State.superseded && not o.sent)) rows)
              db.recipients;
      }
