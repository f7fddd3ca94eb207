-- ===== src/Store/Ledger.antt =====
-- `restore_notification_ledger` of src/trigger_state/notification_store.rs: an operator adds the logins that
-- were notified on a pull request before the database knew of it.
use xero_bot.Store.Operations.{has_key}
use xero_bot.Store.{
  ◌>>◌, Recipient, OperationSpec, OperationRow, LedgerRow, Audit, EventContext, Db, Answer, State,
  guard, bad_restoration, ok,
}
use xero_bot.Mask.{is_blank}
use xero_bot.Store.Table.{upsert, insert_or_ignore}
use xero_bot.Text.{Text, codes, text_eq}
use xero_bot.Prelude.{ℕ, List, none, true, ◌∷◌, ◌&&◌, [], ◌==◌, false, ◌++◌, not, leb, length}
use xero_bot.Store.Reserve.{Requests, in_scope, is_positive, check_recipients, normalized}

-- the context of the operation that stands for what was notified before
abbrev pub restored_context : Text → Text → ℕ → ℕ → ℕ → EventContext
restored_context key source_time installation repository pr = record {
  delivery = key;
  event = codes "ledger_restore";
  action = codes "restore";
  repository_id = repository;
  installation_id = installation;
  repo = [];
  thread_id = pr;
  number = 0;
  is_pr = true;
  comment_id = none;
  user_id = none;
  source_time = source_time;
  body = none;
  login = none;
  user_type = none;
  via_app_id = none;
  author = none;
  head_sha = none;
  base_sha = none;
}

-- a committed recipient
abbrev pub restored_recipient : Text → ℕ → ℕ → ℕ → Text → Recipient
restored_recipient key installation repository pr login = record {
  installation = installation;
  repository = repository;
  pr = pr;
  login = login;
  operation = key;
  committed = true;
}

-- the loop over the logins: a login of the scope goes over to the operation
unfoldable pub restore_recipients : Text → ℕ → ℕ → ℕ → List Text → List Recipient → List Recipient
unfolding upsert
restore_recipients key installation repository pr [] rs = rs
restore_recipients key installation repository pr (u ∷ us) rs =
    restore_recipients key installation repository pr us (
      upsert (λ r. in_scope installation repository pr r && text_eq r.login u)
        (λ r. record r { operation = key; committed = true })
        (restored_recipient key installation repository pr u) rs)

abbrev pub restored_ledger : ℕ → ℕ → ℕ → ℕ → Text → LedgerRow
restored_ledger installation repository pr now evidence = record {
  installation = installation;
  repository = repository;
  pr = pr;
  verified_at = now;
  evidence = evidence;
}

abbrev pub restored_audit : Text → Text → ℕ → Audit
restored_audit key evidence now = record {
  operation = key;
  decision = codes "restore-complete-notification-ledger";
  evidence = evidence;
  created_at = now;
}

module _ {Value : Type 0} (requests : Requests Value) (scrub : Text → Text) where
  abbrev pub restored_spec : Text → ℕ → ℕ → ℕ → ℕ → OperationSpec Value
  restored_spec key installation repository pr now = record {
    key = key;
    parent = none;
    kind = codes "notification_ledger";
    context = restored_context key (requests.digits now) installation repository pr;
    config_sha = none;
    request = requests.no_fields;
  }

  -- the row that is inserted, with the table's defaults
  abbrev pub restored_row : Text → ℕ → ℕ → ℕ → ℕ → OperationRow Value
  restored_row key installation repository pr now = record {
    key = key;
    parent = none;
    delivery = key;
    spec = restored_spec key installation repository pr now;
    lease_delivery = [];
    state = State.succeeded;
    attempts = 0;
    sent = false;
    result = none;
    detail = [];
    next_at = 0;
    updated_at = now;
  }

  -- the four statements of the transaction
  unfoldable pub restored : ℕ → ℕ → ℕ → List Text → Text → ℕ → Db Value → Db Value
  unfolding insert_or_ignore upsert restore_recipients normalized
  restored installation repository pr users evidence now db =
      let key = requests.restored_key repository pr installation in
      record db {
        operations =
            insert_or_ignore (has_key key) (restored_row key installation repository pr now)
              db.operations;
        recipients =
            restore_recipients key installation repository pr (normalized users) db.recipients;
        ledgers =
            upsert
              (λ l. l.installation == installation && (l.repository == repository && l.pr == pr))
              (λ l. record l { verified_at = now; evidence = scrub evidence })
              (restored_ledger installation repository pr now (scrub evidence)) db.ledgers;
        audit = db.audit ++ restored_audit key (scrub evidence) now ∷ [];
      }

  unfoldable pub restore_notification_ledger :
      ℕ → ℕ → ℕ → List Text → Text → ℕ → Db Value → Answer (Unit {0} × Db Value)
  unfolding restored check_recipients is_blank
  restore_notification_ledger installation repository pr users evidence now db = do
    guard
        (is_positive installation
          && (is_positive repository
              && (is_positive pr && (not (is_blank evidence) && leb (length users) 10))))
        bad_restoration
    check_recipients installation repository pr users
    ok (tt, restored installation repository pr users evidence now db)
