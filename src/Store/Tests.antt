-- ===== src/Store/Tests.antt =====
-- A database with one operation, and the calls of a worker that claims it, sends it and is interrupted.
use xero_bot.Store.Admin.{resolve_unknown}
use xero_bot.Prelude.{
  Member, refl, List, ℕ, [], ◌∷◌, ◌≡◌, none, some, true, false, ◌≤◌, here, arith, All, ◌⊎◌, ◌≢◌,
  ◌+◌, inr, map,
}
use xero_bot.Store.Inbox.{claim_inbox, is_due, cleanup_inbox, due_before}
use xero_bot.Store.Lifecycle.{UniqueKeys, Evolves, life, work}
use xero_bot.Store.Sessions.{session_before_at, woken_by}
use xero_bot.Text.{
  is_whitespace, Text, codes, text_eq, len, starts_with, strip_suffix, is_ascii_alphanumeric,
  to_ascii_lowercase,
}
use xero_bot.Store.{
  EventContext, OperationSpec, OperationRow, Operation, Claim, Db, State, InboxRow, Session,
  SessionWake, empty, ok, err, stale_send, StoreError,
}
use xero_bot.Store.Claims.{new_operation, claim, claim_notification}
use xero_bot.Store.Leases.{mark_sent, finish}
use xero_bot.Store.Reserve.{in_scope}
use xero_bot.Store.Operations.{operation, has_key, recover_running, belongs_to}
use xero_bot.Store.Calls.{Host, Call, apply, apply_all}
use xero_bot.Store.Table.{count_where, find_where}
use xero_bot.Store.Budget.{apply_all-Capped, restored_in}
use xero_bot.Store.Refines.Runs.{apply-Evolves}
use xero_bot.Store.Fencing.{stale-Refused, sent-Held, IsHeld}
use xero_bot.Store.Liveness.{write-Completes}
use xero_bot.Store.Recovery.{interrupted-Recovers}
use xero_bot.Store.Queue.{
  cleanup_inbox-Keeps, session_before_at-Latest, claim_inbox-Earliest, IsSearch, IsLive, IsLater,
}

-- values are texts here
abbrev host : Host Text
host = record {
  requests = record {
    with_suppressed = λ v logins. v;
    with_body = λ v body. body;
    route = λ v. none;
    has_assignees = λ v. true;
    receipt = λ v. v;
    labels = λ v. none;
    with_labels = λ v labels. v;
    lower = λ s. s;
    no_fields = [];
    restored_key = λ repository pr installation. codes "restored";
    digits = λ n. codes "0";
  };
  scrub = λ s. s;
  context_eq = λ a b. true;
}

abbrev context : EventContext
context = record {
  delivery = codes "d";
  event = codes "pull_request";
  action = codes "opened";
  repository_id = 2;
  installation_id = 1;
  repo = codes "o/r";
  thread_id = 3;
  number = 3;
  is_pr = true;
  comment_id = none;
  user_id = none;
  source_time = codes "0";
  body = none;
  login = none;
  user_type = none;
  via_app_id = none;
  author = none;
  head_sha = none;
  base_sha = none;
}

abbrev spec : OperationSpec Text
spec = record {
  key = codes "k";
  parent = none;
  kind = codes "comment";
  context = context;
  config_sha = none;
  request = [];
}

abbrev users : List Text
users = codes "Bob" ∷ codes "alice" ∷ codes "bob" ∷ []

-- the row after its second attempt began, was sent and was lost
abbrev lost_row : OperationRow Text
lost_row = record (new_operation spec 0) {
  state = State.unknown;
  attempts = 2;
  sent = true;
  updated_at = 5;
}

abbrev running_row : OperationRow Text
running_row = record (new_operation spec 0) {
  state = State.running;
  attempts = 2;
  sent = true;
  updated_at = 5;
}

abbrev database : OperationRow Text → Db Text
database row = record empty { operations = row ∷ [] }

-- the claim of the first attempt
abbrev first_claim : Claim Text
first_claim = record {
  operation = record {
    spec = spec;
    state = State.running;
    attempts = 1;
    lease_delivery = codes "d";
    sent = false;
    result = none;
    detail = [];
    recipients = [];
  };
  attempt = 1;
}

abbrev worker : List (Call Text)
worker =
    Call.recovers_running 10 11
    ∷ Call.claims spec 20
    ∷ Call.finishes first_claim State.succeeded none [] 21
    ∷ []

abbrev notifying : List (Call Text)
notifying =
    Call.claims_notification spec users 10 1
    ∷ Call.marks_sent first_claim 2
    ∷ Call.finishes first_claim State.succeeded none [] 3
    ∷ []

abbrev ten_logins : List Text
ten_logins = map (λ n. n ∷ []) (97 ∷ 98 ∷ 99 ∷ 100 ∷ 101 ∷ 102 ∷ 103 ∷ 104 ∷ 105 ∷ 106 ∷ [])

-- ten logins that a claim reserves, and one more that an operator restores
abbrev restoring : List (Call Text)
restoring =
    Call.claims_notification spec ten_logins 10 1
    ∷ Call.restores_ledger 1 2 3 (codes "Zed" ∷ []) (codes "backup") 2
    ∷ []

restoring_eleven : count_where (in_scope 1 2 3) (apply_all host restoring empty).recipients ≡ 11
unfolding apply_all count_where text_eq len starts_with strip_suffix is_ascii_alphanumeric
    to_ascii_lowercase is_whitespace
restoring_eleven = refl

apply_all-Capped_example :
    count_where (in_scope 1 2 3) (apply_all host restoring empty).recipients
    ≤ 10 + restored_in 1 2 3 restoring
apply_all-Capped_example = apply_all-Capped host restoring 1 2 3

-- the three logins are two, and both are notified
notifying_two : count_where (in_scope 1 2 3) (apply_all host notifying empty).recipients ≡ 2
unfolding apply_all count_where text_eq len starts_with strip_suffix is_ascii_alphanumeric
    to_ascii_lowercase
notifying_two = refl

apply-Evolves_example :
    UniqueKeys (apply host (Call.recovers_running 10 11) (database running_row)).operations
    × Evolves work
        (database running_row).operations
        (apply host (Call.recovers_running 10 11) (database running_row)).operations
apply-Evolves_example =
    apply-Evolves host (Call.recovers_running 10 11) (database running_row) (refl, tt)

stale-Refused_example :
    (mark_sent first_claim 30 (apply_all host worker (database lost_row)) ≡ err stale_send)
    × ((e : StoreError) × (finish host.scrub first_claim State.failed none [] 30
            (apply_all host worker (database lost_row))
          ≡ err e))
unfolding find_where text_eq
stale-Refused_example =
    stale-Refused host first_claim lost_row (database lost_row) worker 30 State.failed none []
      (refl, tt) found (omega arith)
  where
    found : find_where (has_key spec.key) (database lost_row).operations ≡ some lost_row
    found = refl

sent-Held_example :
    ((later : OperationRow Text) × ((find_where
            (has_key spec.key)
            (apply_all host worker (database lost_row)).operations
          ≡ some later)
        × IsHeld 2 (life later)))
    × ((claim host.requests spec 30 (apply_all host worker (database lost_row))
          ≢ ok (some first_claim, empty))
        × (claim_notification host.requests spec users 10 30
              (apply_all host worker (database lost_row))
            ≢ ok (some first_claim, empty)))
unfolding find_where text_eq
sent-Held_example =
    sent-Held host worker (database lost_row) spec lost_row users 10 30 first_claim empty
      (refl, (refl, (refl, tt))) (refl, tt) refl refl refl

write-Completes_example :
    (c : Claim Text) × ((db1 : Db Text) × ((db2 : Db Text) × ((db3 : Db Text) × ((r : OperationRow
              Text)
            × ((claim host.requests spec 7 empty ≡ ok (some c, db1))
                × ((mark_sent c 8 db1 ≡ ok (tt, db2))
                    × ((finish host.scrub c State.succeeded none [] 9 db2 ≡ ok (tt, db3))
                        × ((find_where (has_key spec.key) db3.operations ≡ some r)
                            × ((life r
                                  ≡ record { state = State.succeeded; sent = true; attempts = 1 })
                                × All
                                    (λ x. belongs_to spec.key x ≡ true → x.committed ≡ true)
                                    db3.recipients)))))))))
unfolding find_where
write-Completes_example =
    write-Completes host.requests host.scrub spec 7 8 9 none [] empty tt refl refl (omega arith)

interrupted-Recovers_example :
    (op : Operation Text) × ((db2 : Db Text) × ((c : Claim Text) × ((db3 : Db Text) × ((operation
                spec.key
                (recover_running 10 11 (database running_row))
              ≡ some op)
            × ((resolve_unknown host.scrub op
                    (codes "not_sent")
                    none
                    []
                    12
                    (recover_running 10 11 (database running_row))
                  ≡ ok (tt, db2))
                × ((claim host.requests spec 13 db2 ≡ ok (some c, db3)) × (c.attempt ≡ 3)))))))
unfolding find_where text_eq
interrupted-Recovers_example =
    interrupted-Recovers host.requests host.scrub spec 10 11 12 13 [] (database running_row)
      running_row (refl, tt) refl refl refl (omega arith) (omega arith)

abbrev envelope : Text → ℕ → InboxRow
envelope delivery at = record {
  delivery = delivery;
  context = context;
  state = State.pending;
  attempts = 0;
  next_at = at;
  updated_at = 0;
  detail = [];
}

abbrev queue : Db Text
queue = record empty {
  inbox = envelope (codes "b") 5 ∷ envelope (codes "a") 5 ∷ envelope (codes "c") 9 ∷ [];
}

claim_inbox-Earliest_example :
    ((claim_inbox 6 queue).0 ≡ none) × All (λ r. is_due 6 r ≡ false) queue.inbox
    ⊎ ((r : InboxRow) × (((claim_inbox 6 queue).0
            ≡ some (record { context = r.context; attempt = r.attempts + 1 }))
          × ((Member r queue.inbox × (is_due 6 r ≡ true))
              × All (λ s. is_due 6 s ≡ true → due_before s r ≡ false) queue.inbox)))
claim_inbox-Earliest_example = claim_inbox-Earliest 6 queue

abbrev succeeded_envelope : InboxRow
succeeded_envelope = record (envelope (codes "d") 5) { state = State.succeeded }

-- an operation of another delivery that is leased for the envelope
abbrev open_operation : OperationRow Text
open_operation = record running_row { delivery = codes "other"; lease_delivery = codes "d" }

abbrev waiting : Db Text
waiting = record empty { inbox = succeeded_envelope ∷ []; operations = open_operation ∷ [] }

cleanup_inbox-Keeps_example :
    Member succeeded_envelope (cleanup_inbox 9999999 waiting).inbox
    × (((cleanup_inbox 9999999 waiting).operations ≡ waiting.operations)
        × (((cleanup_inbox 9999999 waiting).recipients ≡ waiting.recipients)
            × (((cleanup_inbox 9999999 waiting).sessions ≡ waiting.sessions)
                × (((cleanup_inbox 9999999 waiting).audit ≡ waiting.audit)
                    × ((cleanup_inbox 9999999 waiting).ledgers ≡ waiting.ledgers)))))
cleanup_inbox-Keeps_example =
    cleanup_inbox-Keeps 9999999 waiting succeeded_envelope (here refl)
      (inr (inr (open_operation, (here refl, (inr refl, (λ e. cc, λ e. cc))))))

abbrev wake : ℕ → ℕ → SessionWake
wake comment at = record {
  installation_id = 1;
  repository_id = 2;
  thread_number = 3;
  user_id = 4;
  comment_id = comment;
  source_at = at;
}

abbrev mentions : Db Text
mentions =
    apply_all host
      (Call.records_wake (wake 7 100)
        ∷ Call.records_wake (wake 8 200)
        ∷ Call.records_wake (wake 9 300)
        ∷ [])
      empty

session_before_at-Latest_example :
    ((session_before_at (wake 9 300) 1 400 mentions ≡ none)
      × ((¬ IsSearch (wake 9 300) 1) ⊎ All (λ s. ¬ IsLive (wake 9 300) 1 400 s) mentions.sessions))
    ⊎ ((s : Session) × ((session_before_at (wake 9 300) 1 400 mentions
            ≡ some (woken_by (wake 9 300) s))
          × (IsSearch (wake 9 300) 1
              × ((Member s mentions.sessions × IsLive (wake 9 300) 1 400 s)
                  × All (λ t. IsLive (wake 9 300) 1 400 t → ¬ IsLater t s) mentions.sessions))))
session_before_at-Latest_example = session_before_at-Latest (wake 9 300) 1 400 mentions

the_last_mention_is_found : session_before_at (wake 9 300) 365 400 mentions ≡ some (wake 8 200)
unfolding session_before_at apply_all
the_last_mention_is_found = refl
