-- ===== src/Store/Calls.antt =====
-- The calls of the trigger state database (src/trigger_state/store.rs and notification_store.rs) as
-- values, and what a sequence of them leaves. A call that returns an error leaves the database.
use xero_bot.Text.{Text}
use xero_bot.Prelude.{ℕ, Bool, Option, List, [], ◌∷◌}
use xero_bot.Store.{
  EventContext, OperationSpec, Operation, Claim, InboxItem, SessionWake, State, Db, after,
}
use xero_bot.Store.Inbox.{
  enqueue, claim_inbox, finish_inbox, defer_interrupted_inbox, resume_inbox, cleanup_inbox,
}
use xero_bot.Store.Operations.{
  recover_running, recover_delivery, fail_unsent, supersede_unsent_children, revoke_opened,
}
use xero_bot.Store.Claims.{claim, claim_notification}
use xero_bot.Store.Leases.{mark_sent, finish, refresh_opened_snapshot, prepare_notification}
use xero_bot.Store.Reserve.{Requests}
use xero_bot.Store.Admin.{resolve_unknown, administer_with_receipt}
use xero_bot.Store.Plans.{refresh_path_labels}
use xero_bot.Store.Sessions.{record_wake}
use xero_bot.Store.Ledger.{restore_notification_ledger}

-- the code that the database calls: the JSON steps, `redact::scrub`, and the comparison of two
-- contexts by their JSON texts
pub record Host (Value : Type 0) : Type 0 where
  pub requests : Requests Value
  pub scrub : Text → Text
  pub context_eq : EventContext → EventContext → Bool

-- a call with its arguments and the time of the caller's clock
pub data Call (Value : Type 0) : Type 0 where
  enqueues : EventContext → ℕ → Call Value
  claims_inbox : ℕ → Call Value
  finishes_inbox : InboxItem → Option Text → ℕ → Call Value
  defers_inbox : InboxItem → ℕ → Call Value
  resumes_inbox : ℕ → Call Value
  cleans_inbox : ℕ → Call Value
  recovers_running : ℕ → ℕ → Call Value
  recovers_delivery : Text → ℕ → Call Value
  fails_unsent : Text → Text → ℕ → Call Value
  supersedes_children : Text → ℕ → Call Value
  revokes_opened : Text → ℕ → Call Value
  claims : OperationSpec Value → ℕ → Call Value
  claims_notification : OperationSpec Value → List Text → ℕ → ℕ → Call Value
  marks_sent : Claim Value → ℕ → Call Value
  finishes : Claim Value → State → Option Value → Text → ℕ → Call Value
  refreshes_snapshot : Claim Value → OperationSpec Value → ℕ → Call Value
  prepares_notification : Claim Value → Text → ℕ → Call Value
  narrows_labels : Claim Value → List Text → ℕ → Call Value
  resolves_unknown : Operation Value → Text → Option Value → Text → ℕ → Call Value
  administers : Text → Text → Text → Option Value → ℕ → Call Value
  records_wake : SessionWake → Call Value
  restores_ledger : ℕ → ℕ → ℕ → List Text → Text → ℕ → Call Value

module _ {Value : Type 0} (host : Host Value) where
  unfoldable pub apply : Call Value → Db Value → Db Value
  unfolding enqueue claim_inbox finish_inbox defer_interrupted_inbox resume_inbox cleanup_inbox
      recover_running recover_delivery fail_unsent supersede_unsent_children revoke_opened claim
      claim_notification mark_sent finish refresh_opened_snapshot prepare_notification
      refresh_path_labels resolve_unknown administer_with_receipt record_wake
      restore_notification_ledger
  apply (enqueues context now) db = after (enqueue host.context_eq context now db) db
  apply (claims_inbox now) db = (claim_inbox now db).1
  apply (finishes_inbox item retry now) db = after (finish_inbox item retry now db) db
  apply (defers_inbox item now) db = defer_interrupted_inbox item now db
  apply (resumes_inbox now) db = resume_inbox now db
  apply (cleans_inbox now) db = cleanup_inbox now db
  apply (recovers_running before now) db = recover_running before now db
  apply (recovers_delivery delivery now) db = recover_delivery delivery now db
  apply (fails_unsent key detail now) db = fail_unsent host.scrub key detail now db
  apply (supersedes_children parent now) db = supersede_unsent_children parent now db
  apply (revokes_opened key now) db = revoke_opened key now db
  apply (claims spec now) db = after (claim host.requests spec now db) db
  apply (claims_notification spec users max now) db =
      after (claim_notification host.requests spec users max now db) db
  apply (marks_sent c now) db = after (mark_sent c now db) db
  apply (finishes c state result detail now) db =
      after (finish host.scrub c state result detail now db) db
  apply (refreshes_snapshot c spec now) db = after (refresh_opened_snapshot c spec now db) db
  apply (prepares_notification c body now) db =
      after (prepare_notification host.requests c body now db) db
  apply (narrows_labels c labels now) db =
      after (refresh_path_labels host.requests c labels now db) db
  apply (resolves_unknown op outcome result evidence now) db =
      after (resolve_unknown host.scrub op outcome result evidence now db) db
  apply (administers key decision evidence receipt now) db =
      after (administer_with_receipt host.requests host.scrub key decision evidence receipt now db)
        db
  apply (records_wake w) db = after (record_wake w db) db
  apply (restores_ledger installation repository pr users evidence now) db =
      after
        (restore_notification_ledger host.requests host.scrub installation repository pr users
          evidence now db)
        db

  unfoldable pub apply_all : List (Call Value) → Db Value → Db Value
  unfolding apply
  apply_all [] db = db
  apply_all (call ∷ calls) db = apply_all calls (apply call db)
