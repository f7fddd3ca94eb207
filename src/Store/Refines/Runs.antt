-- ===== src/Store/Refines/Runs.antt =====
-- The calls of the database in src/trigger_state/store.rs and the lives of Store/Lifecycle.
use xero_bot.Store.Operations.{has_key}
use xero_bot.Store.Evolution.{Evolves-insert, unique-insert}
use xero_bot.Store.Ledger.{restore_notification_ledger, restored, restored_row}
use xero_bot.Store.Sessions.{record_wake}
use xero_bot.Store.Inbox.{
  enqueue, claim_inbox, finish_inbox, defer_interrupted_inbox, resume_inbox, cleanup_inbox,
}
use xero_bot.Prelude.{refl, [], none, arith, inr}
use xero_bot.Store.{Db}
use xero_bot.Store.Claims.{claim}
use xero_bot.Store.Lifecycle.{Evolves, UniqueKeys, evidence, cause_of, work}
use xero_bot.Store.Refines.{
  Follows, Follows-refl, Follows-recover_running, Follows-recover_delivery, Follows-fail_unsent,
  Follows-supersede, Follows-revoke_opened, Evolves-insert, has_key,
}
use xero_bot.Store.Refines.Plans.{Follows-relabels}
use xero_bot.Store.Calls.{
  narrows_labels, cleans_inbox, Host, Call, apply, enqueues, claims_inbox, finishes_inbox,
  defers_inbox, resumes_inbox, recovers_running, recovers_delivery, fails_unsent,
  supersedes_children, revokes_opened, claims, claims_notification, marks_sent, finishes,
  refreshes_snapshot, prepares_notification, resolves_unknown, administers, records_wake,
  restores_ledger,
}
use xero_bot.Store.Refines.Attempts.{
  Follows-claim, Follows-claim_notification, Follows-mark_sent, Follows-finish, Follows-refresh,
  Follows-prepare,
}
use xero_bot.Store.Refines.Evidence.{Follows-resolve_unknown, Follows-administer}

module _ {Value : Type 0} (host : Host Value) where
  Follows-apply :
      (call : Call Value) (db : Db Value)
      → UniqueKeys db.operations
      → Follows (cause_of call) db.operations (apply host call db).operations
  unfolding apply enqueue claim_inbox finish_inbox defer_interrupted_inbox resume_inbox
      cleanup_inbox claim record_wake restore_notification_ledger restored
  Follows-apply (enqueues context now) db u = ground (arith, Follows-refl work db.operations u)
  Follows-apply (claims_inbox now) db u = ground (arith, Follows-refl work db.operations u)
  Follows-apply (finishes_inbox item retry now) db u =
      ground (arith, Follows-refl work db.operations u)
  Follows-apply (defers_inbox item now) db u = Follows-refl work db.operations u
  Follows-apply (resumes_inbox now) db u = Follows-refl work db.operations u
  Follows-apply (cleans_inbox now) db u = Follows-refl work db.operations u
  Follows-apply (recovers_running before now) db u = Follows-recover_running work before now db u
  Follows-apply (recovers_delivery delivery now) db u =
      Follows-recover_delivery work delivery now db u
  Follows-apply (fails_unsent key detail now) db u =
      Follows-fail_unsent work host.scrub key detail now db u
  Follows-apply (supersedes_children parent now) db u = Follows-supersede work parent now db u
  Follows-apply (revokes_opened key now) db u = Follows-revoke_opened work key now db u
  Follows-apply (claims spec now) db u = Follows-claim work host.requests spec [] none now db u
  Follows-apply (claims_notification spec users max now) db u =
      Follows-claim_notification work host.requests spec users max now db u
  Follows-apply (marks_sent c now) db u = Follows-mark_sent work c now db u
  Follows-apply (finishes c state result detail now) db u =
      Follows-finish work host.scrub c state result detail now db u
  Follows-apply (refreshes_snapshot c spec now) db u = Follows-refresh work c spec now db u
  Follows-apply (prepares_notification c body now) db u =
      Follows-prepare work host.requests c body now db u
  Follows-apply (narrows_labels c labels now) db u =
      Follows-relabels host.requests c labels now db u
  Follows-apply (resolves_unknown op outcome result detail now) db u =
      Follows-resolve_unknown host.scrub op outcome result detail now db u
  Follows-apply (administers key decision detail receipt now) db u =
      Follows-administer host.scrub host.requests key decision detail receipt now db u
  Follows-apply (records_wake w) db u = ground (arith, Follows-refl work db.operations u)
  Follows-apply (restores_ledger installation repository pr users detail now) db u =
      let key = host.requests.restored_key repository pr installation in
      let row = restored_row host.requests host.scrub key installation repository pr now in
      ground (
        arith,
        Follows-refl evidence db.operations u,
        Evolves-insert evidence (has_key key) row db.operations (inr (refl, refl)),
        unique-insert row db.operations u,
      )

  -- A database without two rows of one key has none after a call either, and the call refines the lives
  -- of operations: each row keeps its place and its key, and its state, its mark of being sent and its
  -- number of attempts go along edges of the diagram, those that need evidence only in a call that
  -- reconciles a write, records a decision or restores a ledger; each new row is where edges from a new
  -- operation lead, or it is the succeeded and never attempted one that a restored ledger records.
  pub apply-Evolves :
      (call : Call Value) (db : Db Value)
      → UniqueKeys db.operations
      → UniqueKeys (apply host call db).operations
        × Evolves (cause_of call) db.operations (apply host call db).operations
  apply-Evolves call db u = let f = Follows-apply call db u in (f.1, f.0)
