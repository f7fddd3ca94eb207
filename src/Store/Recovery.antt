-- ===== src/Store/Recovery.antt =====
-- Progress of the operations of src/trigger_state/store.rs: a write that was interrupted is claimed
-- again, once it is known that it was not sent.
use xero_bot.Prelude.{
  ◌≡◌, refl, sym, subst, ap, ◌∙◌, ◌≤◌, true, some, none, arith, ℕ, suc, le→leb, ==_refl, ◌&&◌, leb,
}
use xero_bot.Text.{Text, text_eq, codes}
use xero_bot.Store.{OperationRow, OperationSpec, Operation, Db, State, is_state, Claim, ok}
use xero_bot.Store.Operations.{has_key, operation, to_operation, recover_running}
use xero_bot.Store.Claims.{claim}
use xero_bot.Store.Reserve.{Requests}
use xero_bot.Store.Admin.{resolve_unknown, reconciled, reconcile_recipients}
use xero_bot.Store.Table.{update_where, find_where}
use xero_bot.Store.Table.Laws.{find-update}
use xero_bot.Store.Lifecycle.{UniqueKeys}
use xero_bot.Store.Evolution.{unique-update}
use xero_bot.Store.Progress.{row_of, claim-begun, find-has_key}

module _ {Value : Type 0} (requests : Requests Value) (scrub : Text → Text) where
  -- the database after an operator's or a check's word that a row's write was not sent
  abbrev unsent_db : Db Value → OperationRow Value → Text → ℕ → Db Value
  unsent_db db r evidence now = record db {
    operations =
        update_where (λ x. has_key r.spec.key x && is_state x.state State.unknown)
          (reconciled scrub (to_operation db r) (codes "not_sent") none evidence now) db.operations;
    recipients = reconcile_recipients (codes "not_sent") r.spec.key db.recipients;
  }

  module _ (db : Db Value) (r : OperationRow Value) (evidence : Text) (now : ℕ) where
    unsent-resolves :
        find_where (has_key r.spec.key) db.operations ≡ some r
        → r.state ≡ State.unknown
        → resolve_unknown scrub (to_operation db r) (codes "not_sent") none evidence now db
          ≡ ok (tt, unsent_db db r evidence now)
    unfolding resolve_unknown operation text_eq
    unsent-resolves f s = ground (arith, f, s, ==_refl r.attempts)

    unsent_db-UniqueKeys :
        UniqueKeys db.operations → UniqueKeys (unsent_db db r evidence now).operations
    unsent_db-UniqueKeys u = unique-update _ _ db.operations (λ x. refl) u

    unsent_db-row :
        has_key r.spec.key r ≡ true
        → find_where (has_key r.spec.key) db.operations ≡ some r
        → r.state ≡ State.unknown
        → find_where (has_key r.spec.key) (unsent_db db r evidence now).operations
          ≡ some (reconciled scrub (to_operation db r) (codes "not_sent") none evidence now r)
    unsent_db-row h f s =
        find-update (has_key r.spec.key)
          (λ x. has_key r.spec.key x && is_state x.state State.unknown)
          (reconciled scrub (to_operation db r) (codes "not_sent") none evidence now) db.operations
          r (λ y. refl) f
        ∙ rw h (rw s refl)

  -- An operation that was interrupted comes back: where no two rows have one key, and the row of the key
  -- keeps a specification of the key, is running and was updated no later than the bound of the
  -- recovery, `recover_running` leaves an operation that `resolve_unknown` accepts as not sent, after
  -- which a claim that comes no earlier is given, with the next number of an attempt.
  pub interrupted-Recovers :
      (spec : OperationSpec Value) (before recovered_at resolved_at now : ℕ) (evidence : Text)
      (db : Db Value) (r : OperationRow Value)
      → UniqueKeys db.operations
      → find_where (has_key spec.key) db.operations ≡ some r
      → r.spec.key ≡ spec.key
      → r.state ≡ State.running
      → r.updated_at ≤ before
      → resolved_at ≤ now
      → (op : Operation Value) × ((db2 : Db Value) × ((c : Claim Value) × ((db3 : Db Value)
              × ((operation spec.key (recover_running before recovered_at db) ≡ some op)
                  × ((resolve_unknown scrub op
                          (codes "not_sent")
                          none
                          evidence
                          resolved_at
                          (recover_running before recovered_at db)
                        ≡ ok (tt, db2))
                      × ((claim requests spec now db2 ≡ ok (some c, db3))
                          × (c.attempt ≡ suc r.attempts)))))))
  unfolding operation recover_running resolve_unknown text_eq
  interrupted-Recovers spec before recovered_at resolved_at now evidence db r u f k s b d =
      let lost =
        λ (x : OperationRow Value). is_state x.state State.running && leb x.updated_at before in
      let lose = λ (x : OperationRow Value). record x {
        state = State.unknown;
        detail = codes "owner lost or worker timed out";
        updated_at = recovered_at;
      } in
      let db1 = recover_running before recovered_at db in
      let r1 = lose r in
      let u1 : UniqueKeys db1.operations = unique-update lost lose db.operations (λ x. refl) u in
      let is_lost : lost r ≡ true = ground (arith, s, le→leb r.updated_at before b) in
      let found1 : find_where (has_key spec.key) db1.operations ≡ some r1 =
        find-update (has_key spec.key) lost lose db.operations r (λ y. refl) f ∙ rw is_lost refl in
      let op = to_operation db1 r1 in
      let found1' : find_where (has_key op.spec.key) db1.operations ≡ some r1 =
        subst (λ key. find_where (has_key key) db1.operations ≡ some r1) (sym k) found1 in
      let change = reconciled scrub op (codes "not_sent") none evidence resolved_at in
      let db2 = unsent_db db1 r1 evidence resolved_at in
      let found2 : find_where (has_key spec.key) db2.operations ≡ some (change r1) =
        subst (λ key. find_where (has_key key) db2.operations ≡ some (change r1)) k
          (unsent_db-row db1 r1 evidence resolved_at
            (find-has_key op.spec.key db1.operations r1 found1') found1' refl) in
      let u2 = unsent_db-UniqueKeys db1 r1 evidence resolved_at u1 in
      let row : row_of spec now db2 ≡ change r1 = ground (arith, found2) in
      let p : (row_of spec now db2).state ≡ State.pending =
        ap (λ (w : OperationRow Value). w.state) row in
      let n : (row_of spec now db2).next_at ≤ now = rw row d in
      (
        op,
        (
          db2,
          (
            _,
            (
              _,
              (
                ground (arith, found1),
                (
                  unsent-resolves db1 r1 evidence resolved_at found1' refl,
                  (claim-begun requests spec now db2 u2 p n, rw row refl),
                ),
              ),
            ),
          ),
        ),
      )
