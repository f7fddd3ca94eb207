-- ===== src/Store/Liveness.antt =====
-- Progress of the operations of src/trigger_state/store.rs: a write that is due is claimed and
-- completed.
use xero_bot.Prelude.{
  ◌≡◌, refl, sym, subst, ap, ◌≤◌, true, All, Option, some, arith, ℕ, suc, ==_refl, ◌+◌,
}
use xero_bot.Text.{Text}
use xero_bot.Store.{OperationRow, OperationSpec, Db, State, Claim, ok}
use xero_bot.Store.Operations.{has_key, belongs_to, to_operation}
use xero_bot.Store.Claims.{claim, begun}
use xero_bot.Store.Leases.{mark_sent, finish}
use xero_bot.Store.Reserve.{Requests}
use xero_bot.Store.Table.{find_where}
use xero_bot.Store.Lifecycle.{UniqueKeys, life}
use xero_bot.Store.Progress.{
  row_of, begun_db, begun_db-row, begun_db-UniqueKeys, claim-begun, IsHeldBy, sent_db,
  mark_sent-held, sent_db-row, sent_db-UniqueKeys, succeeded_db, finish-held, succeeded_db-row,
  committed-All, row_of-has_key,
}

module _ {Value : Type 0} where
  -- a claim holds the row that it began
  begun-IsHeldBy :
      (spec : OperationSpec Value) (now : ℕ) (db : Db Value)
      → UniqueKeys db.operations
      → (row_of spec now db).spec.key ≡ spec.key
      → (row_of spec now db).state ≡ State.pending
      → (row_of spec now db).next_at ≤ now
      → IsHeldBy
          (record {
            operation = to_operation (begun_db spec now db) (begun spec now (row_of spec now db));
            attempt = suc (row_of spec now db).attempts;
          })
          (begun spec now (row_of spec now db))
          (begun_db spec now db)
  begun-IsHeldBy spec now db u k p d =
      let r0 = begun spec now (row_of spec now db) in
      (
        begun_db-UniqueKeys spec now db u,
        (
          subst (λ key. find_where (has_key key) (begun_db spec now db).operations ≡ some r0)
              (sym k) (begun_db-row spec now db p d),
          ground (
            arith,
            k,
            row_of-has_key spec now db,
            ap (λ key. has_key key r0) k,
            ==_refl (suc (row_of spec now db).attempts),
          ),
        ),
      )

module _ {Value : Type 0} (requests : Requests Value) (scrub : Text → Text) where
  -- Where no two rows have one key, and the row of the key is missing, or is pending, due and keeps a
  -- specification of the key, the claim, the mark of being sent and the completion as succeeded all
  -- return without an error: the row is then succeeded, sent and counts one attempt more, and every
  -- reservation of the operation is committed.
  pub write-Completes :
      (spec : OperationSpec Value) (now sent_at ended_at : ℕ) (result : Option Value)
      (detail : Text) (db : Db Value)
      → UniqueKeys db.operations
      → (row_of spec now db).spec.key ≡ spec.key
      → (row_of spec now db).state ≡ State.pending
      → (row_of spec now db).next_at ≤ now
      → (c : Claim Value) × ((db1 : Db Value) × ((db2 : Db Value) × ((db3 : Db Value)
              × ((r : OperationRow Value) × ((claim requests spec now db ≡ ok (some c, db1))
                    × ((mark_sent c sent_at db1 ≡ ok (tt, db2))
                        × ((finish scrub c State.succeeded result detail ended_at db2
                              ≡ ok (tt, db3))
                            × ((find_where (has_key spec.key) db3.operations ≡ some r)
                                × ((life r ≡ record {
                                  state = State.succeeded;
                                  sent = true;
                                  attempts = (row_of spec now db).attempts + 1;
                                })
                                    × All
                                        (λ x. belongs_to spec.key x ≡ true → x.committed ≡ true)
                                        db3.recipients)))))))))
  write-Completes spec now sent_at ended_at result detail db u k p d =
      let r0 = begun spec now (row_of spec now db) in
      let db1 = begun_db spec now db in
      let c : Claim Value = record {
        operation = to_operation db1 r0;
        attempt = suc (row_of spec now db).attempts;
      } in
      let r1 = record r0 { sent = true; updated_at = sent_at } in
      let db2 = sent_db c r0 db1 sent_at in
      let r2 = record r1 {
        state = State.succeeded;
        result = result;
        detail = scrub detail;
        updated_at = ended_at;
      } in
      let db3 = succeeded_db c r1 db2 scrub result detail ended_at in
      let held1 = begun-IsHeldBy spec now db u k p d in
      let held2 : IsHeldBy c r1 db2 = (
        sent_db-UniqueKeys c r0 db1 sent_at held1,
        (sent_db-row c r0 db1 sent_at held1, held1.1.1),
      ) in
      let last = succeeded_db-row c r1 db2 scrub result detail ended_at held2 in
      (
        c,
        (
          db1,
          (
            db2,
            (
              db3,
              (
                r2,
                (
                  claim-begun requests spec now db u p d,
                  (
                    mark_sent-held c r0 db1 sent_at held1,
                    (
                      finish-held c r1 db2 scrub result detail ended_at held2,
                      (
                        subst (λ key. find_where (has_key key) db3.operations ≡ some r2) k last,
                        (
                          refl,
                          subst
                              (λ key.
                                All (λ x. belongs_to key x ≡ true → x.committed ≡ true)
                                  db3.recipients)
                              k (committed-All c.operation.spec.key db2.recipients),
                        ),
                      ),
                    ),
                  ),
                ),
              ),
            ),
          ),
        ),
      )
