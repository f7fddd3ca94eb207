-- ===== src/Store/Refines/Attempts.antt =====
-- The attempts of src/trigger_state/store.rs move operations along the edges of Store/Lifecycle.
use xero_bot.Prelude.{
  ◌≡◌, refl, sym, Bool, true, false, List, All, Bool-cases, inl, inr, Option, some, none, arith,
  and-true_inv, ℕ, ◌&&◌, not, ◌==◌, Option-cases, ◌⊎◌, All-map, All-of,
}
use xero_bot.Text.{Text, text_eq, codes}
use xero_bot.Store.{
  OperationRow, Db, State, is_state, Claim, after, OperationSpec, Answer, ok, StoreError, err,
}
use xero_bot.Store.Operations.{has_key, operation}
use xero_bot.Store.Claims.{
  reserve_budget, claim_with_recipients, is_claimable, begun, inserted, new_operation,
  claim_notification,
}
use xero_bot.Store.Leases.{
  is_leased, mark_sent, finish, refresh_opened_snapshot, prepare_notification, check_unsent,
}
use xero_bot.Store.Reserve.{is_completion, Requests}
use xero_bot.Store.Table.{update_where, find_where}
use xero_bot.Store.Lifecycle.{Cause, stays, Edge, UniqueKeys, life, begins, sends, ends}
use xero_bot.Store.Evolution.{Trail-Edge, Evolves-insert, unique-insert, found-All}
use xero_bot.Store.Refines.{Follows, Follows-refl, Follows-trans, Follows-update, Follows-change}

pub Answer-cases : (m : Answer (Unit {0})) → ((e : StoreError) × (m ≡ err e)) ⊎ (m ≡ ok tt)
Answer-cases (err e) = inl (e, refl)
Answer-cases (ok tt) = inr refl

module _ {Value : Type 0} where
  not_superseded-All :
      (state : State) (key : Text) (xs : List (OperationRow Value))
      → is_state state State.superseded ≡ false
      → All (λ x. has_key key x ≡ true → state ≡ State.superseded → x.sent ≡ false) xs
  not_superseded-All state key xs e = All-of (λ x t f. ground (arith, e, f)) xs

  found_unsent :
      (key : Text) (db : Db Value)
      → check_unsent State.superseded key db ≡ ok tt
      → (r : OperationRow Value) × ((find_where (has_key key) db.operations ≡ some r)
          × (r.sent ≡ false))
  unfolding operation
  found_unsent key db e = elim (Option-cases (find_where (has_key key) db.operations)) [
    | inl f ↦ ground (arith, e, f)
    | inr f ↦ (f.0, (f.1, ground (arith, e, f.1)))
  ]

  -- where an attempt may end superseded, the operation was not sent
  unsent-All :
      (state : State) (key : Text) (db : Db Value)
      → UniqueKeys db.operations
      → check_unsent state key db ≡ ok tt
      → All (λ x. has_key key x ≡ true → state ≡ State.superseded → x.sent ≡ false) db.operations
  unsent-All State.superseded key db u e =
      let r = found_unsent key db e in
      All-map (λ x same t _. rw (same t) (r.1.1)) db.operations
        (found-All key db.operations r.0 u r.1.0)
  unsent-All state key db u e = not_superseded-All state key db.operations refl

module _ {Value : Type 0} (cause : Cause) where
  is_leased-running :
      (c : Claim Value) (x : OperationRow Value) → is_leased c x ≡ true → x.state ≡ State.running
  is_leased-running c x h = ground arith

  pub Follows-mark_sent :
      (c : Claim Value) (now : ℕ) (db : Db Value)
      → UniqueKeys db.operations
      → Follows cause db.operations (after (mark_sent c now db) db).operations
  unfolding mark_sent
  Follows-mark_sent c now db u =
      let sent =
        Follows-update cause (is_leased c) (λ r. record r { sent = true; updated_at = now })
          db.operations (λ x. refl)
          (All-of
            (λ x h. (
              refl,
              Trail-Edge (sends (is_leased-running c x h) (is_leased-running c x h) refl refl),
            ))
            db.operations)
          u in
      ground (arith, sent, Follows-refl cause db.operations u)

  -- a change that no edge is for
  pub Follows-note :
      (t : OperationRow Value → Bool) (c : OperationRow Value → OperationRow Value)
      (xs : List (OperationRow Value))
      → ((x : OperationRow Value) → (c x).key ≡ x.key)
      → ((x : OperationRow Value) → life x ≡ life (c x))
      → UniqueKeys xs
      → Follows cause xs (update_where t c xs)
  Follows-note t c xs k h u = Follows-change cause t c xs k (λ x e. stays (h x)) u

  pub Follows-inserted :
      (spec : OperationSpec Value) (now : ℕ) (db : Db Value)
      → UniqueKeys db.operations
      → Follows cause db.operations (inserted spec now db).operations
  Follows-inserted spec now db u =
      let row = new_operation spec now in
      (
        Evolves-insert cause (has_key spec.key) row db.operations (inl (stays refl)),
        unique-insert row db.operations u,
      )

  is_claimable-pending :
      (key : Text) (now : ℕ) (x : OperationRow Value)
      → is_claimable key now x ≡ true
      → x.state ≡ State.pending
  is_claimable-pending key now x h = ground arith

  pub Follows-begun :
      (spec : OperationSpec Value) (now : ℕ) (xs : List (OperationRow Value))
      → UniqueKeys xs
      → Follows cause xs (update_where (is_claimable spec.key now) (begun spec now) xs)
  Follows-begun spec now xs u =
      Follows-change cause (is_claimable spec.key now) (begun spec now) xs (λ x. refl)
        (λ x h. Trail-Edge (begins (is_claimable-pending spec.key now x h) refl refl (omega arith)))
        u

  pub Follows-reserve :
      (requests : Requests Value) (spec : OperationSpec Value) (users : List Text) (max : Option ℕ)
      (db : Db Value)
      → UniqueKeys db.operations
      → Follows cause db.operations (reserve_budget requests spec users max db).operations
  unfolding reserve_budget
  Follows-reserve requests spec users none db u = Follows-refl cause db.operations u
  Follows-reserve requests spec users (some max) db u =
      Follows-note (has_key spec.key) _ db.operations (λ x. refl) (λ x. refl) u

  pub Follows-claim :
      (requests : Requests Value) (spec : OperationSpec Value) (users : List Text) (max : Option ℕ)
      (now : ℕ) (db : Db Value)
      → UniqueKeys db.operations
      → Follows cause db.operations
          (after (claim_with_recipients requests spec users max now db) db).operations
  unfolding claim_with_recipients
  Follows-claim requests spec users max now db u =
      let db1 = inserted spec now db in
      let first = Follows-inserted spec now db u in
      let ops2 = update_where (is_claimable spec.key now) (begun spec now) db1.operations in
      let second = Follows-begun spec now db1.operations first.1 in
      let db2 = record db1 { operations = ops2 } in
      let third = Follows-reserve requests spec users max db2 second.1 in
      let whole =
        Follows-trans cause db.operations db1.operations _ first
          (Follows-trans cause db1.operations ops2 _ second third) in
      ground (arith, Follows-refl cause db.operations u, first, whole)

  pub Follows-claim_notification :
      (requests : Requests Value) (spec : OperationSpec Value) (users : List Text) (max now : ℕ)
      (db : Db Value)
      → UniqueKeys db.operations
      → Follows cause db.operations
          (after (claim_notification requests spec users max now db) db).operations
  unfolding claim_notification
  Follows-claim_notification requests spec users max now db u = ground (
    arith,
    Follows-refl cause db.operations u,
    Follows-claim requests spec users (some max) now db u,
  )

  -- the end of an attempt whose rows were unsent, if it ends superseded
  pub Follows-ended :
      (c : Claim Value) (change : OperationRow Value → OperationRow Value)
      (xs : List (OperationRow Value))
      → ((x : OperationRow Value) → (change x).key ≡ x.key)
      → All (λ x. is_leased c x ≡ true → Edge cause (life x) (life (change x))) xs
      → UniqueKeys xs
      → Follows cause xs (update_where (is_leased c) change xs)
  Follows-ended c change xs k h u =
      Follows-update cause (is_leased c) change xs k
        (All-map (λ x e t. (sym (k x), Trail-Edge (e t))) xs h) u

  ends-completion :
      (c : Claim Value) (state : State) (xs : List (OperationRow Value))
      → is_completion state ≡ true
      → All
          (λ x. has_key c.operation.spec.key x ≡ true → state ≡ State.superseded → x.sent ≡ false)
          xs
      → All
          (λ x.
            is_leased c x ≡ true
            → Edge cause (life x) (record { state = state; sent = x.sent; attempts = x.attempts }))
          xs
  ends-completion c state xs e h =
      All-map
        (λ x k t.
          ends (is_leased-running c x t) e (k (and-true_inv (has_key c.operation.spec.key x) _ t).0)
            refl refl)
        xs h

  pub Follows-finish :
      (scrub : Text → Text) (c : Claim Value) (state : State) (result : Option Value)
      (detail : Text) (now : ℕ) (db : Db Value)
      → UniqueKeys db.operations
      → Follows cause db.operations
          (after (finish scrub c state result detail now db) db).operations
  unfolding finish
  Follows-finish scrub c state result detail now db u =
      let key = c.operation.spec.key in
      elim (Bool-cases (is_completion state)) [
        | inr e ↦ ground (arith, e, Follows-refl cause db.operations u)
        | inl e ↦ elim (Answer-cases (check_unsent state key db)) [
          | inl f ↦ ground (arith, e, f.1, Follows-refl cause db.operations u)
          | inr f ↦
              let change = λ (r : OperationRow Value). record r {
                state = state;
                result = result;
                detail = scrub detail;
                updated_at = now;
              } in
              let ended =
                Follows-ended c change db.operations (λ x. refl)
                  (ends-completion c state db.operations e (unsent-All state key db u f)) u in
              ground (arith, e, f, Follows-refl cause db.operations u, ended)
        ]
      ]

  pub Follows-refresh :
      (c : Claim Value) (spec : OperationSpec Value) (now : ℕ) (db : Db Value)
      → UniqueKeys db.operations
      → Follows cause db.operations (after (refresh_opened_snapshot c spec now db) db).operations
  unfolding refresh_opened_snapshot
  Follows-refresh c spec now db u =
      let held = λ (r : OperationRow Value).
        has_key spec.key r
        && (r.attempts == c.attempt
            && (is_state r.state State.running
                && (not r.sent && text_eq r.spec.kind (codes "opened")))) in
      let noted =
        Follows-note held (λ r. record r { spec = spec; updated_at = now }) db.operations
          (λ x. refl) (λ x. refl) u in
      ground (arith, Follows-refl cause db.operations u, noted)

  pub Follows-prepare :
      (requests : Requests Value) (c : Claim Value) (body : Text) (now : ℕ) (db : Db Value)
      → UniqueKeys db.operations
      → Follows cause db.operations
          (after (prepare_notification requests c body now db) db).operations
  unfolding prepare_notification
  Follows-prepare requests c body now db u =
      elim (Option-cases (operation c.operation.spec.key db)) [
        | inl e ↦ ground (arith, e, Follows-refl cause db.operations u)
        | inr e ↦
            let op = e.0 in
            let noted =
              Follows-note (has_key op.spec.key)
                (λ r. record r {
                  spec = record (op.spec) { request = requests.with_body op.spec.request body };
                  updated_at = now;
                })
                db.operations (λ x. refl) (λ x. refl) u in
            ground (arith, e.1, Follows-refl cause db.operations u, noted)
      ]
