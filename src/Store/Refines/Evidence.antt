-- ===== src/Store/Refines/Evidence.antt =====
-- Reconciliation and the operator's decisions of src/trigger_state/store.rs move operations along the
-- edges of Store/Lifecycle that need evidence.
use xero_bot.Prelude.{
  ◌≡◌, refl, Bool, true, false, inl, inr, Option, some, none, if◌then◌else◌, arith, ℕ, ◌&&◌,
  Option-cases, ◌||◌, All-map,
}
use xero_bot.Text.{Text, text_eq, codes}
use xero_bot.Store.{OperationRow, Db, State, is_state, after, ok, Operation}
use xero_bot.Store.Operations.{has_key, operation, to_operation}
use xero_bot.Store.Reserve.{Requests}
use xero_bot.Store.Table.{update_where, find_where}
use xero_bot.Store.Lifecycle.{Life, Trail, UniqueKeys, life, confirms, reopens, evidence}
use xero_bot.Store.Evolution.{Trail-Edge, found-All}
use xero_bot.Store.Refines.Attempts.{Answer-cases}
use xero_bot.Store.Refines.{Follows, Follows-refl, Follows-trans, Follows-update, Follows-change}
use xero_bot.Store.Admin.{
  resolve_unknown, reconciled, administer_with_receipt, decided, check_decision, is_failed_parent,
}

abbrev is_uncertain : State → Bool
is_uncertain s = is_state s State.unknown || is_state s State.failed

settled-Trail :
    (b : Bool) (x y : Life)
    → is_uncertain x.state ≡ true
    → y.state ≡ (if b then State.succeeded else State.pending)
    → y.attempts ≡ x.attempts
    → Trail evidence x y
settled-Trail true x y e f g = Trail-Edge (confirms refl e f g)
settled-Trail false x y e f g = Trail-Edge (reopens refl e f g)

unknown-is_uncertain :
    (b : Bool) (s : State) → (b && is_state s State.unknown) ≡ true → is_uncertain s ≡ true
unknown-is_uncertain b s h = ground arith

module _ {Value : Type 0} (scrub : Text → Text) where
  pub Follows-resolve_unknown :
      (expected : Operation Value) (outcome : Text) (result : Option Value) (detail : Text)
      (now : ℕ) (db : Db Value)
      → UniqueKeys db.operations
      → Follows evidence db.operations
          (after (resolve_unknown scrub expected outcome result detail now db) db).operations
  unfolding resolve_unknown
  Follows-resolve_unknown expected outcome result detail now db u =
      elim (Option-cases (operation expected.spec.key db)) [
        | inl e ↦ ground (arith, e, Follows-refl evidence db.operations u)
        | inr e ↦
            let change = reconciled scrub e.0 outcome result detail now in
            let moved =
              Follows-change evidence
                (λ r. has_key expected.spec.key r && is_state r.state State.unknown) change
                db.operations (λ x. refl)
                (λ x h.
                  settled-Trail (text_eq outcome (codes "succeeded")) (life x) (life (change x))
                    (unknown-is_uncertain (has_key expected.spec.key x) x.state h) refl refl)
                u in
            ground (arith, e.1, Follows-refl evidence db.operations u, moved)
      ]

  module _ (requests : Requests Value) where
    check_decision-is_uncertain :
        (op : Operation Value) (decision : Text) (receipt : Option Value)
        → check_decision requests op decision receipt ≡ ok tt
        → is_uncertain op.state ≡ true
    check_decision-is_uncertain op decision receipt h = ground arith

    failed-is_uncertain :
        (parent : Option Text) (x : OperationRow Value)
        → is_failed_parent parent x ≡ true
        → is_uncertain x.state ≡ true
    failed-is_uncertain none x h = ground arith
    failed-is_uncertain (some p) x h = ground arith

    -- `op` is the row with the key, and it was uncertain: the decision's row and its planner's move on
    Follows-decided :
        (key decision detail : Text) (receipt : Option Value) (now : ℕ) (db : Db Value)
        (r : OperationRow Value)
        → UniqueKeys db.operations
        → find_where (has_key key) db.operations ≡ some r
        → is_uncertain r.state ≡ true
        → (parent : Option Text)
        → Follows evidence db.operations (
            update_where
              (is_failed_parent parent)
              (λ r. record r { state = State.pending; next_at = now })
              (update_where
                (has_key key)
                (decided requests scrub decision detail receipt now)
                db.operations))
    Follows-decided key decision detail receipt now db r u found e parent =
        let change = decided requests scrub decision detail receipt now in
        let rows = update_where (has_key key) change db.operations in
        let first =
          Follows-update evidence (has_key key) change db.operations (λ x. refl)
            (All-map
              (λ x same t. (
                refl,
                settled-Trail (text_eq decision (codes "confirm-success")) (life x)
                    (life (change x)) (rw (same t) e) refl refl,
              ))
              db.operations (found-All key db.operations r u found))
            u in
        let second =
          Follows-change evidence (is_failed_parent parent)
            (λ r. record r { state = State.pending; next_at = now }) rows (λ x. refl)
            (λ x h. Trail-Edge (reopens refl (failed-is_uncertain parent x h) refl refl)) first.1 in
        Follows-trans evidence db.operations rows _ first second

    pub Follows-administer :
        (key decision detail : Text) (receipt : Option Value) (now : ℕ) (db : Db Value)
        → UniqueKeys db.operations
        → Follows evidence db.operations
            (after
              (administer_with_receipt requests scrub key decision detail receipt now db)
              db).operations
    unfolding administer_with_receipt operation
    Follows-administer key decision detail receipt now db u =
        elim (Option-cases (find_where (has_key key) db.operations)) [
          | inl e ↦ ground (arith, e, Follows-refl evidence db.operations u)
          | inr e ↦
              let op = to_operation db e.0 in
              elim (Answer-cases (check_decision requests op decision receipt)) [
                | inl f ↦ ground (arith, e.1, f.1, Follows-refl evidence db.operations u)
                | inr f ↦
                    let moved =
                      Follows-decided key decision detail receipt now db e.0 u e.1
                        (check_decision-is_uncertain op decision receipt f) op.spec.parent in
                    ground (arith, e.1, f, Follows-refl evidence db.operations u, moved)
              ]
        ]
