-- ===== src/Store/Refines/Plans.antt =====
-- `refresh_path_labels` of src/trigger_state/store.rs moves an operation along an edge of
-- Store/Lifecycle, or leaves it.
use xero_bot.Parser.Args.{is_empty}
use xero_bot.Prelude.{
  ◌≡◌, refl, Bool, true, false, List, inl, inr, Option, some, none, if◌then◌else◌, arith, ℕ,
  Option-cases,
}
use xero_bot.Text.{Text}
use xero_bot.Store.{OperationRow, Db, State, Claim, after}
use xero_bot.Store.Operations.{operation}
use xero_bot.Store.Reserve.{Requests}
use xero_bot.Store.Table.{find_where}
use xero_bot.Store.Lifecycle.{Life, Trail, stays, UniqueKeys, life, supersedes, work}
use xero_bot.Store.Evolution.{Trail-Edge}
use xero_bot.Store.Refines.{Follows, Follows-refl, Follows-change}
use xero_bot.Store.Plans.{
  refresh_path_labels, relabel, relabelled, is_fresh, is_label_write, narrowed,
}

is_fresh-pending :
    {Value : Type 0} (key : Text) (x : OperationRow Value)
    → is_fresh key x ≡ true
    → x.state ≡ State.pending
is_fresh-pending key x h = ground arith

waiting-Trail :
    (b : Bool) (x y : Life)
    → x.state ≡ State.pending
    → y.state ≡ (if b then State.superseded else State.pending)
    → y.sent ≡ x.sent
    → y.attempts ≡ x.attempts
    → Trail work x y
waiting-Trail true x y e f g h = Trail-Edge (supersedes (ground (arith, e)) f g h)
waiting-Trail false x y e f g h = stays (cc)

module _ {Value : Type 0} (requests : Requests Value) where
  Follows-relabel :
      (row : Option (OperationRow Value)) (labels : List Text) (now : ℕ) (db : Db Value)
      → UniqueKeys db.operations
      → Follows work db.operations (after (relabel requests row labels now db) db).operations
  unfolding relabel
  Follows-relabel none labels now db u = Follows-refl work db.operations u
  Follows-relabel (some row) labels now db u = elim (Option-cases (operation row.key db)) [
    | inl e ↦ ground (arith, e, Follows-refl work db.operations u)
    | inr e ↦ elim (Option-cases (requests.labels e.0.spec.request)) [
      | inl f ↦ ground (arith, e.1, f, Follows-refl work db.operations u)
      | inr f ↦
          let change = relabelled requests e.0 (narrowed requests f.0 labels) now in
          let moved =
            Follows-change work (is_fresh row.key) change db.operations (λ x. refl)
              (λ x h.
                waiting-Trail (is_empty (narrowed requests f.0 labels)) (life x) (life (change x))
                  (is_fresh-pending row.key x h) refl refl refl)
              u in
          ground (arith, e.1, f.1, Follows-refl work db.operations u, moved)
    ]
  ]

  pub Follows-relabels :
      (parent : Claim Value) (labels : List Text) (now : ℕ) (db : Db Value)
      → UniqueKeys db.operations
      → Follows work db.operations
          (after (refresh_path_labels requests parent labels now db) db).operations
  unfolding refresh_path_labels
  Follows-relabels parent labels now db u = ground (
    arith,
    Follows-refl work db.operations u,
    Follows-relabel (find_where (is_label_write parent.operation.spec.key) db.operations) labels now
        db u,
  )
