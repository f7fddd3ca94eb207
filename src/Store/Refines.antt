-- ===== src/Store/Refines.antt =====
-- The calls of src/trigger_state/store.rs that need no claim, and the lives of Store/Lifecycle.
pub mod Attempts
mod Evidence
mod Plans
pub mod Runs
use xero_bot.Prelude.{
  ◌≡◌, refl, sym, ap, ◌∙◌, Bool, true, false, List, [], ◌∷◌, ◌++◌, All, any, Bool-cases, inl, inr,
  if_cases, Option, some, none, if◌then◌else◌, arith, and-true_inv, ℕ, ◌&&◌, not, leb, All-of,
}
use xero_bot.Text.{Text, text_eq, codes}
use xero_bot.Store.{OperationRow, Db, State, is_state, Claim, after}
use xero_bot.Store.Operations.{
  has_key, is_waiting, recover_running, fail_unsent, supersede_unsent_children, recover_delivery,
  revoke_opened, is_planner, has_parent, is_over,
}
use xero_bot.Store.Leases.{is_leased, mark_sent}
use xero_bot.Store.Reserve.{is_completion}
use xero_bot.Store.Table.{update_where, insert_or_ignore, find_where, count_where}
use xero_bot.Store.Lifecycle.{
  Cause, Life, Trail, stays, moves, Edge, Becomes, Evolves, UniqueKeys, life, new_life, begins,
  sends, ends, refuses, supersedes, confirms, reopens,
}
use xero_bot.Store.Evolution.{
  Trail-trans, Trail-Edge, Evolves-refl, Evolves-trans, Evolves-update, Evolves-insert,
  unique-update, unique-insert, found-All,
}

pub is_state→eq : (s t : State) → is_state s t ≡ true → s ≡ t
is_state→eq s t h = ground arith

pending-is_waiting :
    (b c : Bool) (s : State) → (b && (is_state s State.pending && c)) ≡ true → is_waiting s ≡ true
pending-is_waiting b c s h = ground arith

middle_true : (a b c : Bool) → (a && (b && c)) ≡ true → b ≡ true
middle_true a b c h = ground arith

module _ {Value : Type 0} (cause : Cause) where
  abbrev pub Follows : List (OperationRow Value) → List (OperationRow Value) → Type 0
  Follows xs ys = Evolves cause xs ys × UniqueKeys ys

  pub Follows-refl : (xs : List (OperationRow Value)) → UniqueKeys xs → Follows xs xs
  Follows-refl xs u = (Evolves-refl cause xs, u)

  pub Follows-update :
      (t : OperationRow Value → Bool) (c : OperationRow Value → OperationRow Value)
      (xs : List (OperationRow Value))
      → ((x : OperationRow Value) → (c x).key ≡ x.key)
      → All (λ x. t x ≡ true → Becomes cause x (c x)) xs
      → UniqueKeys xs
      → Follows xs (update_where t c xs)
  Follows-update t c xs k h u = (Evolves-update cause t c xs h, unique-update t c xs k u)

  pub Follows-trans :
      (xs ys zs : List (OperationRow Value)) → Follows xs ys → Follows ys zs → Follows xs zs
  Follows-trans xs ys zs h k = (Evolves-trans cause xs ys zs h.0 k.0, k.1)

  -- an update whose test says of one row all that its edge needs
  pub Follows-change :
      (t : OperationRow Value → Bool) (c : OperationRow Value → OperationRow Value)
      (xs : List (OperationRow Value))
      → ((x : OperationRow Value) → (c x).key ≡ x.key)
      → ((x : OperationRow Value) → t x ≡ true → Trail cause (life x) (life (c x)))
      → UniqueKeys xs
      → Follows xs (update_where t c xs)
  Follows-change t c xs k h u = Follows-update t c xs k (All-of (λ x e. (sym (k x), h x e)) xs) u

  pub loses :
      (x : OperationRow Value)
      → x.state ≡ State.running
      → Trail cause
          (life x)
          (record { state = State.unknown; sent = x.sent; attempts = x.attempts })
  loses x e = Trail-Edge (ends e refl (λ h. ground arith) refl refl)

  pub drops :
      (x : OperationRow Value)
      → is_waiting x.state ≡ true
      → Trail cause
          (life x)
          (record { state = State.superseded; sent = x.sent; attempts = x.attempts })
  drops x e = Trail-Edge (supersedes e refl refl refl)

  pub Follows-recover_running :
      (before now : ℕ) (db : Db Value)
      → UniqueKeys db.operations
      → Follows db.operations (recover_running before now db).operations
  unfolding recover_running
  Follows-recover_running before now db u =
      Follows-change (λ r. is_state r.state State.running && leb r.updated_at before)
        (λ r. record r {
          state = State.unknown;
          detail = codes "owner lost or worker timed out";
          updated_at = now;
        })
        db.operations (λ x. refl)
        (λ x h. loses x (is_state→eq x.state State.running (and-true_inv _ _ h).0)) u

  pub Follows-recover_delivery :
      (delivery : Text) (now : ℕ) (db : Db Value)
      → UniqueKeys db.operations
      → Follows db.operations (recover_delivery delivery now db).operations
  unfolding recover_delivery
  Follows-recover_delivery delivery now db u =
      Follows-change (λ r. text_eq r.lease_delivery delivery && is_state r.state State.running)
        (λ r. record r {
          state = State.unknown;
          detail = codes "delivery worker ended without a receipt";
          updated_at = now;
        })
        db.operations (λ x. refl)
        (λ x h. loses x (is_state→eq x.state State.running (and-true_inv _ _ h).1)) u

  refuses_unsent :
      (b : Bool) (x : OperationRow Value)
      → (b && (is_waiting x.state && not x.sent)) ≡ true
      → Trail cause (life x) (record { state = State.failed; sent = x.sent; attempts = x.attempts })
  refuses_unsent b x h = Trail-Edge (refuses (ground arith) (ground arith) refl refl refl)

  pub Follows-fail_unsent :
      (scrub : Text → Text) (key detail : Text) (now : ℕ) (db : Db Value)
      → UniqueKeys db.operations
      → Follows db.operations (fail_unsent scrub key detail now db).operations
  unfolding fail_unsent
  Follows-fail_unsent scrub key detail now db u =
      Follows-change (λ r. has_key key r && (is_waiting r.state && not r.sent))
        (λ r. record r {
          state = State.failed;
          detail = scrub detail;
          next_at = 0;
          updated_at = now;
        })
        db.operations (λ x. refl) (λ x h. refuses_unsent (has_key key x) x h) u

  pub Follows-supersede :
      (parent : Text) (now : ℕ) (db : Db Value)
      → UniqueKeys db.operations
      → Follows db.operations (supersede_unsent_children parent now db).operations
  unfolding supersede_unsent_children
  Follows-supersede parent now db u =
      Follows-change (λ r. has_parent parent r && (is_state r.state State.pending && not r.sent))
        (λ r. record r {
          state = State.superseded;
          detail = codes "parent snapshot superseded";
          updated_at = now;
        })
        db.operations (λ x. refl)
        (λ x h. drops x (pending-is_waiting (has_parent parent x) (not x.sent) x.state h)) u

  pub Follows-revoke_opened :
      (key : Text) (now : ℕ) (db : Db Value)
      → UniqueKeys db.operations
      → Follows db.operations (revoke_opened key now db).operations
  unfolding revoke_opened
  Follows-revoke_opened key now db u =
      let revoked = λ (detail : Text) (r : OperationRow Value). record r {
        state = State.superseded;
        detail = detail;
        updated_at = now;
      } in
      let first =
        Follows-change (λ r. has_key key r && (is_waiting r.state && is_planner r))
          (revoked (codes "automatic rule removed, disabled or changed")) db.operations (λ x. refl)
          (λ x h. drops x (middle_true (has_key key x) (is_waiting x.state) (is_planner x) h)) u in
      let planners =
        update_where (λ r. has_key key r && (is_waiting r.state && is_planner r))
          (revoked (codes "automatic rule removed, disabled or changed")) db.operations in
      let over = any (λ o. has_key key o && (is_over o.state && is_planner o)) planners in
      let second =
        Follows-change (λ r. has_parent key r && (is_waiting r.state && (not r.sent && over)))
          (revoked (codes "automatic policy revoked")) planners (λ x. refl)
          (λ x h.
            drops x (middle_true (has_parent key x) (is_waiting x.state) (not x.sent && over) h))
          first.1 in
      Follows-trans db.operations planners _ first second
