-- ===== src/Store/Budget.antt =====
-- The budget of notified logins: claims of src/trigger_state/store.rs that reserve it.
use xero_bot.Store.Ledger.{restore_recipients, restored_recipient}
use xero_bot.Store.Sessions.{record_wake}
use xero_bot.Store.Inbox.{
  enqueue, claim_inbox, finish_inbox, defer_interrupted_inbox, resume_inbox, cleanup_inbox,
}
use xero_bot.Store.Plans.{refresh_path_labels, relabel, is_label_write}
use xero_bot.Store.Calls.{
  narrows_labels, cleans_inbox, Host, Call, apply, apply_all, enqueues, claims_inbox,
  finishes_inbox, defers_inbox, resumes_inbox, recovers_running, recovers_delivery, fails_unsent,
  supersedes_children, revokes_opened, claims, claims_notification, marks_sent, finishes,
  refreshes_snapshot, prepares_notification, resolves_unknown, administers, records_wake,
  restores_ledger,
}
use xero_bot.Store.Admin.{resolve_unknown, administer_with_receipt}
use xero_bot.Store.Operations.{
  belongs_to, recover_running, recover_delivery, fail_unsent, supersede_unsent_children,
  revoke_opened,
}
use xero_bot.Prelude.{
  ◌≡◌, refl, Bool, true, false, if◌then◌else◌, ℕ, ◌≤◌, ◌+◌, ◌-◌, ◌&&◌, ◌==◌, List, [], ◌∷◌, ◌++◌,
  arith, Option, none, some, leb→le, ==_iff, and-true_inv, Bool-cases, inl, inr, leb, Option-cases,
  length,
}
use xero_bot.Text.{Text, text_eq, codes}
use xero_bot.Store.Table.{count_where, delete_where, find_where, upsert}
use xero_bot.Store.Table.Laws.{count-update, count-delete, count-append}
use xero_bot.Store.{EventContext, Db, Recipient, State, OperationSpec, after, empty}
use xero_bot.Store.Claims.{reserve_budget, claim_with_recipients, claim, claim_notification}
use xero_bot.Store.Leases.{mark_sent, finish, refresh_opened_snapshot, prepare_notification}
use xero_bot.Store.Reserve.{
  in_scope, of_context, reserve, new_recipient, commit_recipients, settle_recipients, Requests,
  normalized, release_recipients,
}

-- whether a context is of a scope
abbrev is_owned : ℕ → ℕ → ℕ → EventContext → Bool
is_owned i r p ctx = ctx.installation_id == i && (ctx.repository_id == r && ctx.thread_id == p)

reserve-count :
    (i r p : ℕ) (ctx : EventContext) (key : Text) (n : ℕ) (us : List Text) (rs : List Recipient)
    → count_where (in_scope i r p) (reserve ctx key n us rs).0
      ≤ count_where (in_scope i r p) rs + (if is_owned i r p ctx then n else 0)
unfolding reserve count_where
reserve-count i r p ctx key n [] rs = omega arith
reserve-count i r p ctx key n (u ∷ us) rs =
    let place = new_recipient ctx key u in
    ground (
      arith,
      count-append (in_scope i r p) rs (place ∷ []),
      reserve-count i r p ctx key n us rs,
      reserve-count i r p ctx key (n - 1) us (rs ++ place ∷ []),
    )

-- what a claim with a limit leaves in a scope: no more than the limit, or than there were
reserve-count_max :
    (i r p : ℕ) (ctx : EventContext) (key : Text) (max : ℕ) (us : List Text) (rs : List Recipient)
    → (extra : ℕ) → count_where (in_scope i r p) rs ≤ 10 + extra
    → max ≤ 10
    → count_where (in_scope i r p) (reserve ctx key (max - count_where (of_context ctx) rs) us rs).0
      ≤ 10 + extra
reserve-count_max i r p ctx key max us rs extra h m =
    let bound = reserve-count i r p ctx key (max - count_where (of_context ctx) rs) us rs in
    elim (Bool-cases (is_owned i r p ctx)) [
      | inl e ↦
          let same = and-true_inv (ctx.installation_id == i) _ e in
          let rest = and-true_inv (ctx.repository_id == r) _ same.1 in
          let ei = (==_iff ctx.installation_id i).0 same.0 in
          let er = (==_iff ctx.repository_id r).0 rest.0 in
          let ep = (==_iff ctx.thread_id p).0 rest.1 in
          let scopes : count_where (of_context ctx) rs ≡ count_where (in_scope i r p) rs =
            rw ei (rw er (rw ep refl)) in
          ground (arith, bound, scopes, e)
      | inr e ↦ ground (arith, bound, e)
    ]

-- At most ten logins of each pull request have a reservation, and so many more.
abbrev pub IsCapped : (ℕ → ℕ → ℕ → ℕ) → List Recipient → Type 0
IsCapped extra rs = (i r p : ℕ) → count_where (in_scope i r p) rs ≤ 10 + extra i r p

module _ (extra : ℕ → ℕ → ℕ → ℕ) where
  pub IsCapped-delete :
      (t : Recipient → Bool) (rs : List Recipient)
      → IsCapped extra rs
      → IsCapped extra (delete_where t rs)
  IsCapped-delete t rs h i r p = omega (arith, count-delete (in_scope i r p) t rs, h i r p)

  pub IsCapped-commit :
      (key : Text) (rs : List Recipient)
      → IsCapped extra rs
      → IsCapped extra (commit_recipients key rs)
  IsCapped-commit key rs h i r p =
      rw
        (count-update (in_scope i r p) (belongs_to key) (λ r. record r { committed = true }) rs
          (λ x. refl))
        (h i r p)

  pub IsCapped-settle :
      (state : State) (key : Text) (rs : List Recipient)
      → IsCapped extra rs
      → IsCapped extra (settle_recipients state key rs)
  IsCapped-settle State.succeeded key rs h = IsCapped-commit key rs h
  IsCapped-settle State.failed key rs h = IsCapped-delete _ rs h
  IsCapped-settle State.superseded key rs h = IsCapped-delete _ rs h
  IsCapped-settle _ key rs h = h

  IsCapped-if :
      (b c : Bool) (key : Text) (rs : List Recipient)
      → IsCapped extra rs
      → IsCapped extra
          (if b then commit_recipients key rs else if c then release_recipients key rs else rs)
  IsCapped-if true c key rs h = IsCapped-commit key rs h
  IsCapped-if false true key rs h = IsCapped-delete _ rs h
  IsCapped-if false false key rs h = h

module _ {Value : Type 0} (extra : ℕ → ℕ → ℕ → ℕ) (requests : Requests Value)
    (spec : OperationSpec Value) (users : List Text) where
  IsCapped-budget :
      (max : ℕ) (db : Db Value)
      → max ≤ 10
      → IsCapped extra db.recipients
      → IsCapped extra (reserve_budget requests spec users (some max) db).recipients
  unfolding reserve_budget
  IsCapped-budget max db m h i r p =
      reserve-count_max i r p spec.context spec.key max (normalized users) db.recipients
        (extra i r p) (h i r p) m

  -- `max` is none, or at most 10
  abbrev IsTen : Option ℕ → Type 0
  IsTen none = Unit
  IsTen (some max) = max ≤ 10

  IsCapped-claim :
      (max : Option ℕ) (now : ℕ) (db : Db Value)
      → IsTen max
      → IsCapped extra db.recipients
      → IsCapped extra (after (claim_with_recipients requests spec users max now db) db).recipients
  unfolding claim_with_recipients
  IsCapped-claim none now db m h i r p = ground (arith, h i r p)
  IsCapped-claim (some max) now db m h i r p =
      ground (arith, h i r p, IsCapped-budget max (record db { operations = _ }) m h i r p)

upsert-count :
    {A : Type 0} (p t : A → Bool) (c : A → A) (row : A) (rows : List A)
    → ((x : A) → p (c x) ≡ p x)
    → count_where p (upsert t c row rows) ≤ count_where p rows + (if p row then 1 else 0)
unfolding upsert count_where
upsert-count p t c row rows h =
    ground (arith, count-update p t c rows h, count-append p rows (row ∷ []))

restore-count :
    (i r p : ℕ) (key : Text) (installation repository pr : ℕ) (us : List Text) (rs : List Recipient)
    → count_where (in_scope i r p) (restore_recipients key installation repository pr us rs)
      ≤ count_where (in_scope i r p) rs
        + (if installation == i && (repository == r && pr == p) then length us else 0)
unfolding restore_recipients
restore-count i r p key installation repository pr [] rs = omega arith
restore-count i r p key installation repository pr (u ∷ us) rs =
    let test = λ (x : Recipient). in_scope installation repository pr x && text_eq x.login u in
    let change = λ (x : Recipient). record x { operation = key; committed = true } in
    let row = restored_recipient key installation repository pr u in
    ground (
      arith,
      upsert-count (in_scope i r p) test change row rs (λ x. refl),
      restore-count i r p key installation repository pr us (upsert test change row rs),
    )

module _ {Value : Type 0} where
  -- how many distinct logins a call restores to the ledger of a pull request
  abbrev pub restores_in : ℕ → ℕ → ℕ → Call Value → ℕ
  restores_in i r p (Call.restores_ledger installation repository pr users _ _) =
      if installation == i && (repository == r && pr == p) then length (normalized users) else 0
  restores_in i r p _ = 0

  abbrev pub restored_in : ℕ → ℕ → ℕ → List (Call Value) → ℕ
  restored_in i r p [] = 0
  restored_in i r p (call ∷ calls) = restores_in i r p call + restored_in i r p calls

module _ {Value : Type 0} (host : Host Value) where
  IsCapped-apply :
      (call : Call Value) (extra : ℕ → ℕ → ℕ → ℕ) (db : Db Value)
      → IsCapped extra db.recipients
      → (i r p : ℕ)
      → count_where (in_scope i r p) (apply host call db).recipients
        ≤ 10 + (restores_in i r p call + extra i r p)
  unfolding apply enqueue claim_inbox finish_inbox defer_interrupted_inbox resume_inbox
      cleanup_inbox recover_running recover_delivery fail_unsent supersede_unsent_children
      revoke_opened claim claim_notification mark_sent finish refresh_opened_snapshot
      prepare_notification refresh_path_labels relabel resolve_unknown administer_with_receipt
      record_wake
  IsCapped-apply (enqueues context now) extra db h i r p = ground (arith, h i r p)
  IsCapped-apply (claims_inbox now) extra db h i r p = ground (arith, h i r p)
  IsCapped-apply (finishes_inbox item retry now) extra db h i r p = ground (arith, h i r p)
  IsCapped-apply (defers_inbox item now) extra db h i r p = omega (arith, h i r p)
  IsCapped-apply (resumes_inbox now) extra db h i r p = omega (arith, h i r p)
  IsCapped-apply (cleans_inbox now) extra db h i r p = omega (arith, h i r p)
  IsCapped-apply (recovers_running before now) extra db h i r p = omega (arith, h i r p)
  IsCapped-apply (recovers_delivery delivery now) extra db h i r p = omega (arith, h i r p)
  IsCapped-apply (fails_unsent key detail now) extra db h i r p =
      omega (arith, IsCapped-delete extra _ db.recipients h i r p)
  IsCapped-apply (supersedes_children parent now) extra db h i r p =
      omega (arith, IsCapped-delete extra _ db.recipients h i r p)
  IsCapped-apply (revokes_opened key now) extra db h i r p =
      omega (arith, IsCapped-delete extra _ db.recipients h i r p)
  IsCapped-apply (claims spec now) extra db h i r p =
      omega (arith, IsCapped-claim extra host.requests spec [] none now db tt h i r p)
  IsCapped-apply (claims_notification spec users max now) extra db h i r p =
      elim (Bool-cases (leb max 10)) [
        | inl m ↦
            let kept =
              IsCapped-claim extra host.requests spec users (some max) now db (leb→le max 10 m) h i
                r p in
            ground (arith, h i r p, kept)
        | inr m ↦ ground (arith, h i r p, m)
      ]
  IsCapped-apply (marks_sent c now) extra db h i r p = ground (arith, h i r p)
  IsCapped-apply (finishes c state result detail now) extra db h i r p =
      ground
        (arith, h i r p, IsCapped-settle extra state c.operation.spec.key db.recipients h i r p)
  IsCapped-apply (refreshes_snapshot c spec now) extra db h i r p = ground (arith, h i r p)
  IsCapped-apply (prepares_notification c body now) extra db h i r p = ground (arith, h i r p)
  IsCapped-apply (narrows_labels c labels now) extra db h i r p =
      elim (Option-cases (find_where (is_label_write c.operation.spec.key) db.operations)) [
        | inl e ↦ ground (arith, h i r p, e)
        | inr e ↦ ground (arith, h i r p, e.1)
      ]
  IsCapped-apply (resolves_unknown op outcome result evidence now) extra db h i r p = ground (
    arith,
    h i r p,
    IsCapped-if extra (text_eq outcome (codes "succeeded")) (text_eq outcome (codes "not_sent"))
        op.spec.key db.recipients h i r p,
  )
  IsCapped-apply (administers key decision evidence receipt now) extra db h i r p = ground (
    arith,
    h i r p,
    IsCapped-if extra (text_eq decision (codes "confirm-success"))
        (text_eq decision (codes "confirm-not-sent")) key db.recipients h i r p,
  )
  IsCapped-apply (records_wake w) extra db h i r p = ground (arith, h i r p)
  IsCapped-apply (restores_ledger installation repository pr users detail now) extra db h i r p =
      let key = host.requests.restored_key repository pr installation in
      let more =
        restore-count i r p key installation repository pr (normalized users) db.recipients in
      ground (arith, h i r p, more)

  IsCapped-apply_all :
      (calls : List (Call Value)) (extra : ℕ → ℕ → ℕ → ℕ) (db : Db Value)
      → IsCapped extra db.recipients
      → (i r p : ℕ)
      → count_where (in_scope i r p) (apply_all host calls db).recipients
        ≤ 10 + (restored_in i r p calls + extra i r p)
  unfolding apply_all
  IsCapped-apply_all [] extra db h i r p = omega (arith, h i r p)
  IsCapped-apply_all (call ∷ calls) extra db h i r p =
      let next =
        IsCapped-apply_all calls (λ i r p. restores_in i r p call + extra i r p)
          (apply host call db) (IsCapped-apply call extra db h) i r p in
      omega (arith, next)

  -- Whatever values of `Call` a new database has had as its calls, in whatever order and whether or not
  -- they returned errors, at most ten logins of each pull request of each installation have a
  -- reservation, plus the distinct logins of each call among them that restores the ledger of that pull
  -- request; without such a call, at most ten.
  pub apply_all-Capped :
      (calls : List (Call Value)) (i r p : ℕ)
      → count_where (in_scope i r p) (apply_all host calls empty).recipients
        ≤ 10 + restored_in i r p calls
  unfolding count_where
  apply_all-Capped calls i r p =
      omega (arith, IsCapped-apply_all calls (λ i r p. 0) empty (λ i r p. omega arith) i r p)
