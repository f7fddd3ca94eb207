-- ===== src/Store/Progress.antt =====
-- The steps of an attempt of src/trigger_state/store.rs that succeed: the claim of a row that is due,
-- the mark and the completion of a row that is leased.
use xero_bot.Prelude.{
  ◌≡◌, refl, sym, ◌∙◌, ◌≤◌, Bool, true, false, List, [], ◌∷◌, All, any, Bool-cases, inl, inr,
  Option, some, none, arith, ℕ, suc, Option-cases, le→leb,
}
use xero_bot.Text.{Text}
use xero_bot.Text.Laws.{text_eq_refl, text_eq→eq}
use xero_bot.Store.{OperationRow, OperationSpec, Db, State, Claim, ok, Recipient}
use xero_bot.Store.Operations.{has_key, belongs_to, operation, to_operation}
use xero_bot.Store.Claims.{
  claim_with_recipients, claim, is_claimable, begun, inserted, new_operation, reserve_budget,
}
use xero_bot.Store.Leases.{is_leased, mark_sent, finish}
use xero_bot.Store.Reserve.{Requests, check_recipients, commit_recipients}
use xero_bot.Store.Table.{update_where, find_where, count_where}
use xero_bot.Store.Table.Laws.{find-update, find-insert}
use xero_bot.Store.Lifecycle.{UniqueKeys}
use xero_bot.Store.Evolution.{unique-update, unique-insert, or-false_inv}
use xero_bot.Store.Kept.{count_none}

pub committed-All :
    (key : Text) (rs : List Recipient)
    → All (λ x. belongs_to key x ≡ true → x.committed ≡ true) (commit_recipients key rs)
unfolding update_where
committed-All key [] = tt
committed-All key (x ∷ xs) = elim (Bool-cases (belongs_to key x)) [
  | inl e ↦ rw e ((λ _. refl), committed-All key xs)
  | inr e ↦ rw e ((λ f. ground (arith, e, f)), committed-All key xs)
]

module _ {Value : Type 0} where
  -- exactly the row of a key passes a test that only rows of the key can pass
  pub count_one :
      (key : Text) (q : OperationRow Value → Bool) (xs : List (OperationRow Value))
      (r : OperationRow Value)
      → ((x : OperationRow Value) → has_key key x ≡ false → q x ≡ false)
      → UniqueKeys xs
      → find_where (has_key key) xs ≡ some r
      → q r ≡ true
      → count_where q xs ≡ 1
  unfolding find_where count_where
  count_one key q [] r k u f h = ground (arith, f)
  count_one key q (x ∷ xs) r k u f h = elim (Bool-cases (has_key key x)) [
    | inr e ↦ ground (arith, e, k x e, count_one key q xs r k u.1 (ground (arith, e, f)) h)
    | inl e ↦
        let same : x ≡ r = ground (arith, e, f) in
        let head : q x ≡ true = rw same h in
        let others = count_none q xs (rest xs (rw (sym (text_eq→eq x.key key e)) u.0)) in
        ground (arith, head, others)
  ]
    where
      rest :
          (ys : List (OperationRow Value))
          → any (has_key key) ys ≡ false
          → All (λ y. q y ≡ false) ys
      rest [] e = tt
      rest (y ∷ ys) e =
          (k y (or-false_inv (has_key key y) _ e).0, rest ys (or-false_inv (has_key key y) _ e).1)

  -- the row that a claim finds, or adds
  abbrev pub row_of : OperationSpec Value → ℕ → Db Value → OperationRow Value
  row_of spec now db = elim (find_where (has_key spec.key) db.operations) [
    | none ↦ new_operation spec now
    | some r ↦ r
  ]

  -- the database after a claim without a budget
  abbrev pub begun_db : OperationSpec Value → ℕ → Db Value → Db Value
  begun_db spec now db = record db {
    operations =
        update_where (is_claimable spec.key now) (begun spec now) (inserted spec now db).operations;
  }

  pub begun_db-UniqueKeys :
      (spec : OperationSpec Value) (now : ℕ) (db : Db Value)
      → UniqueKeys db.operations
      → UniqueKeys (begun_db spec now db).operations
  begun_db-UniqueKeys spec now db u =
      unique-update (is_claimable spec.key now) (begun spec now) (inserted spec now db).operations
        (λ x. refl) (unique-insert (new_operation spec now) db.operations u)

  pub find-has_key :
      (key : Text) (xs : List (OperationRow Value)) (x : OperationRow Value)
      → find_where (has_key key) xs ≡ some x
      → has_key key x ≡ true
  unfolding find_where
  find-has_key key [] x e = ground (arith, e)
  find-has_key key (y ∷ ys) x e = elim (Bool-cases (has_key key y)) [
    | inl h ↦ let same : y ≡ x = ground (arith, e, h) in rw (sym same) h
    | inr h ↦ find-has_key key ys x (ground (arith, e, h))
  ]

  pub row_of-has_key :
      (spec : OperationSpec Value) (now : ℕ) (db : Db Value)
      → has_key spec.key (row_of spec now db) ≡ true
  row_of-has_key spec now db = elim (Option-cases (find_where (has_key spec.key) db.operations)) [
    | inl e ↦ ground (arith, e, text_eq_refl spec.key)
    | inr e ↦ ground (arith, e.1, find-has_key spec.key db.operations e.0 e.1)
  ]

  module _ (spec : OperationSpec Value) (now : ℕ) (db : Db Value) where
    inserted-row_of :
        find_where (has_key spec.key) (inserted spec now db).operations ≡ some (row_of spec now db)
    inserted-row_of =
        find-insert (has_key spec.key) (new_operation spec now) db.operations
          (text_eq_refl spec.key)

    is_claimable-row_of :
        (row_of spec now db).state ≡ State.pending
        → (row_of spec now db).next_at ≤ now
        → is_claimable spec.key now (row_of spec now db) ≡ true
    is_claimable-row_of p d =
        ground (arith, row_of-has_key spec now db, p, le→leb (row_of spec now db).next_at now d)

    pub begun_db-row :
        (row_of spec now db).state ≡ State.pending
        → (row_of spec now db).next_at ≤ now
        → find_where (has_key spec.key) (begun_db spec now db).operations
          ≡ some (begun spec now (row_of spec now db))
    begun_db-row p d =
        find-update (has_key spec.key) (is_claimable spec.key now) (begun spec now)
          (inserted spec now db).operations (row_of spec now db) (λ y. refl) inserted-row_of
        ∙ rw (is_claimable-row_of p d) refl

  -- an operation that is new, or pending and due, is claimed
  pub claim-begun :
      (requests : Requests Value) (spec : OperationSpec Value) (now : ℕ) (db : Db Value)
      → UniqueKeys db.operations
      → (row_of spec now db).state ≡ State.pending
      → (row_of spec now db).next_at ≤ now
      → claim requests spec now db
        ≡ ok (
          some (record {
            operation = to_operation (begun_db spec now db) (begun spec now (row_of spec now db));
            attempt = suc (row_of spec now db).attempts;
          }),
          begun_db spec now db,
        )
  unfolding claim claim_with_recipients operation check_recipients reserve_budget
  claim-begun requests spec now db u p d =
      let found = begun_db-row spec now db p d in
      let one =
        count_one spec.key (is_claimable spec.key now) (inserted spec now db).operations
          (row_of spec now db) (λ x h. ground (arith, h))
          (unique-insert (new_operation spec now) db.operations u) (inserted-row_of spec now db)
          (is_claimable-row_of spec now db p d) in
      ground (arith, one, found)

  module _ (c : Claim Value) (r : OperationRow Value) (db : Db Value) where
    -- the row of the claim's key is the claim's attempt
    abbrev pub IsHeldBy : Type 0
    IsHeldBy =
        UniqueKeys db.operations
        × ((find_where (has_key c.operation.spec.key) db.operations ≡ some r)
            × (is_leased c r ≡ true))

    leased-count : IsHeldBy → count_where (is_leased c) db.operations ≡ 1
    leased-count h =
        count_one c.operation.spec.key (is_leased c) db.operations r (λ x e. ground (arith, e)) h.0
          h.1.0 h.1.1

    abbrev pub sent_db : ℕ → Db Value
    sent_db now = record db {
      operations =
          update_where (is_leased c) (λ r. record r { sent = true; updated_at = now })
            db.operations;
    }

    pub mark_sent-held : (now : ℕ) → IsHeldBy → mark_sent c now db ≡ ok (tt, sent_db now)
    unfolding mark_sent
    mark_sent-held now h = ground (arith, leased-count h)

    pub sent_db-row :
        (now : ℕ)
        → IsHeldBy
        → find_where (has_key c.operation.spec.key) (sent_db now).operations
          ≡ some (record r { sent = true; updated_at = now })
    sent_db-row now h =
        find-update (has_key c.operation.spec.key) (is_leased c)
          (λ r. record r { sent = true; updated_at = now }) db.operations r (λ y. refl) h.1.0
        ∙ rw h.1.1 refl

    pub sent_db-UniqueKeys : (now : ℕ) → IsHeldBy → UniqueKeys (sent_db now).operations
    sent_db-UniqueKeys now h = unique-update (is_leased c) _ db.operations (λ x. refl) h.0

    abbrev pub succeeded_db : (Text → Text) → Option Value → Text → ℕ → Db Value
    succeeded_db scrub result detail now = record db {
      operations =
          update_where (is_leased c)
            (λ r. record r {
              state = State.succeeded;
              result = result;
              detail = scrub detail;
              updated_at = now;
            })
            db.operations;
      recipients = commit_recipients c.operation.spec.key db.recipients;
    }

    pub finish-held :
        (scrub : Text → Text) (result : Option Value) (detail : Text) (now : ℕ)
        → IsHeldBy
        → finish scrub c State.succeeded result detail now db
          ≡ ok (tt, succeeded_db scrub result detail now)
    unfolding finish
    finish-held scrub result detail now h = ground (arith, leased-count h)

    pub succeeded_db-row :
        (scrub : Text → Text) (result : Option Value) (detail : Text) (now : ℕ)
        → IsHeldBy
        → find_where
            (has_key c.operation.spec.key)
            (succeeded_db scrub result detail now).operations
          ≡ some (record r {
            state = State.succeeded;
            result = result;
            detail = scrub detail;
            updated_at = now;
          })
    succeeded_db-row scrub result detail now h =
        find-update (has_key c.operation.spec.key) (is_leased c)
          (λ r. record r {
            state = State.succeeded;
            result = result;
            detail = scrub detail;
            updated_at = now;
          })
          db.operations r (λ y. refl) h.1.0
        ∙ rw h.1.1 refl
