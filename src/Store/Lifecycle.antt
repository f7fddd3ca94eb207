-- ===== src/Store/Lifecycle.antt =====
-- What the rows of `operations` in src/trigger_state/store.rs promise: the life of an operation, from
-- its first claim on, as a diagram of states. It says nothing of keys, leases, times or results.
use xero_bot.Prelude.{◌≡◌, Bool, true, false, ℕ, suc, List, [], ◌∷◌, All, any, ◌||◌, ◌⊎◌}
use xero_bot.Store.{State, OperationRow, is_state}
use xero_bot.Store.Operations.{is_waiting, has_key}
use xero_bot.Store.Reserve.{is_completion}
use xero_bot.Store.Calls.{Call}

pub record Life : Type 0 where
  pub state : State
  pub sent : Bool
  pub attempts : ℕ

abbrev pub new_life : Life
new_life = record { state = State.pending; sent = false; attempts = 0 }

abbrev pub recorded_life : Life
recorded_life = record { state = State.succeeded; sent = false; attempts = 0 }

-- why a row changes: a worker goes on, or there is evidence of what became of a write
pub data Cause : Type 0 where
  work evidence : Cause

pub data Edge (cause : Cause) (x y : Life) : Type 0 where
  begins :
      x.state ≡ State.pending
      → y.state ≡ State.running
      → y.sent ≡ false
      → y.attempts ≡ suc x.attempts
      → Edge cause x y
  sends :
      x.state ≡ State.running
      → y.state ≡ State.running
      → y.sent ≡ true
      → y.attempts ≡ x.attempts
      → Edge cause x y
  ends :
      x.state ≡ State.running
      → is_completion y.state ≡ true
      → (y.state ≡ State.superseded → x.sent ≡ false)
      → y.sent ≡ x.sent
      → y.attempts ≡ x.attempts
      → Edge cause x y
  refuses :
      is_waiting x.state ≡ true
      → x.sent ≡ false
      → y.state ≡ State.failed
      → y.sent ≡ x.sent
      → y.attempts ≡ x.attempts
      → Edge cause x y
  supersedes :
      is_waiting x.state ≡ true
      → y.state ≡ State.superseded
      → y.sent ≡ x.sent
      → y.attempts ≡ x.attempts
      → Edge cause x y
  confirms :
      cause ≡ evidence
      → (is_state x.state State.unknown || is_state x.state State.failed) ≡ true
      → y.state ≡ State.succeeded
      → y.attempts ≡ x.attempts
      → Edge cause x y
  reopens :
      cause ≡ evidence
      → (is_state x.state State.unknown || is_state x.state State.failed) ≡ true
      → y.state ≡ State.pending
      → y.attempts ≡ x.attempts
      → Edge cause x y

-- any number of edges
pub data Trail (cause : Cause) : Life → Life → Type 0 where
  stays : {x y : Life} → x ≡ y → Trail cause x y
  moves : {x y z : Life} → Edge cause x y → Trail cause y z → Trail cause x z

-- A new row begins as a new operation, or it records, on evidence, what was done before.
abbrev pub Born : Cause → Life → Type 0
Born cause x = Trail cause new_life x ⊎ ((cause ≡ evidence) × (x ≡ recorded_life))

abbrev pub life : {Value : Type 0} → OperationRow Value → Life
life r = record { state = r.state; sent = r.sent; attempts = r.attempts }

module _ {Value : Type 0} where
  -- the calls that act on evidence of what became of writes: reconciliation, an operator's decision, and
  -- the restoration of a ledger
  abbrev pub cause_of : Call Value → Cause
  cause_of (Call.resolves_unknown _ _ _ _ _) = evidence
  cause_of (Call.administers _ _ _ _ _) = evidence
  cause_of (Call.restores_ledger _ _ _ _ _ _) = evidence
  cause_of _ = work

  -- a row, and what it is later
  abbrev pub Becomes : Cause → OperationRow Value → OperationRow Value → Type 0
  Becomes cause x y = (x.key ≡ y.key) × Trail cause (life x) (life y)

  -- the rows of a table keep their places and new ones come after them
  abbrev pub Evolves : Cause → List (OperationRow Value) → List (OperationRow Value) → Type 0
  Evolves cause [] ys = All (λ y. Born cause (life y)) ys
  Evolves cause (x ∷ xs) [] = ⊥
  Evolves cause (x ∷ xs) (y ∷ ys) = Becomes cause x y × Evolves cause xs ys

  -- no two rows have the same key
  abbrev pub UniqueKeys : List (OperationRow Value) → Type 0
  UniqueKeys [] = Unit
  UniqueKeys (x ∷ xs) = (any (has_key x.key) xs ≡ false) × UniqueKeys xs
