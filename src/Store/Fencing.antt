-- ===== src/Store/Fencing.antt =====
-- Leases of src/trigger_state/store.rs: which claims the database refuses, after any calls.
use xero_bot.Store.Refines.Attempts.{Answer-cases}
use xero_bot.Prelude.{
  ◌≡◌, refl, sym, subst, ap, ◌∙◌, ◌≤◌, ◌<◌, true, false, List, [], All, Bool-cases, inl, inr,
  Option, some, none, arith, ℕ, All-map, All-of, ◌≢◌,
}
use xero_bot.Text.{Text}
use xero_bot.Store.{
  OperationRow, OperationSpec, Db, State, is_state, Claim, StoreError, ok, err, stale_send,
  invalid_completion, stale_completion,
}
use xero_bot.Store.Operations.{has_key}
use xero_bot.Store.Claims.{claim_with_recipients, is_claimable, claim, claim_notification}
use xero_bot.Store.Leases.{is_leased, mark_sent, finish, check_unsent}
use xero_bot.Store.Reserve.{Requests, is_completion}
use xero_bot.Store.Table.{insert_or_ignore, find_where, count_where}
use xero_bot.Store.Lifecycle.{
  Cause, Life, UniqueKeys, life, begins, sends, ends, refuses, supersedes, confirms, reopens,
  cause_of, work,
}
use xero_bot.Store.Evolution.{found-All}
use xero_bot.Store.Calls.{Host, Call, apply_all}
use xero_bot.Store.Kept.{IsKept, Found-apply_all, any-find, count_none}

attempts-IsKept : (n : ℕ) (cause : Cause) → IsKept (λ l. n ≤ l.attempts) cause
attempts-IsKept n cause x y (begins _ _ _ e) h = omega arith
attempts-IsKept n cause x y (sends _ _ _ e) h = omega arith
attempts-IsKept n cause x y (ends _ _ _ _ e) h = omega arith
attempts-IsKept n cause x y (refuses _ _ _ _ e) h = omega arith
attempts-IsKept n cause x y (supersedes _ _ _ e) h = omega arith
attempts-IsKept n cause x y (confirms _ _ _ e) h = omega arith
attempts-IsKept n cause x y (reopens _ _ _ e) h = omega arith

-- a write that may have been made: sent, and not given back to be claimed
abbrev pub IsHeld : ℕ → Life → Type 0
IsHeld n l = (l.sent ≡ true) × ((is_state l.state State.pending ≡ false) × (l.attempts ≡ n))

IsHeld-IsKept : (n : ℕ) → IsKept (IsHeld n) work
IsHeld-IsKept n x y (begins e _ _ _) h = ground (arith, e, h.1.0)
IsHeld-IsKept n x y (sends _ f g e) h = (g, (ground (arith, f), e ∙ h.1.1))
IsHeld-IsKept n x y (ends _ f _ g e) h = (g ∙ h.0, (ground (arith, f), e ∙ h.1.1))
IsHeld-IsKept n x y (refuses _ f _ _ _) h = ground (arith, f, h.0)
IsHeld-IsKept n x y (supersedes _ f g e) h = (g ∙ h.0, (ground (arith, f), e ∙ h.1.1))
IsHeld-IsKept n x y (confirms c _ _ _) h = ground (arith, c)
IsHeld-IsKept n x y (reopens c _ _ _) h = ground (arith, c)

module _ {Value : Type 0} where
  stale-count :
      (c : Claim Value) (db : Db Value) (r : OperationRow Value)
      → UniqueKeys db.operations
      → find_where (has_key c.operation.spec.key) db.operations ≡ some r
      → c.attempt < r.attempts
      → count_where (is_leased c) db.operations ≡ 0
  stale-count c db r u f h = count_none (is_leased c) db.operations (
      All-map (λ x same. other x same) db.operations
        (found-All c.operation.spec.key db.operations r u f))
    where
      other :
          (x : OperationRow Value)
          → (has_key c.operation.spec.key x ≡ true → x ≡ r)
          → is_leased c x ≡ false
      other x same = elim (Bool-cases (has_key c.operation.spec.key x)) [
        | inl t ↦ ground (arith, t, ap (λ (w : OperationRow Value). w.attempts) (same t), h)
        | inr t ↦ ground (arith, t)
      ]

module _ {Value : Type 0} (host : Host Value) (c : Claim Value) (r : OperationRow Value)
    (db : Db Value) where
  -- Where no two rows have one key and the row of a claim's key counts more attempts than the claim's,
  -- then after any list of values of `Call`, `mark_sent` with the claim returns the error of a stale
  -- send, and `finish` returns an error for every state, result and detail.
  pub stale-Refused :
      (calls : List (Call Value)) (now : ℕ) (state : State) (result : Option Value) (detail : Text)
      → UniqueKeys db.operations
      → find_where (has_key c.operation.spec.key) db.operations ≡ some r
      → c.attempt < r.attempts
      → (mark_sent c now (apply_all host calls db) ≡ err stale_send)
        × ((e : StoreError) × (finish host.scrub c state result detail now (apply_all host calls db)
              ≡ err e))
  unfolding mark_sent finish
  stale-Refused calls now state result detail u f h =
      let n = r.attempts in
      let later =
        Found-apply_all host (λ l. n ≤ l.attempts) c.operation.spec.key calls db
          (All-of (λ call. attempts-IsKept n (cause_of call)) calls) u (r, (f, omega arith)) in
      let none_left =
        stale-count c (apply_all host calls db) later.1.0 later.0 later.1.1.0
          (omega (arith, h, later.1.1.1)) in
      (ground (arith, none_left), refused none_left)
    where
      refused :
          count_where (is_leased c) (apply_all host calls db).operations ≡ 0
          → (e : StoreError) × (finish host.scrub c state result detail now
                (apply_all host calls db)
              ≡ err e)
      refused z = elim (Bool-cases (is_completion state)) [
        | inr e ↦ (invalid_completion, ground (arith, e))
        | inl e ↦
            elim (Answer-cases
              (check_unsent state c.operation.spec.key (apply_all host calls db))) [
                | inl f ↦ (f.0, ground (arith, e, f.1))
                | inr f ↦ (stale_completion, ground (arith, e, f, z))
              ]
      ]

module _ {Value : Type 0} where
  held-count :
      (key : Text) (now : ℕ) (db : Db Value) (r : OperationRow Value)
      → UniqueKeys db.operations
      → find_where (has_key key) db.operations ≡ some r
      → is_state r.state State.pending ≡ false
      → count_where (is_claimable key now) db.operations ≡ 0
  held-count key now db r u f h =
      count_none (is_claimable key now) db.operations
        (All-map (λ x same. other x same) db.operations (found-All key db.operations r u f))
    where
      other :
          (x : OperationRow Value) → (has_key key x ≡ true → x ≡ r) → is_claimable key now x ≡ false
      other x same = elim (Bool-cases (has_key key x)) [
        | inl t ↦ ground (arith, t, ap (λ (w : OperationRow Value). w.state) (same t), h)
        | inr t ↦ ground (arith, t)
      ]

  -- a key whose row is not pending is not claimed
  unclaimed :
      (requests : Requests Value) (spec : OperationSpec Value) (users : List Text) (max : Option ℕ)
      (now : ℕ) (db : Db Value) (r : OperationRow Value) (c : Claim Value) (db' : Db Value)
      → UniqueKeys db.operations
      → find_where (has_key spec.key) db.operations ≡ some r
      → is_state r.state State.pending ≡ false
      → claim_with_recipients requests spec users max now db ≡ ok (some c, db')
      → ⊥
  unfolding claim_with_recipients insert_or_ignore
  unclaimed requests spec users max now db r c db' u f h e =
      let known = any-find (has_key spec.key) db.operations r f in
      ground (arith, e, known, held-count spec.key now db r u f h)

  -- Work never repeats a write that may have been made: where no two rows have one key and the row of a
  -- key is marked as sent and is not pending, then after any list of values of `Call` that neither
  -- reconcile a write nor record an operator's decision nor restore a ledger (workers that go on, crash and are recovered, in
  -- any order) the row of the key has the same number of attempts, is marked as sent and is not pending,
  -- and neither `claim` nor `claim_notification` gives a claim on the key.
  pub sent-Held :
      (host : Host Value) (calls : List (Call Value)) (db : Db Value) (spec : OperationSpec Value)
      (r : OperationRow Value) (users : List Text) (max now : ℕ) (c : Claim Value) (db' : Db Value)
      → All (λ call. cause_of call ≡ work) calls
      → UniqueKeys db.operations
      → find_where (has_key spec.key) db.operations ≡ some r
      → r.sent ≡ true
      → is_state r.state State.pending ≡ false
      → ((later : OperationRow Value) × ((find_where
                (has_key spec.key)
                (apply_all host calls db).operations
              ≡ some later)
            × IsHeld r.attempts (life later)))
        × ((claim host.requests spec now (apply_all host calls db) ≢ ok (some c, db'))
            × (claim_notification host.requests spec users max now (apply_all host calls db)
                ≢ ok (some c, db')))
  unfolding claim claim_notification
  sent-Held host calls db spec r users max now c db' w u f s p =
      let n = r.attempts in
      let later =
        Found-apply_all host (IsHeld n) spec.key calls db
          (All-map (λ call e. subst (IsKept (IsHeld n)) (sym e) (IsHeld-IsKept n)) calls w) u
          (r, (f, (s, (p, refl)))) in
      let row = later.1.0 in
      let none_claimed = λ (us : List Text) (m : Option ℕ).
        unclaimed host.requests spec us m now (apply_all host calls db) row c db' later.0
          later.1.1.0 later.1.1.1.1.0 in
      (later.1, (none_claimed [] none, λ e. none_claimed users (some max) (ground (arith, e))))
