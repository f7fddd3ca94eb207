-- ===== src/Store/Kept.antt =====
-- What a row keeps through any calls of src/trigger_state/store.rs, by the edges that they take.
use xero_bot.Prelude.{
  ◌≡◌, refl, subst, ap, Bool, true, false, List, [], ◌∷◌, All, any, Bool-cases, inl, inr, some,
  arith,
}
use xero_bot.Text.{Text, text_eq}
use xero_bot.Store.{OperationRow, Db}
use xero_bot.Store.Operations.{has_key}
use xero_bot.Store.Table.{find_where, count_where}
use xero_bot.Store.Lifecycle.{
  Cause, Life, Trail, stays, moves, Edge, Evolves, UniqueKeys, life, cause_of,
}
use xero_bot.Store.Calls.{Host, Call, apply, apply_all}
use xero_bot.Store.Refines.Runs.{apply-Evolves}

-- a property that an edge keeps
abbrev pub IsKept : (Life → Type 0) → Cause → Type 0
IsKept P cause = (x y : Life) → Edge cause x y → P x → P y

pub trail-IsKept :
    (P : Life → Type 0) (cause : Cause)
    → IsKept P cause
    → {x y : Life} → Trail cause x y
    → P x
    → P y
trail-IsKept P cause k (stays e) p = subst P e p
trail-IsKept P cause k (moves {x} {y} e q) p = trail-IsKept P cause k q (k x y e p)

module _ {Value : Type 0} where
  -- the row of a key, later
  pub find-Evolves :
      (cause : Cause) (key : Text) (xs ys : List (OperationRow Value)) (x : OperationRow Value)
      → Evolves cause xs ys
      → find_where (has_key key) xs ≡ some x
      → (y : OperationRow Value) × ((find_where (has_key key) ys ≡ some y)
          × Trail cause (life x) (life y))
  unfolding find_where
  find-Evolves cause key [] ys x h e = ground (arith, e)
  find-Evolves cause key (a ∷ xs) [] x h e = elim h [ ]
  find-Evolves cause key (a ∷ xs) (b ∷ ys) x h e = elim (Bool-cases (has_key key a)) [
    | inl t ↦
        let same : a ≡ x = ground (arith, e, t) in
        (
          b,
          (
            ground (arith, t, ap (λ k. text_eq k key) h.0.0),
            subst (λ w. Trail cause (life w) (life b)) same h.0.1,
          ),
        )
    | inr f ↦
        let rest = find-Evolves cause key xs ys x h.1 (ground (arith, e, f)) in
        (rest.0, (ground (arith, f, rest.1.0, ap (λ k. text_eq k key) h.0.0), rest.1.1))
  ]

  module _ (host : Host Value) (P : Life → Type 0) (key : Text) where
    abbrev pub Found : Db Value → Type 0
    Found db =
        (r : OperationRow Value) × ((find_where (has_key key) db.operations ≡ some r) × P (life r))

    pub Found-apply_all :
        (calls : List (Call Value)) (db : Db Value)
        → All (λ call. IsKept P (cause_of call)) calls
        → UniqueKeys db.operations
        → Found db
        → UniqueKeys (apply_all host calls db).operations × Found (apply_all host calls db)
    unfolding apply_all
    Found-apply_all [] db k u f = (u, f)
    Found-apply_all (call ∷ calls) db k u f =
        let next = apply-Evolves host call db u in
        let r =
          find-Evolves (cause_of call) key db.operations (apply host call db).operations f.0 next.1
            f.1.0 in
        Found-apply_all calls (apply host call db) k.1 next.0
          (r.0, (r.1.0, trail-IsKept P (cause_of call) k.0 r.1.1 f.1.1))

  pub count_none :
      (p : OperationRow Value → Bool) (xs : List (OperationRow Value))
      → All (λ x. p x ≡ false) xs
      → count_where p xs ≡ 0
  unfolding count_where
  count_none p [] h = refl
  count_none p (x ∷ xs) h = ground (arith, h.0, count_none p xs h.1)

  pub any-find :
      (p : OperationRow Value → Bool) (xs : List (OperationRow Value)) (r : OperationRow Value)
      → find_where p xs ≡ some r
      → any p xs ≡ true
  unfolding find_where
  any-find p [] r e = ground (arith, e)
  any-find p (x ∷ xs) r e = ground (arith, e, any-find p xs r)
