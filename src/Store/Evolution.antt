-- ===== src/Store/Evolution.antt =====
-- How the SQL statements of src/trigger_state/store.rs move the rows of `operations` along their lives,
-- and that they keep its primary key.
use xero_bot.Prelude.{
  ◌≡◌, refl, sym, subst, arith, ap, ◌∙◌, Bool, true, false, List, [], ◌∷◌, ◌++◌, All, any,
  Bool-cases, inl, inr, ◌||◌, if_cases, some,
}
use xero_bot.Text.{Text, text_eq}
use xero_bot.Text.Laws.{text_eq→eq}
use xero_bot.Store.{OperationRow}
use xero_bot.Store.Operations.{has_key}
use xero_bot.Store.Table.{update_where, insert_or_ignore, find_where}
use xero_bot.Store.Lifecycle.{
  Cause, Life, Trail, stays, moves, Edge, Becomes, Evolves, UniqueKeys, life, Born, recorded_life,
  begins, sends, ends, refuses, supersedes, confirms, reopens,
}

pub Trail-trans :
    {cause : Cause} {x y z : Life} → Trail cause x y → Trail cause y z → Trail cause x z
Trail-trans {cause = cause} {z = z} (stays e) q = subst (λ w. Trail cause w z) (sym e) q
Trail-trans (moves e p) q = moves e (Trail-trans p q)

pub Trail-Edge : {cause : Cause} {x y : Life} → Edge cause x y → Trail cause x y
Trail-Edge e = moves e (stays refl)

recorded-Edge : {cause : Cause} {x y : Life} → Edge cause x y → x ≡ recorded_life → ⊥
recorded-Edge (begins e _ _ _) h = ground (arith, e, ap (λ (l : Life). l.state) h)
recorded-Edge (sends e _ _ _) h = ground (arith, e, ap (λ (l : Life). l.state) h)
recorded-Edge (ends e _ _ _ _) h = ground (arith, e, ap (λ (l : Life). l.state) h)
recorded-Edge (refuses e _ _ _ _) h = ground (arith, e, ap (λ (l : Life). l.state) h)
recorded-Edge (supersedes e _ _ _) h = ground (arith, e, ap (λ (l : Life). l.state) h)
recorded-Edge (confirms _ e _ _) h = ground (arith, e, ap (λ (l : Life). l.state) h)
recorded-Edge (reopens _ e _ _) h = ground (arith, e, ap (λ (l : Life). l.state) h)

recorded-Trail :
    {cause : Cause} {x y : Life} → Trail cause x y → x ≡ recorded_life → y ≡ recorded_life
recorded-Trail (stays e) h = sym e ∙ h
recorded-Trail (moves e p) h = elim (recorded-Edge e h) [ ]

Born-Trail : {cause : Cause} {x y : Life} → Born cause x → Trail cause x y → Born cause y
Born-Trail (inl p) q = inl (Trail-trans p q)
Born-Trail (inr (c, e)) q = inr (c, recorded-Trail q e)

module _ {Value : Type 0} (cause : Cause) where
  pub Evolves-refl : (xs : List (OperationRow Value)) → Evolves cause xs xs
  Evolves-refl [] = tt
  Evolves-refl (x ∷ xs) = ((refl, stays refl), Evolves-refl xs)

  Born-All :
      (xs ys : List (OperationRow Value))
      → Evolves cause xs ys
      → All (λ y. Born cause (life y)) xs
      → All (λ y. Born cause (life y)) ys
  Born-All [] ys h k = h
  Born-All (x ∷ xs) [] h k = elim h [ ]
  Born-All (x ∷ xs) (y ∷ ys) h k = (Born-Trail k.0 h.0.1, Born-All xs ys h.1 k.1)

  pub Evolves-trans :
      (xs ys zs : List (OperationRow Value))
      → Evolves cause xs ys
      → Evolves cause ys zs
      → Evolves cause xs zs
  Evolves-trans [] ys zs h k = Born-All ys zs k h
  Evolves-trans (x ∷ xs) [] zs h k = elim h [ ]
  Evolves-trans (x ∷ xs) (y ∷ ys) [] h k = elim k [ ]
  Evolves-trans (x ∷ xs) (y ∷ ys) (z ∷ zs) h k =
      ((h.0.0 ∙ k.0.0, Trail-trans h.0.1 k.0.1), Evolves-trans xs ys zs h.1 k.1)

  -- UPDATE: each row that passes the test must move to its changed row
  pub Evolves-update :
      (t : OperationRow Value → Bool) (c : OperationRow Value → OperationRow Value)
      (xs : List (OperationRow Value))
      → All (λ x. t x ≡ true → Becomes cause x (c x)) xs
      → Evolves cause xs (update_where t c xs)
  unfolding update_where
  Evolves-update t c [] h = tt
  Evolves-update t c (x ∷ xs) h =
      if_cases (Evolves cause (x ∷ xs)) (t x) (c x ∷ update_where t c xs) (x ∷ update_where t c xs)
        (λ e. (h.0 e, Evolves-update t c xs h.1))
        (λ e. ((refl, stays refl), Evolves-update t c xs h.1))

  Evolves-append :
      (xs : List (OperationRow Value)) (y : OperationRow Value)
      → Born cause (life y)
      → Evolves cause xs (xs ++ y ∷ [])
  Evolves-append [] y p = (p, tt)
  Evolves-append (x ∷ xs) y p = ((refl, stays refl), Evolves-append xs y p)

  pub Evolves-insert :
      (t : OperationRow Value → Bool) (y : OperationRow Value) (xs : List (OperationRow Value))
      → Born cause (life y)
      → Evolves cause xs (insert_or_ignore t y xs)
  unfolding insert_or_ignore
  Evolves-insert t y xs p =
      if_cases (Evolves cause xs) (any t xs) xs (xs ++ y ∷ []) (λ _. Evolves-refl xs)
        (λ _. Evolves-append xs y p)

text_eq_sym : (s t : Text) → text_eq s t ≡ text_eq t s
unfolding text_eq
text_eq_sym [] [] = refl
text_eq_sym [] (b ∷ t) = refl
text_eq_sym (a ∷ s) [] = refl
text_eq_sym (a ∷ s) (b ∷ t) = ground (arith, text_eq_sym s t)

any-append {ℓ} :
    {A : Type ℓ} (p : A → Bool) (xs ys : List A) → any p (xs ++ ys) ≡ (any p xs || any p ys)
any-append p [] ys = refl
any-append p (x ∷ xs) ys = ground (arith, any-append p xs ys)

pub or-false_inv : (a b : Bool) → (a || b) ≡ false → (a ≡ false) × (b ≡ false)
or-false_inv a b h = ground arith

true_not_false : true ≡ false → ⊥
true_not_false e = ground arith

none-All {ℓ κ} :
    {A : Type ℓ} (P : A → Type κ) (p : A → Bool) (xs : List A)
    → any p xs ≡ false
    → All (λ x. p x ≡ true → P x) xs
none-All P p [] h = tt
none-All P p (x ∷ xs) h = (
  λ e. elim (true_not_false (sym e ∙ (or-false_inv (p x) (any p xs) h).0)) [ ],
  none-All P p xs (or-false_inv (p x) (any p xs) h).1,
)

module _ {Value : Type 0} where
  any-update :
      (key : Text) (t : OperationRow Value → Bool) (c : OperationRow Value → OperationRow Value)
      (xs : List (OperationRow Value))
      → ((x : OperationRow Value) → (c x).key ≡ x.key)
      → any (has_key key) (update_where t c xs) ≡ any (has_key key) xs
  unfolding update_where
  any-update key t c [] h = refl
  any-update key t c (x ∷ xs) h =
      ground (arith, ap (λ k. text_eq k key) (h x), any-update key t c xs h)

  pub unique-update :
      (t : OperationRow Value → Bool) (c : OperationRow Value → OperationRow Value)
      (xs : List (OperationRow Value))
      → ((x : OperationRow Value) → (c x).key ≡ x.key)
      → UniqueKeys xs
      → UniqueKeys (update_where t c xs)
  unfolding update_where
  unique-update t c [] h u = tt
  unique-update t c (x ∷ xs) h u =
      if_cases UniqueKeys (t x) (c x ∷ update_where t c xs) (x ∷ update_where t c xs)
        (λ e. (
          ap (λ k. any (has_key k) (update_where t c xs)) (h x) ∙ any-update x.key t c xs h ∙ u.0,
          unique-update t c xs h u.1,
        ))
        (λ e. (any-update x.key t c xs h ∙ u.0, unique-update t c xs h u.1))

  unique-append :
      (y : OperationRow Value) (xs : List (OperationRow Value))
      → any (has_key y.key) xs ≡ false
      → UniqueKeys xs
      → UniqueKeys (xs ++ y ∷ [])
  unique-append y [] e u = (refl, tt)
  unique-append y (x ∷ xs) e u =
      let parts = or-false_inv (has_key y.key x) _ e in
      (
        any-append (has_key x.key) xs (y ∷ [])
            ∙ ground (arith, u.0, text_eq_sym y.key x.key, parts.0),
        unique-append y xs parts.1 u.1,
      )

  pub unique-insert :
      (y : OperationRow Value) (xs : List (OperationRow Value))
      → UniqueKeys xs
      → UniqueKeys (insert_or_ignore (has_key y.key) y xs)
  unfolding insert_or_ignore
  unique-insert y xs u =
      if_cases UniqueKeys (any (has_key y.key) xs) xs (xs ++ y ∷ []) (λ _. u)
        (λ e. unique-append y xs e u)

  -- a key's row is the only one that has the key
  pub found-All :
      (key : Text) (xs : List (OperationRow Value)) (r : OperationRow Value)
      → UniqueKeys xs
      → find_where (has_key key) xs ≡ some r
      → All (λ x. has_key key x ≡ true → x ≡ r) xs
  unfolding find_where
  found-All key [] r u e = tt
  found-All key (x ∷ xs) r u e = elim (Bool-cases (has_key key x)) [
    | inl h ↦
        let same : key ≡ x.key = sym (text_eq→eq x.key key h) in
        let others : any (has_key key) xs ≡ false = rw same u.0 in
        (λ _. ground (arith, e, h), none-All (λ y. y ≡ r) (has_key key) xs others)
    | inr h ↦ (λ h'. ground (arith, h, h'), found-All key xs r u.1 (ground (arith, e, h)))
  ]
