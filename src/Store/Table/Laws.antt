-- ===== src/Store/Table/Laws.antt =====
-- Laws of the SQL statements of Store/Table: how many rows pass a test, and which row has a key.
use xero_bot.Prelude.{
  Member, here, subst, there, All-map, ap, Bool, List, ◌∷◌, none, [], any, ◌++◌, some, ◌≡◌, ◌≤◌,
  ◌+◌, arith, Bool-cases, inl, inr, true, false, if◌then◌else◌, All, refl, sym, Option-cases,
}
use xero_bot.Store.Table.{
  update_where, count_where, delete_where, find_where, select_where, first_by, insert_or_ignore,
}

module _ {ℓ} {A : Type ℓ} where
  -- a change that the test does not see
  pub count-update :
      (p t : A → Bool) (c : A → A) (xs : List A)
      → ((x : A) → p (c x) ≡ p x)
      → count_where p (update_where t c xs) ≡ count_where p xs
  unfolding count_where update_where
  count-update p t c [] h = refl
  count-update p t c (x ∷ xs) h = ground (arith, h x, count-update p t c xs h)

  pub count-delete :
      (p t : A → Bool) (xs : List A) → count_where p (delete_where t xs) ≤ count_where p xs
  unfolding count_where delete_where
  count-delete p t [] = omega arith
  count-delete p t (x ∷ xs) = ground (arith, count-delete p t xs)

  pub count-append :
      (p : A → Bool) (xs ys : List A)
      → count_where p (xs ++ ys) ≡ count_where p xs + count_where p ys
  unfolding count_where
  count-append p [] ys = omega arith
  count-append p (x ∷ xs) ys = ground (arith, count-append p xs ys)

  pub count-find : (p : A → Bool) (xs : List A) → find_where p xs ≡ none → count_where p xs ≡ 0
  unfolding count_where find_where
  count-find p [] h = refl
  count-find p (x ∷ xs) h = ground (arith, count-find p xs)

  -- the row of a key after an UPDATE that keeps the key
  pub find-update :
      (p t : A → Bool) (c : A → A) (xs : List A) (x : A)
      → ((y : A) → p (c y) ≡ p y)
      → find_where p xs ≡ some x
      → find_where p (update_where t c xs) ≡ some (if t x then c x else x)
  unfolding find_where update_where
  find-update p t c [] x k e = ground (arith, e)
  find-update p t c (y ∷ ys) x k e = elim (Bool-cases (p y)) [
    | inl h ↦ let same : y ≡ x = ground (arith, e, h) in rw (sym same) (ground (arith, h, k y))
    | inr h ↦ ground (arith, h, k y, find-update p t c ys x k (ground (arith, e, h)))
  ]

  -- the row of a key after an INSERT OR IGNORE of a row that has the key
  pub find-insert :
      (p : A → Bool) (row : A) (xs : List A)
      → p row ≡ true
      → find_where p (insert_or_ignore p row xs)
        ≡ some (elim (find_where p xs) [ none ↦ row | some x ↦ x ])
  unfolding find_where insert_or_ignore
  find-insert p row xs h = elim (Option-cases (find_where p xs)) [
    | inl e ↦ ground (arith, e, any-none xs e, find-append xs e)
    | inr e ↦ ground (arith, e.1, any-some xs e.0 e.1)
  ]
    where
      any-none : (ys : List A) → find_where p ys ≡ none → any p ys ≡ false
      any-none [] e = refl
      any-none (y ∷ ys) e = ground (arith, e, any-none ys)

      any-some : (ys : List A) (y : A) → find_where p ys ≡ some y → any p ys ≡ true
      any-some [] y e = ground (arith, e)
      any-some (z ∷ ys) y e = ground (arith, e, any-some ys y)

      find-append :
          (ys : List A) → find_where p ys ≡ none → find_where p (ys ++ row ∷ []) ≡ some row
      find-append [] e = ground (arith, h)
      find-append (y ∷ ys) e = ground (arith, e, find-append ys)

  -- ORDER BY .. LIMIT 1 of an order in which "not before" is transitive: one of the rows, and no row
  -- comes before it
  pub first_by-Least :
      (before : A → A → Bool) (xs : List A) (x : A)
      → ((a b : A) → before a b ≡ true → before b a ≡ false)
      → ((a b c : A) → before a b ≡ false → before b c ≡ false → before a c ≡ false)
      → first_by before xs ≡ some x
      → Member x xs × All (λ y. before y x ≡ false) xs
  unfolding first_by
  first_by-Least before [] x asym trans e = ground (arith, e)
  first_by-Least before (y ∷ ys) x asym trans e = elim (Option-cases (first_by before ys)) [
    | inl f ↦
        let same : y ≡ x = ground (arith, e, f) in
        (here (sym same), (irreflexive same, none_before ys f))
    | inr f ↦
        let rest = first_by-Least before ys f.0 asym trans f.1 in
        elim (Bool-cases (before f.0 y)) [
          | inl h ↦
              let same : f.0 ≡ x = ground (arith, e, f.1, h) in
              subst (λ z. Member z (y ∷ ys) × All (λ w. before w z ≡ false) (y ∷ ys)) same
                (there rest.0, (asym f.0 y h, rest.1))
          | inr h ↦
              let same : y ≡ x = ground (arith, e, f.1, h) in
              subst (λ z. Member z (y ∷ ys) × All (λ w. before w z ≡ false) (y ∷ ys)) same
                (here refl, (irreflexive refl, All-map (λ w k. trans w f.0 y k h) ys rest.1))
        ]
  ]
    where
      irreflexive : {a b : A} → a ≡ b → before a b ≡ false
      irreflexive {a} {b} e = elim (Bool-cases (before b b)) [
        | inl h ↦ ground (arith, h, asym b b h)
        | inr h ↦ rw e h
      ]

      none_before : (zs : List A) → first_by before zs ≡ none → All (λ w. before w x ≡ false) zs
      none_before [] e = tt
      none_before (z ∷ zs) e = elim (Option-cases (first_by before zs)) [
        | inl f ↦ ground (arith, e, f)
        | inr f ↦ ground (arith, e, f.1)
      ]

  pub select-All {κ} :
      (P : A → Type κ) (t : A → Bool) (xs : List A)
      → All P (select_where t xs)
      → All (λ x. t x ≡ true → P x) xs
  unfolding select_where
  select-All P t [] h = tt
  select-All P t (x ∷ xs) h = elim (Bool-cases (t x)) [
    | inl e ↦
        let k : P x × All P (select_where t xs) =
          subst (λ b. All P (if b then x ∷ select_where t xs else select_where t xs)) e h in
        ((λ _. k.0), select-All P t xs k.1)
    | inr e ↦
        let k : All P (select_where t xs) =
          subst (λ b. All P (if b then x ∷ select_where t xs else select_where t xs)) e h in
        ((λ f. ground (arith, e, f)), select-All P t xs k)
  ]

  pub Member-select :
      (t : A → Bool) (xs : List A) (x : A)
      → Member x (select_where t xs)
      → Member x xs × (t x ≡ true)
  unfolding select_where
  Member-select t [] x m = elim m [ ]
  Member-select t (y ∷ ys) x m = elim (Bool-cases (t y)) [
    | inl e ↦
        first e (subst (λ b. Member x (if b then y ∷ select_where t ys else select_where t ys)) e m)
          (Member-select t ys x)
    | inr e ↦
        let k =
          Member-select t ys x
            (subst (λ b. Member x (if b then y ∷ select_where t ys else select_where t ys)) e m) in
        (there k.0, k.1)
  ]
    where
      first :
          t y ≡ true
          → Member x (y ∷ select_where t ys)
          → (Member x (select_where t ys) → Member x ys × (t x ≡ true))
          → Member x (y ∷ ys) × (t x ≡ true)
      first e (here f) rest = (here f, rw f e)
      first e (there n) rest = (there (rest n).0, (rest n).1)

  -- a row that a DELETE does not match is kept
  pub Member-delete :
      (t : A → Bool) (xs : List A) (x : A)
      → Member x xs
      → t x ≡ false
      → Member x (delete_where t xs)
  unfolding delete_where
  Member-delete t [] x m e = elim m [ ]
  Member-delete t (y ∷ ys) x (here f) e = rw (ap t (sym f)) (rw e (here f))
  Member-delete t (y ∷ ys) x (there m) e = elim (Bool-cases (t y)) [
    | inl h ↦ rw h (Member-delete t ys x m e)
    | inr h ↦ rw h (there (Member-delete t ys x m e))
  ]

  pub first_by-none : (before : A → A → Bool) (xs : List A) → first_by before xs ≡ none → xs ≡ []
  unfolding first_by
  first_by-none before [] e = refl
  first_by-none before (x ∷ xs) e = elim (Option-cases (first_by before xs)) [
    | inl f ↦ ground (arith, e, f)
    | inr f ↦ ground (arith, e, f.1)
  ]

  pub select-nil : (t : A → Bool) (xs : List A) → select_where t xs ≡ [] → All (λ x. t x ≡ false) xs
  unfolding select_where
  select-nil t [] e = tt
  select-nil t (x ∷ xs) e = elim (Bool-cases (t x)) [
    | inl h ↦ ground (arith, e, h)
    | inr h ↦ (h, select-nil t xs (ground (arith, e, h)))
  ]
