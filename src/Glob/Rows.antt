-- ===== src/Glob/Rows.antt =====
-- A row of the tables of src/path_triggers.rs: a cell for each suffix.
use xero_bot.Glob.{nth, tail, length, false, true, take}
use xero_bot.Prelude.{
  List, ℕ, suc, Bool, ◌∷◌, ◌≤◌, zero, length, false, [], ◌≡◌, true, ◌↔◌, arith, take, ◌++◌, ap,
  refl, drop,
}

-- The row's cells say, for each suffix, whether it has the property.
abbrev pub RowOf {ℓ} : {A : Type ℓ} → (List A → Type 0) → List A → List Bool → Type 0
RowOf Q [] (b ∷ []) = (b ≡ true) ↔ Q []
RowOf Q (x ∷ xs) (b ∷ bs) = ((b ≡ true) ↔ Q (x ∷ xs)) × RowOf Q xs bs
RowOf Q _ _ = ⊥

module _ {ℓ} {A : Type ℓ} (Q : List A → Type 0) where
  -- the head of a row is the whole list's cell
  pub RowOf-head : (xs : List A) (bs : List Bool) → RowOf Q xs bs → (nth false 0 bs ≡ true) ↔ Q xs
  RowOf-head [] [] h = absurd h
  RowOf-head [] (b ∷ []) h = h
  RowOf-head [] (b ∷ c ∷ bs) h = absurd h
  RowOf-head (x ∷ xs) [] h = absurd h
  RowOf-head (x ∷ xs) (b ∷ bs) h = h.0

  pub RowOf-tail :
      (x : A) (xs : List A) (bs : List Bool) → RowOf Q (x ∷ xs) bs → RowOf Q xs (tail bs)
  RowOf-tail x xs [] h = absurd h
  RowOf-tail x xs (b ∷ bs) h = h.1

  pub RowOf-nth :
      (n : ℕ) (xs : List A) (bs : List Bool)
      → RowOf Q xs bs
      → n ≤ length xs
      → (nth false n bs ≡ true) ↔ Q (drop n xs)
  RowOf-nth zero xs bs h k = RowOf-head xs bs h
  RowOf-nth (suc n) [] bs h k = absurd (omega arith)
  RowOf-nth (suc n) (x ∷ xs) [] h k = absurd h
  RowOf-nth (suc n) (x ∷ xs) (b ∷ bs) h k = RowOf-nth n xs bs h.1 (omega arith)

pub take-drop {ℓ} : {A : Type ℓ} (n : ℕ) (xs : List A) → take n xs ++ drop n xs ≡ xs
take-drop zero xs = refl
take-drop (suc n) [] = refl
take-drop (suc n) (x ∷ xs) = ap (λ l. x ∷ l) (take-drop n xs)

pub length-take {ℓ} : {A : Type ℓ} (n : ℕ) (xs : List A) → n ≤ length xs → length (take n xs) ≡ n
length-take zero xs h = refl
length-take (suc n) [] h = absurd (omega arith)
length-take (suc n) (x ∷ xs) h = ap suc (length-take n xs (omega arith))

pub drop-append {ℓ} : {A : Type ℓ} (xs ys : List A) → drop (length xs) (xs ++ ys) ≡ ys
drop-append [] ys = refl
drop-append (x ∷ xs) ys = drop-append xs ys
