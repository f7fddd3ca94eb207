-- ===== src/Store/Table.antt =====
-- The SQL statements of src/trigger_state/store.rs on a table, the list of its rows.
pub mod Laws
use xero_bot.Prelude.{Bool, List, if◌then◌else◌, ℕ, ◌∷◌, Option, none, [], any, suc, ◌++◌, some}

module _ {ℓ} {A : Type ℓ} where
  -- UPDATE .. SET change WHERE test
  unfoldable pub update_where : (A → Bool) → (A → A) → List A → List A
  update_where test change [] = []
  update_where test change (x ∷ xs) =
      let rest = update_where test change xs in if test x then change x ∷ rest else x ∷ rest

  -- the number of rows that a statement changes
  unfoldable pub count_where : (A → Bool) → List A → ℕ
  count_where test [] = 0
  count_where test (x ∷ xs) = let rest = count_where test xs in if test x then suc rest else rest

  -- SELECT .. WHERE test
  unfoldable pub select_where : (A → Bool) → List A → List A
  select_where test [] = []
  select_where test (x ∷ xs) = let rest = select_where test xs in if test x then x ∷ rest else rest

  -- DELETE WHERE test
  unfoldable pub delete_where : (A → Bool) → List A → List A
  delete_where test [] = []
  delete_where test (x ∷ xs) = let rest = delete_where test xs in if test x then rest else x ∷ rest

  -- the row of a primary key
  unfoldable pub find_where : (A → Bool) → List A → Option A
  find_where test [] = none
  find_where test (x ∷ xs) = let rest = find_where test xs in if test x then some x else rest

  -- INSERT OR IGNORE; the test says which rows have the new row's key
  unfoldable pub insert_or_ignore : (A → Bool) → A → List A → List A
  insert_or_ignore test row rows = if any test rows then rows else rows ++ row ∷ []

  -- INSERT .. ON CONFLICT .. DO UPDATE; the test says which rows have the new row's key
  unfoldable pub upsert : (A → Bool) → (A → A) → A → List A → List A
  unfolding update_where
  upsert test change row rows =
      if any test rows then update_where test change rows else rows ++ row ∷ []

  -- ORDER BY .. LIMIT 1: the first row that no other row comes before
  unfoldable pub first_by : (A → A → Bool) → List A → Option A
  first_by before [] = none
  first_by before (x ∷ xs) = elim (first_by before xs) [
    | none ↦ some x
    | some y ↦ if before y x then some y else some x
  ]
