-- ===== src/Table.antt =====
-- Database tables as lists of rows, in insertion order, and the statements that the code makes on
-- them. `Evolves` says how a table may change: each row that was there is related to the row that
-- now stands in its place, and the rows added since satisfy a predicate.
pub mod Evolution
pub mod Rows
use benzo_main.Prelude.{
  ltb, ℕ, Bool, Option, none, some, List, [], ◌∷◌, ◌++◌, map, find, any, if◌then◌else◌,
}

module _ {A : Type 0} where
  -- `update(t).set(f).where(p)`
  abbrev pub update_where : (A → Bool) → (A → A) → List A → List A
  update_where p f [] = []
  update_where p f (x ∷ xs) = (if p x then f x else x) ∷ update_where p f xs

  -- `const [updated] = await update(t).set(f).where(p).returning()`
  abbrev pub updated_row : (A → Bool) → (A → A) → List A → Option A
  updated_row p f [] = none
  updated_row p f (x ∷ xs) = if p x then some (f x) else updated_row p f xs

  -- `insert(t).values(row).onConflictDoNothing(clash)`
  abbrev pub insert_unless : (A → Bool) → A → List A → List A
  insert_unless clash row xs = if any clash xs then xs else xs ++ row ∷ []

-- `orderBy`: the rows by a column, those with equal values in the order of the table.
module _ {A : Type 0} (column : A → ℕ) where
  insert_oldest : A → List A → List A
  insert_oldest x [] = x ∷ []
  insert_oldest x (y ∷ ys) =
      if ltb (column y) (column x) then y ∷ insert_oldest x ys else x ∷ y ∷ ys

  -- `asc(column)`
  unfoldable pub oldest_first : List A → List A
  unfolding insert_oldest
  oldest_first [] = []
  oldest_first (x ∷ xs) = insert_oldest x (oldest_first xs)

  insert_newest : A → List A → List A
  insert_newest x [] = x ∷ []
  insert_newest x (y ∷ ys) =
      if ltb (column x) (column y) then y ∷ insert_newest x ys else x ∷ y ∷ ys

  -- `desc(column)`
  unfoldable pub newest_first : List A → List A
  unfolding insert_newest
  newest_first [] = []
  newest_first (x ∷ xs) = insert_newest x (newest_first xs)
