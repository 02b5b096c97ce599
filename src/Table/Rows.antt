-- ===== src/Table/Rows.antt =====
-- What a search finds after an update, an insert or neither.
use benzo_main.Prelude.{
  ◌≡◌, refl, Bool, true, false, none, some, List, [], ◌∷◌, ◌++◌, inl, inr, any, find, arith, ℕ, ltb,
  select, head_or_none, All, if◌then◌else◌, Bool-cases, suc, length, ◌∙◌, ap,
}
use benzo_main.Table.{
  update_where, updated_row, insert_newest, newest_first, insert_oldest, oldest_first,
}

module _ {A : Type 0} (p q : A → Bool) (f : A → A) where
  -- An update that does not change what `p` reads.
  pub find-update_where :
      (xs : List A) (x : A)
      → ((y : A) → p (f y) ≡ p y)
      → find p xs ≡ some x
      → find p (update_where q f xs) ≡ some (if q x then f x else x)
  find-update_where [] x keeps h = cc
  find-update_where (y ∷ ys) x keeps h = elim (Bool-cases (p y)) [
    | inl hit ↦
        (let same : y ≡ x = cc (rw hit at h) in
          rw (← same)
            (elim (Bool-cases (q y)) [ inl on ↦ rw (on, keeps y, hit) | inr off ↦ rw (off, hit) ]))
    | inr miss ↦
        (let later : find p ys ≡ some x = rw miss at h in
          elim (Bool-cases (q y)) [
            | inl on ↦ rw (on, keeps y, miss) (find-update_where ys x keeps later)
            | inr off ↦ rw (off, miss) (find-update_where ys x keeps later)
          ])
  ]

  pub find-update_where-none :
      (xs : List A)
      → ((y : A) → p (f y) ≡ p y)
      → find p xs ≡ none
      → find p (update_where q f xs) ≡ none
  find-update_where-none [] keeps h = refl
  find-update_where-none (y ∷ ys) keeps h = elim (Bool-cases (p y)) [
    | inl hit ↦ cc (rw hit at h)
    | inr miss ↦
        (let later : find p ys ≡ none = rw miss at h in
          elim (Bool-cases (q y)) [
            | inl on ↦ rw (on, keeps y, miss) (find-update_where-none ys keeps later)
            | inr off ↦ rw (off, miss) (find-update_where-none ys keeps later)
          ])
  ]

  -- The update's `returning` gives the row that was found, if it selects that row.
  pub updated_row-find :
      (xs : List A) (x : A)
      → ((y : A) → q y ≡ true → p y ≡ true)
      → find p xs ≡ some x
      → q x ≡ true
      → updated_row q f xs ≡ some (f x)
  updated_row-find [] x only h on = cc
  updated_row-find (y ∷ ys) x only h on = ground (arith, only y, updated_row-find ys x only)

-- An update that selects nothing.
module _ {A : Type 0} (q : A → Bool) (f : A → A) where
  pub update_where_unselected : (xs : List A) → any q xs ≡ false → update_where q f xs ≡ xs
  update_where_unselected [] h = refl
  update_where_unselected (y ∷ ys) h = ground (arith, update_where_unselected ys)

  pub updated_row_unselected : (xs : List A) → any q xs ≡ false → updated_row q f xs ≡ none
  updated_row_unselected [] h = refl
  updated_row_unselected (y ∷ ys) h = ground (arith, updated_row_unselected ys)

module _ {A : Type 0} (p : A → Bool) where
  pub find-append_new :
      (xs : List A) (x : A) → any p xs ≡ false → p x ≡ true → find p (xs ++ x ∷ []) ≡ some x
  find-append_new [] x h hit = rw hit
  find-append_new (y ∷ ys) x h hit = ground (arith, find-append_new ys x)

  pub any-of-find : (xs : List A) (x : A) → find p xs ≡ some x → any p xs ≡ true
  any-of-find [] x h = cc
  any-of-find (y ∷ ys) x h = ground (arith, any-of-find ys x)

  pub any-of-none : (xs : List A) → find p xs ≡ none → any p xs ≡ false
  any-of-none [] h = refl
  any-of-none (y ∷ ys) h = ground (arith, any-of-none ys)

  pub any-append_hit : (xs : List A) (x : A) → p x ≡ true → any p (xs ++ x ∷ []) ≡ true
  any-append_hit [] x hit = rw hit
  any-append_hit (y ∷ ys) x hit = ground (arith, any-append_hit ys x)

-- A sort loses no row.
module _ {A : Type 0} (column : A → ℕ) where
  length-insert_oldest :
      (x : A) (xs : List A) → length (insert_oldest column x xs) ≡ suc (length xs)
  unfolding insert_oldest
  length-insert_oldest x [] = refl
  length-insert_oldest x (y ∷ ys) = elim (Bool-cases (ltb (column y) (column x))) [
    | inl before ↦ rw before (ap suc (length-insert_oldest x ys))
    | inr after ↦ rw after refl
  ]

  pub length-oldest_first : (xs : List A) → length (oldest_first column xs) ≡ length xs
  unfolding oldest_first
  length-oldest_first [] = refl
  length-oldest_first (x ∷ xs) =
      length-insert_oldest x (oldest_first column xs) ∙ ap suc (length-oldest_first xs)

module _ {A : Type 0} (column : A → ℕ) (p : A → Bool) where
  insert_newest-some :
      (x : A) (xs : List A) → (y : A) × (head_or_none (insert_newest column x xs) ≡ some y)
  unfolding insert_newest
  insert_newest-some x [] = (x, refl)
  insert_newest-some x (y ∷ ys) = elim (Bool-cases (ltb (column x) (column y))) [
    | inl before ↦ rw before (y, refl)
    | inr after ↦ rw after (x, refl)
  ]

  -- When the newest row that passes a test is none, no row passes it.
  pub select-none :
      (xs : List A)
      → head_or_none (newest_first column (select p xs)) ≡ none
      → All (λ x. p x ≡ false) xs
  unfolding newest_first
  select-none [] h = tt
  select-none (x ∷ xs) h = elim (Bool-cases (p x)) [
    | inl hit ↦
        (let (y, is_y) = insert_newest-some x (newest_first column (select p xs)) in
          let none_hit = rw hit at h in cc)
    | inr miss ↦ (miss, select-none xs (rw miss at h))
  ]
