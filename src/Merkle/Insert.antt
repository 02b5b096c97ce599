-- ===== src/Merkle/Insert.antt =====
-- `insert` of console/packages/core/src/merkle.ts, which writes one node of each level, and the
-- naive tree.
use benzo_main.Prelude.{
  ℕ, zero, suc, ◌/◌, ◌≤◌, ◌<◌, ◌≡◌, refl, ap, ◌∙◌, sym, some, List, [], ◌∷◌, ◌++◌, arith, length,
  get_elem?,
}
use benzo_main.Merkle.{
  MerkleTreeMirror, empty_rows, merkle_zeros, new_tree, parent_of, write_parent, walk, insert,
  insert_all, set_leaves,
}
use benzo_main.Merkle.Grow.{
  Grows, added, replaced, later, Grows-push, set_elem-Grows, level_up, level_up-Grows, parent_of-eq,
}

Grows-last :
    {i : ℕ} {row grown : List ℕ}
    → Grows i row grown
    → (i < length grown) × ((v : ℕ) × (get_elem? grown i ≡ some v))
Grows-last (added {x = x}) = (omega arith, (x, refl))
Grows-last (replaced {x = x}) = (omega arith, (x, refl))
Grows-last (later g) = let (inside, (v, h)) = Grows-last g in (omega (arith, inside), (v, h))

module _ (compress : ℕ → ℕ → ℕ) where
  -- The rows above a row, each made anew from the one below.
  abbrev pub rows_above : ℕ → List ℕ → List ℕ → List (List ℕ)
  rows_above zero zeros row = []
  rows_above (suc n) [] row = []
  rows_above (suc n) (z ∷ zeros) row =
      level_up compress z row ∷ rows_above n zeros (level_up compress z row)

  -- The mirror that has these leaves and was computed at one go.
  abbrev pub naive_tree : ℕ → ℕ → List ℕ → MerkleTreeMirror
  naive_tree first levels leaves = record {
    levels = levels;
    zeros = merkle_zeros compress first levels;
    nodes = leaves ∷ rows_above levels (merkle_zeros compress first levels) leaves;
  }

  write_parent-Grows :
      (z : ℕ) {i : ℕ} {row grown : List ℕ}
      → Grows i row grown
      → write_parent compress (level_up compress z row) (i / 2) (parent_of compress z grown i)
        ≡ some (level_up compress z grown)
  write_parent-Grows z {i} {row} {grown} g =
      let (inside, rest) = Grows-last g in
      let above = level_up-Grows compress z g in
      let (last, (v, is_v)) = Grows-last above in
      rw (parent_of-eq compress z grown i inside, is_v) (set_elem-Grows v above is_v)

  walk-Grows :
      (n : ℕ) (zeros : List ℕ) {i : ℕ} {row grown : List ℕ}
      → n ≤ length zeros
      → Grows i row grown
      → walk compress n zeros i grown (rows_above n zeros row)
        ≡ some (grown ∷ rows_above n zeros grown)
  unfolding walk
  walk-Grows zero zeros le g = refl
  walk-Grows (suc n) [] le g = absurd (omega (arith, le))
  walk-Grows (suc n) (z ∷ zeros) le g =
      rw
        (
          write_parent-Grows z g,
          walk-Grows n zeros (omega (arith, le)) (level_up-Grows compress z g),
        )
        refl

  pub length-merkle_zeros : (first n : ℕ) → length (merkle_zeros compress first n) ≡ suc n
  unfolding merkle_zeros
  length-merkle_zeros first zero = refl
  length-merkle_zeros first (suc n) = ap suc (length-merkle_zeros (compress first first) n)

  -- Inserting into the naive tree gives the next leaf index and the naive tree with the leaf.
  pub insert-naive_tree :
      (first levels leaf : ℕ) (leaves : List ℕ)
      → insert compress leaf (naive_tree first levels leaves)
        ≡ some (length leaves, naive_tree first levels (leaves ++ leaf ∷ []))
  unfolding insert
  insert-naive_tree first levels leaf leaves =
      let le = length-merkle_zeros first levels in
      rw
        (walk-Grows levels (merkle_zeros compress first levels) (omega (arith, le))
          (Grows-push leaves leaf))
        refl

  empty-rows :
      (n : ℕ) (zeros : List ℕ) → n ≤ length zeros → empty_rows n ≡ [] ∷ rows_above n zeros []
  empty-rows zero zeros le = refl
  empty-rows (suc n) [] le = absurd (omega (arith, le))
  empty-rows (suc n) (z ∷ zeros) le =
      ap (λ rows. [] ∷ rows) (empty-rows n zeros (omega (arith, le)))

  pub new-naive_tree :
      (first levels : ℕ) → new_tree compress first levels ≡ naive_tree first levels []
  unfolding new_tree
  new-naive_tree first levels =
      let le = length-merkle_zeros first levels in
      rw (empty-rows levels (merkle_zeros compress first levels) (omega (arith, le))) refl

  append_assoc : (xs ys zs : List ℕ) → (xs ++ ys) ++ zs ≡ xs ++ (ys ++ zs)
  append_assoc [] ys zs = refl
  append_assoc (x ∷ xs) ys zs = ap (λ rest. x ∷ rest) (append_assoc xs ys zs)

  append-nil : (xs : List ℕ) → xs ++ [] ≡ xs
  append-nil [] = refl
  append-nil (x ∷ xs) = ap (λ rest. x ∷ rest) (append-nil xs)

  insert_all-from :
      (first levels : ℕ) (old leaves : List ℕ)
      → insert_all compress leaves (naive_tree first levels old)
        ≡ some (naive_tree first levels (old ++ leaves))
  unfolding insert_all
  insert_all-from first levels old [] =
      ap (λ l. some (naive_tree first levels l)) (sym (append-nil old))
  insert_all-from first levels old (leaf ∷ leaves) = rw (insert-naive_tree first levels leaf old) (
      insert_all-from first levels (old ++ leaf ∷ []) leaves
      ∙ ap (λ l. some (naive_tree first levels l)) (append_assoc old (leaf ∷ []) leaves))

  -- Inserting leaves one by one into a new tree never fails, and stores in each level the nodes that
  -- the naive algorithm makes anew from the level below: in pairs, a last one alone with the level's
  -- filler.
  pub insert_all-naive_tree :
      (first levels : ℕ) (leaves : List ℕ)
      → insert_all compress leaves (new_tree compress first levels)
        ≡ some (naive_tree first levels leaves)
  insert_all-naive_tree first levels leaves =
      ap (insert_all compress leaves) (new-naive_tree first levels)
      ∙ insert_all-from first levels [] leaves

  -- Replacing the leaves gives the tree that has these leaves from the start.
  set_leaves-naive_tree :
      (first levels : ℕ) (old next : List ℕ)
      → set_leaves compress next (naive_tree first levels old) ≡ some (naive_tree first levels next)
  unfolding set_leaves
  set_leaves-naive_tree first levels old next =
      let le = length-merkle_zeros first levels in
      rw (empty-rows levels (merkle_zeros compress first levels) (omega (arith, le)))
        (insert_all-from first levels [] next)
