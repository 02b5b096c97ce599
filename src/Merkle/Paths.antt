-- ===== src/Merkle/Paths.antt =====
-- The paths of the mirror of console/packages/core/src/merkle.ts fold to its root.
use native.Mathlib.Nat.{pow-suc, pow-zero}
use benzo_main.Prelude.{
  ℕ, zero, suc, ◌*◌, ◌/◌, ◌%◌, ◌^◌, ◌≤◌, ◌<◌, ◌≡◌, refl, ap, ◌∙◌, sym, subst, true, some, List, [],
  ◌∷◌, arith, ltb, ◌==◌, length, get_elem?, if◌then◌else◌,
}
use benzo_main.Merkle.{
  MerkleTreeMirror, MerklePath, merkle_zeros, new_tree, sibling_of, node_or, and_then, insert_all,
  root, siblings, path,
}
use benzo_main.Merkle.Grow.{level_up, node_or-shift, half}
use benzo_main.Merkle.Insert.{rows_above, naive_tree, insert_all-naive_tree, length-merkle_zeros}
use benzo_main.Merkle.Complete.{top_node, root-top_node}

module _ (compress : ℕ → ℕ → ℕ) where
  abbrev pub parent_with : ℕ → ℕ → ℕ → ℕ
  parent_with index node other = if index % 2 == 0 then compress node other else compress other node

  -- What a path folds to from a leaf, as the verifier of a membership computes it.
  abbrev pub fold_path : ℕ → ℕ → List ℕ → ℕ
  fold_path node index [] = node
  fold_path node index (other ∷ elements) =
      fold_path (parent_with index node other) (index / 2) elements

  sibling-shift : (i : ℕ) → sibling_of (suc (suc i)) ≡ suc (suc (sibling_of i))
  sibling-shift i = ground arith

  mod-shift : (i : ℕ) → suc (suc i) % 2 ≡ i % 2
  mod-shift i = omega arith

  -- The sibling of a node, and the parent that the two have.
  record Paired (z : ℕ) (row : List ℕ) (i node : ℕ) : Type 0 where
    pub other : ℕ
    pub is_other : node_or row (sibling_of i) z ≡ some other
    pub above : get_elem? (level_up compress z row) (i / 2) ≡ some (parent_with i node other)

  first : (n : ℕ) → ltb 0 (suc (suc n)) ≡ true
  first n = ground arith

  second : (n : ℕ) → ltb 1 (suc (suc n)) ≡ true
  second n = ground arith

  node-Paired :
      (z : ℕ) (row : List ℕ) (i node : ℕ) → get_elem? row i ≡ some node → Paired z row i node
  node-Paired z [] i node h = cc
  node-Paired z (a ∷ []) zero node h = record { other = z; is_other = refl; above = cc (h) }
  node-Paired z (a ∷ []) (suc i) node h = cc
  node-Paired z (a ∷ b ∷ row) zero node h = record {
    other = b;
    is_other = rw (second (length row)) refl;
    above = cc;
  }
  node-Paired z (a ∷ b ∷ row) (suc zero) node h = record {
    other = a;
    is_other = rw (first (length row)) refl;
    above = cc;
  }
  node-Paired z (a ∷ b ∷ row) (suc (suc i)) node h =
      let p = node-Paired z row i node h in
      record {
        other = p.other;
        is_other =
            ap (λ n. node_or (a ∷ b ∷ row) n z) (sibling-shift i)
            ∙ node_or-shift compress z a b row (sibling_of i)
            ∙ p.is_other;
        above =
            ap (λ n. get_elem? (level_up compress z (a ∷ b ∷ row)) n) (sym (half compress z i))
            ∙ p.above
            ∙ ap (λ n. some (if n == 0 then compress node p.other else compress p.other node))
                (sym (mod-shift i));
      }

  abbrev halved : ℕ → ℕ → ℕ
  halved zero i = i
  halved (suc n) i = halved n (i / 2)

  halved-zero : (n i : ℕ) → i < 2 ^ n → halved n i ≡ 0
  halved-zero zero i lt = let lt' : i < 1 = subst (λ m. i < m) (pow-zero 2) lt in omega (arith, lt')
  halved-zero (suc n) i lt =
      let lt' : i < 2 ^ n * 2 = subst (λ m. i < m) (pow-suc 2 n) lt in
      halved-zero n (i / 2) (omega (arith, lt'))

  -- The siblings from a row up, and the node of the top row that they fold to.
  record Folds (n : ℕ) (zeros row : List ℕ) (i node : ℕ) : Type 0 where
    pub elements : List ℕ
    pub are : siblings n zeros i (row ∷ rows_above compress n zeros row) ≡ some elements
    pub fold :
        and_then
          (get_elem? (row ∷ rows_above compress n zeros row) n)
          (λ top. get_elem? top (halved n i))
        ≡ some (fold_path node i elements)

  node-Folds :
      (n : ℕ) (zeros row : List ℕ) (i node : ℕ)
      → n ≤ length zeros
      → get_elem? row i ≡ some node
      → Folds n zeros row i node
  unfolding siblings
  node-Folds zero zeros row i node le h = record { elements = []; are = refl; fold = h }
  node-Folds (suc n) [] row i node le h = absurd (omega (arith, le))
  node-Folds (suc n) (z ∷ zeros) row i node le h =
      let p = node-Paired z row i node h in
      let up =
        node-Folds n zeros (level_up compress z row) (i / 2) (parent_with i node p.other)
          (omega (arith, le)) p.above in
      record {
        elements = p.other ∷ up.elements;
        are = rw (p.is_other, up.are) refl;
        fold = up.fold;
      }

  within : (i n : ℕ) → i < n → ltb i n ≡ true
  within i n lt = ground arith

  inside : (row : List ℕ) (i node : ℕ) → get_elem? row i ≡ some node → i < length row
  inside [] i node h = cc
  inside (x ∷ row) zero node h = omega arith
  inside (x ∷ row) (suc i) node h = omega (arith, inside row i node h)

  top_node-fold :
      (first levels : ℕ) (leaves : List ℕ) (i leaf : ℕ)
      → get_elem? leaves i ≡ some leaf
      → length leaves ≤ 2 ^ levels
      → (f : Folds levels (merkle_zeros compress first levels) leaves i leaf)
      → top_node compress first levels leaves ≡ some (fold_path leaf i f.elements)
  top_node-fold first levels [] i leaf h fits f = cc
  top_node-fold first levels (x ∷ leaves) i leaf h fits f =
      let lt = inside (x ∷ leaves) i leaf h in
      ap
        (λ n.
          and_then
            (get_elem?
              ((x ∷ leaves)
                ∷ rows_above compress levels (merkle_zeros compress first levels) (x ∷ leaves))
              levels)
            λ top. get_elem? top n)
        (sym (halved-zero levels i (omega (arith, lt, fits))))
      ∙ f.fold

  path-naive_tree :
      (first levels : ℕ) (leaves : List ℕ) (i leaf : ℕ)
      → get_elem? leaves i ≡ some leaf
      → (f : Folds levels (merkle_zeros compress first levels) leaves i leaf)
      → path i (naive_tree compress first levels leaves)
        ≡ some (record { path_elements = f.elements; path_indices = i })
  unfolding path
  path-naive_tree first levels leaves i leaf h f =
      rw (within i (length leaves) (inside leaves i leaf h), f.are) refl

  -- When leaves are inserted one by one into a new tree, no more of them than it has room for, the
  -- tree has a path for each of them, and the leaf folds along that path to the tree's root.
  pub insert_all-path :
      (first levels : ℕ) (leaves : List ℕ) (tree : MerkleTreeMirror) (i leaf : ℕ)
      → length leaves ≤ 2 ^ levels
      → insert_all compress leaves (new_tree compress first levels) ≡ some tree
      → get_elem? leaves i ≡ some leaf
      → (p : MerklePath) × (path i tree ≡ some p)
        × (root tree ≡ some (fold_path leaf p.path_indices p.path_elements))
  insert_all-path first levels leaves tree i leaf fits built h =
      let same : naive_tree compress first levels leaves ≡ tree =
        cc (insert_all-naive_tree compress first levels leaves, built) in
      let le = length-merkle_zeros compress first levels in
      let f =
        node-Folds levels (merkle_zeros compress first levels) leaves i leaf (omega (arith, le))
          h in
      (
        record { path_elements = f.elements; path_indices = i },
        subst (λ t. path i t ≡ some (record { path_elements = f.elements; path_indices = i })) same
            (path-naive_tree first levels leaves i leaf h f),
        subst (λ t. root t ≡ some (fold_path leaf i f.elements)) same
            (root-top_node compress first levels leaves
              ∙ top_node-fold first levels leaves i leaf h fits f),
      )
