-- ===== src/Merkle/Complete.antt =====
-- The root of the mirror of console/packages/core/src/merkle.ts and of the complete tree, whose
-- leaves are all there.
use native.Mathlib.Nat.{pow-suc}
use benzo_main.Prelude.{
  ℕ, zero, suc, ◌*◌, ◌^◌, ◌≤◌, ◌≡◌, refl, ap, ◌∙◌, sym, subst, Option, some, List, [], ◌∷◌, arith,
  length, replicate, get_elem?, head_or_none,
}
use benzo_main.Merkle.{MerkleTreeMirror, merkle_zeros, new_tree, and_then, insert_all, root}
use benzo_main.Merkle.Grow.{level_up}
use benzo_main.Merkle.Insert.{rows_above, naive_tree, insert_all-naive_tree}

-- The row with fillers behind it, up to `n` nodes.
abbrev pub padded : ℕ → ℕ → List ℕ → List ℕ
padded z n [] = replicate n z
padded z zero (x ∷ row) = x ∷ row
padded z (suc n) (x ∷ row) = x ∷ padded z n row

abbrev twice : ℕ → ℕ
twice zero = zero
twice (suc n) = suc (suc (twice n))

twice-eq : (n : ℕ) → twice n ≡ 2 * n
twice-eq zero = refl
twice-eq (suc n) = omega (arith, twice-eq n)

module _ (compress : ℕ → ℕ → ℕ) where
  -- The level above in a complete tree.
  abbrev pub pairs : List ℕ → List ℕ
  pairs [] = []
  pairs (a ∷ []) = []
  pairs (a ∷ b ∷ row) = compress a b ∷ pairs row

  abbrev pub perfect : ℕ → List ℕ → Option ℕ
  perfect zero row = head_or_none row
  perfect (suc k) row = perfect k (pairs row)

  -- The root of the tree of this depth, whose free leaves all have the first filler.
  abbrev pub complete_root : ℕ → ℕ → List ℕ → Option ℕ
  complete_root first levels leaves = perfect levels (padded first (2 ^ levels) leaves)

  pairs-replicate : (z n : ℕ) → pairs (replicate (twice n) z) ≡ replicate n (compress z z)
  pairs-replicate z zero = refl
  pairs-replicate z (suc n) = ap (λ row. compress z z ∷ row) (pairs-replicate z n)

  pairs-padded :
      (z n : ℕ) (row : List ℕ)
      → length row ≤ twice n
      → pairs (padded z (twice n) row) ≡ padded (compress z z) n (level_up compress z row)
  pairs-padded z n [] le = pairs-replicate z n
  pairs-padded z zero (a ∷ row) le = absurd (omega (arith, le))
  pairs-padded z (suc n) (a ∷ []) le = ap (λ row. compress a z ∷ row) (pairs-replicate z n)
  pairs-padded z (suc n) (a ∷ b ∷ row) le =
      ap (λ rest. compress a b ∷ rest) (pairs-padded z n row (omega (arith, le)))

  length-level_up :
      (z n : ℕ) (row : List ℕ) → length row ≤ twice n → length (level_up compress z row) ≤ n
  length-level_up z n [] le = omega arith
  length-level_up z zero (a ∷ row) le = absurd (omega (arith, le))
  length-level_up z (suc n) (a ∷ []) le = omega arith
  length-level_up z (suc n) (a ∷ b ∷ row) le =
      omega (arith, length-level_up z n row (omega (arith, le)))

  -- The root as the mirror reads it.
  abbrev pub top_node : ℕ → ℕ → List ℕ → Option ℕ
  top_node z k [] = get_elem? (merkle_zeros compress z k) k
  top_node z k (x ∷ row) =
      and_then
        (get_elem? ((x ∷ row) ∷ rows_above compress k (merkle_zeros compress z k) (x ∷ row)) k)
        λ top. get_elem? top 0

  top_node-up :
      (z k : ℕ) (row : List ℕ)
      → top_node (compress z z) k (level_up compress z row) ≡ top_node z (suc k) row
  unfolding merkle_zeros
  top_node-up z k [] = refl
  top_node-up z k (a ∷ []) = refl
  top_node-up z k (a ∷ b ∷ row) = refl

  pow-twice : (k : ℕ) → 2 ^ suc k ≡ twice (2 ^ k)
  pow-twice k = rw (pow-suc, twice-eq (2 ^ k)) (omega arith)

  perfect-top_node :
      (z k : ℕ) (row : List ℕ)
      → length row ≤ 2 ^ k
      → perfect k (padded z (2 ^ k) row) ≡ top_node z k row
  unfolding merkle_zeros
  perfect-top_node z zero [] le = refl
  perfect-top_node z zero (x ∷ []) le = refl
  perfect-top_node z zero (x ∷ y ∷ row) le = absurd (omega (arith, le))
  perfect-top_node z (suc k) row le =
      let fits : length row ≤ twice (2 ^ k) = subst (λ n. length row ≤ n) (pow-twice k) le in
      ap (λ n. perfect k (pairs (padded z n row))) (pow-twice k)
      ∙ ap (perfect k) (pairs-padded z (2 ^ k) row fits)
      ∙ perfect-top_node (compress z z) k (level_up compress z row)
          (length-level_up z (2 ^ k) row fits)
      ∙ top_node-up z k row

  pub root-top_node :
      (first levels : ℕ) (leaves : List ℕ)
      → root (naive_tree compress first levels leaves) ≡ top_node first levels leaves
  unfolding root
  root-top_node first levels [] = refl
  root-top_node first levels (x ∷ leaves) = refl

  -- A new tree takes any leaves one by one, and when there are no more of them than the tree has
  -- room for, its root is that of the complete tree of its depth with these leaves, whose free
  -- leaves all have the first filler.
  pub insert_all-root :
      (first levels : ℕ) (leaves : List ℕ)
      → length leaves ≤ 2 ^ levels
      → (tree : MerkleTreeMirror) × (insert_all compress leaves (new_tree compress first levels)
          ≡ some tree)
        × (root tree ≡ complete_root first levels leaves)
  insert_all-root first levels leaves fits = (
    naive_tree compress first levels leaves,
    insert_all-naive_tree compress first levels leaves,
    root-top_node first levels leaves ∙ sym (perfect-top_node first levels leaves fits),
  )
