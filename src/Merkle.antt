-- ===== src/Merkle.antt =====
-- The Merkle tree mirror, console/packages/core/src/merkle.ts and its copy
-- wallet/packages/core/src/merkle.ts. `compress` of crypto/poseidon2.ts and the first entry of the
-- zero table are parameters. Reading a missing node gives `undefined`, on which `compress` throws.
pub mod Grow
pub mod Insert
pub mod Complete
pub mod Paths
mod Tests
use benzo_main.Prelude.{
  ℕ, zero, suc, ◌+◌, ◌-◌, ◌*◌, ◌/◌, ◌%◌, Option, none, some, List, [], ◌∷◌, ◌++◌, ◌==◌, ltb, length,
  get_elem?, or_else, if◌then◌else◌,
}

-- `new MerkleTreeMirror(levels)`: the zero table and the nodes, level by level from the leaves.
pub record MerkleTreeMirror : Type 0 where
  pub levels : ℕ
  pub zeros : List ℕ
  pub nodes : List (List ℕ)

pub record MerklePath : Type 0 where
  pub path_elements : List ℕ
  pub path_indices : ℕ

-- A step, and what follows it unless it threw.
abbrev pub and_then : {A B : Type 0} → Option A → (A → Option B) → Option B
and_then none k = none
and_then (some a) k = k a

-- `row[index] = value` at or before the end of the row; a write behind it would leave a gap.
abbrev pub set_elem : List ℕ → ℕ → ℕ → Option (List ℕ)
set_elem [] zero value = some (value ∷ [])
set_elem [] (suc index) value = none
set_elem (x ∷ row) zero value = some (value ∷ row)
set_elem (x ∷ row) (suc index) value = and_then (set_elem row index value) λ done. some (x ∷ done)

abbrev pub empty_rows : ℕ → List (List ℕ)
empty_rows zero = [] ∷ []
empty_rows (suc n) = [] ∷ empty_rows n

-- `index ^ 1`
abbrev pub sibling_of : ℕ → ℕ
sibling_of index = if index % 2 == 0 then index + 1 else index - 1

-- The node at an index, or the level's filler.
abbrev pub node_or : List ℕ → ℕ → ℕ → Option ℕ
node_or row index zero_node = if ltb index (length row) then get_elem? row index else some zero_node

module _ (compress : ℕ → ℕ → ℕ) where
  -- `merkleZeros(levels)`, from its first entry.
  unfoldable pub merkle_zeros : ℕ → ℕ → List ℕ
  merkle_zeros first zero = first ∷ []
  merkle_zeros first (suc n) = first ∷ merkle_zeros (compress first first) n

  unfoldable pub new_tree : ℕ → ℕ → MerkleTreeMirror
  new_tree first levels = record {
    levels = levels;
    zeros = merkle_zeros first levels;
    nodes = empty_rows levels;
  }

  abbrev pub compress_nodes : Option ℕ → Option ℕ → Option ℕ
  compress_nodes none right = none
  compress_nodes (some left) none = none
  compress_nodes (some left) (some right) = some (compress left right)

  -- The parent of the node at an index, from its level.
  unfoldable pub parent_of : ℕ → List ℕ → ℕ → Option ℕ
  parent_of zero_node row index =
      let left_index = index / 2 * 2 in
      compress_nodes (get_elem? row left_index) (node_or row (left_index + 1) zero_node)

  abbrev pub write_parent : List ℕ → ℕ → Option ℕ → Option (List ℕ)
  write_parent next index none = none
  write_parent next index (some value) = set_elem next index value

  -- The walk from a level up to the root, whose rows are those from this level on.
  unfoldable pub walk : ℕ → List ℕ → ℕ → List ℕ → List (List ℕ) → Option (List (List ℕ))
  walk zero zeros index row above = some (row ∷ above)
  walk (suc n) [] index row above = none
  walk (suc n) (z ∷ zeros) index row [] = none
  walk (suc n) (z ∷ zeros) index row (next ∷ above) =
      and_then (write_parent next (index / 2) (parent_of z row index))
        λ written. and_then (walk n zeros (index / 2) written above) λ rows. some (row ∷ rows)

  abbrev with_nodes : MerkleTreeMirror → ℕ → Option (List (List ℕ)) → Option (ℕ × MerkleTreeMirror)
  with_nodes tree index none = none
  with_nodes tree index (some rows) = some (index, record tree { nodes = rows })

  abbrev insert_in : MerkleTreeMirror → ℕ → List (List ℕ) → Option (ℕ × MerkleTreeMirror)
  insert_in tree leaf [] = none
  insert_in tree leaf (leaves ∷ above) =
      let index = length leaves in
      with_nodes tree index (walk tree.levels tree.zeros index (leaves ++ leaf ∷ []) above)

  unfoldable pub insert : ℕ → MerkleTreeMirror → Option (ℕ × MerkleTreeMirror)
  unfolding walk
  insert leaf tree = insert_in tree leaf tree.nodes

  -- `tree.leaves = next`
  unfoldable pub insert_all : List ℕ → MerkleTreeMirror → Option MerkleTreeMirror
  insert_all [] tree = some tree
  insert_all (leaf ∷ leaves) tree =
      and_then (insert leaf tree) λ inserted. insert_all leaves inserted.1

unfoldable pub set_leaves : (ℕ → ℕ → ℕ) → List ℕ → MerkleTreeMirror → Option MerkleTreeMirror
set_leaves compress next tree =
    insert_all compress next (record tree { nodes = empty_rows tree.levels })

abbrev pub first_row : List (List ℕ) → List ℕ
first_row [] = []
first_row (row ∷ rows) = row

abbrev root_in : MerkleTreeMirror → List ℕ → Option ℕ
root_in tree [] = get_elem? tree.zeros tree.levels
root_in tree (leaf ∷ leaves) = and_then (get_elem? tree.nodes tree.levels) λ row. get_elem? row 0

unfoldable pub root : MerkleTreeMirror → Option ℕ
root tree = root_in tree (first_row tree.nodes)

-- The siblings from a level up to the root.
unfoldable pub siblings : ℕ → List ℕ → ℕ → List (List ℕ) → Option (List ℕ)
siblings zero zeros index rows = some []
siblings (suc n) [] index rows = none
siblings (suc n) (z ∷ zeros) index [] = none
siblings (suc n) (z ∷ zeros) index (row ∷ rows) =
    and_then (node_or row (sibling_of index) z)
      λ node. and_then (siblings n zeros (index / 2) rows) λ nodes. some (node ∷ nodes)

abbrev path_with : ℕ → Option (List ℕ) → Option MerklePath
path_with index none = none
path_with index (some elements) = some (record { path_elements = elements; path_indices = index })

-- A leaf index out of range throws.
unfoldable pub path : ℕ → MerkleTreeMirror → Option MerklePath
unfolding siblings
path index tree =
    if ltb index (length (first_row tree.nodes))
    then path_with index (siblings tree.levels tree.zeros index tree.nodes)
    else none
