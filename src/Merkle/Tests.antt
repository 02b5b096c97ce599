-- ===== src/Merkle/Tests.antt =====
-- A small tree, on which the theorems about the mirror are applied.
use benzo_main.Prelude.{ℕ, ◌+◌, ◌*◌, ◌≡◌, refl, some, List, [], ◌∷◌, arith}
use benzo_main.Merkle.{MerkleTreeMirror, MerklePath, new_tree, insert_all, path, root}
use benzo_main.Merkle.Insert.{naive_tree, insert_all-naive_tree}
use benzo_main.Merkle.Complete.{complete_root, insert_all-root}
use benzo_main.Merkle.Paths.{fold_path, insert_all-path}

abbrev compress : ℕ → ℕ → ℕ
compress left right = left * 3 + right

abbrev leaves : List ℕ
leaves = 5 ∷ 6 ∷ 7 ∷ []

insert_all-naive_tree_example :
    insert_all compress leaves (new_tree compress 1 2) ≡ some (naive_tree compress 1 2 leaves)
insert_all-naive_tree_example = insert_all-naive_tree compress 1 2 leaves

insert_all-root_example :
    (tree : MerkleTreeMirror) × (insert_all compress leaves (new_tree compress 1 2) ≡ some tree)
    × (root tree ≡ complete_root compress 1 2 leaves)
insert_all-root_example = insert_all-root compress 1 2 leaves (omega arith)

insert_all-path_example :
    (p : MerklePath) × (path 2 (naive_tree compress 1 2 leaves) ≡ some p)
    × (root (naive_tree compress 1 2 leaves)
        ≡ some (fold_path compress 7 p.path_indices p.path_elements))
insert_all-path_example =
    insert_all-path compress 1 2 leaves (naive_tree compress 1 2 leaves) 2 7 (omega arith)
      (insert_all-naive_tree compress 1 2 leaves) refl
