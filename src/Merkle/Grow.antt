-- ===== src/Merkle/Grow.antt =====
-- The naive tree of console/packages/core/src/merkle.ts, each level made anew from the one below,
-- and how a level changes when the last node of the level below is added or replaced.
use benzo_main.Prelude.{
  ℕ, zero, suc, ◌+◌, ◌*◌, ◌/◌, ◌<◌, ◌≡◌, refl, ap, ◌∙◌, subst, sym, true, some, List, [], ◌∷◌, ◌++◌,
  arith, ltb, length, get_elem?,
}
use benzo_main.Merkle.{set_elem, node_or, parent_of}

-- The index of the last node, with the row before and after it is added or replaced.
pub data Grows : ℕ → List ℕ → List ℕ → Type 0 where
  added : {x : ℕ} → Grows 0 [] (x ∷ [])
  replaced : {y x : ℕ} → Grows 0 (y ∷ []) (x ∷ [])
  later : {a i : ℕ} {row grown : List ℕ} → Grows i row grown → Grows (suc i) (a ∷ row) (a ∷ grown)

pub Grows-push : (row : List ℕ) (x : ℕ) → Grows (length row) row (row ++ x ∷ [])
Grows-push [] x = added
Grows-push (a ∷ row) x = later (Grows-push row x)

-- Writing the last node makes the one row of the other.
pub set_elem-Grows :
    {i : ℕ} {row grown : List ℕ} (v : ℕ)
    → Grows i row grown
    → get_elem? grown i ≡ some v
    → set_elem row i v ≡ some grown
set_elem-Grows v added h = cc
set_elem-Grows v replaced h = cc
set_elem-Grows v (later g) h = rw (set_elem-Grows v g h) refl

module _ (compress : ℕ → ℕ → ℕ) (z : ℕ) where
  -- The level above: the nodes in pairs, the last one with the filler if it is alone.
  abbrev pub level_up : List ℕ → List ℕ
  level_up [] = []
  level_up (a ∷ []) = compress a z ∷ []
  level_up (a ∷ b ∷ row) = compress a b ∷ level_up row

  pub half : (i : ℕ) → suc (i / 2) ≡ suc (suc i) / 2
  half i = omega arith

  pub level_up-Grows :
      {i : ℕ} {row grown : List ℕ}
      → Grows i row grown
      → Grows (i / 2) (level_up row) (level_up grown)
  level_up-Grows added = added
  level_up-Grows replaced = replaced
  level_up-Grows (later added) = replaced
  level_up-Grows (later replaced) = replaced
  level_up-Grows (later {a = a} (later {a = b} {i = i} {row = row} {grown = grown} g)) =
      subst (λ n. Grows n (level_up (a ∷ b ∷ row)) (level_up (a ∷ b ∷ grown))) (half i)
        (later (level_up-Grows g))

  pub node_or-shift :
      (a b : ℕ) (row : List ℕ) (i : ℕ) → node_or (a ∷ b ∷ row) (suc (suc i)) z ≡ node_or row i z
  node_or-shift a b row i = ground arith

  next : (i : ℕ) → suc (suc i) / 2 * 2 + 1 ≡ suc (suc (i / 2 * 2 + 1))
  next i = omega arith

  second : (n : ℕ) → ltb 1 (suc (suc n)) ≡ true
  second n = ground arith

  double : (i : ℕ) → suc (suc (i / 2 * 2)) ≡ suc (suc i) / 2 * 2
  double i = omega arith

  -- The parent of a node of the row.
  pub parent_of-eq :
      (row : List ℕ) (i : ℕ)
      → i < length row
      → parent_of compress z row i ≡ get_elem? (level_up row) (i / 2)
  unfolding parent_of
  parent_of-eq [] i h = absurd (omega (arith, h))
  parent_of-eq (a ∷ []) zero h = refl
  parent_of-eq (a ∷ []) (suc i) h = absurd (omega (arith, h))
  parent_of-eq (a ∷ b ∷ row) zero h = rw (second (length row)) refl
  parent_of-eq (a ∷ b ∷ row) (suc zero) h = rw (second (length row)) refl
  parent_of-eq (a ∷ b ∷ row) (suc (suc i)) h =
      let at = ap (λ n. get_elem? (a ∷ b ∷ row) n) (sym (double i)) in
      let right : node_or (a ∷ b ∷ row) (suc (suc i) / 2 * 2 + 1) z
          ≡ node_or row (i / 2 * 2 + 1) z =
        ap (λ n. node_or (a ∷ b ∷ row) n z) (next i) ∙ node_or-shift a b row (i / 2 * 2 + 1) in
      let above = ap (λ n. get_elem? (level_up (a ∷ b ∷ row)) n) (half i) in
      cc (at, right) ∙ parent_of-eq row i (omega (arith, h)) ∙ above
