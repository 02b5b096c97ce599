-- ===== src/Table/Evolution.antt =====
-- How a table changes: rows in place by a relation, new rows by a predicate.
use benzo_main.Prelude.{
  ℕ, zero, suc, ◌≡◌, refl, subst, some, get_elem?, Bool, true, false, List, [], ◌∷◌, ◌++◌, inl, inr,
  any, All, Bool-cases,
}
use benzo_main.Table.{update_where, insert_unless}

module _ {A : Type 0} (Moves : A → A → Type 0) (IsNew : A → Type 0) where
  abbrev pub Evolves : List A → List A → Type 0
  Evolves [] ys = All IsNew ys
  Evolves (x ∷ xs) [] = ⊥
  Evolves (x ∷ xs) (y ∷ ys) = Moves x y × Evolves xs ys

module _ {A : Type 0} (Moves : A → A → Type 0) (IsNew : A → Type 0) where
  -- The row that now stands in the place of a row that was there.
  pub Evolves-get_elem? :
      (xs ys : List A) (i : ℕ) (x : A)
      → Evolves Moves IsNew xs ys
      → get_elem? xs i ≡ some x
      → (y : A) × (get_elem? ys i ≡ some y) × Moves x y
  Evolves-get_elem? [] ys i x e h = cc
  Evolves-get_elem? (a ∷ xs) [] i x e h = absurd e
  Evolves-get_elem? (a ∷ xs) (b ∷ ys) zero x e h =
      let same : a ≡ x = cc in (b, refl, subst (λ z. Moves z b) same e.0)
  Evolves-get_elem? (a ∷ xs) (b ∷ ys) (suc i) x e h = Evolves-get_elem? xs ys i x e.1 h

-- What a relation on rows needs for `Evolves` to be a preorder.
pub record IsEvolution {A : Type 0} (Moves : A → A → Type 0) (IsNew : A → Type 0) : Type 0 where
  pub moves_refl : (x : A) → Moves x x
  pub moves_trans : (x y z : A) → Moves x y → Moves y z → Moves x z
  pub new_moves : (x y : A) → IsNew x → Moves x y → IsNew y

module _ {A : Type 0} {Moves : A → A → Type 0} {IsNew : A → Type 0}
    (laws : IsEvolution Moves IsNew) where
  pub Evolves-refl : (xs : List A) → Evolves Moves IsNew xs xs
  Evolves-refl [] = tt
  Evolves-refl (x ∷ xs) = (laws.moves_refl x, Evolves-refl xs)

  All-Evolves : (xs ys : List A) → All IsNew xs → Evolves Moves IsNew xs ys → All IsNew ys
  All-Evolves [] ys h e = e
  All-Evolves (x ∷ xs) [] h e = absurd e
  All-Evolves (x ∷ xs) (y ∷ ys) h e = (laws.new_moves x y h.0 e.0, All-Evolves xs ys h.1 e.1)

  pub Evolves-trans :
      (xs ys zs : List A)
      → Evolves Moves IsNew xs ys
      → Evolves Moves IsNew ys zs
      → Evolves Moves IsNew xs zs
  Evolves-trans [] ys zs d e = All-Evolves ys zs d e
  Evolves-trans (x ∷ xs) [] zs d e = absurd d
  Evolves-trans (x ∷ xs) (y ∷ ys) [] d e = absurd e
  Evolves-trans (x ∷ xs) (y ∷ ys) (z ∷ zs) d e =
      (laws.moves_trans x y z d.0 e.0, Evolves-trans xs ys zs d.1 e.1)

  pub Evolves-append : (xs ys : List A) → All IsNew ys → Evolves Moves IsNew xs (xs ++ ys)
  Evolves-append [] ys h = h
  Evolves-append (x ∷ xs) ys h = (laws.moves_refl x, Evolves-append xs ys h)

  -- An update that moves each row it selects as the relation allows.
  pub Evolves-update_where :
      (p : A → Bool) (f : A → A) (xs : List A)
      → ((x : A) → p x ≡ true → Moves x (f x))
      → Evolves Moves IsNew xs (update_where p f xs)
  Evolves-update_where p f [] h = tt
  Evolves-update_where p f (x ∷ xs) h = elim (Bool-cases (p x)) [
    | inl selected ↦ rw selected (h x selected, Evolves-update_where p f xs h)
    | inr other ↦ rw other (laws.moves_refl x, Evolves-update_where p f xs h)
  ]

  pub Evolves-insert_unless :
      (clash : A → Bool) (row : A) (xs : List A)
      → IsNew row
      → Evolves Moves IsNew xs (insert_unless clash row xs)
  Evolves-insert_unless clash row xs h = elim (Bool-cases (any clash xs)) [
    | inl taken ↦ rw taken (Evolves-refl xs)
    | inr free ↦ rw free (Evolves-append xs (row ∷ []) (h, tt))
  ]

-- An update that takes a predicate on the rows to another.
module _ {A : Type 0} (P Q : A → Type 0) where
  pub All-update_where :
      (p : A → Bool) (f : A → A) (xs : List A)
      → ((x : A) → p x ≡ true → P x → Q (f x))
      → ((x : A) → p x ≡ false → P x → Q x)
      → All P xs
      → All Q (update_where p f xs)
  All-update_where p f [] on off h = tt
  All-update_where p f (x ∷ xs) on off h = elim (Bool-cases (p x)) [
    | inl selected ↦ rw selected (on x selected h.0, All-update_where p f xs on off h.1)
    | inr other ↦ rw other (off x other h.0, All-update_where p f xs on off h.1)
  ]
