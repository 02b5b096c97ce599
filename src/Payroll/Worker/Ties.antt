-- ===== src/Payroll/Worker/Ties.antt =====
-- The invariant behind a single payment per item: every transaction that was handed to the
-- network for an item is the one whose hash the item's row holds.
use benzo_main.Prelude.{
  ◌≡◌, refl, sym, subst, ◌∙◌, String, Text, Bool, true, false, Option, none, some, List, [], ◌∷◌,
  ◌++◌, arith, inl, inr, eq_iff, any, find, All, All-append, All-imp, Bool-cases,
}
use benzo_main.Table.{update_where}
use benzo_main.Table.Evolution.{All-update_where}
use benzo_main.Payroll.{Item, Broadcast, PayrollState}
use benzo_main.Payroll.Statements.{is_item, update_items, record_broadcast}

-- The row holds the hash of every broadcast made for it.
abbrev pub Covers : List Broadcast → Item → Type 0
Covers bs x = All (λ (b : Broadcast). b.item_id ≡ x.id → x.tx_hash ≡ some b.tx_hash) bs

-- Ids are a primary key.
abbrev pub DistinctIds : List Item → Type 0
DistinctIds [] = Unit
DistinctIds (x ∷ xs) = (any (is_item x.id) xs ≡ false) × DistinctIds xs

pub record Backed (s : PayrollState) : Type 0 where
  pub distinct : DistinctIds s.items
  pub covered : All (Covers s.broadcasts) s.items

-- Besides, the rows with an id hold a given hash, or none.
abbrev pub Tied : String → Option Text → List Broadcast → Item → Type 0
Tied id hash bs x = Covers bs x × (is_item id x ≡ true → x.tx_hash ≡ hash)

pub data Stage : Type 0 where
  backed : Stage
  tied : Option Text → Stage
  loaded : Item → Stage

pub record TiedRows (id : String) (hash : Option Text) (s : PayrollState) : Type 0 where
  pub distinct : DistinctIds s.items
  pub rows : All (Tied id hash s.broadcasts) s.items

abbrev pub Inv : String → Stage → PayrollState → Type 0
Inv id backed s = Backed s
Inv id (tied hash) s = TiedRows id hash s
Inv id (loaded x) s = (x.id ≡ id) × TiedRows id x.tx_hash s

All-fst :
    (id : String) (hash : Option Text) (bs : List Broadcast) (xs : List Item)
    → All (Tied id hash bs) xs
    → All (Covers bs) xs
All-fst id hash bs [] h = tt
All-fst id hash bs (x ∷ xs) h = (h.0.0, All-fst id hash bs xs h.1)

pub TiedRows-Backed :
    (id : String) (hash : Option Text) (s : PayrollState) → TiedRows id hash s → Backed s
TiedRows-Backed id hash s h = record {
  distinct = h.distinct;
  covered = All-fst id hash s.broadcasts s.items h.rows;
}

any-update_where :
    (j : String) (p : Item → Bool) (f : Item → Item) (xs : List Item)
    → ((x : Item) → (f x).id ≡ x.id)
    → any (is_item j) (update_where p f xs) ≡ any (is_item j) xs
any-update_where j p f [] same = refl
any-update_where j p f (x ∷ xs) same = elim (Bool-cases (p x)) [
  | inl on ↦ rw (on, same x, any-update_where j p f xs same)
  | inr off ↦ rw (off, any-update_where j p f xs same)
]

update_where-DistinctIds :
    (p : Item → Bool) (f : Item → Item) (xs : List Item)
    → ((x : Item) → (f x).id ≡ x.id)
    → DistinctIds xs
    → DistinctIds (update_where p f xs)
update_where-DistinctIds p f [] same h = tt
update_where-DistinctIds p f (x ∷ xs) same h = elim (Bool-cases (p x)) [
  | inl on ↦ rw on (
    rw (same x) (rw (any-update_where x.id p f xs same) h.0),
    update_where-DistinctIds p f xs same h.1,
  )
  | inr off ↦
      rw off (rw (any-update_where x.id p f xs same) h.0, update_where-DistinctIds p f xs same h.1)
]

-- A row of the id keeps its ties when its hash stays what the rows of the id are tied to.
row-Tied :
    (id : String) (hash : Option Text) (bs : List Broadcast) (x y : Item)
    → y.id ≡ x.id
    → is_item id x ≡ true
    → (x.tx_hash ≡ hash → y.tx_hash ≡ hash)
    → Tied id hash bs x
    → Tied id hash bs y
row-Tied id hash bs x y same mine keeps (covers, tie) =
    let kept = keeps (tie mine) in
    (
      All-imp (λ (b : Broadcast). b.item_id ≡ x.id → x.tx_hash ≡ some b.tx_hash)
          (λ (b : Broadcast). b.item_id ≡ y.id → y.tx_hash ≡ some b.tx_hash) bs
          (λ b h e. kept ∙ sym (tie mine) ∙ h (e ∙ same)) covers,
      (λ _. kept),
    )

pub update-TiedRows :
    (id : String) (hash : Option Text) (f : Item → Item) (s : PayrollState)
    → ((x : Item) → (f x).id ≡ x.id)
    → ((x : Item) → x.tx_hash ≡ hash → (f x).tx_hash ≡ hash)
    → TiedRows id hash s
    → TiedRows id hash (update_items (is_item id) f s).1
unfolding update_items
update-TiedRows id hash f s same keeps h = record {
  distinct = update_where-DistinctIds (is_item id) f s.items same h.distinct;
  rows =
      All-update_where (Tied id hash s.broadcasts) (Tied id hash s.broadcasts) (is_item id) f
        s.items (λ x mine t. row-Tied id hash s.broadcasts x (f x) (same x) mine (keeps x) t)
        (λ x _ t. t) h.rows;
}

-- A row of the id without a hash has no broadcast, so it can take any.
fresh_row :
    (id hash : String) (new : Text) (bs : List Broadcast) (x y : Item)
    → y.id ≡ x.id
    → x.tx_hash ≡ none
    → y.tx_hash ≡ some new
    → Covers bs x
    → Tied id (some new) bs y
fresh_row id hash new bs x y same empty now covers = (
  All-imp (λ (b : Broadcast). b.item_id ≡ x.id → x.tx_hash ≡ some b.tx_hash)
      (λ (b : Broadcast). b.item_id ≡ y.id → y.tx_hash ≡ some b.tx_hash) bs
      (λ b h e. absurd (cc (sym empty ∙ h (e ∙ same)))) covers,
  (λ _. now),
)

other_row :
    (id : String) (old new : Option Text) (bs : List Broadcast) (x : Item)
    → is_item id x ≡ false
    → Tied id old bs x
    → Tied id new bs x
other_row id old new bs x other (covers, tie) = (covers, (λ mine. cc (sym other ∙ mine)))

pub first_hash-TiedRows :
    (id : String) (new : Text) (f : Item → Item) (s : PayrollState)
    → ((x : Item) → (f x).id ≡ x.id)
    → ((x : Item) → (f x).tx_hash ≡ some new)
    → TiedRows id none s
    → TiedRows id (some new) (update_items (is_item id) f s).1
unfolding update_items
first_hash-TiedRows id new f s same sets h = record {
  distinct = update_where-DistinctIds (is_item id) f s.items same h.distinct;
  rows =
      All-update_where (Tied id none s.broadcasts) (Tied id (some new) s.broadcasts) (is_item id) f
        s.items
        (λ x mine t. fresh_row id id new s.broadcasts x (f x) (same x) (t.1 mine) (sets x) t.0)
        (λ x other t. other_row id none (some new) s.broadcasts x other t) h.rows;
}

-- A broadcast of the hash that the rows of the id hold.
pub broadcast-TiedRows :
    (id : String) (b : Broadcast) (s : PayrollState)
    → b.item_id ≡ id
    → TiedRows id (some b.tx_hash) s
    → TiedRows id (some b.tx_hash) (record_broadcast b s).1
unfolding record_broadcast
broadcast-TiedRows id b s mine h = record {
  distinct = h.distinct;
  rows =
      All-imp (Tied id (some b.tx_hash) s.broadcasts)
        (Tied id (some b.tx_hash) (s.broadcasts ++ b ∷ [])) s.items
        (λ x t. (
          All-append (λ (c : Broadcast). c.item_id ≡ x.id → x.tx_hash ≡ some c.tx_hash) s.broadcasts
              (b ∷ []) t.0 ((λ e. t.1 ((eq_iff x.id id).1 (sym e ∙ mine))), tt),
          t.1,
        ))
        h.rows;
}

plain-TiedRows :
    (id j : String) (hash : Option Text) (f : Item → Item) (s : PayrollState)
    → ((x : Item) → (f x).id ≡ x.id)
    → ((x : Item) → (f x).tx_hash ≡ x.tx_hash)
    → TiedRows id hash s
    → TiedRows id hash (update_items (is_item j) f s).1
unfolding update_items
plain-TiedRows id j hash f s same keeps h = record {
  distinct = update_where-DistinctIds (is_item j) f s.items same h.distinct;
  rows =
      All-update_where (Tied id hash s.broadcasts) (Tied id hash s.broadcasts) (is_item j) f s.items
        (λ x _ t. rw (same x, keeps x) t) (λ x _ t. t) h.rows;
}

-- A write that leaves ids and hashes alone keeps every stage.
pub write-Inv :
    (id j : String) (f : Item → Item) (s : PayrollState) (stage : Stage)
    → ((x : Item) → (f x).id ≡ x.id)
    → ((x : Item) → (f x).tx_hash ≡ x.tx_hash)
    → Inv id stage s
    → Inv id stage (update_items (is_item j) f s).1
unfolding update_items
write-Inv id j f s backed same keeps h = record {
  distinct = update_where-DistinctIds (is_item j) f s.items same h.distinct;
  covered =
      All-update_where (Covers s.broadcasts) (Covers s.broadcasts) (is_item j) f s.items
        (λ x _ c. rw (same x, keeps x) c) (λ x _ c. c) h.covered;
}
write-Inv id j f s (tied hash) same keeps h = plain-TiedRows id j hash f s same keeps h
write-Inv id j f s (loaded x) same keeps h = (h.0, plain-TiedRows id j x.tx_hash f s same keeps h.1)

any-cons_false :
    (id : String) (y : Item) (ys : List Item)
    → any (is_item id) (y ∷ ys) ≡ false
    → (is_item id y ≡ false) × (any (is_item id) ys ≡ false)
any-cons_false id y ys h = ground arith

not_mine :
    (id : String) (hash : Option Text) (bs : List Broadcast) (xs : List Item)
    → any (is_item id) xs ≡ false
    → All (Covers bs) xs
    → All (Tied id hash bs) xs
not_mine id hash bs [] h c = tt
not_mine id hash bs (y ∷ ys) h c =
    let (other, rest) = any-cons_false id y ys h in
    ((c.0, (λ mine. cc (sym other ∙ mine))), not_mine id hash bs ys rest c.1)

-- What a job reads of its item ties the rows of that id.
pub load-rows :
    (id : String) (bs : List Broadcast) (xs : List Item) (x : Item)
    → DistinctIds xs
    → All (Covers bs) xs
    → find (is_item id) xs ≡ some x
    → All (Tied id x.tx_hash bs) xs
load-rows id bs [] x d c h = tt
load-rows id bs (y ∷ ys) x d c h = elim (Bool-cases (is_item id y)) [
  | inl mine ↦
      (let same : y ≡ x = cc (rw mine at h) in
        let here : y.id ≡ id = (eq_iff y.id id).0 mine in
        subst (λ (z : Item). All (Tied id z.tx_hash bs) (y ∷ ys)) same
          ((c.0, (λ _. refl)), not_mine id y.tx_hash bs ys (rw (← here) d.0) c.1))
  | inr other ↦
      ((c.0, (λ mine. cc (sym other ∙ mine))), load-rows id bs ys x d.1 c.1 (rw other at h))
]
