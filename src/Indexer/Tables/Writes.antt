-- ===== src/Indexer/Tables/Writes.antt =====
-- What the indexer's statements leave in its tables.
use mathlib.Core.List.{append_assoc, append-nil}
use benzo_main.Prelude.{
  ℕ, ◌≡◌, refl, ap, sym, subst, ◌∙◌, Bool, false, Option, none, some, List, [], ◌∷◌, ◌++◌, arith,
  text_eq_sym, text_eq_iff, text_eq_refl, any, find, find_holds,
}
use benzo_main.Table.Rows.{find-update_where, find-append_new, any-of-find, any-of-none}
use benzo_main.Indexer.{Event, Cursor, IndexerState}
use benzo_main.Indexer.Tables.{
  same_key, has_duplicate, upsert_event, upsert_rows, is_cursor_of, put_cursor,
}

-- No row has the key of a row of `xs`, or of one before it.
abbrev pub Fresh : List Event → List Event → Type 0
Fresh [] xs = Unit
Fresh (row ∷ rows) xs = (any (same_key row) xs ≡ false) × Fresh rows (xs ++ row ∷ [])

pub Fresh-append :
    (rows more xs : List Event) → Fresh (rows ++ more) xs → Fresh rows xs × Fresh more (xs ++ rows)
Fresh-append [] more xs h = (tt, rw (append-nil xs) h)
Fresh-append (row ∷ rows) more xs h =
    let (first, rest) = Fresh-append rows more (xs ++ row ∷ []) h.1 in
    ((h.0, first), subst (λ ys. Fresh more ys) (append_assoc xs (row ∷ []) rows) rest)

same_key_sym : (a b : Event) → same_key a b ≡ same_key b a
same_key_sym a b = rw (text_eq_sym b.tx_hash a.tx_hash) (ground arith)

any_split :
    {A : Type 0} (p : A → Bool) (xs ys : List A)
    → any p (xs ++ ys) ≡ false
    → (any p xs ≡ false) × (any p ys ≡ false)
any_split p [] ys h = (refl, h)
any_split p (x ∷ xs) ys h = ground (arith, any_split p xs ys)

any_keeps :
    {A : Type 0} (p : A → Bool) (xs ys zs : List A)
    → any p (xs ++ (ys ++ zs)) ≡ false
    → any p (xs ++ zs) ≡ false
any_keeps p [] ys zs h = (any_split p ys zs h).1
any_keeps p (x ∷ xs) ys zs h = ground (arith, any_keeps p xs ys zs)

-- Without some of the rows before, the rest is fresh still.
Fresh-drop : (rows xs ys zs : List Event) → Fresh rows (xs ++ (ys ++ zs)) → Fresh rows (xs ++ zs)
Fresh-drop [] xs ys zs h = tt
Fresh-drop (row ∷ rows) xs ys zs h =
    let whole : (xs ++ (ys ++ zs)) ++ row ∷ [] ≡ xs ++ (ys ++ (zs ++ row ∷ [])) =
      simp append_assoc in
    let part : (xs ++ zs) ++ row ∷ [] ≡ xs ++ (zs ++ row ∷ []) = simp append_assoc in
    (
      any_keeps (same_key row) xs ys zs h.0,
      rw part (Fresh-drop rows xs ys (zs ++ row ∷ []) (subst (Fresh rows) whole h.1)),
    )

not_later :
    (row : Event) (rows xs : List Event) → Fresh rows (row ∷ xs) → any (same_key row) rows ≡ false
not_later row [] xs h = refl
not_later row (r ∷ rows) xs h =
    ground (arith, same_key_sym row r, not_later row rows (xs ++ r ∷ []) h.1)

Fresh-only :
    (rows xs : List Event) (row : Event) → Fresh rows (xs ++ row ∷ []) → Fresh rows (row ∷ [])
Fresh-only rows xs row h = Fresh-drop rows [] xs (row ∷ []) h

pub Fresh-distinct : (rows xs : List Event) → Fresh rows xs → has_duplicate rows ≡ false
Fresh-distinct [] xs h = refl
Fresh-distinct (row ∷ rows) xs h = ground (
  arith,
  not_later row rows [] (Fresh-only rows xs row h.1),
  Fresh-distinct rows (xs ++ row ∷ []) h.1,
)

-- Fresh rows are added behind the others.
pub upsert_rows-append :
    (now : ℕ) (rows xs : List Event) → Fresh rows xs → upsert_rows now rows xs ≡ xs ++ rows
unfolding upsert_rows upsert_event
upsert_rows-append now [] xs h = sym (append-nil xs)
upsert_rows-append now (row ∷ rows) xs h =
    rw h.0 (upsert_rows-append now rows (xs ++ row ∷ []) h.1 ∙ append_assoc xs (row ∷ []) rows)

-- The cursor that is stored for a contract.
abbrev pub CursorAt : Cursor → IndexerState → Type 0
CursorAt row s = find (is_cursor_of row.contract) s.cursors ≡ some row

replaced_cursor :
    (row : Cursor) (s : IndexerState) (old : Option Cursor)
    → find (is_cursor_of row.contract) s.cursors ≡ old
    → CursorAt row (put_cursor row s).1
unfolding put_cursor
replaced_cursor row s none h =
    let free = any-of-none (is_cursor_of row.contract) s.cursors h in
    rw free
      (find-append_new (is_cursor_of row.contract) s.cursors row free (text_eq_refl row.contract))
replaced_cursor row s (some c) h =
    let there = any-of-find (is_cursor_of row.contract) s.cursors c h in
    let owner = find_holds (is_cursor_of row.contract) s.cursors c h in
    let named = (text_eq_iff c.contract row.contract).0 owner in
    let updated =
      find-update_where (is_cursor_of row.contract) (is_cursor_of row.contract)
        (λ x. record row { contract = x.contract }) s.cursors c (λ y. refl) h in
    rw there (updated ∙ rw owner (ap (λ n. some (record row { contract = n })) named))

pub put_cursor-CursorAt : (row : Cursor) (s : IndexerState) → CursorAt row (put_cursor row s).1
put_cursor-CursorAt row s = replaced_cursor row s (find (is_cursor_of row.contract) s.cursors) refl

pub put_cursor-events : (row : Cursor) (s : IndexerState) → (put_cursor row s).1.events ≡ s.events
unfolding put_cursor
put_cursor-events row s = refl
