-- ===== src/Payroll/Intake/Batches.antt =====
-- The batches of an intake, routes/payroll.ts: `chunk` loses nothing, and `handleInputs` has the
-- lower-case handle of each row that needs one.
use benzo_main.Prelude.{
  ℕ, zero, suc, ◌≤◌, ◌≡◌, refl, ap, ◌∙◌, sym, subst, Text, Bool, true, false, not, List, [], ◌∷◌,
  ◌++◌, ◌||◌, map, arith, length, take, drop, any, select, text_eq, text_eq_refl, text_eq_iff,
  to_lower_case, to_lower_case_idem, All, Bool-cases, inl, inr,
}
use benzo_main.Payroll.Csv.{ParsedRow}
use benzo_main.Payroll.Intake.{chunk_on, chunk, unique, is_handle, handle_key, handle_inputs}

abbrev pub concat : {A : Type 0} → List (List A) → List A
concat [] = []
concat (xs ∷ batches) = xs ++ concat batches

module _ {A : Type 0} where
  take-drop : (n : ℕ) (xs : List A) → (take n xs ++ drop n xs) ≡ xs
  take-drop zero xs = refl
  take-drop (suc n) [] = refl
  take-drop (suc n) (x ∷ xs) = ap (λ ys. x ∷ ys) (take-drop n xs)

  length-drop : (n : ℕ) (xs : List A) → length (drop n xs) ≤ length xs
  length-drop zero xs = omega arith
  length-drop (suc n) [] = omega arith
  length-drop (suc n) (x ∷ xs) = omega (arith, length-drop n xs)

  concat-chunk_on :
      (fuel size : ℕ) (xs : List A)
      → length xs ≤ fuel
      → 1 ≤ size
      → concat (chunk_on fuel size xs) ≡ xs
  concat-chunk_on zero size [] enough some_size = refl
  concat-chunk_on zero size (x ∷ xs) enough some_size = absurd (omega (arith, enough))
  concat-chunk_on (suc fuel) size [] enough some_size = refl
  concat-chunk_on (suc fuel) zero (x ∷ xs) enough some_size = absurd (omega (arith, some_size))
  concat-chunk_on (suc fuel) (suc n) (x ∷ xs) enough some_size =
      ap (λ ys. x ∷ (take n xs ++ ys))
        (concat-chunk_on fuel (suc n) (drop n xs) (omega (arith, enough, length-drop n xs))
          some_size)
      ∙ ap (λ ys. x ∷ ys) (take-drop n xs)

  pub concat-chunk : (size : ℕ) (xs : List A) → 1 ≤ size → concat (chunk xs size) ≡ xs
  concat-chunk size xs some_size = concat-chunk_on (length xs) size xs (omega arith) some_size

-- A set has what was put in.
any-without :
    (t s : Text) (texts : List Text)
    → text_eq t s ≡ false
    → any (text_eq t) texts ≡ true
    → any (text_eq t) (select (λ u. not (text_eq u s)) texts) ≡ true
any-without t s [] ne h = cc h
any-without t s (u ∷ texts) ne h = elim (Bool-cases (text_eq t u)) [
  | inl hit ↦
      (let same = (text_eq_iff t u).0 hit in
        let apart : text_eq u s ≡ false = rw same at ne in rw apart (rw hit refl))
  | inr miss ↦
      (let later = any-without t s texts ne (rw miss at h) in
        elim (Bool-cases (text_eq u s)) [
          | inl gone ↦ rw gone later
          | inr kept ↦ rw (kept, miss) later
        ])
]

any-unique :
    (t : Text) (texts : List Text)
    → any (text_eq t) texts ≡ true
    → any (text_eq t) (unique texts) ≡ true
any-unique t [] h = cc h
any-unique t (s ∷ texts) h = elim (Bool-cases (text_eq t s)) [
  | inl hit ↦ rw hit refl
  | inr miss ↦ rw miss (any-without t s (unique texts) miss (any-unique t texts (rw miss at h)))
]

abbrev keys_of : List ParsedRow → List Text
keys_of rows = map (λ (r : ParsedRow). handle_key r.recipient_input) (select is_handle rows)

-- All handles of the rows are among these.
abbrev pub AreAsked : List Text → List ParsedRow → Type 0
AreAsked asked rows =
    All
      (λ (r : ParsedRow).
        (not (is_handle r) || any (text_eq (handle_key r.recipient_input)) asked) ≡ true)
      rows

more-AreAsked :
    (k : Text) (asked : List Text) (rows : List ParsedRow)
    → AreAsked asked rows
    → AreAsked (k ∷ asked) rows
more-AreAsked k asked [] h = tt
more-AreAsked k asked (r ∷ rows) h = (ground (arith, h.0), more-AreAsked k asked rows h.1)

keys_of-AreAsked : (rows : List ParsedRow) → AreAsked (keys_of rows) rows
keys_of-AreAsked [] = tt
keys_of-AreAsked (r ∷ rows) = elim (Bool-cases (is_handle r)) [
  | inl on ↦
      (let key = handle_key r.recipient_input in
        let keys : keys_of (r ∷ rows) ≡ key ∷ keys_of rows = rw on refl in
        subst (λ ks. AreAsked ks (r ∷ rows)) (sym keys)
          (
            rw (on, text_eq_refl key) refl,
            more-AreAsked key (keys_of rows) rows (keys_of-AreAsked rows),
          ))
  | inr off ↦
      (let keys : keys_of (r ∷ rows) ≡ keys_of rows = rw off refl in
        subst (λ ks. AreAsked ks (r ∷ rows)) (sym keys) (rw off refl, keys_of-AreAsked rows))
]

unique-AreAsked :
    (keys : List Text) (rows : List ParsedRow) → AreAsked keys rows → AreAsked (unique keys) rows
unique-AreAsked keys [] h = tt
unique-AreAsked keys (r ∷ rows) h = (
  elim (Bool-cases (is_handle r)) [
    | inl on ↦ rw on (any-unique (handle_key r.recipient_input) keys (rw on at h.0))
    | inr off ↦ rw off refl
  ],
  unique-AreAsked keys rows h.1,
)

pub handle_inputs-AreAsked : (rows : List ParsedRow) → AreAsked (handle_inputs rows) rows
unfolding handle_inputs
handle_inputs-AreAsked rows = unique-AreAsked (keys_of rows) rows (keys_of-AreAsked rows)

abbrev pub AllLower : List Text → Type 0
AllLower texts = All (λ t. to_lower_case t ≡ t) texts

keys_of-AllLower : (rows : List ParsedRow) → AllLower (keys_of rows)
unfolding handle_key
keys_of-AllLower [] = tt
keys_of-AllLower (r ∷ rows) = elim (Bool-cases (is_handle r)) [
  | inl on ↦ rw on (to_lower_case_idem _, keys_of-AllLower rows)
  | inr off ↦ rw off (keys_of-AllLower rows)
]

select-AllLower : (p : Text → Bool) (texts : List Text) → AllLower texts → AllLower (select p texts)
select-AllLower p [] h = tt
select-AllLower p (t ∷ texts) h = elim (Bool-cases (p t)) [
  | inl on ↦ rw on (h.0, select-AllLower p texts h.1)
  | inr off ↦ rw off (select-AllLower p texts h.1)
]

unique-AllLower : (texts : List Text) → AllLower texts → AllLower (unique texts)
unique-AllLower [] h = tt
unique-AllLower (t ∷ texts) h =
    (h.0, select-AllLower (λ u. not (text_eq u t)) (unique texts) (unique-AllLower texts h.1))

pub handle_inputs-AllLower : (rows : List ParsedRow) → AllLower (handle_inputs rows)
unfolding handle_inputs
handle_inputs-AllLower rows = unique-AllLower (keys_of rows) (keys_of-AllLower rows)
