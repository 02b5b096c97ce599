-- ===== src/Payroll/Routes/Create/Handles.antt =====
-- The handles that an intake of routes/payroll.ts resolves: the table that it builds from batches
-- gives each row the address of the user whose handle it names.
use benzo_main.Prelude.{
  ◌≡◌, refl, ap, ◌∙◌, sym, Text, Bool, true, false, Option, none, some, List, [], ◌∷◌, ◌++◌, ◌||◌,
  inl, inr, any, arith, find, str_eq, text_eq, text_eq_iff, to_lower_case, Bool-cases, Option-cases,
  if◌then◌else◌,
}
use benzo_main.Database.{User}
use benzo_main.Payroll.Intake.{address_of}
use benzo_main.Payroll.Intake.Batches.{concat, AllLower}
use benzo_main.Payroll.Routes.{Handle}
use benzo_main.Payroll.Routes.Create.{with_owner, found_handles}

abbrev address_if : Option User → Option Text
address_if none = none
address_if (some u) = some u.address

-- The first if there is one.
abbrev prefer : Option Text → Option Text → Option Text
prefer (some a) other = some a
prefer none other = other

-- The address of the user who has the handle: of the last one, if several rows had the same.
abbrev pub registered : List User → List Handle → Text → Option Text
registered users [] key = none
registered users (h ∷ handles) key = prefer (registered users handles key) (
    if text_eq h.handle key
    then address_if (find (λ (u : User). str_eq u.id h.user_id) users)
    else none)

address_of-append :
    (key : Text) (xs ys : List (Text × Text))
    → address_of key (xs ++ ys) ≡ prefer (address_of key ys) (address_of key xs)
address_of-append key [] ys = elim (Option-cases (address_of key ys)) [
  | inl h ↦ rw h refl
  | inr (a, h) ↦ rw h refl
]
address_of-append key ((handle, address) ∷ xs) ys =
    let later = address_of-append key xs ys in
    elim (Option-cases (address_of key ys)) [
      | inr (a, h) ↦
          (let hit : address_of key (xs ++ ys) ≡ some a = later ∙ rw h refl in rw (hit, h) refl)
      | inl h ↦
          (let rest : address_of key (xs ++ ys) ≡ address_of key xs = later ∙ rw h refl in
            rw (rest, h) refl)
    ]

prefer-none : (o : Option Text) → prefer o none ≡ o
prefer-none none = refl
prefer-none (some a) = refl

prefer-same : (o : Option Text) → prefer o o ≡ o
prefer-same none = refl
prefer-same (some a) = refl

if-none : (b : Bool) → (if b then address_if none else none) ≡ none
if-none true = refl
if-none false = refl

owner-step :
    (key : Text) (h : Handle) (o : Option User) (rest : List (Text × Text))
    → to_lower_case h.handle ≡ h.handle
    → address_of key (with_owner h o rest)
      ≡ prefer (address_of key rest) (if text_eq h.handle key then address_if o else none)
owner-step key h none rest lower = sym (
    ap (prefer (address_of key rest)) (if-none (text_eq h.handle key))
    ∙ prefer-none (address_of key rest))
owner-step key h (some u) rest lower = elim (Option-cases (address_of key rest)) [
  | inl none_later ↦ rw (none_later, lower) refl
  | inr (a, later) ↦ rw later refl
]

member-lower :
    (texts : List Text) (t : Text)
    → AllLower texts
    → any (text_eq t) texts ≡ true
    → to_lower_case t ≡ t
member-lower [] t all h = cc h
member-lower (s ∷ texts) t all h = elim (Bool-cases (text_eq t s)) [
  | inl hit ↦ (let same = (text_eq_iff t s).0 hit in rw same all.0)
  | inr miss ↦ member-lower texts t all.1 (rw miss at h)
]

module _ (batch : List Text) (lower : AllLower batch) (users : List User) (key : Text) where
  -- A batch that asks for the handle finds its user.
  asked :
      (handles : List Handle)
      → any (text_eq key) batch ≡ true
      → address_of key (found_handles batch users handles) ≡ registered users handles key
  asked [] on = refl
  asked (h ∷ handles) on = elim (Bool-cases (any (text_eq h.handle) batch)) [
    | inl listed ↦ rw listed (
        owner-step key h (find (λ (u : User). str_eq u.id h.user_id) users)
          (found_handles batch users handles) (member-lower batch h.handle lower listed)
        ∙ ap
            (λ o. prefer o (
              if text_eq h.handle key
              then address_if (find (λ (u : User). str_eq u.id h.user_id) users)
              else none))
            (asked handles on))
    | inr unlisted ↦ elim (Bool-cases (text_eq h.handle key)) [
      | inl hit ↦ (let same = (text_eq_iff h.handle key).0 hit in cc (rw same at unlisted, on))
      | inr miss ↦
          rw (unlisted, miss) (asked handles on ∙ sym (prefer-none (registered users handles key)))
    ]
  ]

  not_asked :
      (handles : List Handle)
      → any (text_eq key) batch ≡ false
      → address_of key (found_handles batch users handles) ≡ none
  not_asked [] off = refl
  not_asked (h ∷ handles) off = elim (Bool-cases (any (text_eq h.handle) batch)) [
    | inl listed ↦ elim (Bool-cases (text_eq h.handle key)) [
      | inl hit ↦ (let same = (text_eq_iff h.handle key).0 hit in cc (rw same at listed, off))
      | inr miss ↦ rw listed (
          owner-step key h (find (λ (u : User). str_eq u.id h.user_id) users)
            (found_handles batch users handles) (member-lower batch h.handle lower listed)
          ∙ (rw (not_asked handles off, miss) refl))
    ]
    | inr unlisted ↦ rw unlisted (not_asked handles off)
  ]

abbrev pub all_found : List User → List Handle → List (List Text) → List (Text × Text)
all_found users handles [] = []
all_found users handles (batch ∷ batches) =
    found_handles batch users handles ++ all_found users handles batches

any-append :
    (key : Text) (xs ys : List Text)
    → any (text_eq key) (xs ++ ys) ≡ (any (text_eq key) xs || any (text_eq key) ys)
any-append key [] ys = refl
any-append key (x ∷ xs) ys = ground (arith, any-append key xs ys)

AllLower-split : (xs ys : List Text) → AllLower (xs ++ ys) → AllLower xs × AllLower ys
AllLower-split [] ys h = (tt, h)
AllLower-split (x ∷ xs) ys h = let (first, rest) = AllLower-split xs ys h.1 in ((h.0, first), rest)

module _ (users : List User) (handles : List Handle) (key : Text) where
  all_not_asked :
      (batches : List (List Text))
      → AllLower (concat batches)
      → any (text_eq key) (concat batches) ≡ false
      → address_of key (all_found users handles batches) ≡ none
  all_not_asked [] lower off = refl
  all_not_asked (batch ∷ batches) lower off =
      let (here, there) = AllLower-split batch (concat batches) lower in
      let split = any-append key batch (concat batches) in
      let first : any (text_eq key) batch ≡ false = ground (arith, split, off) in
      let rest : any (text_eq key) (concat batches) ≡ false = ground (arith, split, off) in
      address_of-append key (found_handles batch users handles) _
      ∙ (rw (all_not_asked batches there rest, not_asked batch here users key handles first) refl)

  pub all_asked :
      (batches : List (List Text))
      → AllLower (concat batches)
      → any (text_eq key) (concat batches) ≡ true
      → address_of key (all_found users handles batches) ≡ registered users handles key
  all_asked [] lower on = cc on
  all_asked (batch ∷ batches) lower on =
      let (here, there) = AllLower-split batch (concat batches) lower in
      let split = any-append key batch (concat batches) in
      address_of-append key (found_handles batch users handles) _
      ∙ elim (Bool-cases (any (text_eq key) (concat batches))) [
        | inl rest ↦ elim (Bool-cases (any (text_eq key) batch)) [
          | inl first ↦
              rw (all_asked batches there rest, asked batch here users key handles first)
                (prefer-same (registered users handles key))
          | inr none_first ↦
              rw (all_asked batches there rest, not_asked batch here users key handles none_first)
                (prefer-none (registered users handles key))
        ]
        | inr no_rest ↦
            (let first : any (text_eq key) batch ≡ true = ground (arith, split, on, no_rest) in
              rw (all_not_asked batches there no_rest, asked batch here users key handles first)
                refl)
      ]
