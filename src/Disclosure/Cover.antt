-- ===== src/Disclosure/Cover.antt =====
-- Which events an auditor's key covers, auditor/service.ts: those from its activation on and before
-- its retirement, by block, then by log index or, without one, by the transaction's index.
use benzo_main.Prelude.{
  ℕ, ◌≤◌, ◌<◌, ◌≡◌, ◌⊎◌, refl, ap, ◌∙◌, Text, Bool, true, false, Option, none, some, inl, inr,
  arith, ltb, ltb→lt, ltb-false→le, Bool-cases, if◌then◌else◌,
}
use benzo_main.Service.{ok, err, error, bind_result-eq-ok, ok-injective}
use benzo_main.Indexer.{Event}
use benzo_main.Disclosure.{
  AuditorKey, Order, same, compare_to, by_transaction, in_block, compare_event_to_boundary,
  not_before, is_rotated, is_at_or_after_activation, before_block, is_before_retirement,
  key_covers_event,
}

-- At or after an activation in the same block. A key that no rotation made may lack the positions.
abbrev pub NotEarlier : Option ℕ → Option ℕ → Option Text → ℕ → Option ℕ → Type 0
NotEarlier (some log) transaction rotation log_index index = log ≤ log_index
NotEarlier none (some transaction) rotation log_index (some index) = transaction ≤ index
NotEarlier none (some transaction) rotation log_index none = rotation ≡ none
NotEarlier none none rotation log_index index = rotation ≡ none

-- Before a retirement in the same block.
abbrev pub Earlier : Option ℕ → Option ℕ → ℕ → Option ℕ → Type 0
Earlier (some log) transaction log_index index = log_index < log
Earlier none (some transaction) log_index (some index) = index < transaction
Earlier none (some transaction) log_index none = ⊥
Earlier none none log_index index = ⊥

abbrev pub Retires : Option ℕ → AuditorKey → Event → Type 0
Retires none key row = Unit
Retires (some block) key row =
    (row.block_number < block)
    ⊎ ((row.block_number ≡ block)
        × Earlier key.retired_log_index key.retired_transaction_index row.log_index
            row.transaction_index)

pub record InForce (key : AuditorKey) (row : Event) : Type 0 where
  pub active :
      (key.activated_block_number < row.block_number)
      ⊎ ((row.block_number ≡ key.activated_block_number)
          × NotEarlier key.activated_log_index key.activated_transaction_index key.rotation_tx_hash
              row.log_index row.transaction_index)
  pub unretired : Retires key.retired_block_number key row

compare_to-not_before : (a b : ℕ) → not_before (compare_to a b) ≡ true → b ≤ a
compare_to-not_before a b h = elim (Bool-cases (ltb a b)) [
  | inl less ↦ cc (rw less at h)
  | inr more ↦ ltb-false→le a b more
]

compare_to-before : (a b : ℕ) → not_before (compare_to a b) ≡ false → a < b
compare_to-before a b h = elim (Bool-cases (ltb a b)) [
  | inl less ↦ ltb→lt a b less
  | inr more ↦ elim (Bool-cases (ltb b a)) [
    | inl above ↦ cc (rw (more, above) at h)
    | inr equal ↦ cc (rw (more, equal) at h)
  ]
]

unrotated : (rotation : Option Text) → is_rotated rotation ≡ false → rotation ≡ none
unrotated none h = refl
unrotated (some hash) h = cc h

-- Without a boundary or a position, an event is placed only if no position is needed.
placed :
    (rotation : Option Text) (order : Order)
    → (if is_rotated rotation then err (error "auditor_key_ambiguous_for_event") else ok same)
      ≡ ok order
    → rotation ≡ none
placed none order h = refl
placed (some hash) order h = cc h

by_transaction-NotEarlier :
    (transaction : Option ℕ) (rotation : Option Text) (log_index : ℕ) (index : Option ℕ)
    (order : Order)
    → by_transaction (is_rotated rotation) transaction index ≡ ok order
    → not_before order ≡ true
    → NotEarlier none transaction rotation log_index index
by_transaction-NotEarlier (some t) rotation log_index (some i) order h on =
    compare_to-not_before i t (ap not_before (ok-injective h) ∙ on)
by_transaction-NotEarlier (some t) rotation log_index none order h on = placed rotation order h
by_transaction-NotEarlier none rotation log_index index order h on = placed rotation order h

in_block-NotEarlier :
    (row : Event) (log transaction : Option ℕ) (rotation : Option Text) (order : Order)
    → in_block row log (is_rotated rotation) transaction ≡ ok order
    → not_before order ≡ true
    → NotEarlier log transaction rotation row.log_index row.transaction_index
in_block-NotEarlier row (some l) transaction rotation order h on =
    compare_to-not_before row.log_index l (ap not_before (ok-injective h) ∙ on)
in_block-NotEarlier row none transaction rotation order h on =
    by_transaction-NotEarlier transaction rotation row.log_index row.transaction_index order h on

by_transaction-Earlier :
    (transaction : Option ℕ) (log_index : ℕ) (index : Option ℕ) (order : Order)
    → by_transaction true transaction index ≡ ok order
    → not_before order ≡ false
    → Earlier none transaction log_index index
by_transaction-Earlier (some t) log_index (some i) order h off =
    compare_to-before i t (ap not_before (ok-injective h) ∙ off)
by_transaction-Earlier (some t) log_index none order h off = cc h
by_transaction-Earlier none log_index index order h off = cc h

in_block-Earlier :
    (row : Event) (log transaction : Option ℕ) (order : Order)
    → in_block row log true transaction ≡ ok order
    → not_before order ≡ false
    → Earlier log transaction row.log_index row.transaction_index
in_block-Earlier row (some l) transaction order h off =
    compare_to-before row.log_index l (ap not_before (ok-injective h) ∙ off)
in_block-Earlier row none transaction order h off =
    by_transaction-Earlier transaction row.log_index row.transaction_index order h off

module _ (row : Event) (block : ℕ) (log : Option ℕ) (requires : Bool) (transaction : Option ℕ)
    (order : Order) where
  later-or-in_block :
      compare_event_to_boundary row block log requires transaction ≡ ok order
      → not_before order ≡ true
      → (block < row.block_number)
        ⊎ ((row.block_number ≡ block) × (in_block row log requires transaction ≡ ok order))
  unfolding compare_event_to_boundary
  later-or-in_block h on = elim (Bool-cases (ltb row.block_number block)) [
    | inl less ↦ (let is = ap not_before (ok-injective (rw less at h)) in cc (is, on))
    | inr more ↦ elim (Bool-cases (ltb block row.block_number)) [
      | inl above ↦ inl (ltb→lt block row.block_number above)
      | inr equal ↦ inr (
        omega (
          arith,
          ltb-false→le row.block_number block more,
          ltb-false→le block row.block_number equal,
        ),
        rw (more, equal) at h,
      )
    ]
  ]

  earlier-or-in_block :
      compare_event_to_boundary row block log requires transaction ≡ ok order
      → not_before order ≡ false
      → (row.block_number < block)
        ⊎ ((row.block_number ≡ block) × (in_block row log requires transaction ≡ ok order))
  unfolding compare_event_to_boundary
  earlier-or-in_block h off = elim (Bool-cases (ltb row.block_number block)) [
    | inl less ↦ inl (ltb→lt row.block_number block less)
    | inr more ↦ elim (Bool-cases (ltb block row.block_number)) [
      | inl above ↦ (let is = ap not_before (ok-injective (rw (more, above) at h)) in cc (is, off))
      | inr equal ↦ inr (
        omega (
          arith,
          ltb-false→le row.block_number block more,
          ltb-false→le block row.block_number equal,
        ),
        rw (more, equal) at h,
      )
    ]
  ]

before_block-Retires :
    (key : AuditorKey) (row : Event) (retired : Option ℕ)
    → before_block key row retired ≡ ok true
    → Retires retired key row
before_block-Retires key row none h = tt
before_block-Retires key row (some block) h =
    let (order, is, rest) =
      bind_result-eq-ok
        (compare_event_to_boundary row block key.retired_log_index true
          key.retired_transaction_index)
        _ h in
    let off : not_before order ≡ false = ground (arith, ok-injective rest) in
    elim (earlier-or-in_block row block key.retired_log_index true key.retired_transaction_index
      order is off) [
        | inl less ↦ inl less
        | inr (same_block, placed_in) ↦
            inr (same_block, in_block-Earlier row _ _ order placed_in off)
      ]

activation :
    (key : AuditorKey) (row : Event)
    → is_at_or_after_activation key row ≡ ok true
    → (key.activated_block_number < row.block_number)
      ⊎ ((row.block_number ≡ key.activated_block_number)
          × NotEarlier key.activated_log_index key.activated_transaction_index key.rotation_tx_hash
              row.log_index row.transaction_index)
unfolding is_at_or_after_activation
activation key row h =
    let (order, is, rest) = bind_result-eq-ok _ _ h in
    let on = ok-injective rest in
    elim (later-or-in_block row _ _ _ _ order is on) [
      | inl more ↦ inl more
      | inr (same_block, placed_in) ↦
          inr (same_block, in_block-NotEarlier row _ _ key.rotation_tx_hash order placed_in on)
    ]

pub key_covers_event-InForce :
    (key : AuditorKey) (row : Event) → key_covers_event key row ≡ ok true → InForce key row
unfolding key_covers_event is_before_retirement
key_covers_event-InForce key row h =
    let (active, is, rest) = bind_result-eq-ok (is_at_or_after_activation key row) _ h in
    elim (Bool-cases active) [
      | inl on ↦ record {
        active = activation key row (is ∙ ap ok on);
        unretired = before_block-Retires key row key.retired_block_number (rw on at rest);
      }
      | inr off ↦ (let e = ok-injective (rw off at rest) in cc e)
    ]
