-- ===== src/Indexer/Scan/Windows.antt =====
-- The scan's loop on a chain that answers consistently and whose blocks have not changed below the
-- cursor: windows follow one another up to the target.
use mathlib.Core.List.{append_assoc, append-nil}
use benzo_main.Prelude.{
  ℕ, zero, suc, ◌+◌, ◌-◌, ◌≤◌, ◌<◌, ◌≡◌, refl, ap, sym, subst, ◌∙◌, ◌⊎◌, inl, inr, Text, true,
  false, Option, none, some, List, [], ◌∷◌, ◌++◌, arith, min, length, length-append, ltb,
  text_eq_refl, to_lower_case, or_else, Bool-cases,
}
use benzo_main.Service.{ok, bind_result, alone, pure, atomic, transaction, ◌>>=◌, >>=-step}
use benzo_main.Indexer.{IndexedContract, IndexerEnv, Event, Cursor, IndexerState}
use benzo_main.Indexer.Tables.{upsert_events, put_cursor}
use benzo_main.Indexer.Tables.Writes.{
  Fresh, Fresh-append, Fresh-distinct, upsert_rows-append, CursorAt, put_cursor-CursorAt,
  put_cursor-events,
}
use benzo_main.Indexer.Scan.{
  Position, ScanProgress, upserted, store_window, boundary_needs_rescan, get_previous_block_hash,
  scan_next, scan_step, scan_loop,
}
use benzo_main.Indexer.Scan.Chain.{
  SoundChain, rows_of, rows_between, rows_between-split, scan_window-eq,
}

with_events : IndexerState → List Event → IndexerState
with_events s rows = record s { events = s.events ++ rows }

module _ (env : IndexerEnv) where
  upserted-eq :
      (rows : List Event) (s : IndexerState)
      → Fresh rows s.events
      → upserted env rows (alone s) ≡ (ok tt, alone (with_events s rows))
  unfolding with_events atomic upsert_events
  upserted-eq [] s h =
      ap (λ xs. (ok tt, alone (record s { events = xs }))) (sym (append-nil s.events))
  upserted-eq (row ∷ rows) s h =
      let some_rows : ltb 0 (length (row ∷ rows)) ≡ true = ground arith in
      rw some_rows (
        rw (Fresh-distinct (row ∷ rows) s.events h)
          (rw (upsert_rows-append env.now (row ∷ rows) s.events h)))

module _ (env : IndexerEnv) (head : ℕ) (chain : SoundChain env head) where
  abbrev pub hash_before : ℕ → Option Text
  hash_before zero = none
  hash_before (suc n) = some (chain.blocks n).hash

  -- Where a scan stands that has the chain's hash of the block before `n`.
  abbrev pub at : ℕ → Position
  at n = record { next_block = n; last_block_hash = hash_before n }

  hash_before-eq : (n : ℕ) → 0 < n → some (chain.blocks (n - 1)).hash ≡ hash_before n
  hash_before-eq zero h = absurd (omega (arith, h))
  hash_before-eq (suc n) h = ap (λ m. some (chain.blocks m).hash) (omega arith)

  pub get_previous_block_hash-eq :
      (n : ℕ) → n ≤ head + 1 → get_previous_block_hash env n ≡ ok (hash_before n)
  unfolding get_previous_block_hash bind_result
  get_previous_block_hash-eq zero h = refl
  get_previous_block_hash-eq (suc n) h = rw (chain.answers n (omega (arith, h)))

  pub parent : (n : ℕ) → (chain.blocks (suc n)).parent_hash ≡ (chain.blocks n).hash
  parent n = ap (λ m. (chain.blocks m).parent_hash) (omega arith) ∙ chain.linked n

  at_hash :
      (n : ℕ) (hash : Text)
      → suc n ≤ head
      → hash ≡ (chain.blocks n).hash
      → boundary_needs_rescan env (record { next_block = suc n; last_block_hash = some hash })
        ≡ ok false
  unfolding boundary_needs_rescan bind_result
  at_hash n [] le e = refl
  at_hash n (c ∷ s) le e =
      rw (chain.answers (suc n) le)
        (rw (parent n ∙ sym e) (rw (text_eq_refl (to_lower_case (c ∷ s))) (ground arith)))

  -- On the chain itself there is nothing to rescan.
  pub boundary-at : (n : ℕ) → n ≤ head → boundary_needs_rescan env (at n) ≡ ok false
  unfolding boundary_needs_rescan
  boundary-at zero le = refl
  boundary-at (suc n) le = at_hash n (chain.blocks n).hash le refl

module _ (env : IndexerEnv) (head : ℕ) (chain : SoundChain env head) (contract : IndexedContract)
    (address : Text) (start target : ℕ) (target-le : target ≤ head)
    (window_pos : 0 < env.indexer_max_window_blocks) where
  abbrev rows : ℕ → ℕ → List Event
  rows = rows_between env head chain contract address

  abbrev progress : ℕ → ℕ → Option ℕ → Option ℕ → ScanProgress
  progress n inserted from to = record {
    cursor = at env head chain n;
    inserted_or_updated = inserted;
    scanned_from = from;
    scanned_to = to;
  }

  abbrev pub cursor_at : ℕ → Cursor
  cursor_at n = record {
    contract = address;
    next_block = n;
    last_block_hash = hash_before env head chain n;
  }

  -- The tables after a window.
  stored : ℕ → ℕ → IndexerState → IndexerState
  stored n next s = (put_cursor (cursor_at next) (with_events s (rows n next))).1

  store_window-eq :
      (n next : ℕ) (s : IndexerState)
      → 0 < next
      → Fresh (rows n next) s.events
      → store_window env false address n next
          (record { events = rows n next; last_block = chain.blocks (next - 1) })
          (alone s)
        ≡ (ok tt, alone (stored n next s))
  unfolding store_window stored transaction atomic put_cursor
  store_window-eq n next s pos fresh = rw (>>=-step (pure tt) _ (alone s) refl) (
      rw (>>=-step (upserted env (rows n next)) _ (alone s) (upserted-eq env (rows n next) s fresh))
        (rw (hash_before-eq env head chain next pos) refl))

  stored-events :
      (n next : ℕ) (s : IndexerState) → (stored n next s).events ≡ s.events ++ rows n next
  unfolding stored with_events
  stored-events n next s = put_cursor-events (cursor_at next) (with_events s (rows n next))

  stored-CursorAt : (n next : ℕ) (s : IndexerState) → CursorAt (cursor_at next) (stored n next s)
  unfolding stored
  stored-CursorAt n next s = put_cursor-CursorAt (cursor_at next) (with_events s (rows n next))

  abbrev next_of : ℕ → ℕ
  next_of n = min (n + env.indexer_max_window_blocks) (target + 1)

  scan_step-eq :
      (n i : ℕ) (from to : Option ℕ) (s : IndexerState)
      → n ≤ target
      → Fresh (rows n (next_of n)) s.events
      → scan_step env contract address start target false (progress n i from to) (alone s) ≡ (
        ok (
            progress
              (next_of n)
              (i + length (rows n (next_of n)))
              (some (or_else from n))
              (some (next_of n - 1))),
        alone (stored n (next_of n) s),
      )
  unfolding scan_step scan_next ◌>>=◌
  scan_step-eq n i from to s le fresh =
      rw (boundary-at env head chain n (omega (arith, le, target-le))) (
        rw
          (scan_window-eq env head chain contract address n (next_of n)
            (omega (arith, le, window_pos)) (omega (arith, le, target-le)))
          (rw (store_window-eq n (next_of n) s (omega (arith, window_pos)) fresh)
            (rw (hash_before-eq env head chain (next_of n) (omega (arith, window_pos))) refl)))

  -- How the loop ends that is at `n` in `s`.
  pub record Scanned (fuel n i : ℕ) (from to : Option ℕ) (s : IndexerState) : Type 0 where
    pub after : IndexerState
    pub first : Option ℕ
    pub last : Option ℕ
    pub returns :
        scan_loop env contract address start target false fuel (progress n i from to) (alone s) ≡ (
          ok (some (progress (target + 1) (i + length (rows n (target + 1))) first last)),
          alone after,
        )
    pub indexed : after.events ≡ s.events ++ rows n (target + 1)
    pub moved :
        ((n ≡ target + 1) × (after ≡ s) × (first ≡ from) × (last ≡ to))
        ⊎ (CursorAt (cursor_at (target + 1)) after
            × (first ≡ some (or_else from n))
            × (last ≡ some target))

  rows_none : (n next : ℕ) → next ≤ n → rows n next ≡ []
  unfolding rows_between rows_of
  rows_none n next le = let e : next - n ≡ 0 = omega (arith, le) in rw e refl

  rows_split :
      (n : ℕ)
      → n ≤ target
      → rows n (target + 1) ≡ rows n (next_of n) ++ rows (next_of n) (target + 1)
  rows_split n le =
      rows_between-split env head chain contract address n (next_of n) (target + 1)
        (omega (arith, le, window_pos)) (omega arith)

  Fresh-split :
      (n : ℕ) (s : IndexerState)
      → n ≤ target
      → Fresh (rows n (target + 1)) s.events
      → Fresh (rows n (next_of n)) s.events
        × Fresh (rows (next_of n) (target + 1)) (stored n (next_of n) s).events
  Fresh-split n s le fresh =
      let (first, rest) =
        Fresh-append (rows n (next_of n)) (rows (next_of n) (target + 1)) s.events
          (subst (λ rs. Fresh rs s.events) (rows_split n le) fresh) in
      (
        first,
        subst (Fresh (rows (next_of n) (target + 1))) (sym (stored-events n (next_of n) s)) rest,
      )

  loop_done :
      (fuel n i : ℕ) (from to : Option ℕ) (s : IndexerState)
      → n ≡ target + 1
      → Scanned (suc fuel) n i from to s
  unfolding scan_loop
  loop_done fuel n i from to s e =
      let over : ltb target n ≡ true = ground (arith, e) in
      let none_left = rows_none n (target + 1) (omega (arith, e)) in
      let same : i + length (rows n (target + 1)) ≡ i = rw none_left (omega arith) in
      record {
        after = s;
        first = from;
        last = to;
        returns = rw over (rw same (rw (← e) refl));
        indexed = rw none_left (sym (append-nil s.events));
        moved = inl (e, refl, refl, refl);
      }

  module _ (fuel n i : ℕ) (from to : Option ℕ) (s : IndexerState) (le : n ≤ target)
      (fresh : Fresh (rows n (target + 1)) s.events)
      (rest : Scanned fuel
        (next_of n)
        (i + length (rows n (next_of n)))
        (some (or_else from n))
        (some (next_of n - 1))
        (stored n (next_of n) s)) where
    total :
        i + length (rows n (next_of n)) + length (rows (next_of n) (target + 1))
        ≡ i + length (rows n (target + 1))
    total =
        rw (rows_split n le)
          (omega (arith, length-append {0} (rows n (next_of n)) (rows (next_of n) (target + 1))))

    loop_more : Scanned (suc fuel) n i from to s
    unfolding scan_loop
    loop_more =
        let more : ltb target n ≡ false = ground (arith, le) in
        record {
          after = rest.after;
          first = rest.first;
          last = rest.last;
          returns = rw more (
              >>=-step _ (scan_loop env contract address start target false fuel) (alone s)
                (scan_step-eq n i from to s le (Fresh-split n s le fresh).0)
              ∙ rest.returns
              ∙ rw total refl);
          indexed =
              rest.indexed
              ∙ rw (stored-events n (next_of n) s, rows_split n le)
                  (append_assoc s.events (rows n (next_of n)) (rows (next_of n) (target + 1)));
          moved = inr (elim (rest.moved) [
            | inl (e, same, first, last) ↦ (
              subst (λ m. CursorAt (cursor_at m) rest.after) e
                  (subst (CursorAt (cursor_at (next_of n))) (sym same)
                    (stored-CursorAt n (next_of n) s)),
              first,
              last ∙ ap (λ m. some m) (omega (arith, e)),
            )
            | inr (there, first, last) ↦ (there, first, last)
          ]);
        }

  pub scan_loop-Scanned :
      (fuel n i : ℕ) (from to : Option ℕ) (s : IndexerState)
      → n ≤ target + 1
      → target + 1 < n + fuel
      → Fresh (rows n (target + 1)) s.events
      → Scanned fuel n i from to s
  scan_loop-Scanned zero n i from to s le enough fresh = absurd (omega (arith, le, enough))
  scan_loop-Scanned (suc fuel) n i from to s le enough fresh = elim (Bool-cases (ltb target n)) [
    | inl over ↦ loop_done fuel n i from to s (ground (arith, over, le))
    | inr more ↦
        (let below : n ≤ target = ground (arith, more) in
          loop_more fuel n i from to s below fresh (
            scan_loop-Scanned fuel (next_of n) (i + length (rows n (next_of n)))
              (some (or_else from n)) (some (next_of n - 1)) (stored n (next_of n) s) (omega arith)
              (omega (arith, below, window_pos, enough)) (Fresh-split n s below fresh).1))
  ]
