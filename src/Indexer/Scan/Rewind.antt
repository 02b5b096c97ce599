-- ===== src/Indexer/Scan/Rewind.antt =====
-- A contract's scan after a reorganisation of the chain, indexer/scanner.ts.
use benzo_main.Prelude.{
  ℕ, zero, suc, ◌+◌, ◌≤◌, ◌<◌, ◌≡◌, refl, sym, subst, Text, true, false, Option, none, some, [],
  ◌∷◌, arith, ltb, length, not, find, select, text_eq, to_lower_case,
}
use benzo_main.Service.{ok, bind_result, alone, atomic, transaction, ◌>>=◌, >>=-step}
use benzo_main.Indexer.{IndexedContract, IndexerEnv, IndexerState}
use benzo_main.Indexer.Tables.{in_window, is_cursor_of, delete_events_in_window, put_cursor}
use benzo_main.Indexer.Tables.Writes.{Fresh, put_cursor-events}
use benzo_main.Indexer.Scan.{
  boundary_needs_rescan, rewind_target, store_rewind, rewind_cursor_window, rewound, scan_step,
  scan_loop,
}
use benzo_main.Indexer.Scan.Chain.{SoundChain, rows_between}
use benzo_main.Indexer.Scan.Windows.{parent, at, get_previous_block_hash-eq, scan_loop-Scanned}
use benzo_main.Indexer.Scan.Resume.{Indexes, begun, cursor, finished, opens_at}

module _ (env : IndexerEnv) (head : ℕ) (chain : SoundChain env head) (contract : IndexedContract)
    (start target : ℕ) (target-le : target ≤ head)
    (window_pos : 0 < env.indexer_max_window_blocks) where
  -- The tables after a rewind from `from` to `to`.
  pub rewound_state : ℕ → ℕ → IndexerState → IndexerState
  rewound_state to from s =
      (put_cursor (cursor env head chain contract start target target-le window_pos to) (record s {
        events = select (λ x. not (in_window (to_lower_case contract.address) to from x)) s.events;
      })).1

  rewind_target-le :
      (from : ℕ) → start ≤ target → from ≤ target → rewind_target env start from ≤ target
  unfolding rewind_target
  rewind_target-le from below le = omega (arith, below, le)

  rewind-eq :
      (from i : ℕ) (first last : Option ℕ) (hash : Text) (s : IndexerState)
      → start ≤ target
      → from ≤ target
      → boundary_needs_rescan env (record { next_block = from; last_block_hash = some hash })
        ≡ ok true
      → scan_step env contract
          (to_lower_case contract.address)
          start
          target
          false
          (record {
            cursor = record { next_block = from; last_block_hash = some hash };
            inserted_or_updated = i;
            scanned_from = first;
            scanned_to = last;
          })
          (alone s)
        ≡ (
          ok (record {
            cursor = at env head chain (rewind_target env start from);
            inserted_or_updated = i;
            scanned_from = first;
            scanned_to = last;
          }),
          alone (rewound_state (rewind_target env start from) from s),
        )
  unfolding scan_step rewound rewind_cursor_window store_rewind rewound_state transaction atomic
      ◌>>=◌ delete_events_in_window put_cursor
  rewind-eq from i first last hash s below le stale = rw stale (
      rw
        (get_previous_block_hash-eq env head chain (rewind_target env start from)
          (omega (arith, rewind_target-le from below le, target-le)))
        refl)

  rewound_state-events :
      (to from : ℕ) (s : IndexerState)
      → (rewound_state to from s).events
        ≡ select (λ x. not (in_window (to_lower_case contract.address) to from x)) s.events
  unfolding rewound_state
  rewound_state-events to from s =
      put_cursor-events (cursor env head chain contract start target target-le window_pos to) _

  reorganised :
      (m : ℕ) (hash : Text)
      → suc m ≤ target
      → 0 < length hash
      → text_eq (to_lower_case (chain.blocks m).hash) (to_lower_case hash) ≡ false
      → boundary_needs_rescan env (record { next_block = suc m; last_block_hash = some hash })
        ≡ ok true
  unfolding boundary_needs_rescan bind_result
  reorganised m [] le some_hash other = absurd (omega (arith, some_hash))
  reorganised m (c ∷ s) le some_hash other =
      rw (chain.answers (suc m) (omega (arith, le, target-le)))
        (rw (parent env head chain m) (rw other (ground arith)))

  rescans :
      (fuel m : ℕ) (hash : Text) (s : IndexerState)
      → start ≤ target
      → suc m ≤ target
      → boundary_needs_rescan env (record { next_block = suc m; last_block_hash = some hash })
        ≡ ok true
      → scan_loop env contract
          (to_lower_case contract.address)
          start
          target
          false
          (suc fuel)
          (begun env head chain contract start target target-le window_pos
            (record { next_block = suc m; last_block_hash = some hash }))
          (alone s)
        ≡ scan_loop env contract
            (to_lower_case contract.address)
            start
            target
            false
            fuel
            (begun env head chain contract start target target-le window_pos
              (at env head chain (rewind_target env start (suc m))))
            (alone (rewound_state (rewind_target env start (suc m)) (suc m) s))
  unfolding scan_loop
  rescans fuel m hash s below le stale =
      let more : ltb target (suc m) ≡ false = ground (arith, le) in
      rw more (
        >>=-step _ (scan_loop env contract (to_lower_case contract.address) start target false fuel)
          (alone s) (rewind-eq (suc m) 0 none none hash s below le stale))

-- After a reorganisation, when the chain's block before the contract's cursor has another hash than
-- the one stored, the scan takes back one window, or what there is of it since the start block: it
-- ends, having removed the contract's rows of these blocks and added exactly those that the chain
-- has from there to the target. It does not look at the rows below that window. Nobody else
-- writes, and no new row has the key of a row that is kept or of another new one.
pub scan_contract_rewinds :
    (env : IndexerEnv) (head : ℕ) (chain : SoundChain env head) (contract : IndexedContract)
    (start target : ℕ) (target-le : target ≤ head) (window_pos : 0 < env.indexer_max_window_blocks)
    (fuel m : ℕ) (hash : Text) (s : IndexerState)
    → start ≤ target
    → suc m ≤ target
    → target + 2 < fuel
    → find (is_cursor_of (to_lower_case contract.address)) s.cursors
      ≡ some (record {
        contract = to_lower_case contract.address;
        next_block = suc m;
        last_block_hash = some hash;
      })
    → 0 < length hash
    → text_eq (to_lower_case (chain.blocks m).hash) (to_lower_case hash) ≡ false
    → Fresh
        (rows_between env head chain contract
          (to_lower_case contract.address)
          (rewind_target env start (suc m))
          (target + 1))
        (select
          (λ x. not (
            in_window (to_lower_case contract.address) (rewind_target env start (suc m)) (suc m) x))
          s.events)
    → Indexes env head chain contract start target target-le window_pos fuel
        (rewind_target env start (suc m))
        (select
          (λ x. not (
            in_window (to_lower_case contract.address) (rewind_target env start (suc m)) (suc m) x))
          s.events)
        s
scan_contract_rewinds env head chain contract start target target-le window_pos zero m hash s below
      le enough found some_hash other fresh =
    absurd (omega (arith, enough))
scan_contract_rewinds env head chain contract start target target-le window_pos (suc fuel) m hash s
      below le enough found some_hash other fresh =
    let to = rewind_target env start (suc m) in
    let address = to_lower_case contract.address in
    let t = rewound_state env head chain contract start target target-le window_pos to (suc m) s in
    let events =
      rewound_state-events env head chain contract start target target-le window_pos to (suc m) s in
    let stale =
      reorganised env head chain contract start target target-le window_pos m hash le some_hash
        other in
    let to-le =
      rewind_target-le env head chain contract start target target-le window_pos (suc m) below le in
    subst
      (λ kept.
        Indexes env head chain contract start target target-le window_pos (suc fuel) to kept s)
      events
      (finished env head chain contract start target target-le window_pos (suc fuel) fuel to s t
        (record { next_block = suc m; last_block_hash = some hash }) to-le
        (scan_loop-Scanned env head chain contract address start target target-le window_pos fuel to
          0 none none t (omega (arith, to-le)) (omega (arith, enough))
          (subst (Fresh (rows_between env head chain contract address to (target + 1))) (sym events)
            fresh))
        (opens_at env head chain contract start target target-le window_pos (suc fuel) s _ found)
        (rescans env head chain contract start target target-le window_pos fuel m hash s below le
          stale))
