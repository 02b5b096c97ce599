-- ===== src/Indexer/Scan.antt =====
-- The scan: `runIndexerOnce`, `scanContract`, `scanWindow`, `boundaryNeedsRescan`,
-- `rewindCursorWindow` and the block cache of indexer/scanner.ts. `config.ts` makes the window at
-- least one block. The `while` loop takes fuel; `none` says that the fuel ran out.
pub mod Chain
pub mod Windows
pub mod Resume
pub mod Rewind
use benzo_main.Prelude.{
  ℕ, zero, suc, ◌+◌, ◌-◌, ◌≡◌, Text, Bool, true, false, Option, none, some, List, [], ◌∷◌, ◌++◌,
  min, max, not, ltb, leb, ◌==◌, text_eq, length, to_lower_case, or_else, is_some, if◌then◌else◌,
}
use benzo_main.Service.{
  Action, Result, ok, err, bind_result, pure, lift, atomic, transaction, ◌>>=◌, ◌>>◌,
}
use benzo_main.Indexer.{
  ChainBlock, ChainLog, ContractName, encrypted_erc, registrar, IndexedContract, IndexerEnv, Event,
  Cursor, IndexerState,
}
use benzo_main.Indexer.Decode.{DecodedEvent, normalize_address, decode_indexed_event, event_row}
use benzo_main.Indexer.Tables.{upsert_events, delete_events_in_window, put_cursor, load_cursor}

-- `{ lastBlock, lastBlockHash }`
pub record Position : Type 0 where
  pub next_block : ℕ
  pub last_block_hash : Option Text

pub record ScanProgress : Type 0 where
  pub cursor : Position
  pub inserted_or_updated : ℕ
  pub scanned_from : Option ℕ
  pub scanned_to : Option ℕ

pub record ContractResult : Type 0 where
  pub address : Text
  pub inserted_or_updated : ℕ
  pub scanned_from : Option ℕ
  pub scanned_to : Option ℕ

pub record IndexerRunResult : Type 0 where
  pub contracts : List ContractResult
  pub latest_block : ℕ
  pub confirmed_block : ℕ

pub record Window : Type 0 where
  pub events : List Event
  pub last_block : ChainBlock

-- `Map<bigint, ChainBlock>`
abbrev pub BlockCache : Type 0
BlockCache = List (ℕ × ChainBlock)

abbrev pub cached_block : ℕ → BlockCache → Option ChainBlock
cached_block n [] = none
cached_block n ((m, block) ∷ cache) = if m == n then some block else cached_block n cache

module _ (env : IndexerEnv) where
  abbrev pub hit_or_read : BlockCache → ℕ → Option ChainBlock → Result (ChainBlock × BlockCache)
  hit_or_read cache n (some block) = ok (block, cache)
  hit_or_read cache n none = bind_result (env.get_block n) λ block. ok (block, (n, block) ∷ cache)

  unfoldable pub get_cached_block : BlockCache → ℕ → Result (ChainBlock × BlockCache)
  get_cached_block cache n = hit_or_read cache n (cached_block n cache)

  -- One log, given what indexes the logs after it.
  abbrev pub index_log :
      Text
      → BlockCache
      → ChainLog
      → (BlockCache → Result (List Event))
      → Option DecodedEvent
      → Result (List Event)
  index_log address cache log rest none = rest cache
  index_log address cache log rest (some decoded) =
      bind_result (get_cached_block cache log.block_number)
        λ p. bind_result (rest p.1) λ rows. ok (event_row env address log decoded p.0 ∷ rows)

  -- The `for` loop over the logs of a window.
  unfoldable pub index_logs :
      IndexedContract → Text → BlockCache → List ChainLog → Result (List Event)
  index_logs contract address cache [] = ok []
  index_logs contract address cache (log ∷ logs) =
      index_log address cache log (λ c. index_logs contract address c logs)
        (decode_indexed_event env contract log)

  -- From a block up to, and without, `next`.
  unfoldable pub scan_window : IndexedContract → Text → ℕ → ℕ → Result Window
  scan_window contract address from next =
      bind_result (env.get_logs contract.address from (next - 1)) λ logs.
        bind_result (env.get_block (next - 1)) λ last.
          bind_result (index_logs contract address ((last.number, last) ∷ []) logs)
            λ rows. ok (record { events = rows; last_block = last })

  -- The hash of the block before `next`.
  unfoldable pub get_previous_block_hash : ℕ → Result (Option Text)
  get_previous_block_hash zero = ok none
  get_previous_block_hash (suc n) = bind_result (env.get_block n) λ block. ok (some block.hash)

  abbrev differs : ℕ → Text → Result Bool
  differs from hash =
      bind_result (env.get_block from)
        λ child. ok (not (text_eq (to_lower_case child.parent_hash) (to_lower_case hash)))

  abbrev pub boundary : ℕ → Option Text → Result Bool
  boundary next none = ok false
  boundary next (some []) = ok false
  boundary next (some (c ∷ s)) = if next == 0 then ok false else differs next (c ∷ s)

  unfoldable pub boundary_needs_rescan : Position → Result Bool
  boundary_needs_rescan cursor = boundary cursor.next_block cursor.last_block_hash

  unfoldable pub rewind_target : ℕ → ℕ → ℕ
  rewind_target start next = max start (next - env.indexer_max_window_blocks)

  -- The transaction of a rewind, and that of a window.
  unfoldable pub store_rewind : Text → ℕ → ℕ → Option Text → Action IndexerState (Unit {0})
  store_rewind address to next hash = transaction do
    atomic (delete_events_in_window address to next)
    atomic (put_cursor (record { contract = address; next_block = to; last_block_hash = hash }))

  unfoldable pub rewind_cursor_window : Text → ℕ → Position → Action IndexerState Position
  rewind_cursor_window address start cursor =
      let to = rewind_target start cursor.next_block in
      do
        hash ← lift (get_previous_block_hash to)
        store_rewind address to cursor.next_block hash
        pure (record { next_block = to; last_block_hash = hash })

  abbrev upserted : List Event → Action IndexerState (Unit {0})
  upserted rows = if ltb 0 (length rows) then atomic (upsert_events env.now rows) else pure tt

  abbrev replaced : Bool → Text → ℕ → ℕ → Action IndexerState (Unit {0})
  replaced replace address from next =
      if replace then atomic (delete_events_in_window address from next) else pure tt

  unfoldable pub store_window : Bool → Text → ℕ → ℕ → Window → Action IndexerState (Unit {0})
  store_window replace address from next window = transaction do
    replaced replace address from next
    upserted window.events
    atomic (
        put_cursor (record {
          contract = address;
          next_block = next;
          last_block_hash = some window.last_block.hash;
        }))

  abbrev pub advanced : ScanProgress → ℕ → Window → ScanProgress
  advanced p next window = record {
    cursor = record { next_block = next; last_block_hash = some window.last_block.hash };
    inserted_or_updated = p.inserted_or_updated + length window.events;
    scanned_from = some (or_else p.scanned_from p.cursor.next_block);
    scanned_to = some (next - 1);
  }

  abbrev pub position : ℕ → Option Cursor → Action IndexerState Position
  position start (some c) =
      pure (record { next_block = c.next_block; last_block_hash = c.last_block_hash })
  position start none = do
    hash ← lift (get_previous_block_hash start)
    pure (record { next_block = start; last_block_hash = hash })

  abbrev pub existing_cursor : Text → Option ℕ → Action IndexerState (Option Cursor)
  existing_cursor address (some from) = pure none
  existing_cursor address none = load_cursor address

  abbrev pub contract_result : Text → Option ScanProgress → Option ContractResult
  contract_result address none = none
  contract_result address (some p) = some (record {
    address = address;
    inserted_or_updated = p.inserted_or_updated;
    scanned_from = p.scanned_from;
    scanned_to = p.scanned_to;
  })

  module _ (contract : IndexedContract) (address : Text) (start target : ℕ) (replace : Bool) where
    unfoldable pub scan_next : ScanProgress → Action IndexerState ScanProgress
    scan_next p =
        let from = p.cursor.next_block in
        let next = min (from + env.indexer_max_window_blocks) (target + 1) in
        do
          window ← lift (scan_window contract address from next)
          store_window replace address from next window
          pure (advanced p next window)

    unfoldable pub rewound : ScanProgress → Action IndexerState ScanProgress
    rewound p = do
      cursor ← rewind_cursor_window address start p.cursor
      pure (record p { cursor = cursor })

    -- The body of the `while` loop.
    unfoldable pub scan_step : ScanProgress → Action IndexerState ScanProgress
    scan_step p = do
      stale ← lift (boundary_needs_rescan p.cursor)
      if stale then rewound p else scan_next p

    unfoldable pub scan_loop : ℕ → ScanProgress → Action IndexerState (Option ScanProgress)
    scan_loop zero p = pure none
    scan_loop (suc fuel) p =
        if ltb target p.cursor.next_block then pure (some p) else (scan_step p >>= scan_loop fuel)

    unfoldable pub scan_from : ℕ → Position → Action IndexerState (Option ContractResult)
    scan_from fuel cursor = do
      done ← scan_loop fuel (record {
        cursor = cursor;
        inserted_or_updated = 0;
        scanned_from = none;
        scanned_to = none;
      })
      pure (contract_result address done)

  unfoldable pub scan_contract :
      Option ℕ → ℕ → ℕ → ℕ → IndexedContract → Action IndexerState (Option ContractResult)
  scan_contract from_block fuel start target contract =
      let address = to_lower_case contract.address in
      do
        existing ← existing_cursor address from_block
        cursor ← position start existing
        scan_from contract address start target (is_some from_block) fuel cursor

  unfoldable pub get_indexed_contracts : Result (List IndexedContract)
  get_indexed_contracts = bind_result (normalize_address env env.eerc_encrypted_erc_address) λ a.
      bind_result (normalize_address env env.eerc_registrar_address) λ b. ok (
        record { address = a; name = encrypted_erc }
        ∷ record { address = b; name = registrar }
        ∷ [])

  abbrev pub with_result :
      Option ContractResult → Option (List ContractResult) → Option (List ContractResult)
  with_result none rest = none
  with_result (some r) none = none
  with_result (some r) (some rs) = some (r ∷ rs)

  -- The `for` loop over the contracts.
  unfoldable pub scan_contracts :
      ℕ → ℕ → ℕ → List IndexedContract → Action IndexerState (Option (List ContractResult))
  scan_contracts fuel start target [] = pure (some [])
  scan_contracts fuel start target (contract ∷ contracts) = do
    result ← scan_contract env.from_block fuel start target contract
    rest ← scan_contracts fuel start target contracts
    pure (with_result result rest)

  abbrev nothing_scanned : List IndexedContract → List ContractResult
  nothing_scanned [] = []
  nothing_scanned (c ∷ cs) =
      record {
        address = to_lower_case c.address;
        inserted_or_updated = 0;
        scanned_from = none;
        scanned_to = none;
      }
      ∷ nothing_scanned cs

  abbrev run_result : ℕ → ℕ → Option (List ContractResult) → Option IndexerRunResult
  run_result latest target none = none
  run_result latest target (some rs) =
      some (record { contracts = rs; latest_block = latest; confirmed_block = target })

  abbrev target_block : Option ℕ → ℕ → ℕ
  target_block none confirmed = confirmed
  target_block (some to) confirmed = min confirmed to

  unfoldable pub run_indexer_once : ℕ → Action IndexerState (Option IndexerRunResult)
  run_indexer_once fuel = do
    latest ← lift env.get_block_number
    contracts ← lift get_indexed_contracts
    let target = target_block env.to_block (latest - env.indexer_confirmations)
    let start = or_else env.from_block env.indexer_start_block
    if ltb target start
        then pure (run_result latest target (some (nothing_scanned contracts)))
        else (do
          results ← scan_contracts fuel start target contracts
          pure (run_result latest target results))
