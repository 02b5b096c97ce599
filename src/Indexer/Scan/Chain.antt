-- ===== src/Indexer/Scan/Chain.antt =====
-- What the scan reads from a chain that answers consistently.
use benzo_main.Prelude.{
  ℕ, zero, suc, ◌+◌, ◌-◌, ◌≤◌, ◌<◌, ◌≡◌, refl, ap, sym, ◌∙◌, Text, Option, none, some, List, [],
  ◌∷◌, ◌++◌, arith, All, All-append, All-imp, inl, inr, Option-cases,
}
use mathlib.Core.List.{append_assoc}
use benzo_main.Service.{ok, bind_result}
use benzo_main.Indexer.{ChainBlock, ChainLog, IndexedContract, IndexerEnv, Event}
use benzo_main.Indexer.Decode.{DecodedEvent, decode_indexed_event, event_row}
use benzo_main.Indexer.Scan.{BlockCache, cached_block, get_cached_block, index_logs, scan_window}

-- The logs of `count` blocks, block by block.
abbrev pub logs_between : (ℕ → List ChainLog) → ℕ → ℕ → List ChainLog
logs_between logs from zero = []
logs_between logs from (suc count) = logs from ++ logs_between logs (from + 1) count

-- The source answers for every block up to `head`, by one chain: each block names the hash of the
-- block before it, and `getLogs` gives the logs of the blocks asked for, in their order.
pub record SoundChain (env : IndexerEnv) (head : ℕ) : Type 0 where
  pub blocks : ℕ → ChainBlock
  pub logs : Text → ℕ → List ChainLog
  pub answers : (n : ℕ) → n ≤ head → env.get_block n ≡ ok (blocks n)
  pub numbered : (n : ℕ) → (blocks n).number ≡ n
  pub linked : (n : ℕ) → (blocks (n + 1)).parent_hash ≡ (blocks n).hash
  pub answers_logs :
      (a : Text) (from count : ℕ)
      → from + count ≤ head
      → env.get_logs a from (from + count) ≡ ok (logs_between (logs a) from (suc count))
  pub logs_numbered : (a : Text) (n : ℕ) → All (λ (log : ChainLog). log.block_number ≡ n) (logs a n)

pub logs_between-append :
    (logs : ℕ → List ChainLog) (from i j : ℕ)
    → logs_between logs from (i + j) ≡ logs_between logs from i ++ logs_between logs (from + i) j
logs_between-append logs from zero j =
    let e : 0 + j ≡ j = omega arith in let f : from + 0 ≡ from = omega arith in rw (e, f) refl
logs_between-append logs from (suc i) j =
    let e : suc i + j ≡ suc (i + j) = omega arith in
    let f : from + suc i ≡ from + 1 + i = omega arith in
    rw (e, f) (rw (logs_between-append logs (from + 1) i j) (sym (append_assoc (logs from) _ _)))

module _ (env : IndexerEnv) (head : ℕ) (chain : SoundChain env head) (contract : IndexedContract)
    (address : Text) where
  abbrev with_row : ChainLog → List Event → Option DecodedEvent → List Event
  with_row log rows none = rows
  with_row log rows (some decoded) =
      event_row env address log decoded (chain.blocks log.block_number) ∷ rows

  -- The rows of some logs, each with the time of its block.
  unfoldable pub rows_of : List ChainLog → List Event
  rows_of [] = []
  rows_of (log ∷ logs) = with_row log (rows_of logs) (decode_indexed_event env contract log)

  pub rows_of-append : (xs ys : List ChainLog) → rows_of (xs ++ ys) ≡ rows_of xs ++ rows_of ys
  unfolding rows_of
  rows_of-append [] ys = refl
  rows_of-append (log ∷ xs) ys = elim (Option-cases (decode_indexed_event env contract log)) [
    | inl skip ↦ rw skip (rows_of-append xs ys)
    | inr (d, found) ↦ rw found (
        ap (λ rs. event_row env address log d (chain.blocks log.block_number) ∷ rs)
          (rows_of-append xs ys))
  ]

  -- The rows of the blocks from `from` up to, and without, `next`.
  unfoldable pub rows_between : ℕ → ℕ → List Event
  rows_between from next = rows_of (logs_between (chain.logs contract.address) from (next - from))

  pub rows_between-split :
      (from middle next : ℕ)
      → from ≤ middle
      → middle ≤ next
      → rows_between from next ≡ rows_between from middle ++ rows_between middle next
  unfolding rows_between
  rows_between-split from middle next h k =
      let e : next - from ≡ (middle - from) + (next - middle) = omega arith in
      let f : from + (middle - from) ≡ middle = omega arith in
      rw e (
        rw (logs_between-append (chain.logs contract.address) from (middle - from) (next - middle))
          (rw f
            (rows_of-append (logs_between (chain.logs contract.address) from (middle - from)) _)))

  abbrev CacheSound : BlockCache → Type 0
  CacheSound cache = All (λ (p : ℕ × ChainBlock). p.1 ≡ chain.blocks p.0) cache

  cached_block_sound :
      (n : ℕ) (cache : BlockCache) (block : ChainBlock)
      → CacheSound cache
      → cached_block n cache ≡ some block
      → block ≡ chain.blocks n
  cached_block_sound n [] block h e = cc
  cached_block_sound n ((m, b) ∷ cache) block h e = ground (arith, cached_block_sound n cache block)

  get_cached_block-eq :
      (n : ℕ) (cache : BlockCache)
      → CacheSound cache
      → n ≤ head
      → (cache' : BlockCache) × (get_cached_block env cache n ≡ ok (chain.blocks n, cache'))
        × CacheSound cache'
  unfolding get_cached_block bind_result
  get_cached_block-eq n cache h le = elim (Option-cases (cached_block n cache)) [
    | inl miss ↦ ((n, chain.blocks n) ∷ cache, rw miss (rw (chain.answers n le) refl), (refl, h))
    | inr (block, hit) ↦
        (cache, rw hit (ap (λ b. ok (b, cache)) (cached_block_sound n cache block h hit)), h)
  ]

  -- The cache does not change the rows.
  index_logs-eq :
      (logs : List ChainLog) (cache : BlockCache)
      → CacheSound cache
      → All (λ (log : ChainLog). log.block_number ≤ head) logs
      → index_logs env contract address cache logs ≡ ok (rows_of logs)
  unfolding index_logs rows_of bind_result
  index_logs-eq [] cache h le = refl
  index_logs-eq (log ∷ logs) cache h le =
      elim (Option-cases (decode_indexed_event env contract log)) [
        | inl skip ↦ rw skip (index_logs-eq logs cache h le.1)
        | inr (d, found) ↦
            (let (cache', read, sound) = get_cached_block-eq log.block_number cache h le.0 in
              rw found (rw read (rw (index_logs-eq logs cache' sound le.1))))
      ]

  logs_between-bound :
      (from count : ℕ)
      → from + count ≤ head + 1
      → All
          (λ (log : ChainLog). log.block_number ≤ head)
          (logs_between (chain.logs contract.address) from count)
  logs_between-bound from zero le = tt
  logs_between-bound from (suc count) le =
      All-append _ (chain.logs contract.address from) _
        (All-imp _ _ (chain.logs contract.address from) (λ log e. omega (arith, e))
          (chain.logs_numbered contract.address from))
        (logs_between-bound (from + 1) count (omega arith))

  -- A window's rows are those of its blocks.
  pub scan_window-eq :
      (from next : ℕ)
      → from < next
      → next ≤ head + 1
      → scan_window env contract address from next
        ≡ ok (record { events = rows_between from next; last_block = chain.blocks (next - 1) })
  unfolding scan_window rows_between bind_result
  scan_window-eq from next lt le =
      let e : next - 1 ≡ from + (next - from - 1) = omega arith in
      let count : suc (next - from - 1) ≡ next - from = omega arith in
      let read : env.get_logs contract.address from (next - 1)
          ≡ ok (logs_between (chain.logs contract.address) from (next - from)) =
        rw e (
          chain.answers_logs contract.address from (next - from - 1) (omega arith)
          ∙ ap (λ n. ok (logs_between (chain.logs contract.address) from n)) count) in
      rw read (
        rw (chain.answers (next - 1) (omega arith)) (
          rw (
            index_logs-eq (logs_between (chain.logs contract.address) from (next - from))
              (((chain.blocks (next - 1)).number, chain.blocks (next - 1)) ∷ [])
              (ap chain.blocks (sym (chain.numbered (next - 1))), tt)
              (logs_between-bound from (next - from) (omega arith)))))
