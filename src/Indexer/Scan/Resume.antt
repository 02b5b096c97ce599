-- ===== src/Indexer/Scan/Resume.antt =====
-- A contract's scan from its cursor to the target, indexer/scanner.ts.
use benzo_main.Prelude.{
  ℕ, ◌+◌, ◌≤◌, ◌<◌, ◌≡◌, refl, ◌∙◌, ◌⊎◌, inl, inr, Text, false, none, some, List, ◌++◌, arith,
  length, find, to_lower_case,
}
use benzo_main.Service.{ok, alone, atomic, ◌>>=◌, >>=-step}
use benzo_main.Indexer.{IndexedContract, IndexerEnv, Event, Cursor, IndexerState}
use benzo_main.Indexer.Tables.{is_cursor_of, load_cursor}
use benzo_main.Indexer.Tables.Writes.{Fresh, CursorAt}
use benzo_main.Indexer.Scan.{Position, ScanProgress, scan_loop, scan_from, scan_contract}
use benzo_main.Indexer.Scan.Chain.{SoundChain, rows_between}
use benzo_main.Indexer.Scan.Windows.{
  at, cursor_at, get_previous_block_hash-eq, Scanned, scan_loop-Scanned,
}

module _ (env : IndexerEnv) (head : ℕ) (chain : SoundChain env head) (contract : IndexedContract)
    (start target : ℕ) (target-le : target ≤ head)
    (window_pos : 0 < env.indexer_max_window_blocks) where
  abbrev pub address : Text
  address = to_lower_case contract.address

  abbrev pub rows : ℕ → ℕ → List Event
  rows = rows_between env head chain contract address

  abbrev pub cursor : ℕ → Cursor
  cursor = cursor_at env head chain contract address start target target-le window_pos

  -- The scan ends, having added the rows of the blocks from `n` to the target behind `kept`, and
  -- leaves its cursor after the target.
  pub record Indexes (fuel n : ℕ) (kept : List Event) (s : IndexerState) : Type 0 where
    pub after : IndexerState
    pub returns : scan_contract env none fuel start target contract (alone s) ≡ (
      ok (
          some (record {
            address = address;
            inserted_or_updated = length (rows n (target + 1));
            scanned_from = some n;
            scanned_to = some target;
          })),
      alone after,
    )
    pub indexed : after.events ≡ kept ++ rows n (target + 1)
    pub resumes : CursorAt (cursor (target + 1)) after

  -- The scan stands at `n`: after its cursor, whose block the chain still has, or at the start.
  abbrev pub StandsAt : ℕ → IndexerState → Type 0
  StandsAt n s =
      ((find (is_cursor_of address) s.cursors ≡ none) × (n ≡ start))
      ⊎ (find (is_cursor_of address) s.cursors ≡ some (cursor n))

  abbrev pub begun : Position → ScanProgress
  begun position = record {
    cursor = position;
    inserted_or_updated = 0;
    scanned_from = none;
    scanned_to = none;
  }

  -- What a scan whose loop gets to `n` in the tables `t` does.
  pub finished :
      (fuel fuel' n : ℕ) (s t : IndexerState) (position : Position)
      → n ≤ target
      → Scanned env head chain contract address start target target-le window_pos fuel' n 0 none
          none t
      → scan_contract env none fuel start target contract (alone s)
        ≡ scan_from env contract address start target false fuel position (alone s)
      → scan_loop env contract address start target false fuel (begun position) (alone s)
        ≡ scan_loop env contract address start target false fuel'
            (begun (at env head chain n))
            (alone t)
      → Indexes fuel n t.events s
  unfolding scan_from
  finished fuel fuel' n s t position le scanned opened looped =
      let (there, first, last) = arrived in
      let counted : 0 + length (rows n (target + 1)) ≡ length (rows n (target + 1)) = omega arith in
      record {
        after = scanned.after;
        returns =
            opened
            ∙ >>=-step (scan_loop env contract address start target false fuel (begun position)) _
                (alone s) (looped ∙ scanned.returns)
            ∙ rw (first, last) (rw counted refl);
        indexed = scanned.indexed;
        resumes = there;
      }
    where
      arrived :
          CursorAt (cursor (target + 1)) scanned.after
          × (scanned.first ≡ some n)
          × (scanned.last ≡ some target)
      arrived = elim (scanned.moved) [
        | inl (e, _, _, _) ↦ absurd (omega (arith, e, le))
        | inr moved ↦ moved
      ]

  opens_new :
      (fuel : ℕ) (s : IndexerState)
      → start ≤ target
      → find (is_cursor_of address) s.cursors ≡ none
      → scan_contract env none fuel start target contract (alone s)
        ≡ scan_from env contract address start target false fuel (at env head chain start) (alone s)
  unfolding scan_contract load_cursor atomic ◌>>=◌
  opens_new fuel s le free =
      rw free
        (rw (get_previous_block_hash-eq env head chain start (omega (arith, le, target-le))) refl)

  pub opens_at :
      (fuel : ℕ) (s : IndexerState) (c : Cursor)
      → find (is_cursor_of address) s.cursors ≡ some c
      → scan_contract env none fuel start target contract (alone s)
        ≡ scan_from env contract address start target false fuel
            (record { next_block = c.next_block; last_block_hash = c.last_block_hash })
            (alone s)
  unfolding scan_contract load_cursor atomic ◌>>=◌
  opens_at fuel s c found = rw found refl

  opens :
      (fuel n : ℕ) (s : IndexerState)
      → start ≤ target
      → StandsAt n s
      → scan_contract env none fuel start target contract (alone s)
        ≡ scan_from env contract address start target false fuel (at env head chain n) (alone s)
  opens fuel n s le (inl (free, e)) = rw e (opens_new fuel s le free)
  opens fuel n s le (inr found) = opens_at fuel s (cursor n) found

-- On a chain that answers consistently up to `head`, the scan of a contract that stands at a block
-- no later than the target ends, whatever the size of its windows, if its fuel is more than the
-- blocks up to the target: it has added exactly the rows of the blocks from there to the target,
-- in order, reports them, and its cursor stands after the target. Nobody else writes, and no new
-- row has the key of a row that is there or of another new one.
pub scan_contract-Indexes :
    (env : IndexerEnv) (head : ℕ) (chain : SoundChain env head) (contract : IndexedContract)
    (start target : ℕ) (target-le : target ≤ head) (window_pos : 0 < env.indexer_max_window_blocks)
    (fuel n : ℕ) (s : IndexerState)
    → start ≤ target
    → n ≤ target
    → target + 1 < n + fuel
    → StandsAt env head chain contract start target target-le window_pos n s
    → Fresh
        (rows_between env head chain contract (to_lower_case contract.address) n (target + 1))
        s.events
    → Indexes env head chain contract start target target-le window_pos fuel n s.events s
scan_contract-Indexes env head chain contract start target target-le window_pos fuel n s from le
      enough stands fresh =
    finished env head chain contract start target target-le window_pos fuel fuel n s s
      (at env head chain n) le
      (scan_loop-Scanned env head chain contract (to_lower_case contract.address) start target
        target-le window_pos fuel n 0 none none s (omega (arith, le)) enough fresh)
      (opens env head chain contract start target target-le window_pos fuel n s from stands) refl
