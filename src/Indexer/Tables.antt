-- ===== src/Indexer/Tables.antt =====
-- The statements that the indexer makes: `upsertEvents`, `deleteEventsInWindow`, `loadCursor` and
-- the writes of the cursor, indexer/scanner.ts.
pub mod Writes
use benzo_main.Prelude.{
  ℕ, Text, Bool, true, false, Option, none, some, List, [], ◌∷◌, ◌++◌, ◌&&◌, ◌||◌, not, leb, ltb,
  ◌==◌, text_eq, find, any, select, if◌then◌else◌,
}
use benzo_main.Service.{Action, Result, ok, err, error, atomic}
use benzo_main.Table.{update_where}
use benzo_main.Indexer.{Event, Cursor, IndexerState}

-- `(tx_hash, log_index)`
abbrev pub same_key : Event → Event → Bool
same_key row x = text_eq x.tx_hash row.tx_hash && x.log_index == row.log_index

-- `set: { …excluded… }`
unfoldable pub overwritten : ℕ → Event → Event → Event
overwritten now row x = record row {
  tx_hash = x.tx_hash;
  log_index = x.log_index;
  indexed_at = now;
}

unfoldable pub upsert_event : ℕ → Event → List Event → List Event
upsert_event now row xs =
    if any (same_key row) xs
    then update_where (same_key row) (overwritten now row) xs
    else xs ++ row ∷ []

unfoldable pub upsert_rows : ℕ → List Event → List Event → List Event
upsert_rows now [] xs = xs
upsert_rows now (row ∷ rows) xs = upsert_rows now rows (upsert_event now row xs)

-- Postgres refuses a statement that would update one row twice.
abbrev pub has_duplicate : List Event → Bool
has_duplicate [] = false
has_duplicate (row ∷ rows) = any (same_key row) rows || has_duplicate rows

unfoldable pub upsert_events : ℕ → List Event → IndexerState → Result (Unit {0}) × IndexerState
upsert_events now rows db =
    if has_duplicate rows
    then (err (error "ON CONFLICT DO UPDATE command cannot affect row a second time"), db)
    else (ok tt, record db { events = upsert_rows now rows db.events })

-- From a block up to, and without, a next one.
abbrev pub in_window : Text → ℕ → ℕ → Event → Bool
in_window contract from next x =
    text_eq x.contract contract && (leb from x.block_number && ltb x.block_number next)

unfoldable pub delete_events_in_window :
    Text → ℕ → ℕ → IndexerState → Result (Unit {0}) × IndexerState
delete_events_in_window contract from next db =
    (ok tt, record db { events = select (λ x. not (in_window contract from next x)) db.events })

abbrev pub is_cursor_of : Text → Cursor → Bool
is_cursor_of contract c = text_eq c.contract contract

unfoldable pub put_cursor : Cursor → IndexerState → Result (Unit {0}) × IndexerState
put_cursor row db = (
  ok tt,
  record db {
    cursors =
        if any (is_cursor_of row.contract) db.cursors
        then update_where (is_cursor_of row.contract) (λ c. record row { contract = c.contract })
            db.cursors
        else db.cursors ++ row ∷ [];
  },
)

unfoldable pub load_cursor : Text → Action IndexerState (Option Cursor)
load_cursor contract = atomic λ db. (ok (find (is_cursor_of contract) db.cursors), db)
