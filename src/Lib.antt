-- ===== src/Lib.antt =====
-- Benzo's backend: the cross-chain onramp, the treasury's deposits, the payroll worker, the indexer
-- and the onboarding; and the Merkle tree of the console's and the wallet's core.
--
-- The API service (backend/services/api/src) keeps its state in Postgres and moves it by jobs. The
-- onramp poller takes intents, each a burn on another chain, asks Circle's Iris service for the
-- attested message, decodes it, settles it on chain and credits the intent; for an organisation it
-- also writes a row of the treasury's deposits. The payroll worker takes one item of a run at a
-- time, proves and signs an encrypted transfer, stores it, sends it and waits for confirmations.
-- The treasury reconciler settles deposits that were submitted, by their transactions' receipts.
-- The routes of an organisation are behind a guard on the caller's role. The indexer copies the logs
-- of two contracts into a table of events, window by window behind a cursor, and rewinds when the
-- chain has forked. The onboarding takes a user through identity check, allowlist, gas and
-- registration, one status at a time. Who made a transfer can disclose its amount to a verifier. The applications mirror the pool's Merkle tree to make proofs.
--
-- Files and code:
--   Prelude              tests on numbers, lists, JavaScript strings and decimal digits
--   Service              errors, database statements, transactions, `await` between statements;
--                        Service/Maintains and Service/Leads are proof rules for them
--   Table                what a WHERE, an ON CONFLICT DO NOTHING and an ORDER BY do to the rows
--   Database             db/schema.ts, the tables of the onramp and the treasury
--   Onramp/Status        TRANSITIONS, canTransition, assertTransition of onramp/service.ts
--   Onramp/Intents       createIntent, transitionIntent and the lookups of onramp/service.ts, and
--                        patchIntent of onramp/poller.ts
--   Onramp/Message       onramp/message.ts, and decodeOnrampHookData of onramp/hookdata.ts
--   Onramp/Relayer       onramp/relayer.ts
--   Onramp/Poller        onramp/poller.ts: Choice selects the Iris message, Steps are the writes
--                        (markBurned to finalizeTreasuryFunding), Run is processIntent and
--                        pollOnrampIntents
--   Payroll              the payroll tables of db/schema.ts
--   Payroll/Amount       parsePayrollAmount of payroll/runner.ts
--   Payroll/Progress     getPayrollProgressCounts and finalizeRunIfSettled of payroll/runner.ts
--   Payroll/Statements   the reads and writes of the payroll worker, payroll/runner.ts
--   Payroll/Worker       processPayrollItem, confirmSubmittedItem and their steps, payroll/runner.ts
--   Payroll/Csv          parseCsv and the forms of addresses and amounts, routes/payroll.ts
--   Payroll/Intake       the checks of an intake's rows, sumAmounts and formatPayrollAmount of
--                        routes/payroll.ts
--   Payroll/Routes       start, pause and resume of routes/payroll.ts, and the enqueueing of
--                        runs of payroll/runner.ts; Create is the intake's handler
--   Treasury             treasury/reconciler.ts
--   Orgs                 loadMembership and makeRequireOrgRole of orgs/access.ts
--   Indexer/Decode       decodeIndexedEvent and the normalisers of indexer/scanner.ts
--   Indexer/Tables       upsertEvents, deleteEventsInWindow and the cursor, indexer/scanner.ts
--   Indexer/Scan         runIndexerOnce, scanContract and scanWindow of indexer/scanner.ts; a cursor is
--                        kept as the block after the last one, so that it starts at 0 and not at -1
--   Onboarding/Kyc       onboarding/kyc.ts
--   Onboarding/Records   the statements and the queue of onboarding/service.ts
--   Onboarding/Advance   advanceOnboarding, its steps and the handlers of jobs, onboarding/service.ts
--   Onboarding/Start     startOnboarding and the listings of onboarding/service.ts
--   Disclosure           disclosure/verify.ts, disclosure/address.ts, and findKeyForEvent of
--                        auditor/service.ts
--   Merkle               console/packages/core/src/merkle.ts, of which
--                        wallet/packages/core/src/merkle.ts is a copy
-- The modules below these hold the proofs. Names are the source's, in snake case.
--
-- How the code is modelled. A function that talks to the database is an `Action`: from a `World`,
-- which is the tables and what others are about to write, to a result or an error and a new world.
-- Before each statement the next of the others' writes happens, so a theorem about any `others`
-- holds at any interleaving of statements. A transaction runs in isolation, and an error undoes what
-- it wrote. A rejected promise is an error that ends the function up to its `try`. Loops go over
-- lists, but for two `while` loops, which take fuel: that of advanceOnboarding, for which five turns
-- are enough, and that of scanContract, for which one turn for each block up to the target and two
-- more are enough, and one more for a rewind, as its theorems say.
--
-- Ids that the database makes and the time are given by the caller. Services outside are fields of
-- an environment, each any function: the chain, Iris, the prover, the sealing of secrets, ABI
-- decoding, hashes and encryption. A write by another connection between two statements is a
-- function on the tables, and each theorem names what it asks of these. Two ghost tables, which no
-- statement reads, record what leaves the service: `broadcasts`, what the worker hands to the network,
-- and `sends`, the gas drips that the chain client answers to have sent. A drip that the client sends
-- before it throws is not among them. The session lock around a job is not modelled; the theorem on runs of jobs takes jobs one after another, as that lock has it. Texts of
-- hashes, addresses and ids that a row holds are not empty, and token decimals are a natural number.
-- Columns that no modelled statement reads, logging and the encryption of a transfer's input are left
-- out, and so are the other HTTP routes, the attestations of disclosures, the auditor's
-- reports, the contracts, and of the applications all but the Merkle tree, whose hash is any function.
pub mod Prelude
pub mod Service
pub mod Table
pub mod Database
pub mod Onramp
pub mod Payroll
pub mod Treasury
pub mod Orgs
pub mod Indexer
pub mod Onboarding
pub mod Merkle
pub mod Disclosure
