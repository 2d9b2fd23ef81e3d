-- ===== src/Lib.antt =====
-- IM Bridge: chat operations between Telegram and SillyTavern that are never lost and never applied
-- twice.
--
-- A request from Telegram becomes an operation, a row of the table bridge_operations. The store
-- (src/modules/bridge/operation_store.rs) moves rows by compare-and-set UPDATE statements; the
-- coordinator (src/modules/bridge/operation_coordinator.rs) joins the store to the backend: it
-- claims a request, marks the operation as committing, sends its mutation and records the outcome,
-- and after a restart it replays or reconciles what is left. The lifecycle of an operation is in
-- src/modules/bridge/operations.rs, its errors in src/modules/bridge/errors.rs, error_mapper.rs and
-- src/error.rs, and the mutations, the runtime fence and the write gate in src/domain/st.rs.
--
-- Files:
--   Common: Boolean tests, lists, texts, 64-bit integers, bytes.
--   Errors: errors.rs, error.rs and error_mapper.rs. Codes, Bridge, Outcome, Messages and Mapper
--     model; Names, Binding, Retry and Mapping prove.
--   St: domain/st.rs. Fence, Mode and Chat model; Gate proves.
--   Operation: operations.rs. Status, Payload, Record and Aad model; Lifecycle, Validity and Framing
--     prove.
--   Store: operation_store.rs. Row is OperationRow; Updates has the WHERE and SET of every UPDATE of
--     one row; Statements runs a statement on the tables; Effects is the monad of the methods;
--     Methods, Claim, Keys, Leases and Listing have one function for each method. Step, Evolution,
--     Invariant, Uniqueness, Following, Failing, CompareAndSet, Idempotency, ClaimMatching,
--     LeaseExclusion, LeaseGenerations and Candidates prove.
--   Coordinator: operation_coordinator.rs and the parts of operation_payload.rs, domain/locator.rs,
--     st_ops.rs and seams/st_operation_journal.rs that it uses. Seams, Payloads, Sealing, Reports,
--     Commit, Replay and Reconcile model; Landing, Following, Sends, AtMostOnce, Replaying,
--     Reconciling, Settling, Refusals, Opening, Claims, Identity, KeyKeeping, KeySources and
--     KeyRestoring prove.
--   Poller: poller_ownership.rs. Types, Registry and Guard model; Calls, Fencing and Draining prove.
--   Recovery: operation_recovery.rs. Driver models; Following and AtMostOnce prove.
--   Journal: connector_journal.rs. Records models; Calls, Settled and Earned prove.
--   Delivery: src/modules/telegram/delivery_queue.rs. Cooldown and Pending model; Deadlines, Waiting
--     and HandOut prove. A wait is run on the rounds of its loop, two of which are enough if no pause
--     is set meanwhile.
--   LockTable: lock_table.rs. Table models the entries, Actions the tasks that wait for and hold the
--     mutexes; Entries, Room, Bounds, Backing and Exclusion prove.
--   Redaction: redaction.rs. Str is what it uses of str and char, with a panic as a value; Keys, Urls,
--     Tokens, Paths and Detail model; Scanning, Values, Termination, Ranges, OnePass, Secrecy, Bounds,
--     PathScan and Overlaps prove. The loops of Keys and Urls run on fuel, one more than the text has
--     characters.
--   Examples: concrete operations on which the theorems apply.
--
-- Concurrency and failure. A World holds the database, a list of turns and a log of the mutations
-- sent to the backend. Before each SQL statement of a method the next turn runs whatever statements
-- other tasks or processes issue, and says whether the method's statement then fails, be it for
-- input and output or for a constraint other than uniqueness. The theorems hold for every list of
-- turns of any length whose statements the program issues (IsIssued: an INSERT writes a received,
-- not started row, and a failure is recorded only as not started or not applied, as all callers of
-- mark_failed_with_state do). A turn says nothing of the mutations that other tasks send.
-- The log names the operation for which a mutation is sent: a replay is logged under the operation
-- that it replays, also where a creation goes out under the id in its payload, which the program does
-- not compare with the operation's.
--
-- Representation. A status column holds one of the names that its CHECK allows and is typed by the
-- enum. A u64, u32, u16 or i64 stands on the native numbers, with the conversions of the source
-- written out. Twenty decimal digits are enough for a 64-bit number. Times are RFC 3339 texts and are
-- compared as texts, as SQLite compares them. The current time, the two fresh identifiers of an error
-- and the id that a claim draws are arguments; one call of the coordinator, and one run of recovery,
-- reads the clock once.
--
-- Parameters, gathered in the record Platform: the backend, the connector's journal, the secret
-- vault, XChaCha20-Poly1305, SHA-256 and serde_json; the JSON text that reconcile_commit records for
-- an entry of the journal is an argument of its own. KeyPlatform has what the making of a key needs
-- besides: the vault's put, the encryption, and what the random generator draws. Delivery takes the
-- end of the range of an Instant, which the platform decides.
--
-- Not modelled: log lines and the details that errors carry, which decide nothing; the set of claims
-- in process, which only makes claims of one key wait; the connector, whose answer to a fence is an
-- argument of recovery; the orchestration of a turn in src/modules/bridge/engine.rs; and, apart from
-- the parts named above, the Telegram and web sides.
pub mod Common
pub mod Errors
pub mod St
pub mod Operation
pub mod Store
pub mod Coordinator
pub mod Recovery
pub mod LockTable
pub mod Poller
pub mod Redaction
pub mod Journal
pub mod Delivery
pub mod Examples
