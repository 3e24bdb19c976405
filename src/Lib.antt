-- ===== src/Lib.antt =====
-- Heartwood memory: a model of the governed memory library under heartwood/, and the theorems that
-- make its parts correct.
--
-- The program keeps memory records in one SQLite file. A client writes a record with a policy,
-- reads through a policy enforcer, moves records through a review workflow, logs every event in a
-- hash chain, encrypts contents with a key for each subject, and erases a subject by destroying the
-- key and purging every row that was derived from the subject's rows. A service around it answers
-- recalls within a rate limit, and an egress policy decides what may go to an external model.
--
-- Which file models which part:
--   Prelude       tests, lists, sets of texts, sorted sets, and the results of code that may raise.
--   Envelope      heartwood/envelope.py: the enumerations, the policy of a record, and the metadata
--                 row of heartwood/store.py (`_row_meta`) that every part reads.
--   Policy        heartwood/policy.py: `PolicyEnforcer.visible` and `allowed_view`.
--   Derivation    heartwood/client.py: the high-water mark of `remember`, by which a derived record
--                 takes over the restrictions of its parents.
--   Review        heartwood/review.py: the states, who may move a record, and replacement.
--   Audit         heartwood/audit.py, heartwood/audit_epochs.py and the audit table of
--                 heartwood/store.py: appending and verifying the chain.
--   Anchors       heartwood/anchors.py: the signed records (Anchors), the local file sink
--                 (Anchors/Sink), `verify_chain_against_anchors` (Anchors/Verify), the writer
--                 (Anchors/Writer), the cadence (Anchors/Cadence) and the manifest pins
--                 (Anchors/Pins), with the rows of `store_metadata` that they keep.
--   Keys          the key table of heartwood/store.py, heartwood/key_custody.py, the key store of
--                 heartwood/erasure.py (Keys/Custody), and heartwood/key_lifecycle.py
--                 (Keys/Lifecycle, its counters in Keys/Lifecycle/Accounts, and the proof of
--                 erasure in Keys/Lifecycle/Proof).
--   Store         heartwood/store.py: the tables, the transactions that write memory rows (Store),
--                 the erasure purge (Store/Purge), the guarded updates (Store/Updates), and all of
--                 them as steps that any process may commit (Store/Transact, Store/Final).
--   Spans         heartwood/source_spans.py and `can_read` of heartwood/client.py.
--   Egress        heartwood/egress.py: labels and classifications (Egress), the decision with its
--                 payload (Egress/Evaluate), and the conditions of a request (Egress/Permitted).
--   Recall        heartwood/client.py: the filters and the policy step of `recall`, with `valid_at` of
--                 heartwood/typed_ranking.py.
--   VectorIndex   `NumpyVectorIndex` of heartwood/index.py, with its cached matrix.
--   Chunking      heartwood/chunking.py: the text (Chunking), the passes of `chunk_document`
--                 (Chunking/Document), and what they do to spans (its other children).
--   Consolidation heartwood/consolidation.py: which records may be merged.
--   Retirement    heartwood/client.py: who may retire a record, `supersede`, and `approve`.
--   Verbs         heartwood/client.py: `transition_review`, `set_indexed` and `purge`.
--   Forget        heartwood/client.py: `forget` without an anchor writer.
--   Receipts      heartwood/receipts.py: the check of an erasure receipt against a store.
--   RateLimiter   `RecallRateLimiter` of heartwood/recall_service.py.
--   Tests         concrete stores, logs, keys and requests, and the theorems applied to them.
--
-- State and operations. A table is a list of rows, and an operation takes the tables and returns
-- them; code that may raise returns a `Result`. A transaction that raises is rolled back, so its
-- error carries no store. What other processes commit between two transactions is a list of steps
-- (Store/Transact), or a function on the key table (Keys/Custody), on the store (`approve` in
-- Retirement, Verbs) or on the database and the sink (`anchor` in Anchors/Writer). The dictionary of the
-- rate limiter is a function from tokens to buckets.
--
-- Fuel. Only the worklist of `descendants` runs on fuel: the number of seeds and of edges together.
-- Each turn takes one node off the frontier, and each edge puts its child on it at most once, so
-- the fuel is never used up before the frontier is empty.
--
-- The rounds of `range` in Chunking are as many as there are matches, and each takes at least one.
--
-- Parameters. SHA-256, JSON and `repr` (the record Codec of Audit, whose digests have 64 hexadecimal
-- characters), HKDF and AES key wrap (the record Crypto of Keys, in which unwrapping undoes
-- wrapping), Ed25519, base64, dates and canonical JSON of records (Formats of Anchors), the regular
-- expressions of the egress policy (Patterns of Egress), numpy's conversion, product and sort
-- (VectorIndex), and the texts that a client decrypts
-- (Client of Spans). Times are natural numbers.
--
-- Not modelled: floating point scores (confidence, salience, embeddings, ranking), encrypted
-- columns and signatures, the parsing of stored JSON (rows hold lists as the code wrote them, and a
-- flag says whether the column of aliases can be read), what `forget` removes from the caches and the
-- index, the recall engine and its HTTP service, timers, the signatures of receipts, audit bundles,
-- importers, continuity packets, the command line and the adapters.
pub mod Prelude
pub mod Envelope
pub mod Policy
pub mod Derivation
pub mod Review
pub mod Anchors
pub mod Audit
pub mod Keys
pub mod Store
pub mod Spans
pub mod Egress
pub mod RateLimiter
pub mod Receipts
pub mod Forget
pub mod Retirement
pub mod Chunking
pub mod Consolidation
pub mod Recall
pub mod Verbs
pub mod VectorIndex
pub mod Tests
