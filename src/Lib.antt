-- ===== src/Lib.antt =====
-- QntySpot, a policy-bound spot execution runtime: the model of its decision core.
--
-- A policy (qntyspot/domain.py) says what may be bought and sold, at which rungs, and with how much
-- capital. qntyspot/economics.py turns a rung of it into an intent with bounds. The ledger of
-- qntyspot/ledger/store.py keeps policies, cycles, intents, the reservations of capital, the fill
-- receipts and an event log in SQLite; it moves intents along the table of qntyspot/states.py, and
-- reserves, commits, releases or quarantines their capital as it does. qntyspot/ledger/recovery.py
-- decides after a restart what becomes of each intent that is not terminal, and
-- qntyspot/ledger/replay.py rebuilds a ledger from its event log.
-- What may be done at all is a matter of authority: qntyspot/execution_contract.py has the ladder of
-- levels and capabilities, and qntyspot/authority_root.py the grants of an external root, which bind a
-- level and capital ceilings to one session. What has happened outside is a matter of evidence:
-- `evaluate_chain_truth` concludes it from the observations of several providers, and
-- `reconcile_to_receipt` makes of a conclusion the receipt that the ledger appends. Between them stands
-- the envelope, the transaction that a signer may see: `assert_envelope_admissible` holds it, the venue's
-- response and the calldata against the bounds of the intent, the session and the authority.
--
-- Files:
-- - Prelude: shared names, Boolean tests, list lemmas. Errors: exceptions, one constructor for each
--   class, as the errors of a result type. Fraction: Python's fractions.
-- - States: qntyspot/states.py; States/Lifecycle: sequences of legal transitions.
-- - Domain: qntyspot/domain.py; Domain/Ceiling: its ceiling division.
-- - Economics: qntyspot/economics.py; Economics/Limits, Fills, Exits: what its results guarantee.
-- - Authority: levels, capabilities, authority policies, sessions and their binding, of
--   qntyspot/execution_contract.py; Authority/Grants: trusted roots, grants and their verification, of
--   qntyspot/authority_root.py; Authority/Gate: its consumer gates, with `granted_capabilities` and
--   `require_capability` of qntyspot/execution_contract.py; Authority/Gate/Limits and Service: what the
--   gates never and what they always let through.
-- - Settlement: observations and `evaluate_chain_truth` of qntyspot/execution_contract.py, with
--   `next_state_for_verdict` and `release_permitted`; Settlement/Receipt: `reconcile_to_receipt`;
--   Settlement/Evidence: what a final conclusion rests on.
-- - Identity: `EvmInstrumentRef` of qntyspot/identity.py and the reading of its text.
-- - Prelive: the output floor and the position ceilings of qntyspot/prelive_economics.py.
-- - Envelope: venue responses, envelopes and approvals of qntyspot/execution_contract.py, and
--   `evaluate_zero_x_execution_readiness`; Envelope/Calldata and its Actions and Decode:
--   `_validate_action_semantics`, `_decode_actions`, `decode_allowance_holder_calldata`;
--   Envelope/Gates: `assert_envelope_admissible` and `assert_approval_admissible`;
--   Envelope/Calldata/Bound, Envelope/Gates/Limits and Approvals: what they let through.
-- - Ledger/Atomics: the SQL functions of qntyspot/ledger/atomics.py; Ledger/Atomics/Text: the text of an
--   amount, `encode_atomic` and `decode_atomic`.
-- - Ledger/Rows, Tables: the tables of qntyspot/ledger/schema.py and the constraints of an INSERT.
-- - Ledger/Events, Budget, Intents, ChainTruth, Receipts, Cycles, Policies: the methods of
--   qntyspot/ledger/store.py: `_append_event`; `_reserve`, `_settle_reservation` and `held_atomic`;
--   `create_intent` and `transition`; `recover_safe_halt_from_terminal_chain_truth`;
--   `append_fill_receipt`; `open_cycle`, `close_cycle`, `inventory_atomic` and
--   `continue_inventory_into_successor_cycle`; `admit_policy`.
-- - Ledger/Integrity: `integrity_check`; Ledger/Integrity/Numbering, Passes: why it passes.
-- - Ledger/Transaction: `SpotLedger._write`. Ledger/Transaction/Nesting: transactions in transactions.
-- - Ledger/Restart: qntyspot/ledger/recovery.py; Ledger/Restart/Settled: what it leaves.
-- - Ledger/Views, Frames, Held, Changes: what the methods do to the tables that they touch.
-- - Ledger/Receipts/Outcome: what the answer to a fill receipt means.
-- - Ledger/Funding, Caps: the two invariants of the reservations, with Ledger/Funding/Recovery and
--   Ledger/Funding/Receipts for single methods, and Ledger/Caps/Policies for single policies.
-- - Ledger/History: the databases that sequences of method calls lead to; Ledger/History/Policies,
--   Invariants, Allocation, Once: what holds in all of them.
-- - Ledger/Replay: `replay_into` of qntyspot/ledger/replay.py; Ledger/Replay/Mirror: a replay in step
--   with the ledger; Ledger/Replay/Steps, Creation, Receipts, Cycles, Continuation: the events of single
--   methods; Ledger/Replay/Enrolled, with Cycles, Actions, Events and Admission: a replay where more is
--   registered than its events need; Ledger/Replay/Rebuilt, History: a whole history, admissions
--   included.
-- - Tests: the theorems at concrete inputs.
--
-- The model: a table is a list of rows, the newest first, the event log the oldest first; a method is
-- a function of the database to a new one or an error, and an error leaves the database as it was, as
-- a rolled back transaction does. Identifiers (digests, names, references) are numbers, as they are
-- only compared; a cycle identifier, "policy:index" in the source, is the pair. Amounts are natural
-- numbers, of no bounded width, as Python's integers are; Ledger/Atomics/Text has the text that stores
-- one, which is the number elsewhere. Times are not negative. Prices are fractions of natural numbers;
-- `1 - f` stops at zero, which no policy reaches, as its basis points are at most 10000. SHA-256
-- digests, the verification of Ed25519 signatures, and the network, taker, venue and adapter
-- that the phase names are parameters,
-- as are the Keccak selectors of calldata and the chain and address that an instrument's text names.
-- The private tokens, by which the code keeps a verified grant and an action of the ledger from being
-- made elsewhere, are the types themselves and a field. Recursion is structural everywhere but in the
-- printing of a number, whose fuel is one more than the number, and its quotient by ten is less.
--
-- Not modelled: the writers of the execution tables (qntyspot/ledger/execution.py), whose rows are
-- data that any step may change; for that reason its own writes to intents, as the resumption of
-- exact signed bytes, are no step of Ledger/History. The replay is modelled with such events, but its
-- theorem is about ledgers without execution tables; qntyspot/ledger/execution_replay.py is not
-- modelled. The replay takes policies, not their canonical texts. Nor: policy files and canonical JSON, the forms of texts (the zero address apart), venue
-- clients and their byte formats, operator scripts, locks and backups.
pub mod Prelude
pub mod Errors
pub mod Fraction
pub mod States
pub mod Domain
pub mod Economics
pub mod Authority
pub mod Settlement
pub mod Identity
pub mod Prelive
pub mod Envelope
pub mod Ledger
pub mod Tests
