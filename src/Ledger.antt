-- ===== src/Ledger.antt =====
-- qntyspot/ledger: the SQLite ledger, its tables, the operations of SpotLedger, restart recovery.
pub mod Atomics
pub mod Rows
pub mod Tables
pub mod Events
pub mod Budget
pub mod Intents
pub mod ChainTruth
pub mod Receipts
pub mod Cycles
pub mod Policies
pub mod Transaction
pub mod Restart
pub mod Views
pub mod Funding
pub mod Frames
pub mod Held
pub mod Changes
pub mod Caps
pub mod History
pub mod Replay
pub mod Integrity
