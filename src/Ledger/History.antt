-- ===== src/Ledger/History.antt =====
-- The databases that the methods of qntyspot/ledger/store.py can lead to: a step is one method call
-- that returned, or a change to the execution tables that qntyspot/ledger/execution.py keeps.
pub mod Policies
pub mod Invariants
pub mod Allocation
pub mod Once
use qnty_spot.Prelude.{ℕ, Bool, Option, none, some, List, [], ◌≡◌}
use qnty_spot.Errors.{ok}
use qnty_spot.States.{IntentState}
use qnty_spot.Domain.{Key, CycleId, CycleStatus, Intent, FillReceipt, Policy}
use qnty_spot.Ledger.Rows.{Payload, Surface, Db}
use qnty_spot.Ledger.Intents.{create_intent, transition}
use qnty_spot.Ledger.ChainTruth.{recover_safe_halt}
use qnty_spot.Ledger.Receipts.{append_receipt}
use qnty_spot.Ledger.Cycles.{open_cycle, close_cycle, continue_inventory}
use qnty_spot.Ledger.Policies.{admit_policy}

-- A step under the admitted policies. `append_receipt` is a step of its own, as the execution runtime
-- calls it past the guard of `append_fill_receipt`.
pub data Trade (db : Db) : Db → Type 0 where
  creates : (i : Intent) (now : ℕ) (db' : Db) → create_intent i now db ≡ ok db' → Trade db db'
  moves :
      (key : Key) (to : IntentState) (now : ℕ) (payload : Payload) (db' : Db)
      → transition key to now payload db ≡ ok db'
      → Trade db db'
  recovers :
      (key : Key) (to : IntentState) (now : ℕ) (db' : Db)
      → recover_safe_halt key to now db ≡ ok db'
      → Trade db db'
  receives :
      (r : FillReceipt) (now : ℕ) (within : Bool) (db' : Db)
      → append_receipt r now db ≡ ok (within, db')
      → Trade db db'
  opens :
      (p : Policy) (index now : ℕ) (db' : Db) → open_cycle p index now db ≡ ok db' → Trade db db'
  closes :
      (key : CycleId) (status : CycleStatus) (now : ℕ) (db' : Db)
      → close_cycle key status now db ≡ ok db'
      → Trade db db'
  continues :
      (source : CycleId) (p : Policy) (index now : ℕ) (db' : Db)
      → continue_inventory source p index now db ≡ ok db'
      → Trade db db'
  executes : (surface : Option Surface) → Trade db (record db { surface = surface })

-- A step, the admission of a policy included.
pub data Step (db : Db) : Db → Type 0 where
  trades : (db' : Db) → Trade db db' → Step db db'
  admits : (p : Policy) (db' : Db) → admit_policy p db ≡ ok db' → Step db db'

pub data Trades (db : Db) : Db → Type 0 where
  start : Trades db db
  then_trade : (mid db' : Db) → Trades db mid → Trade mid db' → Trades db db'

pub data Steps (db : Db) : Db → Type 0 where
  no_step : Steps db db
  and_step : (mid db' : Db) → Steps db mid → Step mid db' → Steps db db'

-- The database after the schema is applied.
abbrev pub empty_db : Db
empty_db = record {
  instruments = [];
  policies = [];
  ladder_levels = [];
  cycles = [];
  intents = [];
  state_events = [];
  reservations = [];
  receipts = [];
  surface = none;
}

pub data Reachable : Db → Type 0 where
  fresh : Reachable empty_db
  then_step : (db db' : Db) → Reachable db → Step db db' → Reachable db'
