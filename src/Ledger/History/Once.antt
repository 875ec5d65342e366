-- ===== src/Ledger/History/Once.antt =====
-- An economic action is created once, whatever happens to its intent, over the steps of the ledger of
-- qntyspot/ledger/store.py.
use qnty_spot.Prelude.{
  ℕ, ◌≡◌, refl, Bool, true, false, Option, none, some, ◌==◌, if◌then◌else◌, map_option, arith, inl,
  inr,
}
use qnty_spot.Errors.{ok, err, duplicate_economic_action}
use qnty_spot.States.{IntentState, armed, reconciled, rejected, safe_halt, is_state}
use qnty_spot.Domain.{Key, Intent}
use qnty_spot.Ledger.Rows.{IntentRow, Db}
use qnty_spot.Ledger.Tables.{is_some, intent_of}
use qnty_spot.Ledger.Intents.{new_intent, set_state, create_intent}
use qnty_spot.Ledger.Views.{
  moved, transition-Transitioned, transition-intent_of, intent_of-set_state,
}
use qnty_spot.Ledger.Funding.Recovery.{settled_recovery, reverted_recovery, recovery_target}
use qnty_spot.Ledger.Funding.Receipts.{created_rows, kept, stopped, append_receipt-Received}
use qnty_spot.Ledger.Frames.{
  open_cycle-SameActions, close_cycle-SameActions, continue_inventory-SameActions,
  admit_policy-SameActions,
}
use qnty_spot.Ledger.History.{
  Trade, creates, moves, recovers, receives, opens, closes, continues, executes, trades, admits,
  Steps, no_step, and_step,
}

-- an intent of the action is there
abbrev IsKnown : Key → Db → Type 0
IsKnown key db = is_some (intent_of db key) ≡ true

is_some-moved :
    (here : Bool) (to : IntentState) (o : Option IntentRow)
    → is_some o ≡ true
    → is_some (if here then map_option (moved to) o else o) ≡ true
is_some-moved true to (some r) h = refl
is_some-moved true to none h = cc
is_some-moved false to o h = h

IsKnown-same :
    (key : Key) (db db' : Db) → db'.intents ≡ db.intents → IsKnown key db → IsKnown key db'
IsKnown-same key db db' e k = rw e k

IsKnown-set :
    (key j : Key) (to : IntentState) (db mid db' : Db)
    → mid.intents ≡ db.intents
    → db'.intents ≡ (set_state j to mid).intents
    → IsKnown key db
    → IsKnown key db'
IsKnown-set key j to db mid db' em e k =
    rw (e, intent_of-set_state j to mid key, em) (is_some-moved (j == key) to (intent_of db key) k)

is_some-created :
    (here : Bool) (r : IntentRow) (o : Option IntentRow)
    → is_some o ≡ true
    → is_some (if here then some r else o) ≡ true
is_some-created true r o h = refl
is_some-created false r o h = h

Trade-IsKnown : (key : Key) (db db' : Db) → Trade db db' → IsKnown key db → IsKnown key db'
Trade-IsKnown key db db' (creates i now _ h) k =
    let (unknown, ei, er) = created_rows i now db db' h in
    rw ei (is_some-created (i.economic_action_id == key) (new_intent i) (intent_of db key) k)
Trade-IsKnown key db db' (moves j to now payload _ h) k =
    rw (transition-intent_of (transition-Transitioned j to now payload db db' h) key)
      (is_some-moved (j == key) to (intent_of db key) k)
Trade-IsKnown key db db' (recovers j to now _ h) k =
    let ((row, found), target) = recovery_target j to now db db' h in
    elim target [
      | inl e ↦
          let (halted, fit, ei, er) = settled_recovery j now db db' row found (rw e at h) in
          IsKnown-set key row.economic_action_id reconciled db db db' refl ei k
      | inr e ↦
          let (halted, fit, ei, er) = reverted_recovery j now db db' row found (rw e at h) in
          IsKnown-set key row.economic_action_id rejected db db db' refl ei k
    ]
Trade-IsKnown key db db' (receives r now within _ h) k =
    elim (append_receipt-Received r now db db' within h) [
      | kept ei er ↦ IsKnown-same key db db' ei k
      | stopped row mid found legal ei er ep hi hr ↦
          IsKnown-set key row.economic_action_id safe_halt db mid db' ei hi k
    ]
Trade-IsKnown key db db' (opens p index now _ h) k =
    IsKnown-same key db db' (open_cycle-SameActions p index now db db' h).intents k
Trade-IsKnown key db db' (closes c status now _ h) k =
    IsKnown-same key db db' (close_cycle-SameActions c status now db db' h).intents k
Trade-IsKnown key db db' (continues source p index now _ h) k =
    IsKnown-same key db db' (continue_inventory-SameActions source p index now db db' h).intents k
Trade-IsKnown key db db' (executes surface) k = k

Steps-IsKnown : (key : Key) (db db' : Db) → Steps db db' → IsKnown key db → IsKnown key db'
Steps-IsKnown key db _ no_step k = k
Steps-IsKnown key db _ (and_step mid db' past (trades _ t)) k =
    Trade-IsKnown key mid db' t (Steps-IsKnown key db mid past k)
Steps-IsKnown key db _ (and_step mid db' past (admits p _ h)) k =
    IsKnown-same key mid db' (admit_policy-SameActions p mid db' h).intents
      (Steps-IsKnown key db mid past k)

create-IsKnown :
    (i : Intent) (now : ℕ) (db db' : Db)
    → create_intent i now db ≡ ok db'
    → IsKnown i.economic_action_id db'
create-IsKnown i now db db' h =
    let (unknown, ei, er) = created_rows i now db db' h in rw ei (ground arith)

refused :
    (i : Intent) (now : ℕ) (db : Db)
    → IsKnown i.economic_action_id db
    → is_state i.state armed ≡ true
    → create_intent i now db ≡ err duplicate_economic_action
unfolding create_intent
refused i now db k fresh = ground arith

-- Once an intent was created, no number of steps of the ledger, its cancellation, expiry, rejection or
-- halt among them, leads to a database in which an ARMED intent with the same economic action can be
-- created: every attempt raises DuplicateEconomicActionError.
pub created_once :
    (i j : Intent) (now later : ℕ) (db mid db' : Db)
    → create_intent i now db ≡ ok mid
    → Steps mid db'
    → j.economic_action_id ≡ i.economic_action_id
    → is_state j.state armed ≡ true
    → create_intent j later db' ≡ err duplicate_economic_action
created_once i j now later db mid db' h past same fresh =
    refused j later db'
      (rw same (Steps-IsKnown i.economic_action_id mid db' past (create-IsKnown i now db mid h)))
      fresh
