-- ===== src/Ledger/History/Policies.antt =====
-- The table of policies under the steps of a ledger: only an admission writes it.
use qnty_spot.Prelude.{ℕ, ◌≡◌, refl, ap, ◌∙◌, Bool, arith, inl, inr}
use qnty_spot.Errors.{ok}
use qnty_spot.States.{
  IntentState, reserved, filled, cancelled, expired, rejected, safe_halt, assert_legal_transition,
}
use qnty_spot.Domain.{
  Key, CycleId, CycleStatus, Intent, FillReceipt, Policy, ReservationStatus, committed, released,
  quarantined,
}
use qnty_spot.Ledger.Rows.{IntentRow, Payload, Db}
use qnty_spot.Ledger.Tables.{insert_intent, insert_event, insert_cycle, insert_reservation}
use qnty_spot.Ledger.Events.{append_event}
use qnty_spot.Ledger.Budget.{reserve, settle_reservation}
use qnty_spot.Ledger.Intents.{create_intent, transition, consequence}
use qnty_spot.Ledger.ChainTruth.{recover_safe_halt}
use qnty_spot.Ledger.Receipts.{append_receipt, halt}
use qnty_spot.Ledger.Cycles.{open_cycle, close_cycle, continue_inventory}
use qnty_spot.Ledger.Views.{transition-Transitioned}
use qnty_spot.Ledger.Funding.Receipts.{receipt_steps, receipt_written}
use qnty_spot.Ledger.History.{
  Trade, creates, moves, recovers, receives, opens, closes, continues, executes,
}

reserve-policies :
    (i : IntentRow) (db db' : Db) → reserve i db ≡ ok db' → db'.policies ≡ db.policies
unfolding reserve insert_reservation
reserve-policies i db db' h = ground arith

settle-policies :
    (key : Key) (s : ReservationStatus) (db : Db)
    → (settle_reservation key s db).policies ≡ db.policies
unfolding settle_reservation
settle-policies key s db = ground arith

consequence-policies :
    (to : IntentState) (i : IntentRow) (db db' : Db)
    → consequence to i db ≡ ok db'
    → db'.policies ≡ db.policies
unfolding consequence
consequence-policies reserved i db db' h = reserve-policies i db db' h
consequence-policies filled i db db' h =
    ground (arith, settle-policies i.economic_action_id committed db)
consequence-policies cancelled i db db' h =
    ground (arith, settle-policies i.economic_action_id released db)
consequence-policies expired i db db' h =
    ground (arith, settle-policies i.economic_action_id released db)
consequence-policies rejected i db db' h =
    ground (arith, settle-policies i.economic_action_id released db)
consequence-policies safe_halt i db db' h =
    ground (arith, settle-policies i.economic_action_id quarantined db)
consequence-policies _ i db db' h = ground arith

transition-policies :
    (key : Key) (to : IntentState) (now : ℕ) (payload : Payload) (db db' : Db)
    → transition key to now payload db ≡ ok db'
    → db'.policies ≡ db.policies
transition-policies key to now payload db db' h =
    let t = transition-Transitioned key to now payload db db' h in
    ap (λ (d : Db). d.policies) t.result ∙ consequence-policies to t.row db t.funded t.paid

recover-policies :
    (key : Key) (to : IntentState) (now : ℕ) (db db' : Db)
    → recover_safe_halt key to now db ≡ ok db'
    → db'.policies ≡ db.policies
unfolding recover_safe_halt append_event insert_event
recover-policies key to now db db' h = ground arith

halt-policies :
    (row : IntentRow) (now : ℕ) (db db' : Db)
    → halt row now db ≡ ok db'
    → db'.policies ≡ db.policies
unfolding halt assert_legal_transition append_event insert_event settle_reservation
halt-policies row now db db' h = ground arith

receipt-policies :
    (r : FillReceipt) (now : ℕ) (db db' : Db) (within : Bool)
    → append_receipt r now db ≡ ok (within, db')
    → db'.policies ≡ db.policies
receipt-policies r now db db' within h =
    let (row, mid, db1, found, h1, h2, ended) = receipt_steps r now db db' within h in
    let (ei, er, ep) = receipt_written r now db db1 mid row h1 h2 in
    elim ended [
      | inl e ↦ ap (λ (d : Db). d.policies) e ∙ ep
      | inr e ↦ halt-policies row now mid db' e ∙ ep
    ]

create-policies :
    (i : Intent) (now : ℕ) (db db' : Db)
    → create_intent i now db ≡ ok db'
    → db'.policies ≡ db.policies
unfolding create_intent insert_intent append_event insert_event
create-policies i now db db' h = ground arith

open-policies :
    (p : Policy) (index now : ℕ) (db db' : Db)
    → open_cycle p index now db ≡ ok db'
    → db'.policies ≡ db.policies
unfolding open_cycle insert_cycle append_event insert_event
open-policies p index now db db' h = ground arith

close-policies :
    (key : CycleId) (status : CycleStatus) (now : ℕ) (db db' : Db)
    → close_cycle key status now db ≡ ok db'
    → db'.policies ≡ db.policies
unfolding close_cycle append_event insert_event
close-policies key status now db db' h = ground arith

continue-policies :
    (source : CycleId) (p : Policy) (index now : ℕ) (db db' : Db)
    → continue_inventory source p index now db ≡ ok db'
    → db'.policies ≡ db.policies
unfolding continue_inventory insert_cycle append_event insert_event
continue-policies source p index now db db' h = ground arith

pub Trade-policies : (db db' : Db) → Trade db db' → db'.policies ≡ db.policies
Trade-policies db db' (creates i now _ h) = create-policies i now db db' h
Trade-policies db db' (moves key to now payload _ h) =
    transition-policies key to now payload db db' h
Trade-policies db db' (recovers key to now _ h) = recover-policies key to now db db' h
Trade-policies db db' (receives r now within _ h) = receipt-policies r now db db' within h
Trade-policies db db' (opens p index now _ h) = open-policies p index now db db' h
Trade-policies db db' (closes key status now _ h) = close-policies key status now db db' h
Trade-policies db db' (continues source p index now _ h) =
    continue-policies source p index now db db' h
Trade-policies db db' (executes surface) = refl
