-- ===== src/Ledger/Changes.antt =====
-- The three ways in which an operation of the ledger changes the table of reservations.
use qnty_spot.Prelude.{
  ℕ, ◌≡◌, refl, ap, Bool, true, Option, none, some, List, ◌∷◌, update, ◌==◌, arith, Bool-cases,
  Option-cases, inl, inr,
}
use qnty_spot.Errors.{ok}
use qnty_spot.States.{IntentState, reserved, filled, cancelled, expired, rejected, safe_halt}
use qnty_spot.Domain.{Key, FillReceipt, ReservationStatus, active, committed, released, quarantined}
use qnty_spot.Ledger.Rows.{IntentRow, ReservationRow, Payload, Db, is_active, is_held}
use qnty_spot.Ledger.Tables.{is_some, is_reservation, reservation_of, policy_of, insert_reservation}
use qnty_spot.Ledger.Events.{next_seq}
use qnty_spot.Ledger.Budget.{within_caps, new_reservation, reserve, with_status, settle_reservation}
use qnty_spot.Ledger.Intents.{consequence, transition}
use qnty_spot.Ledger.ChainTruth.{recover_safe_halt, reservation_fits, move_reservation}
use qnty_spot.Ledger.Receipts.{append_receipt}
use qnty_spot.Ledger.Views.{transition-Transitioned, intent_of-key}
use qnty_spot.Ledger.Funding.Recovery.{settled_recovery, reverted_recovery, recovery_target}
use qnty_spot.Ledger.Funding.Receipts.{kept, stopped, append_receipt-Received}

pub data Change (db : Db) (rows : List ReservationRow) : Type 0 where
  -- nothing
  unchanged : rows ≡ db.reservations → Change db rows
  -- the one reservation of an action, which holds capital, gets another status
  restated :
      (key : Key) (status : ReservationStatus) (seq : Option ℕ) (v : ReservationRow)
      → reservation_of db key ≡ some v
      → is_held v.status ≡ true
      → rows ≡ update (is_reservation key) (with_status status seq) db.reservations
      → Change db rows
  -- the guarded INSERT, for an intent with exposure
  taken :
      (i : IntentRow) (seq : Db)
      → within_caps i i.quote_exposure_atomic db ≡ true
      → reservation_of db i.economic_action_id ≡ none
      → is_some (policy_of db i.policy_id) ≡ true
      → rows ≡ new_reservation i i.quote_exposure_atomic seq ∷ db.reservations
      → Change db rows

reserve-Change : (i : IntentRow) (db db' : Db) → reserve i db ≡ ok db' → Change db db'.reservations
unfolding reserve insert_reservation
reserve-Change i db db' h = elim (Bool-cases (i.quote_exposure_atomic == 0)) [
  | inl nothing ↦ unchanged (ground arith)
  | inr some_exposure ↦ taken i db (ground arith) (ground arith) (ground arith) (ground arith)
]

active-is_held : (s : ReservationStatus) → is_active s ≡ true → is_held s ≡ true
active-is_held active h = refl
active-is_held _ h = ground arith

settle-Change :
    (key : Key) (s : ReservationStatus) (db : Db)
    → Change db (settle_reservation key s db).reservations
unfolding settle_reservation
settle-Change key s db = elim (Option-cases (reservation_of db key)) [
  | inl nothing ↦ unchanged (ground arith)
  | inr (v, found) ↦ elim (Bool-cases (is_active v.status)) [
    | inl live ↦
        restated key s (some (next_seq db)) v found (active-is_held v.status live) (ground arith)
    | inr settled ↦ unchanged (ground arith)
  ]
]

Change-eq :
    (db : Db) (rows rows' : List ReservationRow) → rows' ≡ rows → Change db rows → Change db rows'
Change-eq db rows rows' e c = rw e c

consequence-Change :
    (to : IntentState) (i : IntentRow) (db db' : Db)
    → consequence to i db ≡ ok db'
    → Change db db'.reservations
unfolding consequence
consequence-Change reserved i db db' h = reserve-Change i db db' h
consequence-Change filled i db db' h =
    Change-eq db _ db'.reservations (ground arith) (settle-Change i.economic_action_id committed db)
consequence-Change cancelled i db db' h =
    Change-eq db _ db'.reservations (ground arith) (settle-Change i.economic_action_id released db)
consequence-Change expired i db db' h =
    Change-eq db _ db'.reservations (ground arith) (settle-Change i.economic_action_id released db)
consequence-Change rejected i db db' h =
    Change-eq db _ db'.reservations (ground arith) (settle-Change i.economic_action_id released db)
consequence-Change safe_halt i db db' h =
    Change-eq db _ db'.reservations (ground arith)
      (settle-Change i.economic_action_id quarantined db)
consequence-Change _ i db db' h = unchanged (ground arith)

pub transition-Change :
    (key : Key) (to : IntentState) (now : ℕ) (payload : Payload) (db db' : Db)
    → transition key to now payload db ≡ ok db'
    → Change db db'.reservations
transition-Change key to now payload db db' h =
    let t = transition-Transitioned key to now payload db db' h in
    Change-eq db t.funded.reservations db'.reservations (ap (λ (d : Db). d.reservations) t.result)
      (consequence-Change to t.row db t.funded t.paid)

move-Change :
    (key : Key) (i : IntentRow) (s : ReservationStatus) (seq : Option ℕ) (db : Db)
    → i.economic_action_id ≡ key
    → reservation_fits i.quote_exposure_atomic (reservation_of db key) ≡ true
    → Change db (move_reservation i s seq db).reservations
move-Change key i s seq db same fit = elim (Option-cases (reservation_of db key)) [
  | inl nothing ↦ unchanged (ground arith)
  | inr (v, found) ↦
      restated i.economic_action_id s seq v (rw same found) (ground arith) (ground arith)
]

pub recover_safe_halt-Change :
    (key : Key) (to : IntentState) (now : ℕ) (db db' : Db)
    → recover_safe_halt key to now db ≡ ok db'
    → Change db db'.reservations
recover_safe_halt-Change key to now db db' h =
    let (known, target) = recovery_target key to now db db' h in
    let (row, found) = known in
    let same = intent_of-key db key row found in
    elim target [
      | inl e ↦
          let (halted, fit, ei, er) = settled_recovery key now db db' row found (rw e at h) in
          Change-eq db _ db'.reservations er (move-Change key row active none db same fit)
      | inr e ↦
          let (halted, fit, ei, er) = reverted_recovery key now db db' row found (rw e at h) in
          Change-eq db _ db'.reservations er
            (move-Change key row released (some (next_seq db)) db same fit)
    ]

settle-restated :
    (db mid : Db) (key : Key) (rows : List ReservationRow)
    → mid.reservations ≡ db.reservations
    → rows ≡ (settle_reservation key quarantined mid).reservations
    → Change db rows
unfolding settle_reservation
settle-restated db mid key rows er e = elim (Option-cases (reservation_of db key)) [
  | inl nothing ↦ unchanged (ground arith)
  | inr (v, found) ↦ elim (Bool-cases (is_active v.status)) [
    | inl live ↦
        restated key quarantined (some (next_seq mid)) v found (active-is_held v.status live)
          (ground arith)
    | inr settled ↦ unchanged (ground arith)
  ]
]

pub append_receipt-Change :
    (r : FillReceipt) (now : ℕ) (db db' : Db) (within : Bool)
    → append_receipt r now db ≡ ok (within, db')
    → Change db db'.reservations
append_receipt-Change r now db db' within h = elim (append_receipt-Received r now db db' within h) [
  | kept ei er ↦ unchanged er
  | stopped row mid found legal ei er ep hi hr ↦
      settle-restated db mid row.economic_action_id db'.reservations er hr
]
