-- ===== src/Ledger/Replay/Receipts.antt =====
-- The replay of a fill receipt: of the event that appends it, and of the move to SAFE_HALT where it is
-- out of the bounds.
use qnty_spot.Prelude.{
  ℕ, ◌+◌, ◌≡◌, refl, ◌∙◌, ap, sym, Bool, ◌||◌, none, some, List, [], ◌∷◌, arith, inl, inr,
  Option-cases, Bool-cases, Distinct,
}
use qnty_spot.Errors.{ok, Result-cases}
use qnty_spot.States.{safe_halt, is_state}
use qnty_spot.Domain.{Key, FillReceipt}
use qnty_spot.Ledger.Rows.{
  EventRow, IntentRow, Db, intent_label, fill_receipt_appended, filled_by, outside_bounds,
}
use qnty_spot.Ledger.Tables.{intent_of, insert_event, insert_receipt}
use qnty_spot.Ledger.Events.{max_seq, next_seq, append_event}
use qnty_spot.Ledger.Intents.{intent_row, transition, consequence}
use qnty_spot.Ledger.Held.{action_of}
use qnty_spot.Ledger.Receipts.{
  new_receipt, receipt_within_bounds, insert_or_duplicate, halt, append_receipt,
}
use qnty_spot.Ledger.Views.{intent_of-key}
use qnty_spot.Ledger.Replay.{receipt_replayed, apply_event}
use qnty_spot.Ledger.Replay.Mirror.{
  mirror, Covers, event_row, inserted-intent_of, Replayed, Replayed-then,
}
use qnty_spot.Ledger.Replay.Steps.{one_event, transition-Replayed}

abbrev pub receipt_event : FillReceipt → ℕ → IntentRow → Db → EventRow
receipt_event r now row db =
    event_row fill_receipt_appended row.policy_id row.cycle_id (some r.economic_action_id)
      (some (intent_label row.state)) none now (filled_by r) db

abbrev pub with_receipt : FillReceipt → Db → Db
with_receipt r db = record db {
  receipts = new_receipt r (max_seq db.state_events + 1) ∷ db.receipts;
}

-- To halt is a transition.
pub halt-transition :
    (row : IntentRow) (now : ℕ) (db : Db)
    → intent_of db row.economic_action_id ≡ some row
    → halt row now db ≡ transition row.economic_action_id safe_halt now outside_bounds db
unfolding halt transition intent_row consequence
halt-transition row now db found = rw found refl

pub data Appended (r : FillReceipt) (now : ℕ) (db db' : Db) (row : IntentRow) (mid : Db)
    : Type 0 where
  no_halt : db' ≡ mid → Appended r now db db' row mid
  halted : halt row now mid ≡ ok db' → Appended r now db db' row mid

pub append_receipt-parts :
    (r : FillReceipt) (now : ℕ) (db db' : Db) (within : Bool) (row : IntentRow)
    → intent_of db r.economic_action_id ≡ some row
    → append_receipt r now db ≡ ok (within, db')
    → (mid : Db) × (insert_receipt (new_receipt r (max_seq db.state_events + 1)) db
        ≡ ok (with_receipt r db))
      × (insert_event (receipt_event r now row db) (with_receipt r db) ≡ ok mid)
      × Appended r now db db' row mid
unfolding append_receipt intent_row insert_or_duplicate append_event next_seq insert_receipt
append_receipt-parts r now db db' within row found h =
    elim (Result-cases (insert_event (receipt_event r now row db) (with_receipt r db))) [
      | inl (mid, written) ↦ elim (Result-cases (halt row now mid)) [
        | inl (last, stopped) ↦
            elim (Bool-cases (
              receipt_within_bounds r.economic_action_id row.bounds mid
              || is_state row.state safe_halt)) [
                | inl fits ↦ (mid, ground arith, written, no_halt (ground arith))
                | inr out ↦ (mid, ground arith, written, halted (ground arith))
              ]
        | inr (e, failed) ↦ (mid, ground arith, written, no_halt (ground arith))
      ]
      | inr (e, failed) ↦ absurd (ground arith)
    ]

receipt_applied :
    (r : FillReceipt) (now : ℕ) (row : IntentRow) (db : Db) (seen : List Key)
    → intent_of db r.economic_action_id ≡ some row
    → insert_receipt (new_receipt r (max_seq db.state_events + 1)) db ≡ ok (with_receipt r db)
    → Covers db seen
    → apply_event [] fill_receipt_appended (receipt_event r now row db) (mirror db seen)
      ≡ ok (record { target = with_receipt r db; seen = seen; last_seq = max_seq db.state_events })
unfolding apply_event receipt_replayed
receipt_applied r now row db seen found inserted covers =
    ground (arith, covers r.economic_action_id)

inserted-same :
    (r : FillReceipt) (e : EventRow) (db mid : Db)
    → insert_event e (with_receipt r db) ≡ ok mid
    → (mid.surface ≡ db.surface) × (mid.reservations ≡ db.reservations)
unfolding insert_event
inserted-same r e db mid h = ground arith

halted-Replayed :
    (r : FillReceipt) (now : ℕ) (db db' : Db) (row : IntentRow) (mid : Db)
    → Appended r now db db' row mid
    → intent_of mid row.economic_action_id ≡ some row
    → mid.surface ≡ none
    → Distinct action_of mid.reservations
    → Replayed db mid
    → Replayed db db'
halted-Replayed r now db db' row mid (no_halt e) found bare d first = rw e first
halted-Replayed r now db db' row mid (halted h) found bare d first =
    Replayed-then db mid db' first (
      transition-Replayed row.economic_action_id safe_halt now outside_bounds mid db' bare d
        (sym (halt-transition row now mid found) ∙ h))

append_receipt_from :
    (r : FillReceipt) (now : ℕ) (db db' : Db) (within : Bool) (row : IntentRow)
    → intent_of db r.economic_action_id ≡ some row
    → db.surface ≡ none
    → Distinct action_of db.reservations
    → append_receipt r now db ≡ ok (within, db')
    → Replayed db db'
append_receipt_from r now db db' within row found bare d h =
    let (mid, inserted, written, rest) = append_receipt-parts r now db db' within row found h in
    let e : EventRow = receipt_event r now row db in
    let (surface, reservations) = inserted-same r e db mid written in
    let found' : intent_of mid row.economic_action_id ≡ some row =
      inserted-intent_of e (with_receipt r db) mid row.economic_action_id written
      ∙ ap (intent_of db) (intent_of-key db r.economic_action_id row found)
      ∙ found in
    halted-Replayed r now db db' row mid rest found' (surface ∙ bare) (rw reservations d) (
      one_event e db (with_receipt r db) mid refl refl refl (λ j. refl)
        (λ seen covers. receipt_applied r now row db seen found inserted covers) written)

pub append_receipt-Replayed :
    (r : FillReceipt) (now : ℕ) (within : Bool) (db db' : Db)
    → db.surface ≡ none
    → Distinct action_of db.reservations
    → append_receipt r now db ≡ ok (within, db')
    → Replayed db db'
unfolding append_receipt intent_row
append_receipt-Replayed r now within db db' bare d h =
    elim (Option-cases (intent_of db r.economic_action_id)) [
      | inl unknown ↦ absurd (ground arith)
      | inr (row, found) ↦ append_receipt_from r now db db' within row found bare d h
    ]
