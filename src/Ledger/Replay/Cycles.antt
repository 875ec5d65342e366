-- ===== src/Ledger/Replay/Cycles.antt =====
-- The replay of the opening and the closing of cycles, and of the inventory carried from one to
-- another.
use qnty_spot.Prelude.{
  ℕ, ◌≡◌, refl, true, false, Option, none, some, ◌∷◌, arith, inl, inr, Option-cases,
}
use qnty_spot.Errors.{ok}
use qnty_spot.Domain.{Key, CycleId, CycleStatus, opened, completed, halted, Policy}
use qnty_spot.Ledger.Rows.{EventRow, CycleRow, Db, empty, opening, Carry, cycle_label, cycle_opened}
use qnty_spot.Ledger.Tables.{cycle_of, insert_event, insert_cycle}
use qnty_spot.Ledger.Events.{next_seq, append_event}
use qnty_spot.Ledger.Cycles.{
  cycle_id_for, is_open, open_cycle, close_cycle, new_cycle, closing_type, set_cycle,
}
use qnty_spot.Ledger.Replay.{check_carry, open_replayed, close_replayed, apply_event}
use qnty_spot.Ledger.Replay.Mirror.{event_row, Replayed}
use qnty_spot.Ledger.Replay.Steps.{one_event}

abbrev pub opened_event : Key → ℕ → Option Carry → ℕ → Db → EventRow
opened_event policy index carry now db =
    event_row cycle_opened policy (cycle_id_for policy index) none none (some (cycle_label opened))
      now (opening index carry) db

abbrev pub with_cycle : Key → ℕ → Db → Db
with_cycle policy index db = record db { cycles = new_cycle policy index ∷ db.cycles }

pub opened_from :
    (policy : Key) (index now : ℕ) (carry : Option Carry) (db db' : Db)
    → check_carry policy (cycle_id_for policy index) carry db ≡ ok tt
    → insert_cycle (new_cycle policy index) db ≡ ok (with_cycle policy index db)
    → insert_event (opened_event policy index carry now db) (with_cycle policy index db) ≡ ok db'
    → Replayed db db'
unfolding apply_event open_replayed
opened_from policy index now carry db db' checked inserted written =
    one_event (opened_event policy index carry now db) db (with_cycle policy index db) db' refl refl
      refl (λ j. refl) (λ seen covers. ground (arith, checked, inserted)) written

pub opening-parts :
    (p : Policy) (index now : ℕ) (db db' : Db)
    → open_cycle p index now db ≡ ok db'
    → (insert_cycle (new_cycle p.policy_id index) db ≡ ok (with_cycle p.policy_id index db))
      × (insert_event (opened_event p.policy_id index none now db) (with_cycle p.policy_id index db)
          ≡ ok db')
unfolding open_cycle insert_cycle append_event next_seq
opening-parts p index now db db' h = ground arith

pub open_cycle-Replayed :
    (p : Policy) (index now : ℕ) (db db' : Db)
    → open_cycle p index now db ≡ ok db'
    → Replayed db db'
unfolding check_carry
open_cycle-Replayed p index now db db' h =
    let (inserted, written) = opening-parts p index now db db' h in
    opened_from p.policy_id index now none db db' refl inserted written

abbrev pub closed_event : Key → CycleId → CycleStatus → ℕ → Db → EventRow
closed_event policy key status now db =
    event_row (closing_type status) policy key none (some (cycle_label opened))
      (some (cycle_label status)) now empty db

pub closed_from :
    (row : CycleRow) (key : CycleId) (status : CycleStatus) (now : ℕ) (db db' : Db)
    → is_open status ≡ false
    → cycle_of db key ≡ some row
    → is_open row.status ≡ true
    → insert_event (closed_event row.policy_id key status now db) (set_cycle key status db) ≡ ok db'
    → Replayed db db'
unfolding apply_event close_replayed
closed_from row key opened now db db' closing found live written = absurd (ground arith)
closed_from row key completed now db db' closing found live written =
    one_event (closed_event row.policy_id key completed now db) db (set_cycle key completed db) db'
      refl refl refl (λ j. refl) (λ seen covers. ground (arith, found, live)) written
closed_from row key halted now db db' closing found live written =
    one_event (closed_event row.policy_id key halted now db) db (set_cycle key halted db) db' refl
      refl refl (λ j. refl) (λ seen covers. ground (arith, found, live)) written

pub closing-parts :
    (row : CycleRow) (key : CycleId) (status : CycleStatus) (now : ℕ) (db db' : Db)
    → cycle_of db key ≡ some row
    → close_cycle key status now db ≡ ok db'
    → (is_open status ≡ false)
      × (is_open row.status ≡ true)
      × (insert_event (closed_event row.policy_id key status now db) (set_cycle key status db)
          ≡ ok db')
unfolding close_cycle append_event next_seq
closing-parts row key status now db db' found h = ground arith

pub close_cycle-Replayed :
    (key : CycleId) (status : CycleStatus) (now : ℕ) (db db' : Db)
    → close_cycle key status now db ≡ ok db'
    → Replayed db db'
unfolding close_cycle
close_cycle-Replayed key status now db db' h = elim (Option-cases (cycle_of db key)) [
  | inl unknown ↦ absurd (ground arith)
  | inr (row, found) ↦
      let (closing, live, written) = closing-parts row key status now db db' found h in
      closed_from row key status now db db' closing found live written
]
