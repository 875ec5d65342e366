-- ===== src/Ledger/Replay/Enrolled/Cycles.antt =====
-- The events of cycles, where more is registered than they need.
use qnty_spot.Prelude.{◌≡◌, refl, inl, inr, Option, Option-cases, none, some, arith}
use qnty_spot.Errors.{ok}
use qnty_spot.Domain.{Key, CycleId, CycleStatus}
use qnty_spot.Ledger.Rows.{CycleRow, EventRow, Carry, Payload, opening, empty, Db}
use qnty_spot.Ledger.Tables.{policy_of, cycle_of}
use qnty_spot.Ledger.Replay.{replayed_inventory, check_carry, open_replayed, close_replayed}
use qnty_spot.Ledger.Replay.Enrolled.{enrolled, Extends, insert_cycle-enrolled}

module _ (x : Db) where
  replayed_inventory-enrolled :
      (key : CycleId) (db : Db) → replayed_inventory key (enrolled x db) ≡ replayed_inventory key db
  unfolding replayed_inventory
  replayed_inventory-enrolled key db = refl

  check_carry-enrolled :
      (policy : Key) (cycle : CycleId) (c : Option Carry) (db : Db)
      → Extends db x
      → check_carry policy cycle c db ≡ ok tt
      → check_carry policy cycle c (enrolled x db) ≡ ok tt
  unfolding check_carry
  check_carry-enrolled policy cycle none db e h = refl
  check_carry-enrolled policy cycle (some c) db e h =
      elim (Option-cases (cycle_of db c.source_cycle_id)) [
        | inl f ↦ absurd (ground arith)
        | inr (source, f) ↦ elim (Option-cases (policy_of db source.policy_id)) [
          | inl g ↦ absurd (ground arith)
          | inr (holder, g) ↦ elim (Option-cases (policy_of db policy)) [
            | inl k ↦ absurd (ground arith)
            | inr (target, k) ↦ ground (
              arith,
              e.policies source.policy_id holder g,
              e.policies policy target k,
              replayed_inventory-enrolled c.source_cycle_id db,
            )
          ]
        ]
      ]

  pub open_replayed-enrolled :
      (r : EventRow) (p : Payload) (db db' : Db)
      → Extends db x
      → open_replayed r p db ≡ ok db'
      → open_replayed r p (enrolled x db) ≡ ok (enrolled x db')
  unfolding open_replayed
  open_replayed-enrolled r (opening index carry) db db' e h =
      let cycle : CycleRow = record {
        cycle_id = r.cycle_id;
        policy_id = r.policy_id;
        cycle_index = index;
        status = CycleStatus.opened;
      } in
      ground (
        arith,
        check_carry-enrolled r.policy_id r.cycle_id carry db e,
        insert_cycle-enrolled x cycle db db' e,
      )
  open_replayed-enrolled r _ db db' e h = absurd (ground arith)

  pub close_replayed-enrolled :
      (r : EventRow) (s : CycleStatus) (p : Payload) (db db' : Db)
      → close_replayed r s p db ≡ ok db'
      → close_replayed r s p (enrolled x db) ≡ ok (enrolled x db')
  unfolding close_replayed
  close_replayed-enrolled r s empty db db' h = ground arith
  close_replayed-enrolled r s _ db db' h = absurd (ground arith)
