-- ===== src/Ledger/Replay/Enrolled.antt =====
-- A replay in a ledger that has more registered than its events need: the INSERTs.
pub mod Cycles
pub mod Actions
pub mod Events
pub mod Admission
use qnty_spot.Prelude.{◌≡◌, refl, inl, inr, true, Option-cases, some, arith}
use qnty_spot.Errors.{ok}
use qnty_spot.Domain.{Key}
use qnty_spot.Ledger.Rows.{PolicyRow, IntentRow, ReservationRow, ReceiptRow, CycleRow, EventRow, Db}
use qnty_spot.Ledger.Tables.{
  is_some, policy_of, instrument_of, has_level, insert_intent, insert_event, insert_cycle,
  insert_reservation, insert_receipt,
}

-- The database with the instruments, policies and rungs of another.
abbrev pub enrolled : Db → Db → Db
enrolled x db = record db {
  instruments = x.instruments;
  policies = x.policies;
  ladder_levels = x.ladder_levels;
}

-- Whatever is registered in one is registered in the other.
pub record Extends (db x : Db) : Type 0 where
  pub policies : (k : Key) (r : PolicyRow) → policy_of db k ≡ some r → policy_of x k ≡ some r
  pub instruments :
      (k : Key) → is_some (instrument_of db k) ≡ true → is_some (instrument_of x k) ≡ true
  pub ladder_levels : (p l : Key) → has_level db p l ≡ true → has_level x p l ≡ true

pub Extends-refl : (db : Db) → Extends db db
Extends-refl db = record {
  policies = λ k r h. h;
  instruments = λ k h. h;
  ladder_levels = λ p l h. h;
}

pub Extends-trans : (a b c : Db) → Extends a b → Extends b c → Extends a c
Extends-trans a b c p q = record {
  policies = λ k r h. q.policies k r (p.policies k r h);
  instruments = λ k h. q.instruments k (p.instruments k h);
  ladder_levels = λ k l h. q.ladder_levels k l (p.ladder_levels k l h);
}

-- An extension of a database extends every one with the same registrations.
pub Extends-same : (db mid x : Db) → mid ≡ enrolled db mid → Extends db x → Extends mid x
Extends-same db mid x same e =
    rw same (record {
      policies = e.policies;
      instruments = e.instruments;
      ladder_levels = e.ladder_levels;
    })

pub known :
    (db x : Db) (k : Key)
    → Extends db x
    → is_some (policy_of db k) ≡ true
    → is_some (policy_of x k) ≡ true
known db x k e h = elim (Option-cases (policy_of db k)) [
  | inr (r, f) ↦ rw (e.policies k r f) refl
  | inl f ↦ absurd (ground arith)
]

module _ (x : Db) where
  pub insert_cycle-enrolled :
      (r : CycleRow) (db db' : Db)
      → Extends db x
      → insert_cycle r db ≡ ok db'
      → insert_cycle r (enrolled x db) ≡ ok (enrolled x db')
  unfolding insert_cycle
  insert_cycle-enrolled r db db' e h = ground (arith, known db x r.policy_id e)

  pub insert_intent-enrolled :
      (r : IntentRow) (db db' : Db)
      → Extends db x
      → insert_intent r db ≡ ok db'
      → insert_intent r (enrolled x db) ≡ ok (enrolled x db')
  unfolding insert_intent
  insert_intent-enrolled r db db' e h = ground (
    arith,
    known db x r.policy_id e,
    e.instruments r.instrument_id,
    e.instruments r.quote_instrument_id,
    e.ladder_levels r.policy_id r.level_id,
  )

  pub insert_reservation-enrolled :
      (r : ReservationRow) (db db' : Db)
      → Extends db x
      → insert_reservation r db ≡ ok db'
      → insert_reservation r (enrolled x db) ≡ ok (enrolled x db')
  unfolding insert_reservation
  insert_reservation-enrolled r db db' e h = ground (
    arith,
    known db x r.policy_id e,
    e.instruments r.instrument_id,
    e.instruments r.quote_instrument_id,
  )

  pub insert_event-enrolled :
      (r : EventRow) (db db' : Db)
      → Extends db x
      → insert_event r db ≡ ok db'
      → insert_event r (enrolled x db) ≡ ok (enrolled x db')
  unfolding insert_event
  insert_event-enrolled r db db' e h = ground (arith, known db x r.policy_id e)

  pub insert_receipt-enrolled :
      (r : ReceiptRow) (db db' : Db)
      → insert_receipt r db ≡ ok db'
      → insert_receipt r (enrolled x db) ≡ ok (enrolled x db')
  unfolding insert_receipt
  insert_receipt-enrolled r db db' h = ground arith
