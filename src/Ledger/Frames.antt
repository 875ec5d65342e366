-- ===== src/Ledger/Frames.antt =====
-- What the operations on cycles and policies leave alone.
use qnty_spot.Prelude.{ℕ, ◌≡◌, ◌∙◌, Option, none, some, List, [], ◌∷◌, arith, inl, inr}
use qnty_spot.Errors.{ok, Result-cases}
use qnty_spot.Domain.{Key, CycleId, CycleStatus, Instrument, Level, Policy, levels}
use qnty_spot.Ledger.Rows.{PolicyRow, LevelRow, Db}
use qnty_spot.Ledger.Tables.{
  insert_instrument, insert_policy, insert_level, insert_cycle, insert_event, policy_of,
}
use qnty_spot.Ledger.Events.{append_event}
use qnty_spot.Ledger.Cycles.{open_cycle, close_cycle, continue_inventory}
use qnty_spot.Ledger.Policies.{
  level_row, new_policy, upsert_instrument, insert_levels, admit_found, admit_policy,
}

-- The tables of intents, reservations and receipts are the same.
pub record SameActions (db db' : Db) : Type 0 where
  pub intents : db'.intents ≡ db.intents
  pub reservations : db'.reservations ≡ db.reservations
  pub receipts : db'.receipts ≡ db.receipts

SameActions-trans : (a b c : Db) → SameActions a b → SameActions b c → SameActions a c
SameActions-trans a b c p q = record {
  intents = q.intents ∙ p.intents;
  reservations = q.reservations ∙ p.reservations;
  receipts = q.receipts ∙ p.receipts;
}

pub open_cycle-SameActions :
    (p : Policy) (index now : ℕ) (db db' : Db)
    → open_cycle p index now db ≡ ok db'
    → SameActions db db'
unfolding open_cycle insert_cycle append_event insert_event
open_cycle-SameActions p index now db db' h = ground arith

pub close_cycle-SameActions :
    (key : CycleId) (status : CycleStatus) (now : ℕ) (db db' : Db)
    → close_cycle key status now db ≡ ok db'
    → SameActions db db'
unfolding close_cycle append_event insert_event
close_cycle-SameActions key status now db db' h = ground arith

pub continue_inventory-SameActions :
    (source : CycleId) (p : Policy) (index now : ℕ) (db db' : Db)
    → continue_inventory source p index now db ≡ ok db'
    → SameActions db db'
unfolding continue_inventory insert_cycle append_event insert_event
continue_inventory-SameActions source p index now db db' h = ground arith

-- Every table but those of the registrations is the same, and so are the execution tables.
pub record Untouched (db db' : Db) : Type 0 where
  pub actions : SameActions db db'
  pub state_events : db'.state_events ≡ db.state_events
  pub surface : db'.surface ≡ db.surface

Untouched-trans : (a b c : Db) → Untouched a b → Untouched b c → Untouched a c
Untouched-trans a b c p q = record {
  actions = SameActions-trans a b c p.actions q.actions;
  state_events = q.state_events ∙ p.state_events;
  surface = q.surface ∙ p.surface;
}

upsert-Untouched :
    (i : Instrument) (db db' : Db) → upsert_instrument i db ≡ ok db' → Untouched db db'
unfolding upsert_instrument insert_instrument
upsert-Untouched i db db' h = ground arith

insert_level-Untouched :
    (l : LevelRow) (db db' : Db) → insert_level l db ≡ ok db' → Untouched db db'
unfolding insert_level
insert_level-Untouched l db db' h = ground arith

insert_policy-Untouched :
    (r : PolicyRow) (db db' : Db) → insert_policy r db ≡ ok db' → Untouched db db'
unfolding insert_policy
insert_policy-Untouched r db db' h = ground arith

insert_levels-Untouched :
    (policy : Key) (ls : List Level) (db db' : Db)
    → insert_levels policy ls db ≡ ok db'
    → Untouched db db'
unfolding insert_levels
insert_levels-Untouched policy [] db db' h = ground arith
insert_levels-Untouched policy (l ∷ rest) db db' h =
    elim (Result-cases (insert_level (level_row policy l) db)) [
      | inl (mid, h1) ↦
          Untouched-trans db mid db' (insert_level-Untouched (level_row policy l) db mid h1)
            (insert_levels-Untouched policy rest mid db' (ground arith))
      | inr (e, h1) ↦ absurd (ground arith)
    ]

admit_found-Untouched :
    (o : Option PolicyRow) (p : Policy) (db db' : Db)
    → admit_found o p db ≡ ok db'
    → Untouched db db'
unfolding admit_found
admit_found-Untouched (some r) p db db' h = ground arith
admit_found-Untouched none p db db' h = elim (Result-cases (insert_policy (new_policy p) db)) [
  | inl (mid, h1) ↦
      Untouched-trans db mid db' (insert_policy-Untouched (new_policy p) db mid h1)
        (insert_levels-Untouched p.policy_id (levels p) mid db' (ground arith))
  | inr (e, h1) ↦ absurd (ground arith)
]

pub admit_policy-Untouched :
    (p : Policy) (db db' : Db) → admit_policy p db ≡ ok db' → Untouched db db'
unfolding admit_policy
admit_policy-Untouched p db db' h = elim (Result-cases (upsert_instrument p.base db)) [
  | inr (e, h1) ↦ absurd (ground arith)
  | inl (db1, h1) ↦ elim (Result-cases (upsert_instrument p.quote db1)) [
    | inr (e, h2) ↦ absurd (ground arith)
    | inl (db2, h2) ↦ Untouched-trans db db1 db' (upsert-Untouched p.base db db1 h1) (
        Untouched-trans db1 db2 db' (upsert-Untouched p.quote db1 db2 h2)
          (admit_found-Untouched (policy_of db2 p.policy_id) p db2 db' (ground arith)))
  ]
]

pub admit_policy-SameActions :
    (p : Policy) (db db' : Db) → admit_policy p db ≡ ok db' → SameActions db db'
admit_policy-SameActions p db db' h = (admit_policy-Untouched p db db' h).actions

-- An admission registers a new policy, or leaves the table of policies as it is.
pub data Registered (db db' : Db) : Type 0 where
  same : db'.policies ≡ db.policies → Registered db db'
  added :
      (r : PolicyRow)
      → policy_of db r.policy_id ≡ none
      → db'.policies ≡ r ∷ db.policies
      → Registered db db'

upsert-policies :
    (i : Instrument) (db db' : Db) → upsert_instrument i db ≡ ok db' → db'.policies ≡ db.policies
unfolding upsert_instrument insert_instrument
upsert-policies i db db' h = ground arith

insert_levels-policies :
    (policy : Key) (ls : List Level) (db db' : Db)
    → insert_levels policy ls db ≡ ok db'
    → db'.policies ≡ db.policies
unfolding insert_levels insert_level
insert_levels-policies policy [] db db' h = ground arith
insert_levels-policies policy (l ∷ rest) db db' h =
    let after : Db = record db { ladder_levels = level_row policy l ∷ db.ladder_levels } in
    ground (arith, insert_levels-policies policy rest after db')

inserted :
    (r : PolicyRow) (db mid : Db)
    → insert_policy r db ≡ ok mid
    → (policy_of db r.policy_id ≡ none) × (mid.policies ≡ r ∷ db.policies)
unfolding insert_policy
inserted r db mid h = ground arith

admit_found-Registered :
    (o : Option PolicyRow) (p : Policy) (db db' : Db)
    → admit_found o p db ≡ ok db'
    → Registered db db'
unfolding admit_found
admit_found-Registered (some r) p db db' h = same (ground arith)
admit_found-Registered none p db db' h = elim (Result-cases (insert_policy (new_policy p) db)) [
  | inl (mid, h1) ↦
      let (unknown, e) = inserted (new_policy p) db mid h1 in
      added (new_policy p) unknown
        (insert_levels-policies p.policy_id (levels p) mid db' (ground arith) ∙ e)
  | inr (e, h1) ↦ absurd (ground arith)
]

Registered-from :
    (db mid db' : Db) → mid.policies ≡ db.policies → Registered mid db' → Registered db db'
Registered-from db mid db' e (same e') = same (e' ∙ e)
Registered-from db mid db' e (added r unknown e') = added r (rw (← e) unknown) (rw e at e')

pub admit_policy-Registered :
    (p : Policy) (db db' : Db) → admit_policy p db ≡ ok db' → Registered db db'
unfolding admit_policy
admit_policy-Registered p db db' h = elim (Result-cases (upsert_instrument p.base db)) [
  | inr (e, h1) ↦ absurd (ground arith)
  | inl (db1, h1) ↦ elim (Result-cases (upsert_instrument p.quote db1)) [
    | inr (e, h2) ↦ absurd (ground arith)
    | inl (db2, h2) ↦
        Registered-from db db2 db'
          (upsert-policies p.quote db1 db2 h2 ∙ upsert-policies p.base db db1 h1)
          (admit_found-Registered (policy_of db2 p.policy_id) p db2 db' (ground arith))
  ]
]
