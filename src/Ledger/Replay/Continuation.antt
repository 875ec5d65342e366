-- ===== src/Ledger/Replay/Continuation.antt =====
-- The replay of the inventory that is carried from a completed cycle to its successor.
use qnty_spot.Prelude.{
  ℕ, ◌≡◌, refl, ◌∙◌, Bool, true, false, not, ◌&&◌, some, List, [], ◌∷◌, ◌++◌, any, find, update,
  ltb, arith, inl, inr, Option-cases,
}
use qnty_spot.Prelude.Int.{ℤ, pos}
use qnty_spot.Errors.{ok}
use qnty_spot.Domain.{Key, CycleId, same_cycle, completed, Policy}
use qnty_spot.Ledger.Rows.{EventRow, CycleRow, PolicyRow, Db}
use qnty_spot.Ledger.Tables.{cycle_of, policy_of, insert_event, insert_cycle}
use qnty_spot.Ledger.Events.{next_seq, append_event}
use qnty_spot.Ledger.Cycles.{
  cycle_id_for, is_open, continue_inventory, new_cycle, set_cycle, intents_in, is_opening,
  opening_event, is_carry_of, carried_out, inventory_atomic, is_settled_intent, same_asset,
}
use qnty_spot.Ledger.Replay.{check_carry, replayed_inventory}
use qnty_spot.Ledger.Replay.Mirror.{Replayed, Replayed-then}
use qnty_spot.Ledger.Replay.Cycles.{
  opened_event, with_cycle, opened_from, closed_event, closed_from,
}

-- the ledger after the source cycle is completed
abbrev pub closed : Key → CycleId → ℕ → Db → Db
closed policy source now db = record db {
  cycles = (set_cycle source completed db).cycles;
  state_events = db.state_events ++ closed_event policy source completed now db ∷ [];
}

find-append {ℓ} :
    {A : Type ℓ} (p : A → Bool) (xs ys : List A) (x : A)
    → find p xs ≡ some x
    → find p (xs ++ ys) ≡ some x
find-append p [] ys x h = ground arith
find-append p (z ∷ xs) ys x h = ground (arith, find-append p xs ys x)

any-append_one {ℓ} :
    {A : Type ℓ} (p : A → Bool) (xs : List A) (y : A)
    → p y ≡ false
    → any p (xs ++ y ∷ []) ≡ any p xs
any-append_one p [] y h = ground arith
any-append_one p (z ∷ xs) y h = ground (arith, any-append_one p xs y h)

carried_out-append_one :
    (key : CycleId) (es : List EventRow) (e : EventRow)
    → is_carry_of key e ≡ false
    → carried_out key (es ++ e ∷ []) ≡ carried_out key es
carried_out-append_one key [] e h = ground arith
carried_out-append_one key (x ∷ es) e h = ground (arith, carried_out-append_one key es e h)

cycle_of-set_cycle :
    (key : CycleId) (cycles : List CycleRow) (row : CycleRow)
    → find (λ r. same_cycle r.cycle_id key) cycles ≡ some row
    → find
        (λ r. same_cycle r.cycle_id key)
        (update (λ r. same_cycle r.cycle_id key) (λ r. record r { status = completed }) cycles)
      ≡ some (record row { status = completed })
cycle_of-set_cycle key [] row h = ground arith
cycle_of-set_cycle key (c ∷ cycles) row h = ground (arith, cycle_of-set_cycle key cycles row)

replayed_inventory-closed :
    (policy : Key) (source : CycleId) (now : ℕ) (db : Db) (n : ℤ)
    → inventory_atomic source db ≡ ok n
    → replayed_inventory source (closed policy source now db) ≡ ok n
unfolding inventory_atomic replayed_inventory
replayed_inventory-closed policy source now db n h = elim (Option-cases (opening_event source db)) [
  | inl unknown ↦ absurd (ground arith)
  | inr (start, found) ↦
      let e : EventRow = closed_event policy source completed now db in
      let found' : opening_event source (closed policy source now db) ≡ some start =
        find-append (λ x. is_opening x && same_cycle x.cycle_id source) db.state_events (e ∷ [])
          start found in
      ground (arith, found', carried_out-append_one source db.state_events e refl)
]

-- What the guards of a continuation have let through, and the two events that it wrote.
pub record Continued (source : CycleId) (p : Policy) (index now : ℕ) (db db' : Db) : Type 0 where
  pub cycle : CycleRow
  holder : PolicyRow
  admitted : PolicyRow
  pub carried : ℕ
  found : cycle_of db source ≡ some cycle
  held_by : policy_of db cycle.policy_id ≡ some holder
  known : policy_of db p.policy_id ≡ some admitted
  live : is_open cycle.status ≡ true
  other : same_cycle (cycle_id_for p.policy_id index) source ≡ false
  same : same_asset holder admitted ≡ true
  settled : any (λ r. not (is_settled_intent r)) (intents_in source db) ≡ false
  kept : any (is_carry_of source) db.state_events ≡ false
  inventory : inventory_atomic source db ≡ ok (pos carried)
  some_left : ltb 0 carried ≡ true
  pub completes :
      insert_event
        (closed_event cycle.policy_id source completed now db)
        (set_cycle source completed db)
      ≡ ok (closed cycle.policy_id source now db)
  inserted :
      insert_cycle (new_cycle p.policy_id index) (closed cycle.policy_id source now db)
      ≡ ok (with_cycle p.policy_id index (closed cycle.policy_id source now db))
  pub written :
      insert_event
        (opened_event p.policy_id index
          (some (record { amount_atomic = carried; source_cycle_id = source }))
          now
          (closed cycle.policy_id source now db))
        (with_cycle p.policy_id index (closed cycle.policy_id source now db))
      ≡ ok db'

pub continue_inventory-Continued :
    (source : CycleId) (p : Policy) (index now : ℕ) (db db' : Db)
    → continue_inventory source p index now db ≡ ok db'
    → Continued source p index now db db'
unfolding continue_inventory insert_cycle append_event next_seq insert_event
continue_inventory-Continued source p index now db db' h = ground arith

same_cycle_comm : (a b : CycleId) → same_cycle a b ≡ same_cycle b a
same_cycle_comm a b = ground arith

carry-checked :
    (source : CycleId) (p : Policy) (index now : ℕ) (db db' : Db)
    (c : Continued source p index now db db')
    → check_carry p.policy_id
        (cycle_id_for p.policy_id index)
        (some (record { amount_atomic = c.carried; source_cycle_id = source }))
        (closed c.cycle.policy_id source now db)
      ≡ ok tt
unfolding check_carry
carry-checked source p index now db db' c =
    let mid : Db = closed c.cycle.policy_id source now db in
    let other : same_cycle source (cycle_id_for p.policy_id index) ≡ false =
      same_cycle_comm source (cycle_id_for p.policy_id index) ∙ c.other in
    let found : cycle_of mid source ≡ some (record c.cycle { status = completed }) =
      cycle_of-set_cycle source db.cycles c.cycle c.found in
    let kept : any (is_carry_of source) mid.state_events ≡ false =
      any-append_one (is_carry_of source) db.state_events
        (closed_event c.cycle.policy_id source completed now db) refl
      ∙ c.kept in
    let inventory : replayed_inventory source mid ≡ ok (pos c.carried) =
      replayed_inventory-closed c.cycle.policy_id source now db (pos c.carried) c.inventory in
    let known = c.known in
    let held_by = c.held_by in
    let same = c.same in
    let settled = c.settled in
    let some_left = c.some_left in
    rw (other, some_left, found, held_by, known, same, settled, kept, inventory) (ground arith)

pub continue_inventory-Replayed :
    (source : CycleId) (p : Policy) (index now : ℕ) (db db' : Db)
    → continue_inventory source p index now db ≡ ok db'
    → Replayed db db'
continue_inventory-Replayed source p index now db db' h =
    let c = continue_inventory-Continued source p index now db db' h in
    let mid : Db = closed c.cycle.policy_id source now db in
    Replayed-then db mid db'
      (closed_from c.cycle source completed now db mid refl c.found c.live c.completes)
      (opened_from p.policy_id index now
        (some (record { amount_atomic = c.carried; source_cycle_id = source })) mid db'
        (carry-checked source p index now db db' c) c.inserted c.written)
