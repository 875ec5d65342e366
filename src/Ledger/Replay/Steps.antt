-- ===== src/Ledger/Replay/Steps.antt =====
-- The replay of the events of one call: an intent's moves and its creation.
use qnty_spot.Prelude.{
  ℕ, ◌+◌, ◌≡◌, refl, ◌∙◌, ap, sym, Bool, true, ◌&&◌, none, some, List, [], ◌∷◌, ◌++◌, update,
  row_of, Distinct, update-eq_self, ◌==◌, ==_iff, if◌then◌else◌, arith, inl, inr, Bool-cases,
  Option-cases,
}
use qnty_spot.Errors.{ok}
use qnty_spot.States.{
  IntentState, reserved, filled, cancelled, expired, rejected, safe_halt, is_legal_transition,
}
use qnty_spot.Domain.{Key, ReservationStatus, committed, released, quarantined}
use qnty_spot.Ledger.Rows.{
  EventRow, IntentRow, ReservationRow, Payload, Db, intent_label, intent_transition, is_active,
}
use qnty_spot.Ledger.Tables.{is_some, intent_of, reservation_of, is_reservation, insert_event}
use qnty_spot.Ledger.Events.{max_seq, next_seq, append_event}
use qnty_spot.Ledger.Budget.{with_status, settle_reservation, reserve}
use qnty_spot.Ledger.Intents.{consequence, transition, set_state, has_bound_reverted_reconciliation}
use qnty_spot.Ledger.Held.{action_of}
use qnty_spot.Ledger.Views.{
  intent_of-key, intent_of-set_state, consequence-eq-ok, transition-Transitioned,
}
use qnty_spot.Ledger.Replay.{
  settle_replayed, reserve_replayed, release_replayed, replayed_consequence, transition_replayed,
  apply_event,
}
use qnty_spot.Ledger.Replay.Mirror.{
  mirror, Covers, event_row, inserted-events, inserted-intent_of, Replayed, round-ok,
}

update-tested_absent :
    (test : ReservationStatus → Bool) (f : ReservationRow → ReservationRow) (key : Key)
    (rows : List ReservationRow)
    → row_of action_of key rows ≡ none
    → update (λ r. is_reservation key r && test r.status) f rows ≡ rows
update-tested_absent test f key [] h = refl
update-tested_absent test f key (r ∷ rows) h = ground (arith, update-tested_absent test f key rows)

-- An UPDATE that also tests the row is one that does not, where the key has one row and it passes.
update-tested :
    (test : ReservationStatus → Bool) (f : ReservationRow → ReservationRow) (key : Key)
    (rows : List ReservationRow) (v : ReservationRow)
    → Distinct action_of rows
    → row_of action_of key rows ≡ some v
    → update (λ r. is_reservation key r && test r.status) f rows
      ≡ (if test v.status then update (is_reservation key) f rows else rows)
update-tested test f key [] v d h = ground arith
update-tested test f key (r ∷ rows) v d h = elim (Bool-cases (r.economic_action_id == key)) [
  | inl here ↦
      let fresh : row_of action_of key rows ≡ none =
        rw (← (==_iff r.economic_action_id key).0 here) d.0 in
      ground (
        arith,
        update-tested_absent test f key rows fresh,
        update-eq_self action_of f key rows fresh,
      )
  | inr away ↦ ground (arith, update-tested test f key rows v d.1)
]

settle_replayed-settle :
    (key : Key) (s : ReservationStatus) (db : Db)
    → Distinct action_of db.reservations
    → settle_replayed key s (max_seq db.state_events + 1) db ≡ settle_reservation key s db
unfolding settle_replayed settle_reservation next_seq
settle_replayed-settle key s db d = elim (Option-cases (reservation_of db key)) [
  | inl nothing ↦ ground (
    arith,
    update-tested_absent is_active (with_status s (some (max_seq db.state_events + 1))) key
        db.reservations nothing,
  )
  | inr (v, found) ↦ ground (
    arith,
    update-tested is_active (with_status s (some (max_seq db.state_events + 1))) key db.reservations
        v d found,
  )
]

release_replayed-ok :
    (to : IntentState) (row : IntentRow) (key : Key) (db funded : Db)
    → row.economic_action_id ≡ key
    → db.surface ≡ none
    → Distinct action_of db.reservations
    → consequence cancelled row db ≡ ok funded
    → release_replayed [] row key (max_seq db.state_events + 1) db ≡ ok funded
unfolding consequence release_replayed has_bound_reverted_reconciliation
release_replayed-ok to row key db funded same bare d h =
    ground (arith, settle_replayed-settle key released db d)

reserve_replayed-ok :
    (row : IntentRow) (key : Key) (db funded : Db)
    → row.economic_action_id ≡ key
    → reserve row db ≡ ok funded
    → reserve_replayed row key (max_seq db.state_events + 1) db ≡ ok funded
unfolding reserve reserve_replayed next_seq
reserve_replayed-ok row key db funded same h = rw (← same) (ground arith)

consequence_replayed :
    (to : IntentState) (row : IntentRow) (key : Key) (db funded : Db)
    → row.economic_action_id ≡ key
    → db.surface ≡ none
    → Distinct action_of db.reservations
    → consequence to row db ≡ ok funded
    → replayed_consequence [] to row key (max_seq db.state_events + 1) db ≡ ok funded
unfolding consequence replayed_consequence
consequence_replayed reserved row key db funded same bare d h =
    reserve_replayed-ok row key db funded same h
consequence_replayed filled row key db funded same bare d h =
    ground (arith, settle_replayed-settle key committed db d)
consequence_replayed safe_halt row key db funded same bare d h =
    ground (arith, settle_replayed-settle key quarantined db d)
consequence_replayed cancelled row key db funded same bare d h =
    release_replayed-ok cancelled row key db funded same bare d h
consequence_replayed expired row key db funded same bare d h =
    release_replayed-ok cancelled row key db funded same bare d h
consequence_replayed rejected row key db funded same bare d h =
    release_replayed-ok cancelled row key db funded same bare d h
consequence_replayed _ row key db funded same bare d h = ground arith

-- The mirror's step for an event that leaves the set of actions as it is.
pub one_event :
    (e : EventRow) (db body db' : Db)
    → e.seq ≡ max_seq db.state_events + 1
    → body.state_events ≡ db.state_events
    → body.policies ≡ db.policies
    → ((j : Key) → is_some (intent_of body j) ≡ is_some (intent_of db j))
    → ((seen : List Key)
        → Covers db seen
        → apply_event [] e.event_type e (mirror db seen)
          ≡ ok (record { target = body; seen = seen; last_seq = max_seq db.state_events }))
    → insert_event e body ≡ ok db'
    → Replayed db db'
one_event e db body db' numbered same policies actions applied written = record {
  events = e ∷ [];
  appended = inserted-events e body db' written ∙ ap (λ es. es ++ e ∷ []) same;
  replays = λ seen covers. (
    seen,
    λ j. covers j ∙ sym (actions j) ∙ ap is_some (sym (inserted-intent_of e body db' j written)),
    round-ok e db body db' seen seen numbered same policies (applied seen covers) written,
  );
}

abbrev pub moved_event : Key → IntentState → ℕ → Payload → IntentRow → Db → EventRow
moved_event key to now payload row db =
    event_row intent_transition row.policy_id row.cycle_id (some key)
      (some (intent_label row.state)) (some (intent_label to)) now payload db

transition_written :
    (key : Key) (to : IntentState) (now : ℕ) (payload : Payload) (row : IntentRow)
    (db funded db' : Db)
    → intent_of db key ≡ some row
    → consequence to row db ≡ ok funded
    → transition key to now payload db ≡ ok db'
    → insert_event (moved_event key to now payload row db) (set_state key to funded) ≡ ok db'
unfolding transition append_event next_seq
transition_written key to now payload row db funded db' found paid h =
    ground (arith, consequence-eq-ok to row db funded paid)

transition_applied :
    (key : Key) (to : IntentState) (now : ℕ) (payload : Payload) (row : IntentRow) (db funded : Db)
    (seen : List Key)
    → intent_of db key ≡ some row
    → is_legal_transition row.state to ≡ true
    → consequence to row db ≡ ok funded
    → db.surface ≡ none
    → Distinct action_of db.reservations
    → Covers db seen
    → apply_event [] intent_transition (moved_event key to now payload row db) (mirror db seen)
      ≡ ok (record {
        target = set_state key to funded;
        seen = seen;
        last_seq = max_seq db.state_events;
      })
unfolding apply_event transition_replayed
transition_applied key to now payload row db funded seen found legal paid bare d covers = ground (
  arith,
  covers key,
  consequence_replayed to row key db funded (intent_of-key db key row found) bare d paid,
)

set_state-actions :
    (key : Key) (to : IntentState) (row : IntentRow) (db funded : Db)
    → consequence to row db ≡ ok funded
    → (j : Key) → is_some (intent_of (set_state key to funded) j) ≡ is_some (intent_of db j)
set_state-actions key to row db funded paid j =
    ground (arith, consequence-eq-ok to row db funded paid, intent_of-set_state key to funded j)

pub transition-Replayed :
    (key : Key) (to : IntentState) (now : ℕ) (payload : Payload) (db db' : Db)
    → db.surface ≡ none
    → Distinct action_of db.reservations
    → transition key to now payload db ≡ ok db'
    → Replayed db db'
transition-Replayed key to now payload db db' bare d h =
    let t = transition-Transitioned key to now payload db db' h in
    let kept = consequence-eq-ok to t.row db t.funded t.paid in
    one_event (moved_event key to now payload t.row db) db (set_state key to t.funded) db' refl
      (ap (λ (b : Db). b.state_events) kept) (ap (λ (b : Db). b.policies) kept)
      (set_state-actions key to t.row db t.funded t.paid)
      (λ seen covers.
        transition_applied key to now payload t.row db t.funded seen t.found t.legal t.paid bare d
          covers)
      (transition_written key to now payload t.row db t.funded db' t.found t.paid h)
