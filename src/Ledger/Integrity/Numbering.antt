-- ===== src/Ledger/Integrity/Numbering.antt =====
-- The event log only grows, by events that are numbered above the ones before, over the steps of the
-- ledger of qntyspot/ledger/store.py.
use qnty_spot.Prelude.{
  ℕ, ◌+◌, ◌≡◌, ◌⊎◌, refl, ap, sym, ◌∙◌, inl, inr, Bool, none, some, List, [], ◌∷◌, ◌++◌,
  Option-cases, arith,
}
use qnty_spot.Errors.{ok}
use qnty_spot.States.{IntentState, safe_halt, reconciled, rejected}
use qnty_spot.Domain.{Key, CycleId, CycleStatus, FillReceipt, completed}
use qnty_spot.Ledger.Rows.{
  ReconciliationRow, EventRow, IntentRow, Payload, Db, intent_label, chain_truth,
  chain_truth_recovered, outside_bounds,
}
use qnty_spot.Ledger.Tables.{intent_of, cycle_of, insert_event}
use qnty_spot.Ledger.Events.{max_seq, next_seq, append_event}
use qnty_spot.Ledger.Intents.{transition, intent_row}
use qnty_spot.Ledger.ChainTruth.{recover_safe_halt, reconciliation_in}
use qnty_spot.Ledger.Receipts.{append_receipt}
use qnty_spot.Ledger.Cycles.{close_cycle, set_cycle}
use qnty_spot.Ledger.Views.{intent_of-key, consequence-eq-ok, transition-Transitioned}
use qnty_spot.Ledger.Funding.Recovery.{recovery_target}
use qnty_spot.Ledger.History.{
  Trade, creates, moves, recovers, receives, opens, closes, continues, executes,
}
use qnty_spot.Ledger.Replay.Mirror.{event_row, inserted-events, inserted-intent_of}
use qnty_spot.Ledger.Replay.Creation.{creation_event, with_intent, creation-parts}
use qnty_spot.Ledger.Replay.Receipts.{
  Appended, no_halt, halted, halt-transition, append_receipt-parts, receipt_event, with_receipt,
}
use qnty_spot.Ledger.Replay.Cycles.{
  opened_event, with_cycle, opening-parts, closed_event, closing-parts,
}
use qnty_spot.Ledger.Replay.Continuation.{closed, continue_inventory-Continued}

pub data Grown (es : List EventRow) : List EventRow → Type 0 where
  as_is : Grown es es
  appended :
      (before : List EventRow) (e : EventRow)
      → Grown es before
      → e.seq ≡ max_seq before + 1
      → Grown es (before ++ e ∷ [])

Grown-eq : (es es' es2 : List EventRow) → es2 ≡ es' → Grown es es' → Grown es es2
Grown-eq es es' es2 e g = rw e g

Grown-trans : (a b c : List EventRow) → Grown a b → Grown b c → Grown a c
Grown-trans a b _ g as_is = g
Grown-trans a b _ g (appended before e h n) = appended before e (Grown-trans a b before g h) n

inserted-Grown :
    (e : EventRow) (db body db' : Db)
    → e.seq ≡ max_seq db.state_events + 1
    → body.state_events ≡ db.state_events
    → insert_event e body ≡ ok db'
    → Grown db.state_events db'.state_events
inserted-Grown e db body db' n same h =
    Grown-eq db.state_events (db.state_events ++ e ∷ []) db'.state_events
      (inserted-events e body db' h ∙ ap (λ es. es ++ e ∷ []) same)
      (appended db.state_events e as_is n)

transition-Grown :
    (key : Key) (to : IntentState) (now : ℕ) (payload : Payload) (db db' : Db)
    → transition key to now payload db ≡ ok db'
    → Grown db.state_events db'.state_events
unfolding next_seq
transition-Grown key to now payload db db' h =
    let t = transition-Transitioned key to now payload db db' h in
    let same = ap (λ (b : Db). b.state_events) (consequence-eq-ok to t.row db t.funded t.paid) in
    Grown-eq db.state_events _ db'.state_events (ap (λ (b : Db). b.state_events) t.result) (
      appended t.funded.state_events _
        (Grown-eq db.state_events db.state_events t.funded.state_events same as_is) refl)

abbrev recovery_event : IntentRow → IntentState → ReconciliationRow → ℕ → Db → EventRow
recovery_event row to r now db =
    event_row chain_truth_recovered row.policy_id row.cycle_id (some row.economic_action_id)
      (some (intent_label safe_halt)) (some (intent_label to)) now
      (chain_truth r.reconciliation_id r.receipt_id r.verdict) db

settled-event :
    (key : Key) (now : ℕ) (db db' : Db) (row : IntentRow) (r : ReconciliationRow)
    → intent_of db key ≡ some row
    → reconciliation_in db.surface key ≡ some r
    → recover_safe_halt key reconciled now db ≡ ok db'
    → db'.state_events ≡ db.state_events ++ recovery_event row reconciled r now db ∷ []
unfolding recover_safe_halt append_event insert_event next_seq
settled-event key now db db' row r found e h = ground arith

reverted-event :
    (key : Key) (now : ℕ) (db db' : Db) (row : IntentRow) (r : ReconciliationRow)
    → intent_of db key ≡ some row
    → reconciliation_in db.surface key ≡ some r
    → recover_safe_halt key rejected now db ≡ ok db'
    → db'.state_events ≡ db.state_events ++ recovery_event row rejected r now db ∷ []
unfolding recover_safe_halt append_event insert_event next_seq
reverted-event key now db db' row r found e h = ground arith

recovered-Grown :
    (key : Key) (to : IntentState) (now : ℕ) (db db' : Db) (row : IntentRow)
    → intent_of db key ≡ some row
    → (to ≡ reconciled) ⊎ (to ≡ rejected)
    → recover_safe_halt key to now db ≡ ok db'
    → Grown db.state_events db'.state_events
unfolding recover_safe_halt
recovered-Grown key to now db db' row found target h =
    elim (Option-cases (reconciliation_in db.surface key)) [
      | inl nothing ↦ absurd (ground arith)
      | inr (r, e) ↦ elim target [
        | inl t ↦
            Grown-eq db.state_events _ db'.state_events
              (settled-event key now db db' row r found e (rw t at h))
              (appended db.state_events (recovery_event row reconciled r now db) as_is refl)
        | inr t ↦
            Grown-eq db.state_events _ db'.state_events
              (reverted-event key now db db' row r found e (rw t at h))
              (appended db.state_events (recovery_event row rejected r now db) as_is refl)
      ]
    ]

recover_safe_halt-Grown :
    (key : Key) (to : IntentState) (now : ℕ) (db db' : Db)
    → recover_safe_halt key to now db ≡ ok db'
    → Grown db.state_events db'.state_events
recover_safe_halt-Grown key to now db db' h =
    let (known, target) = recovery_target key to now db db' h in
    let (row, found) = known in recovered-Grown key to now db db' row found target h

halted-Grown :
    (r : FillReceipt) (now : ℕ) (db db' : Db) (row : IntentRow) (mid : Db)
    → intent_of mid row.economic_action_id ≡ some row
    → Appended r now db db' row mid
    → Grown mid.state_events db'.state_events
halted-Grown r now db db' row mid found (no_halt e) =
    Grown-eq mid.state_events mid.state_events db'.state_events (ap (λ (b : Db). b.state_events) e)
      as_is
halted-Grown r now db db' row mid found (halted h) =
    transition-Grown row.economic_action_id safe_halt now outside_bounds mid db'
      (sym (halt-transition row now mid found) ∙ h)

append_receipt-Grown :
    (r : FillReceipt) (now : ℕ) (within : Bool) (db db' : Db)
    → append_receipt r now db ≡ ok (within, db')
    → Grown db.state_events db'.state_events
unfolding append_receipt intent_row
append_receipt-Grown r now within db db' h =
    elim (Option-cases (intent_of db r.economic_action_id)) [
      | inl unknown ↦ absurd (ground arith)
      | inr (row, found) ↦
          let (mid, inserted, written, rest) =
            append_receipt-parts r now db db' within row found h in
          let e : EventRow = receipt_event r now row db in
          let first = inserted-Grown e db (with_receipt r db) mid refl refl written in
          let found' : intent_of mid row.economic_action_id ≡ some row =
            inserted-intent_of e (with_receipt r db) mid row.economic_action_id written
            ∙ ap (intent_of db) (intent_of-key db r.economic_action_id row found)
            ∙ found in
          Grown-trans db.state_events mid.state_events db'.state_events first
            (halted-Grown r now db db' row mid found' rest)
    ]

close_cycle-Grown :
    (key : CycleId) (status : CycleStatus) (now : ℕ) (db db' : Db)
    → close_cycle key status now db ≡ ok db'
    → Grown db.state_events db'.state_events
unfolding close_cycle
close_cycle-Grown key status now db db' h = elim (Option-cases (cycle_of db key)) [
  | inl unknown ↦ absurd (ground arith)
  | inr (row, found) ↦
      let (closing, live, written) = closing-parts row key status now db db' found h in
      inserted-Grown (closed_event row.policy_id key status now db) db (set_cycle key status db) db'
        refl refl written
]

pub Trade-Grown : (db db' : Db) → Trade db db' → Grown db.state_events db'.state_events
Trade-Grown db db' (creates i now _ h) =
    let (inserted, fresh, written) = creation-parts i now db db' h in
    inserted-Grown (creation_event i now db) db (with_intent i db) db' refl refl written
Trade-Grown db db' (moves key to now payload _ h) = transition-Grown key to now payload db db' h
Trade-Grown db db' (recovers key to now _ h) = recover_safe_halt-Grown key to now db db' h
Trade-Grown db db' (receives r now within _ h) = append_receipt-Grown r now within db db' h
Trade-Grown db db' (opens p index now _ h) =
    let (inserted, written) = opening-parts p index now db db' h in
    inserted-Grown (opened_event p.policy_id index none now db) db (with_cycle p.policy_id index db)
      db' refl refl written
Trade-Grown db db' (closes key status now _ h) = close_cycle-Grown key status now db db' h
Trade-Grown db db' (continues source p index now _ h) =
    let c = continue_inventory-Continued source p index now db db' h in
    let mid : Db = closed c.cycle.policy_id source now db in
    Grown-trans db.state_events mid.state_events db'.state_events
      (inserted-Grown (closed_event c.cycle.policy_id source completed now db) db
        (set_cycle source completed db) mid refl refl c.completes)
      (inserted-Grown
        (opened_event p.policy_id index
          (some (record { amount_atomic = c.carried; source_cycle_id = source })) now mid)
        mid (with_cycle p.policy_id index mid) db' refl refl c.written)
Trade-Grown db _ (executes surface) = as_is
