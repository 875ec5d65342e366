-- ===== src/Ledger/Restart/Settled.antt =====
-- What a restart of qntyspot/ledger/recovery.py does to intents.
use mathlib.Core.Path.{subst}
use qnty_spot.Prelude.{
  ℕ, ◌≡◌, refl, ap, sym, ◌∙◌, Bool, true, false, not, ◌&&◌, ◌||◌, Option, none, some, List, [], ◌∷◌,
  keep, map, any, any-find, ltb, ◌==◌, if◌then◌else◌, arith, All, Bool-cases, inl, inr, map_option,
}
use qnty_spot.Errors.{ok, Result-cases}
use qnty_spot.States.{
  IntentState, reserved, reconciled, filled, cancelled, is_legal_transition, terminal_states,
  pre_commitment_states, is_state, in_states,
}
use qnty_spot.Domain.{Key}
use qnty_spot.Ledger.Rows.{IntentRow, recovery_note, Db}
use qnty_spot.Ledger.Tables.{is_intent, intent_of}
use qnty_spot.Ledger.Intents.{transition}
use qnty_spot.Ledger.Views.{moved, transition-Transitioned, transition-intent_of}
use qnty_spot.Ledger.Restart.{
  RecoveryAction, disposition_of, insert_ordered, ordered, is_pending, planned, perform, recover,
  receipts_of, external_refs,
}

abbrev is_terminal : IntentState → Bool
is_terminal s = in_states s terminal_states

pub disposition_of-safe :
    (receipts refs : ℕ) (r : IntentRow)
    → is_pending r ≡ true
    → (is_legal_transition r.state (disposition_of receipts refs r).to_state ≡ true)
      × (is_terminal (disposition_of receipts refs r).to_state ≡ true)
      × (is_state (disposition_of receipts refs r).to_state cancelled
          ≡ in_states r.state pre_commitment_states
            && not (is_state r.state reserved && ltb 0 refs))
      × (is_state (disposition_of receipts refs r).to_state filled
          ≡ is_state r.state reconciled && ltb 0 receipts)
unfolding disposition_of is_legal_transition
disposition_of-safe receipts refs r pending = ground arith

abbrev of_key : Key → RecoveryAction → Bool
of_key j a = a.economic_action_id == j

-- an intent at a key is terminal, or an action for it is still to come
abbrev Covered : List RecoveryAction → Db → Type 0
Covered acts db =
    (j : Key) (r : IntentRow)
    → intent_of db j ≡ some r
    → is_terminal r.state || any (of_key j) acts ≡ true

abbrev Ends : RecoveryAction → Type 0
Ends a = is_terminal a.to_state ≡ true

covered_after :
    (to : IntentState) (j : Key) (here : Bool) (o : Option IntentRow) (r : IntentRow) (later : Bool)
    → is_terminal to ≡ true
    → (here ≡ false → (s : IntentRow) → o ≡ some s → is_terminal s.state || (here || later) ≡ true)
    → (if here then map_option (moved to) o else o) ≡ some r
    → is_terminal r.state || later ≡ true
covered_after to j true (some s) r later ends h e = ground arith
covered_after to j true none r later ends h e = absurd (ground arith)
covered_after to j false o r later ends h e = h refl r e

perform-Covered :
    (acts : List RecoveryAction) (now : ℕ) (db db' : Db)
    → All Ends acts
    → Covered acts db
    → perform acts now db ≡ (ok tt, db')
    → Covered [] db'
unfolding perform
perform-Covered [] now db db' ends c h = subst (Covered []) (ap (λ p. p.1) h) c
perform-Covered (a ∷ rest) now db db' ends c h =
    elim (Result-cases
      (transition a.economic_action_id a.to_state now (recovery_note a.disposition) db)) [
        | inr (e, failed) ↦ absurd (ground arith)
        | inl (mid, moved_on) ↦
            perform-Covered rest now mid db' ends.1
              (λ j r found.
                covered_after a.to_state j (a.economic_action_id == j) (intent_of db j) r
                  (any (of_key j) rest) ends.0 (λ away. c j)
                  (sym (
                      transition-intent_of
                        (transition-Transitioned a.economic_action_id a.to_state now
                          (recovery_note a.disposition) db mid moved_on)
                        j)
                    ∙ found))
              (rw (perform, moved_on) at h)
      ]

any-ordered-insert :
    (p : IntentRow → Bool) (r : IntentRow) (rows : List IntentRow)
    → any p (insert_ordered r rows) ≡ (p r || any p rows)
any-ordered-insert p r [] = refl
any-ordered-insert p r (s ∷ rows) = ground (arith, any-ordered-insert p r rows)

any-ordered : (p : IntentRow → Bool) (rows : List IntentRow) → any p (ordered rows) ≡ any p rows
any-ordered p [] = refl
any-ordered p (r ∷ rows) = rw (any-ordered-insert p r (ordered rows), any-ordered p rows) refl

-- the action planned for a row of a database
abbrev action_for : Db → IntentRow → RecoveryAction
action_for db r =
    disposition_of (receipts_of db r.economic_action_id)
      (external_refs db.surface r.economic_action_id) r

disposition-key :
    (receipts refs : ℕ) (r : IntentRow)
    → (disposition_of receipts refs r).economic_action_id ≡ r.economic_action_id
unfolding disposition_of
disposition-key receipts refs r = ground arith

any-planned :
    (db : Db) (j : Key) (rows : List IntentRow)
    → any (of_key j) (map (action_for db) (keep is_pending rows))
      ≡ any (λ r. is_pending r && r.economic_action_id == j) rows
any-planned db j [] = refl
any-planned db j (r ∷ rows) =
    let e =
      disposition-key (receipts_of db r.economic_action_id)
        (external_refs db.surface r.economic_action_id) r in
    ground (arith, any-planned db j rows)

All-planned :
    (db : Db) (rows : List IntentRow) → All Ends (map (action_for db) (keep is_pending rows))
All-planned db [] = tt
All-planned db (r ∷ rows) = elim (Bool-cases (is_pending r)) [
  | inl pending ↦ rw pending (
    (disposition_of-safe (receipts_of db r.economic_action_id)
        (external_refs db.surface r.economic_action_id) r pending).1,
    All-planned db rows,
  )
  | inr ended ↦ rw ended (All-planned db rows)
]

planned-Covered : (db : Db) → Covered (planned db) db
unfolding planned
planned-Covered db j r found = elim (Bool-cases (is_pending r)) [
  | inl pending ↦
      rw
        (
          any-planned db j (ordered db.intents),
          any-ordered (λ s. is_pending s && s.economic_action_id == j) db.intents,
          any-find is_pending (is_intent j) db.intents r found pending,
        )
        (ground arith)
  | inr ended ↦ ground arith
]

-- After a restart that raised nothing every intent is in a terminal state.
pub recover-terminal :
    (now : ℕ) (db db' : Db) (key : Key) (r : IntentRow)
    → recover now db ≡ (ok tt, db')
    → intent_of db' key ≡ some r
    → in_states r.state terminal_states ≡ true
unfolding recover planned
recover-terminal now db db' key r h found =
    let c =
      perform-Covered (planned db) now db db' (All-planned db (ordered db.intents))
        (planned-Covered db) h key r found in
    ground arith
