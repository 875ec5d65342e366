-- ===== src/Ledger/Integrity/Passes.antt =====
-- Why `integrity_check` of qntyspot/ledger/store.py finds nothing in a ledger that only its methods have
-- written.
use qnty_spot.Prelude.{
  ℕ, ◌<◌, ◌≡◌, refl, ap, sym, ◌∙◌, inl, inr, Bool, true, false, not, ◌&&◌, ◌||◌, Option, none, some,
  List, [], ◌∷◌, ◌++◌, any, map, row_of, Distinct, ◌==◌, ==_iff, Bool-cases, arith,
}
use qnty_spot.Errors.{ok}
use qnty_spot.States.{safe_halt, budget_holding_states, is_state, in_states}
use qnty_spot.Ledger.Rows.{EventRow, IntentRow, ReservationRow, Db, is_active, is_quarantined}
use qnty_spot.Ledger.Tables.{is_some, intent_of, reservation_of}
use qnty_spot.Ledger.Events.{max_seq}
use qnty_spot.Ledger.Frames.{admit_policy-Untouched}
use qnty_spot.Ledger.Held.{action_of}
use qnty_spot.Ledger.Funding.{fits_row}
use qnty_spot.Ledger.History.{Reachable, fresh, then_step, trades, admits}
use qnty_spot.Ledger.History.Invariants.{Reachable-IsFunded}
use qnty_spot.Ledger.History.Allocation.{Reachable-one_each}
use qnty_spot.Ledger.Integrity.{
  has_repeats, sequence_numbers, is_orphan, is_stale, is_mismatched, joined, differ,
  integrity_check,
}
use qnty_spot.Ledger.Integrity.Numbering.{Grown, as_is, appended, Trade-Grown}

abbrev numbers : List EventRow → List ℕ
numbers es = map (λ e. e.seq) es

above-max : (n : ℕ) (es : List EventRow) → max_seq es < n → any (λ m. m == n) (numbers es) ≡ false
above-max n [] h = refl
above-max n (e ∷ es) h = ground (arith, above-max n es)

any-numbers :
    (n : ℕ) (es : List EventRow) (e : EventRow)
    → any (λ m. m == n) (numbers (es ++ e ∷ [])) ≡ (any (λ m. m == n) (numbers es) || e.seq == n)
any-numbers n [] e = ground arith
any-numbers n (x ∷ es) e = ground (arith, any-numbers n es e)

has_repeats-append :
    (es : List EventRow) (e : EventRow)
    → max_seq es < e.seq
    → has_repeats (numbers es) ≡ false
    → has_repeats (numbers (es ++ e ∷ [])) ≡ false
has_repeats-append [] e h k = refl
has_repeats-append (x ∷ es) e h k =
    let rest = has_repeats-append es e (omega (arith, h)) (ground arith) in
    let others = any-numbers x.seq es e in ground (arith, rest, others)

Grown-has_repeats :
    (es es' : List EventRow)
    → Grown es es'
    → has_repeats (numbers es) ≡ false
    → has_repeats (numbers es') ≡ false
Grown-has_repeats es _ as_is h = h
Grown-has_repeats es _ (appended before e g n) h =
    has_repeats-append before e (omega (arith, n)) (Grown-has_repeats es before g h)

Reachable-has_repeats : (db : Db) → Reachable db → has_repeats (sequence_numbers db) ≡ false
Reachable-has_repeats _ fresh = refl
Reachable-has_repeats _ (then_step db db' past (trades _ t)) =
    Grown-has_repeats db.state_events db'.state_events (Trade-Grown db db' t)
      (Reachable-has_repeats db past)
Reachable-has_repeats _ (then_step db db' past (admits p _ h)) =
    ap (λ es. has_repeats (numbers es)) (admit_policy-Untouched p db db' h).state_events
    ∙ Reachable-has_repeats db past

found-first :
    (r : ReservationRow) (rows : List ReservationRow)
    → row_of action_of r.economic_action_id (r ∷ rows) ≡ some r
found-first r rows = ground arith

found-later :
    (r s : ReservationRow) (rows : List ReservationRow)
    → row_of action_of r.economic_action_id rows ≡ none
    → row_of action_of s.economic_action_id rows ≡ some s
    → row_of action_of s.economic_action_id (r ∷ rows) ≡ some s
found-later r s rows absent found =
    elim (Bool-cases (r.economic_action_id == s.economic_action_id)) [
      | inl same ↦
          let absent' : row_of action_of s.economic_action_id rows ≡ none =
            rw (← (==_iff r.economic_action_id s.economic_action_id).0 same) absent in
          absurd (ground (arith, absent', found))
      | inr other ↦ ground arith
    ]

-- What no row found by its own key is, no row of the table is.
any-found :
    (p : ReservationRow → Bool) (rows : List ReservationRow)
    → Distinct action_of rows
    → ((r : ReservationRow) → row_of action_of r.economic_action_id rows ≡ some r → p r ≡ false)
    → any p rows ≡ false
any-found p [] d h = refl
any-found p (r ∷ rows) d h =
    let here : p r ≡ false = h r (found-first r rows) in
    let rest : any p rows ≡ false =
      any-found p rows d.1 (λ s e. h s (found-later r s rows d.0 e)) in
    ground (arith, here, rest)

fits_row-terms :
    (o : Option IntentRow) (r : ReservationRow)
    → fits_row o (some r) ≡ true
    → (not (is_some o) ≡ false)
      × ((is_active r.status && joined (λ s. not (in_states s budget_holding_states)) o) ≡ false)
      × (joined (λ s. differ (is_quarantined r.status) (is_state s safe_halt)) o ≡ false)
fits_row-terms none r h = absurd (ground arith)
fits_row-terms (some i) r h = (ground arith, ground arith, ground arith)

reservation-terms :
    (db : Db) (r : ReservationRow)
    → Reachable db
    → reservation_of db r.economic_action_id ≡ some r
    → (is_orphan db r ≡ false) × (is_stale db r ≡ false) × (is_mismatched db r ≡ false)
reservation-terms db r reachable e = fits_row-terms (intent_of db r.economic_action_id) r (
    ap (fits_row (intent_of db r.economic_action_id)) (sym e)
    ∙ (Reachable-IsFunded db reachable).at_key r.economic_action_id)

none_among :
    (db : Db) (p : ReservationRow → Bool)
    → Reachable db
    → ((r : ReservationRow) → reservation_of db r.economic_action_id ≡ some r → p r ≡ false)
    → any p db.reservations ≡ false
none_among db p reachable h = any-found p db.reservations (Reachable-one_each db reachable) h

-- Where SQLite's own two checks answer well, the integrity check passes on every database that any
-- sequence of steps leads to from the empty one: event numbers are never there twice, every reservation
-- has its intent, no reservation is active out of the states that hold capital, and quarantine and
-- SAFE_HALT come together.
pub integrity_check-Reachable :
    (sound : Db → Bool) (db : Db)
    → sound db ≡ true
    → Reachable db
    → integrity_check sound db ≡ ok tt
unfolding integrity_check
integrity_check-Reachable sound db answered reachable =
    let repeats = Reachable-has_repeats db reachable in
    let orphans =
      none_among db (is_orphan db) reachable (λ r e. (reservation-terms db r reachable e).0) in
    let stale =
      none_among db (is_stale db) reachable (λ r e. (reservation-terms db r reachable e).1) in
    let mismatched =
      none_among db (is_mismatched db) reachable (λ r e. (reservation-terms db r reachable e).2) in
    rw (answered, repeats, orphans, stale, mismatched) refl
