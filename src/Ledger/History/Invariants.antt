-- ===== src/Ledger/History/Invariants.antt =====
-- What holds in every database that the methods of qntyspot/ledger/store.py can lead to.
use qnty_spot.Prelude.{◌≡◌, refl}
use qnty_spot.Ledger.Rows.{Db}
use qnty_spot.Ledger.Budget.{tightest, tightest_global}
use qnty_spot.Ledger.Funding.{IsFunded, same_lookups, transition-IsFunded}
use qnty_spot.Ledger.Funding.Recovery.{recover_safe_halt-IsFunded}
use qnty_spot.Ledger.Funding.Receipts.{
  append_receipt-IsFunded, create_intent-IsFunded, created_rows,
}
use qnty_spot.Ledger.Frames.{
  SameActions, open_cycle-SameActions, close_cycle-SameActions, continue_inventory-SameActions,
  admit_policy-SameActions,
}
use qnty_spot.Ledger.Changes.{
  Change, unchanged, transition-Change, recover_safe_halt-Change, append_receipt-Change,
}
use qnty_spot.Ledger.Caps.{
  Cap, policy_cap, instrument_cap, network_cap, overall_cap, limit_of, IsCapped, Change-Distinct,
  Change-respects,
}
use qnty_spot.Ledger.History.{
  Trade, creates, moves, recovers, receives, opens, closes, continues, executes, trades, admits,
  Trades, start, then_trade, Reachable, fresh, then_step,
}
use qnty_spot.Ledger.History.Policies.{Trade-policies}

SameActions-IsFunded : (db db' : Db) → SameActions db db' → IsFunded db → IsFunded db'
SameActions-IsFunded db db' s f = same_lookups db db' s.intents s.reservations f

pub Trade-IsFunded : (db db' : Db) → Trade db db' → IsFunded db → IsFunded db'
Trade-IsFunded db db' (creates i now _ h) f = create_intent-IsFunded i now db db' f h
Trade-IsFunded db db' (moves key to now payload _ h) f =
    transition-IsFunded key to now payload db db' f h
Trade-IsFunded db db' (recovers key to now _ h) f = recover_safe_halt-IsFunded key to now db db' f h
Trade-IsFunded db db' (receives r now within _ h) f =
    append_receipt-IsFunded r now db db' within f h
Trade-IsFunded db db' (opens p index now _ h) f =
    SameActions-IsFunded db db' (open_cycle-SameActions p index now db db' h) f
Trade-IsFunded db db' (closes key status now _ h) f =
    SameActions-IsFunded db db' (close_cycle-SameActions key status now db db' h) f
Trade-IsFunded db db' (continues source p index now _ h) f =
    SameActions-IsFunded db db' (continue_inventory-SameActions source p index now db db' h) f
Trade-IsFunded db db' (executes surface) f = record { at_key = f.at_key }

-- In every database that any sequence of steps leads to from the empty one, whatever the methods are
-- called with, each reservation stands for an intent of the same action: its amount is the exposure
-- of that intent, not zero, its policy, instrument and network are those of the intent, and its status
-- is the one of the intent's state (active from RESERVED to RECONCILED, committed in FILLED, released
-- in CANCELLED, EXPIRED and REJECTED, quarantined in SAFE_HALT). Each intent with exposure that is
-- FILLED or in a state from RESERVED to RECONCILED has a reservation.
pub Reachable-IsFunded : (db : Db) → Reachable db → IsFunded db
Reachable-IsFunded _ fresh = record { at_key = λ key. refl }
Reachable-IsFunded _ (then_step db db' past (trades _ t)) =
    Trade-IsFunded db db' t (Reachable-IsFunded db past)
Reachable-IsFunded _ (then_step db db' past (admits p _ h)) =
    SameActions-IsFunded db db' (admit_policy-SameActions p db db' h) (Reachable-IsFunded db past)

pub Trade-Change : (db db' : Db) → Trade db db' → Change db db'.reservations
Trade-Change db db' (creates i now _ h) =
    let (fresh_key, ei, er) = created_rows i now db db' h in unchanged er
Trade-Change db db' (moves key to now payload _ h) = transition-Change key to now payload db db' h
Trade-Change db db' (recovers key to now _ h) = recover_safe_halt-Change key to now db db' h
Trade-Change db db' (receives r now within _ h) = append_receipt-Change r now db db' within h
Trade-Change db db' (opens p index now _ h) =
    unchanged (open_cycle-SameActions p index now db db' h).reservations
Trade-Change db db' (closes key status now _ h) =
    unchanged (close_cycle-SameActions key status now db db' h).reservations
Trade-Change db db' (continues source p index now _ h) =
    unchanged (continue_inventory-SameActions source p index now db db' h).reservations
Trade-Change db db' (executes surface) = unchanged refl

-- limits are read from policies alone
pub limit_of-same :
    (c : Cap) (db db' : Db) → db'.policies ≡ db.policies → limit_of c db' ≡ limit_of c db
unfolding tightest tightest_global
limit_of-same (policy_cap k) db db' e = rw e refl
limit_of-same (instrument_cap k) db db' e = rw e refl
limit_of-same (network_cap k) db db' e = rw e refl
limit_of-same overall_cap db db' e = rw e refl

Trade-IsCapped : (db db' : Db) → Trade db db' → IsCapped db → IsCapped db'
Trade-IsCapped db db' t c = record {
  one_each = Change-Distinct db db'.reservations c.one_each (Trade-Change db db' t);
  at_cap = λ b.
      rw (limit_of-same b db db' (Trade-policies db db' t))
        (Change-respects db db'.reservations b c.one_each (c.at_cap b) (Trade-Change db db' t));
}

-- From a database in which every action has at most one reservation and every cap is respected, no
-- sequence of steps other than admissions leads to one where this fails: for each policy, instrument
-- and network and for all of them together, the active, committed and quarantined reservations hold at
-- most the tightest limit that an admitted policy sets.
pub Trades-IsCapped : (db db' : Db) → Trades db db' → IsCapped db → IsCapped db'
Trades-IsCapped db _ start c = c
Trades-IsCapped db _ (then_trade mid db' past t) c =
    Trade-IsCapped mid db' t (Trades-IsCapped db mid past c)
