-- ===== src/Tests/Histories.antt =====
-- The history of a purchase: the policy is admitted, a cycle opened, the intent created and taken to
-- RESERVED; a restart abandons it.
use qnty_spot.Ledger.Integrity.{integrity_check}
use qnty_spot.Ledger.Integrity.Passes.{integrity_check-Reachable}
use qnty_spot.Prelude.{Bool}
use qnty_spot.Prelude.{
  ℕ, ◌+◌, ◌==◌, if◌then◌else◌, ◌≡◌, ◌≤◌, refl, true, Option, none, some, [], ◌∷◌, ◌++◌, arith,
}
use qnty_spot.Errors.{ok, err, ledger_error}
use qnty_spot.States.{
  triggered, quote_pinned, simulated, reserved, cancelled, terminal_states, in_states,
  assert_legal_transition,
}
use qnty_spot.Domain.{released}
use qnty_spot.Ledger.Rows.{
  Db, IntentRow, intent_transition, intent_label, empty, recovery_note, abandon,
}
use qnty_spot.Ledger.Tables.{insert_event}
use qnty_spot.Ledger.Events.{append_event, next_seq}
use qnty_spot.Ledger.Budget.{held_where, of_policy, settle_reservation}
use qnty_spot.Ledger.Intents.{create_intent, intent_row, transition, consequence}
use qnty_spot.Ledger.Policies.{new_policy}
use qnty_spot.Ledger.Transaction.{write}
use qnty_spot.Ledger.Transaction.Nesting.{Body, done, acts, nests, exec, flat, idle, write-exec}
use qnty_spot.Ledger.History.{
  start, then_trade, Trades, Reachable, empty_db, fresh, then_step, trades, admits, creates, moves,
  opens,
}
use qnty_spot.Ledger.Funding.{IsFunded}
use qnty_spot.Ledger.Caps.{respects, limit_of, IsCapped}
use qnty_spot.Ledger.Restart.{recover, planned, disposition_of, perform}
use qnty_spot.Ledger.Restart.Settled.{recover-terminal}
use qnty_spot.Ledger.History.Invariants.{Reachable-IsFunded, Trades-IsCapped}
use qnty_spot.Ledger.History.{and_step, no_step}
use qnty_spot.Ledger.History.Once.{created_once}
use qnty_spot.Errors.{duplicate_economic_action}
use qnty_spot.Ledger.Caps.Policies.{every_policy_respected}
use qnty_spot.Ledger.Budget.{of_instrument, of_network, everywhere}
use qnty_spot.Prelude.{◌-◌}
use qnty_spot.Ledger.Receipts.Outcome.{receipts_within_bounds, receipt_outside_halts}
use qnty_spot.Ledger.ChainTruth.{total_input, total_output}
use qnty_spot.Ledger.Tables.{intent_of}
use qnty_spot.States.{safe_halt}
use qnty_spot.Tests.Market.{receipt}
use qnty_spot.Prelude.{◌*◌}
use qnty_spot.Ledger.History.Allocation.{allocation_respected}
use qnty_spot.Tests.Market.{policy, bought}
use qnty_spot.Tests.Purchase.{
  event, at, admitted, log_5, intent_in, cycling, armed_db, triggered_db, quoted_db, simulated_db,
  reservation, reserved_db, admission, cycle_opening, creation, triggering, quoting, simulating,
  reserving, short_receipt, received_db, halted_db, receiving, halting,
}

trading : Trades admitted reserved_db
trading =
    then_trade simulated_db reserved_db
      (then_trade quoted_db simulated_db
        (then_trade triggered_db quoted_db
          (then_trade armed_db triggered_db
            (then_trade cycling armed_db
              (then_trade admitted cycling start (opens policy 0 1005 cycling cycle_opening))
              (creates bought 1010 armed_db creation))
            (moves 11 triggered 1010 empty triggered_db triggering))
          (moves 11 quote_pinned 1010 empty quoted_db quoting))
        (moves 11 simulated 1010 empty simulated_db simulating))
      (moves 11 reserved 1010 empty reserved_db reserving)

Trades-Reachable : (db db' : Db) → Trades db db' → Reachable db → Reachable db'
Trades-Reachable db _ start r = r
Trades-Reachable db _ (then_trade mid db' past t) r =
    then_step mid db' (Trades-Reachable db mid past r) (trades db' t)

purchase-Reachable : Reachable reserved_db
purchase-Reachable =
    Trades-Reachable admitted reserved_db trading
      (then_step empty_db admitted fresh (admits policy admitted admission))

nothing-respects : (limit : Option ℕ) → respects 0 limit ≡ true
nothing-respects none = refl
nothing-respects (some n) = ground arith

admitted-IsCapped : IsCapped admitted
admitted-IsCapped = record { one_each = tt; at_cap = λ b. nothing-respects (limit_of b admitted) }

Reachable-IsFunded_example : IsFunded reserved_db
Reachable-IsFunded_example = Reachable-IsFunded reserved_db purchase-Reachable

Trades-IsCapped_example : IsCapped reserved_db
Trades-IsCapped_example = Trades-IsCapped admitted reserved_db trading admitted-IsCapped

allocation_respected_example : held_where (of_policy 7) reserved_db.reservations ≤ 500
allocation_respected_example =
    allocation_respected reserved_db 7 (new_policy policy) purchase-Reachable refl

-- the restart gives the reserved capital back
abbrev restarted_db : Db
restarted_db =
    at
      (log_5
        ++ event 7 intent_transition (some 11) (some (intent_label reserved))
            (intent_label cancelled) 1020 (recovery_note abandon)
          ∷ [])
      (intent_in cancelled ∷ [])
      (record reservation { status = released; settled_seq = some 7 } ∷ [])

restarting : recover 1020 reserved_db ≡ (ok tt, restarted_db)
unfolding recover planned disposition_of perform transition intent_row assert_legal_transition
    consequence append_event insert_event next_seq settle_reservation
restarting = refl

recover-terminal_example : in_states cancelled terminal_states ≡ true
recover-terminal_example =
    recover-terminal 1020 reserved_db restarted_db 11 (intent_in cancelled) restarting refl

-- a transaction that adds two, and inside it one that fails at seven
abbrev adding : Body ℕ
adding =
    acts (λ n. ok (n + 2))
      (nests (acts (λ n. if n == 7 then err ledger_error else ok (n + 1)) done) done)

write-exec_example : write (exec adding) (idle 5) ≡ (err ledger_error, idle 5)
unfolding flat
write-exec_example = write-exec adding 5

-- an attempt to create the purchase again while its capital is reserved
created_once_example : create_intent bought 1015 reserved_db ≡ err duplicate_economic_action
created_once_example =
    created_once bought bought 1010 1015 cycling armed_db reserved_db creation
      (and_step simulated_db reserved_db
        (and_step quoted_db simulated_db
          (and_step triggered_db quoted_db
            (and_step armed_db triggered_db no_step
              (trades triggered_db (moves 11 triggered 1010 empty triggered_db triggering)))
            (trades quoted_db (moves 11 quote_pinned 1010 empty quoted_db quoting)))
          (trades simulated_db (moves 11 simulated 1010 empty simulated_db simulating)))
        (trades reserved_db (moves 11 reserved 1010 empty reserved_db reserving)))
      refl refl

every_policy_respected_example :
    (held_where (of_instrument 1) reserved_db.reservations ≤ 600)
    × (held_where (of_network 5) reserved_db.reservations ≤ 700)
    × (held_where everywhere reserved_db.reservations ≤ 800 - 100)
every_policy_respected_example =
    every_policy_respected admitted reserved_db 7 (new_policy policy) admitted-IsCapped trading refl

receipts_within_bounds_example :
    (total_input 11 received_db.receipts ≤ 300)
    × (149 * total_input 11 received_db.receipts ≤ total_output 11 received_db.receipts * 300)
receipts_within_bounds_example =
    receipts_within_bounds receipt 1040 reserved_db received_db (intent_in reserved) refl
      (omega arith) receiving

receipt_outside_halts_example :
    (after : IntentRow) × (intent_of halted_db 11 ≡ some after) × (after.state ≡ safe_halt)
receipt_outside_halts_example =
    receipt_outside_halts short_receipt 1040 reserved_db halted_db (intent_in reserved) refl halting

-- SQLite's own checks answer well
abbrev sound : Db → Bool
sound db = true

integrity_check-Reachable_example : integrity_check sound reserved_db ≡ ok tt
integrity_check-Reachable_example =
    integrity_check-Reachable sound reserved_db refl purchase-Reachable
