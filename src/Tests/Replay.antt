-- ===== src/Tests/Replay.antt =====
-- The replay of the purchase, of a fill out of its bounds, and of a halt.
use qnty_spot.Prelude.{◌≡◌, refl, false, [], ◌∷◌}
use qnty_spot.Errors.{ok}
use qnty_spot.States.{triggered, quote_pinned, simulated, reserved}
use qnty_spot.Ledger.Rows.{empty}
use qnty_spot.Ledger.History.{empty_db, opens, creates, moves, receives}
use qnty_spot.Ledger.Policies.{admit_policy, upsert_instrument, admit_found}
use qnty_spot.Ledger.Replay.{replay_into}
use qnty_spot.Ledger.Replay.History.{
  Recorded, new_ledger, then_admitted, then_traded, replay_reproduces,
}
use qnty_spot.Tests.Market.{policy, bought}
use qnty_spot.Tests.Purchase.{
  admission, admitted, cycling, armed_db, triggered_db, quoted_db, simulated_db, reserved_db,
  halted_db, short_receipt, cycle_opening, creation, triggering, quoting, simulating, reserving,
  halting,
}

-- a policy that is there is admitted again as it is
admitting_again : admit_policy policy simulated_db ≡ ok simulated_db
unfolding admit_policy upsert_instrument admit_found
admitting_again = refl

recording : Recorded (policy ∷ policy ∷ []) halted_db
recording =
    then_traded (policy ∷ policy ∷ []) reserved_db halted_db
      (then_traded (policy ∷ policy ∷ []) simulated_db reserved_db
        (then_admitted (policy ∷ []) policy simulated_db simulated_db
          (then_traded (policy ∷ []) quoted_db simulated_db
            (then_traded (policy ∷ []) triggered_db quoted_db
              (then_traded (policy ∷ []) armed_db triggered_db
                (then_traded (policy ∷ []) cycling armed_db
                  (then_traded (policy ∷ []) admitted cycling
                    (then_admitted [] policy empty_db admitted new_ledger admission)
                    (opens policy 0 1005 cycling cycle_opening) refl)
                  (creates bought 1010 armed_db creation) refl)
                (moves 11 triggered 1010 empty triggered_db triggering) refl)
              (moves 11 quote_pinned 1010 empty quoted_db quoting) refl)
            (moves 11 simulated 1010 empty simulated_db simulating) refl)
          admitting_again)
        (moves 11 reserved 1010 empty reserved_db reserving) refl)
      (receives short_receipt 1040 false halted_db halting) refl

replay_reproduces_example :
    replay_into [] (policy ∷ policy ∷ []) halted_db.state_events empty_db ≡ ok halted_db
replay_reproduces_example = replay_reproduces (policy ∷ policy ∷ []) halted_db recording
