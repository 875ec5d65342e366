-- ===== src/Ledger/Events.antt =====
-- The event log of qntyspot/ledger/store.py: `_next_seq` and `_append_event`.
use qnty_spot.Prelude.{ℕ, ◌+◌, List, [], ◌∷◌, max, Option}
use qnty_spot.Errors.{Result}
use qnty_spot.Domain.{Key, CycleId}
use qnty_spot.Ledger.Rows.{EventType, EventRow, Label, Payload, Db}
use qnty_spot.Ledger.Tables.{insert_event}

-- COALESCE(MAX(seq), 0)
abbrev pub max_seq : List EventRow → ℕ
max_seq [] = 0
max_seq (e ∷ rest) = max e.seq (max_seq rest)

unfoldable pub next_seq : Db → ℕ
next_seq db = max_seq db.state_events + 1

-- AUTOINCREMENT numbers a row one above the greatest number ever used; rows are never deleted, so
-- that is one above the greatest there is. The time is not negative by its type.
unfoldable pub append_event :
    EventType
    → Key
    → CycleId
    → Option Key
    → Option Label
    → Option Label
    → ℕ
    → Payload
    → Db
    → Result Db
append_event type policy cycle action from to now payload db =
    insert_event
      (record {
        seq = next_seq db;
        event_type = type;
        policy_id = policy;
        cycle_id = cycle;
        economic_action_id = action;
        from_state = from;
        to_state = to;
        occurred_epoch_s = now;
        payload = payload;
      })
      db
