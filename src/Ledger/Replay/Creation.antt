-- ===== src/Ledger/Replay/Creation.antt =====
-- The replay of the creation of an intent.
use qnty_spot.Prelude.{ℕ, ◌≡◌, refl, ◌∙◌, ap, sym, none, some, List, [], ◌∷◌, arith}
use qnty_spot.Errors.{ok}
use qnty_spot.States.{armed}
use qnty_spot.Domain.{Key, Intent}
use qnty_spot.Ledger.Rows.{EventRow, Db, intent_label, intent_created, created}
use qnty_spot.Ledger.Tables.{is_some, intent_of, insert_event, insert_intent}
use qnty_spot.Ledger.Events.{max_seq, next_seq, append_event}
use qnty_spot.Ledger.Intents.{create_intent, new_intent}
use qnty_spot.Ledger.Replay.{among, create_replayed, apply_event}
use qnty_spot.Ledger.Replay.Mirror.{
  mirror, Covers, event_row, inserted-events, inserted-intent_of, Replayed, round-ok,
}

abbrev pub creation_event : Intent → ℕ → Db → EventRow
creation_event i now db =
    event_row intent_created i.policy_id i.cycle_id (some i.economic_action_id) none
      (some (intent_label armed)) now (created i) db

abbrev pub with_intent : Intent → Db → Db
with_intent i db = record db { intents = new_intent i ∷ db.intents }

pub creation-parts :
    (i : Intent) (now : ℕ) (db db' : Db)
    → create_intent i now db ≡ ok db'
    → (insert_intent (new_intent i) db ≡ ok (with_intent i db))
      × (intent_of db i.economic_action_id ≡ none)
      × (insert_event (creation_event i now db) (with_intent i db) ≡ ok db')
unfolding create_intent insert_intent append_event next_seq
creation-parts i now db db' h = ground arith

creation_applied :
    (i : Intent) (now : ℕ) (db : Db) (seen : List Key)
    → insert_intent (new_intent i) db ≡ ok (with_intent i db)
    → intent_of db i.economic_action_id ≡ none
    → Covers db seen
    → apply_event [] intent_created (creation_event i now db) (mirror db seen)
      ≡ ok (record {
        target = with_intent i db;
        seen = i.economic_action_id ∷ seen;
        last_seq = max_seq db.state_events;
      })
unfolding apply_event create_replayed
creation_applied i now db seen inserted fresh covers = ground (arith, covers i.economic_action_id)

with_intent-Covers :
    (i : Intent) (db : Db) (seen : List Key) (j : Key)
    → among j seen ≡ is_some (intent_of db j)
    → among j (i.economic_action_id ∷ seen) ≡ is_some (intent_of (with_intent i db) j)
with_intent-Covers i db seen j h = ground arith

pub create_intent-Replayed :
    (i : Intent) (now : ℕ) (db db' : Db) → create_intent i now db ≡ ok db' → Replayed db db'
create_intent-Replayed i now db db' h =
    let (inserted, fresh, written) = creation-parts i now db db' h in
    let e : EventRow = creation_event i now db in
    record {
      events = e ∷ [];
      appended = inserted-events e (with_intent i db) db' written;
      replays = λ seen covers. (
        i.economic_action_id ∷ seen,
        λ j.
            with_intent-Covers i db seen j (covers j)
            ∙ ap is_some (sym (inserted-intent_of e (with_intent i db) db' j written)),
        round-ok e db (with_intent i db) db' seen (i.economic_action_id ∷ seen) refl refl refl
            (creation_applied i now db seen inserted fresh covers) written,
      );
    }
