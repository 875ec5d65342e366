-- ===== src/Ledger/History/Allocation.antt =====
-- The allocation of a policy in every database that the methods of qntyspot/ledger/store.py can lead
-- to, admissions included: a policy is registered before anything is reserved for it.
use qnty_spot.Prelude.{
  ℕ, ◌≤◌, ◌≡◌, refl, true, Option, none, some, List, [], ◌∷◌, arith, Bool-cases, inl, inr, row_of,
  Distinct, update, ◌==◌, ==_iff,
}
use qnty_spot.Domain.{Key, ReservationStatus}
use qnty_spot.Ledger.Rows.{PolicyRow, ReservationRow, Db}
use qnty_spot.Ledger.Tables.{is_some, policy_of, is_reservation}
use qnty_spot.Ledger.Budget.{held_where, of_policy, with_status}
use qnty_spot.Ledger.Frames.{
  admit_policy-SameActions, admit_policy-Registered, Registered, same, added,
}
use qnty_spot.Ledger.Held.{action_of}
use qnty_spot.Ledger.Changes.{Change, unchanged, restated, taken}
use qnty_spot.Ledger.Caps.{policy_cap, respects, limit_of, Change-Distinct, Change-respects}
use qnty_spot.Ledger.History.{Trade, trades, admits, Reachable, fresh, then_step}
use qnty_spot.Ledger.History.Policies.{Trade-policies}
use qnty_spot.Ledger.History.Invariants.{Trade-Change, limit_of-same}

-- every reservation is for a policy that is registered
abbrev Known : List PolicyRow → List ReservationRow → Type 0
Known policies [] = Unit
Known policies (r ∷ rest) =
    (is_some (row_of (λ p. p.policy_id) r.policy_id policies) ≡ true) × Known policies rest

record IsAllocated (db : Db) : Type 0 where
  one_each : Distinct action_of db.reservations
  known : Known db.policies db.reservations
  at_policy :
      (k : Key)
      → respects (held_where (of_policy k) db.reservations) (limit_of (policy_cap k) db) ≡ true

Known-update :
    (policies : List PolicyRow) (key : Key) (s : ReservationStatus) (seq : Option ℕ)
    (rows : List ReservationRow)
    → Known policies rows
    → Known policies (update (is_reservation key) (with_status s seq) rows)
Known-update policies key s seq [] k = tt
Known-update policies key s seq (r ∷ rows) k = (
  elim (Bool-cases (r.economic_action_id == key)) [
    | inl here ↦ rw here k.0
    | inr away ↦ rw away k.0
  ],
  Known-update policies key s seq rows k.1,
)

Known-added :
    (p : PolicyRow) (policies : List PolicyRow) (rows : List ReservationRow)
    → Known policies rows
    → Known (p ∷ policies) rows
Known-added p policies [] k = tt
Known-added p policies (r ∷ rows) k = (ground (arith, k.0), Known-added p policies rows k.1)

Change-Known :
    (db : Db) (rows : List ReservationRow)
    → Known db.policies db.reservations
    → Change db rows
    → Known db.policies rows
Change-Known db rows k (unchanged e) = rw e k
Change-Known db rows k (restated key s seq v found held e) =
    rw e (Known-update db.policies key s seq db.reservations k)
Change-Known db rows k (taken i seq fit unreserved known e) = rw e (known, k)

-- nothing is held for a policy that is not registered
held-unknown :
    (policies : List PolicyRow) (k : Key) (rows : List ReservationRow)
    → row_of (λ p. p.policy_id) k policies ≡ none
    → Known policies rows
    → held_where (of_policy k) rows ≡ 0
held-unknown policies k [] unknown h = refl
held-unknown policies k (r ∷ rows) unknown h = elim (Bool-cases (r.policy_id == k)) [
  | inl for_k ↦ let e = (==_iff r.policy_id k).0 for_k in absurd (ground (arith, h.0))
  | inr other ↦ ground (arith, held-unknown policies k rows unknown h.1)
]

Trade-IsAllocated : (db db' : Db) → Trade db db' → IsAllocated db → IsAllocated db'
Trade-IsAllocated db db' t a =
    let c = Trade-Change db db' t in
    let e = Trade-policies db db' t in
    record {
      one_each = Change-Distinct db db'.reservations a.one_each c;
      known = rw e (Change-Known db db'.reservations a.known c);
      at_policy = λ k.
          rw (limit_of-same (policy_cap k) db db' e)
            (Change-respects db db'.reservations (policy_cap k) a.one_each (a.at_policy k) c);
    }

admitted-respects :
    (p : PolicyRow) (db : Db) (k : Key)
    → IsAllocated db
    → policy_of db p.policy_id ≡ none
    → respects
        (held_where (of_policy k) db.reservations)
        (limit_of (policy_cap k) (record db { policies = p ∷ db.policies }))
      ≡ true
admitted-respects p db k a unknown = elim (Bool-cases (p.policy_id == k)) [
  | inl here ↦
      let same_key = (==_iff p.policy_id k).0 here in
      let nothing = held-unknown db.policies k db.reservations (rw same_key at unknown) a.known in
      ground arith
  | inr away ↦ rw away (a.at_policy k)
]

admission-IsAllocated :
    (db db' : Db)
    → db'.reservations ≡ db.reservations
    → Registered db db'
    → IsAllocated db
    → IsAllocated db'
admission-IsAllocated db db' er (same e) a = record {
  one_each = rw er a.one_each;
  known = rw (er, e) a.known;
  at_policy = λ k. rw (er, limit_of-same (policy_cap k) db db' e) (a.at_policy k);
}
admission-IsAllocated db db' er (added p unknown e) a = record {
  one_each = rw er a.one_each;
  known = rw (er, e) (Known-added p db.policies db.reservations a.known);
  at_policy = λ k.
      rw (er, limit_of-same (policy_cap k) (record db { policies = p ∷ db.policies }) db' e)
        (admitted-respects p db k a unknown);
}

Reachable-IsAllocated : (db : Db) → Reachable db → IsAllocated db
Reachable-IsAllocated _ fresh = record { one_each = tt; known = tt; at_policy = λ k. refl }
Reachable-IsAllocated _ (then_step db db' past (trades _ t)) =
    Trade-IsAllocated db db' t (Reachable-IsAllocated db past)
Reachable-IsAllocated _ (then_step db db' past (admits p _ h)) =
    admission-IsAllocated db db' (admit_policy-SameActions p db db' h).reservations
      (admit_policy-Registered p db db' h) (Reachable-IsAllocated db past)

-- In every database that any sequence of steps leads to from the empty one, admissions of
-- further policies included, the reservations of a policy that are active, committed or quarantined
-- hold at most its allocation.
pub allocation_respected :
    (db : Db) (key : Key) (p : PolicyRow)
    → Reachable db
    → policy_of db key ≡ some p
    → held_where (of_policy key) db.reservations ≤ p.allocation_atomic
allocation_respected db key p past found =
    let h = (Reachable-IsAllocated db past).at_policy key in ground arith

pub Reachable-one_each : (db : Db) → Reachable db → Distinct action_of db.reservations
Reachable-one_each db reachable = (Reachable-IsAllocated db reachable).one_each
