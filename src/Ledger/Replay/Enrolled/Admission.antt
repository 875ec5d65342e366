-- ===== src/Ledger/Replay/Enrolled/Admission.antt =====
-- The admission of a policy, whatever else the ledger holds.
use qnty_spot.Prelude.{◌≡◌, inl, inr, Option, none, some, List, [], ◌∷◌, arith}
use qnty_spot.Errors.{Result, ok, Result-cases}
use qnty_spot.Domain.{Key, Instrument, Level, Policy, levels}
use qnty_spot.Ledger.Rows.{PolicyRow, LevelRow, Db}
use qnty_spot.Ledger.Tables.{policy_of, insert_instrument, insert_policy, insert_level}
use qnty_spot.Ledger.Policies.{
  level_row, new_policy, upsert_instrument, insert_levels, admit_found, admit_policy,
}
use qnty_spot.Ledger.Replay.Enrolled.{enrolled, Extends, Extends-refl, Extends-trans}

-- The operation reads and writes registrations alone, and only adds to them.
pub record Registers (f : Db → Result Db) (db db' : Db) : Type 0 where
  pub anywhere : (y : Db) → f (enrolled db y) ≡ ok (enrolled db' y)
  pub extends : Extends db db'

ok-injective : (db db' : Db) → ok db ≡ ok db' → db ≡ db'
ok-injective db db' h = ground arith

upsert-Registers :
    (i : Instrument) (db db' : Db)
    → upsert_instrument i db ≡ ok db'
    → Registers (upsert_instrument i) db db'
unfolding upsert_instrument insert_instrument
upsert-Registers i db db' h = record {
  anywhere = λ y. ground arith;
  extends = record {
    policies = λ k r f. ground arith;
    instruments = λ k f. ground arith;
    ladder_levels = λ p l f. ground arith;
  };
}

insert_policy-Registers :
    (r : PolicyRow) (db db' : Db) → insert_policy r db ≡ ok db' → Registers (insert_policy r) db db'
unfolding insert_policy
insert_policy-Registers r db db' h = record {
  anywhere = λ y. ground arith;
  extends = record {
    policies = λ k s f. ground arith;
    instruments = λ k f. ground arith;
    ladder_levels = λ p l f. ground arith;
  };
}

insert_level-Registers :
    (r : LevelRow) (db db' : Db) → insert_level r db ≡ ok db' → Registers (insert_level r) db db'
unfolding insert_level
insert_level-Registers r db db' h = record {
  anywhere = λ y. ground arith;
  extends = record {
    policies = λ k s f. ground arith;
    instruments = λ k f. ground arith;
    ladder_levels = λ p l f. ground arith;
  };
}

insert_levels-Registers :
    (policy : Key) (ls : List Level) (db db' : Db)
    → insert_levels policy ls db ≡ ok db'
    → Registers (insert_levels policy ls) db db'
unfolding insert_levels
insert_levels-Registers policy [] db db' h = record {
  anywhere = λ y. ground arith;
  extends = rw (ok-injective db db' h) (Extends-refl db');
}
insert_levels-Registers policy (l ∷ rest) db db' h =
    elim (Result-cases (insert_level (level_row policy l) db)) [
      | inr (e, f) ↦ absurd (ground arith)
      | inl (mid, f) ↦
          let first = insert_level-Registers (level_row policy l) db mid f in
          let others = insert_levels-Registers policy rest mid db' (ground arith) in
          record {
            anywhere = λ y. ground (arith, first.anywhere y, others.anywhere y);
            extends = Extends-trans db mid db' first.extends others.extends;
          }
    ]

admit_found-Registers :
    (o : Option PolicyRow) (p : Policy) (db db' : Db)
    → admit_found o p db ≡ ok db'
    → Registers (admit_found o p) db db'
unfolding admit_found
admit_found-Registers (some r) p db db' h = record {
  anywhere = λ y. ground arith;
  extends = rw (ok-injective db db' (ground arith)) (Extends-refl db');
}
admit_found-Registers none p db db' h = elim (Result-cases (insert_policy (new_policy p) db)) [
  | inr (e, f) ↦ absurd (ground arith)
  | inl (mid, f) ↦
      let first = insert_policy-Registers (new_policy p) db mid f in
      let others = insert_levels-Registers p.policy_id (levels p) mid db' (ground arith) in
      record {
        anywhere = λ y. ground (arith, first.anywhere y, others.anywhere y);
        extends = Extends-trans db mid db' first.extends others.extends;
      }
]

pub admit_policy-Registers :
    (p : Policy) (db db' : Db) → admit_policy p db ≡ ok db' → Registers (admit_policy p) db db'
unfolding admit_policy
admit_policy-Registers p db db' h = elim (Result-cases (upsert_instrument p.base db)) [
  | inr (e, f) ↦ absurd (ground arith)
  | inl (db1, f) ↦ elim (Result-cases (upsert_instrument p.quote db1)) [
    | inr (e, g) ↦ absurd (ground arith)
    | inl (db2, g) ↦
        let base = upsert-Registers p.base db db1 f in
        let quote = upsert-Registers p.quote db1 db2 g in
        let found = admit_found-Registers (policy_of db2 p.policy_id) p db2 db' (ground arith) in
        record {
          anywhere = λ y. ground (arith, base.anywhere y, quote.anywhere y, found.anywhere y);
          extends =
              Extends-trans db db1 db' base.extends
                (Extends-trans db1 db2 db' quote.extends found.extends);
        }
  ]
]
