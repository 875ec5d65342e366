-- ===== src/Ledger/Policies.antt =====
-- `admit_policy` of qntyspot/ledger/store.py: the registration of a policy, its instruments and rungs.
use qnty_spot.Prelude.{not, Option, none, some, List, [], ◌∷◌, any, ◌==◌}
use qnty_spot.Errors.{Result, ok, ◌>>=◌, ◌>>◌, require, ledger_error}
use qnty_spot.Domain.{Key, Instrument, Level, Policy, levels}
use qnty_spot.Ledger.Rows.{InstrumentRow, PolicyRow, LevelRow, Db}
use qnty_spot.Ledger.Tables.{
  instrument_of, policy_of, insert_instrument, insert_policy, insert_level,
}

abbrev pub new_instrument : Instrument → InstrumentRow
new_instrument i = record {
  instrument_id = i.instrument_id;
  network_id = i.network_id;
  decimals = i.decimals;
  identity_digest = i.identity_digest;
}

upsert_found : Option InstrumentRow → Instrument → Db → Result Db
upsert_found none i db = insert_instrument (new_instrument i) db
upsert_found (some r) i db = do require (r.identity_digest == i.identity_digest) ledger_error; ok db

unfoldable pub upsert_instrument : Instrument → Db → Result Db
unfolding upsert_found
upsert_instrument i db = upsert_found (instrument_of db i.instrument_id) i db

abbrev pub new_policy : Policy → PolicyRow
new_policy p = record {
  policy_id = p.policy_id;
  side = p.side;
  instrument_id = p.base.instrument_id;
  quote_instrument_id = p.quote.instrument_id;
  network_id = p.base.network_id;
  allocation_atomic = p.budget.allocation;
  per_order_cap_atomic = p.budget.per_order_cap;
  per_instrument_cap_atomic = p.budget.per_instrument_cap;
  per_network_cap_atomic = p.budget.per_network_cap;
  global_cap_atomic = p.budget.global_cap;
  reserved_cash_atomic = p.budget.reserved_cash;
  max_cycles = p.max_cycles;
  canonical_json = p.canonical;
}

abbrev pub level_row : Key → Level → LevelRow
level_row policy l = record {
  policy_id = policy;
  level_id = l.level_id;
  kind = l.kind;
  side = l.side;
  level_index = l.index;
}

unfoldable pub insert_levels : Key → List Level → Db → Result Db
insert_levels policy [] db = ok db
insert_levels policy (l ∷ rest) db = do
  db' ← insert_level (level_row policy l) db
  insert_levels policy rest db'

-- A policy that is there with the same content is left as it is.
unfoldable pub admit_found : Option PolicyRow → Policy → Db → Result Db
unfolding insert_levels
admit_found (some r) p db = do require (r.canonical_json == p.canonical) ledger_error; ok db
admit_found none p db = do
  db' ← insert_policy (new_policy p) db
  insert_levels p.policy_id (levels p) db'

-- All admitted policies share one quote instrument.
unfoldable pub admit_policy : Policy → Db → Result Db
unfolding admit_found
admit_policy p db = do
  db1 ← upsert_instrument p.base db
  db2 ← upsert_instrument p.quote db1
  require (not (any (λ r. not (r.quote_instrument_id == p.quote.instrument_id)) db2.policies))
      ledger_error
  admit_found (policy_of db2 p.policy_id) p db2
