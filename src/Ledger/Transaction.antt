-- ===== src/Ledger/Transaction.antt =====
-- The write transaction of qntyspot/ledger/store.py, `SpotLedger._write`: a context that begins a
-- transaction at the outermost call, joins it in a nested one, rolls back where the outermost body
-- raises, and commits where it returns.
pub mod Nesting
use qnty_spot.Prelude.{ℕ, suc, ◌-◌, ◌+◌, Option, none, some, ◌==◌, ◌≡◌, refl, if◌then◌else◌, arith}
use qnty_spot.Errors.{Error, Result, ok, err}

-- The connection: what it shows, what ROLLBACK restores while a transaction is open, and `_depth`.
pub record Connection {ℓ} (S : Type ℓ) : Type ℓ where
  pub current : S
  pub saved : Option S
  pub depth : ℕ

-- What is done with a connection: it may raise, and what it wrote stays in `current`.
abbrev pub Use {ℓ} : Type ℓ → Type ℓ → Type ℓ
Use S A = Connection S → Result A × Connection S

module _ {ℓ} {S : Type ℓ} where
  -- BEGIN IMMEDIATE
  abbrev begin : Connection S → Connection S
  begin c = record c { saved = some c.current; depth = 1 }

  abbrev restore : Option S → S → S
  restore none s = s
  restore (some old) s = old

module _ {ℓ} {S A : Type ℓ} where
  -- ROLLBACK or COMMIT, by how the body ended
  finish : Result A → Connection S → Result A × Connection S
  finish (ok a) c = (ok a, record c { saved = none; depth = 0 })
  finish (err e) c =
      (err e, record c { current = restore c.saved c.current; saved = none; depth = 0 })

  -- `finally: self._depth -= 1`
  leave : Result A × Connection S → Result A × Connection S
  leave (r, c) = (r, record c { depth = c.depth - 1 })

  unfoldable pub write : Use S A → Use S A
  unfolding finish leave
  write body c =
      if c.depth == 0
      then (let (r, c') = body (begin c) in finish r c')
      else leave (body (record c { depth = suc c.depth }))

  -- A body over the database alone, as the operations of the ledger are: it writes where it returns.
  unfoldable pub run : (S → Result (A × S)) → Use S A
  run f c = elim (f c.current) [ ok (a, s) ↦ (ok a, record c { current = s }) | err e ↦ (err e, c) ]
