-- ===== src/Ledger/Transaction/Nesting.antt =====
-- Write transactions inside write transactions, as the methods of qntyspot/ledger/store.py and
-- qntyspot/ledger/execution.py call one another: the inner one joins the outer one.
use qnty_spot.Prelude.{ℕ, suc, Option, none, some, ◌≡◌, refl, arith, inl, inr}
use qnty_spot.Errors.{Error, Result, ok, err, ◌>>=◌, Result-cases}
use qnty_spot.Ledger.Transaction.{Connection, Use, write}

-- What is done inside `with self._write():` statements and further blocks of that kind.
pub data Body {ℓ} (S : Type ℓ) : Type ℓ where
  done : Body S
  acts : (S → Result S) → Body S → Body S
  nests : Body S → Body S → Body S

module _ {ℓ} {S : Type ℓ} where
  and_then : Use S (Unit {ℓ}) → Result (Unit {ℓ}) × Connection S → Result (Unit {ℓ}) × Connection S
  and_then next (ok u, c) = next c
  and_then next (err e, c) = (err e, c)

  -- An exception leaves every block that it passes.
  unfoldable pub exec : Body S → Use S (Unit {ℓ})
  unfolding and_then
  exec done c = (ok tt, c)
  exec (acts f rest) c = elim (f c.current) [
    | ok s ↦ exec rest (record c { current = s })
    | err e ↦ (err e, c)
  ]
  exec (nests inner rest) c = and_then (exec rest) (write (exec inner) c)

  -- The statements one after the other, without transactions.
  unfoldable pub flat : Body S → S → Result S
  flat done s = ok s
  flat (acts f rest) s = do s' ← f s; flat rest s'
  flat (nests inner rest) s = do s' ← flat inner s; flat rest s'

  abbrev pub idle : S → Connection S
  idle s = record { current = s; saved = none; depth = 0 }

  abbrev joined : Option S → ℕ → S → Connection S
  joined saved n s = record { current = s; saved = saved; depth = suc n }

  abbrev outcome : Result S → (S → Connection S) → S → Result (Unit {ℓ}) × Connection S
  outcome (ok s) at left = (ok tt, at s)
  outcome (err e) at left = (err e, at left)

  write-nested :
      (body : Use S (Unit {ℓ})) (saved : Option S) (n : ℕ) (s t : S) (r : Result (Unit {ℓ}))
      → body (joined saved (suc n) s) ≡ (r, joined saved (suc n) t)
      → write body (joined saved n s) ≡ (r, joined saved n t)
  unfolding write
  write-nested body saved n s t r h = ground arith

  write-returned :
      (body : Use S (Unit {ℓ})) (s t : S)
      → body (joined (some s) 0 s) ≡ (ok tt, joined (some s) 0 t)
      → write body (idle s) ≡ (ok tt, idle t)
  unfolding write
  write-returned body s t h = ground arith

  write-raised :
      (body : Use S (Unit {ℓ})) (s t : S) (e : Error)
      → body (joined (some s) 0 s) ≡ (err e, joined (some s) 0 t)
      → write body (idle s) ≡ (err e, idle s)
  unfolding write
  write-raised body s t e h = ground arith

  -- Inside a transaction a body does what its statements do, and leaves what it wrote where it raises.
  exec-joined :
      (b : Body S) (saved : Option S) (n : ℕ) (s : S)
      → (left : S) × (exec b (joined saved n s) ≡ outcome (flat b s) (joined saved n) left)
  unfolding exec flat
  exec-joined done saved n s = (s, refl)
  exec-joined (acts f rest) saved n s = elim (Result-cases (f s)) [
    | inl (s', h) ↦ (let (left, e) = exec-joined rest saved n s' in (left, ground arith))
    | inr (e, h) ↦ (s, ground arith)
  ]
  exec-joined (nests inner rest) saved n s =
      let (left, e) = exec-joined inner saved (suc n) s in
      elim (Result-cases (flat inner s)) [
        | inl (s', h) ↦
            (let (left', e') = exec-joined rest saved n s' in
              (left', rw (write-nested (exec inner) saved n s s' (ok tt) (rw h at e), h) e'))
        | inr (x, h) ↦
            (left, rw (write-nested (exec inner) saved n s left (err x) (rw h at e), h) refl)
      ]

  -- An outermost transaction, whatever transactions are nested in it, is all or nothing: it ends with
  -- no transaction open, with the effect of its statements one after the other where none raises, and
  -- with the state that it began with where one does.
  pub write-exec : (b : Body S) (s : S) → write (exec b) (idle s) ≡ outcome (flat b s) idle s
  write-exec b s =
      let (left, e) = exec-joined b (some s) 0 s in
      elim (Result-cases (flat b s)) [
        | inl (s', h) ↦ rw h (write-returned (exec b) s s' (rw h at e))
        | inr (x, h) ↦ rw h (write-raised (exec b) s left x (rw h at e))
      ]
