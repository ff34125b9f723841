-- ===== src/Metastore/Store.antt =====
-- The store handle: `Atomic` of internal/metastore/sqlite/store.go and `NamespaceExists` of
-- namespace.go. A transaction that does not commit leaves the database as it was at its begin.
-- A panic of the function of a transaction is an error with the sentinel `panicked` in its tree.
use omnistash.Base.{if◌then◌else◌, String, Bool, ◌++◌, ◌∷◌, []}
use omnistash.Errors.{Error, Result, ok, err, is, local, LocalError, sys, SysError}
use omnistash.Metastore.Tables.{Db}
use omnistash.Metastore.Sql
use omnistash.World.{Proc, pure, raise, gets, attempt, modify, trip, ◌>>=◌, ◌>>◌}

abbrev pub joined : Error → Result (Unit {0}) → Error
joined e (ok done) = e
joined e (err f) = e ++ f

-- The deferred rollback, and its error joined to that of the transaction.
abbrev pub roll_back : {A : Type 0} → Db → Error → Proc (Unit {0}) → Proc A
roll_back before e answer = do
  modify (λ w. record w { db = before })
  r ← attempt answer
  raise (joined e r)

-- A panic that goes on: after a rollback that fails, with the error of the rollback, while what was
-- panicked with is text alone.
abbrev pub panic_on : Error → Result (Unit {0}) → Error
panic_on p (ok done) = p
panic_on p (err f) = local LocalError.panicked ∷ f

-- The branch of the deferred call that recovers a panic and passes it on. A rollback that succeeds
-- leaves there what the branch for errors leaves.
abbrev pub recovered : {A : Type 0} → Db → Error → Proc A
recovered before p = do
  modify (λ w. record w { db = before })
  r ← attempt trip
  raise (panic_on p r)

-- After a failed commit the transaction is over, and `Rollback` says so by `ErrTxDone`.
abbrev pub tx_done : Proc (Unit {0})
tx_done = raise (sys SysError.external ∷ [])

abbrev pub commit : {A : Type 0} → Db → A → Result (Unit {0}) → Proc A
commit before a (ok done) = pure a
commit before a (err e) = roll_back before e tx_done

abbrev pub settle : {A : Type 0} → Db → Result A → Proc A
settle before (ok a) = do r ← attempt trip; commit before a r
settle before (err e) =
    if is e (local LocalError.panicked) then recovered before e else roll_back before e trip

unfoldable pub atomic : {A : Type 0} → Proc A → Proc A
atomic fn = do trip; before ← gets (λ w. w.db); r ← attempt fn; settle before r

unfoldable pub namespace_exists : String → Proc Bool
namespace_exists name = do trip; gets (λ w. Sql.namespace_exists name w.db)
