-- ===== src/Metastore/Atomic.antt =====
-- What `Atomic` promises, and what any client of it can do to the tables.
use omnistash.Base.{Bool, true, false, if◌then◌else◌, ℕ, String, ◌≡◌, List, [], ◌∷◌, arith}
use omnistash.Errors.{Error, Result, ok, err, is, local, LocalError}
use omnistash.Metastore.Tables.{Digest, Db, ReferrerRow}
use omnistash.World.{trip, World, Proc, pure, attempt, gets, continue, calm, answer, next, later}
use omnistash.World.{◌>>=◌, ◌>>◌}
use omnistash.Metastore.Tx
use omnistash.Metastore.Store.{atomic, settle, commit, recovered, roll_back}
use omnistash.Metastore.Keeps.{Keeps, Keeps-bind, keeps_rules}
use omnistash.Metastore.Valid.{IsValid}
use omnistash.Metastore.Integrity

module _ {A : Type 0} where
  settle_failed :
      (before : Db) (r : Result A) (w : World) {e : Error}
      → (settle before r w).0 ≡ err e
      → (settle before r w).1.db ≡ before
  unfolding ◌>>=◌
  settle_failed before (ok a) w h = ground arith
  settle_failed before (err e) w h = ground arith

  -- A transaction that fails, for whatever reason, leaves the database as it was.
  pub atomic_failed :
      (fn : Proc A) (w : World) {e : Error} → (atomic fn w).0 ≡ err e → (atomic fn w).1.db ≡ w.db
  unfolding atomic ◌>>=◌
  atomic_failed fn w h =
      let begun : World = record w { faults = later w.faults } in
      ground (arith, settle_failed w.db (fn begun).0 (fn begun).1)

  -- With every answer a success, a transaction does what its function does if that returns, and
  -- undoes its changes of the database, and nothing else, if that fails.
  pub atomic-calm_ok :
      (fn : Proc A) (w w' : World) (a : A)
      → fn (calm w) ≡ (ok a, calm w')
      → atomic fn (calm w) ≡ (ok a, calm w')
  unfolding atomic ◌>>=◌
  atomic-calm_ok fn w w' a h = ground arith

  pub atomic-calm_err :
      (fn : Proc A) (w w' : World) (e : Error)
      → fn (calm w) ≡ (err e, calm w')
      → atomic fn (calm w) ≡ (err e, record (calm w') { db = w.db })
  unfolding atomic ◌>>=◌
  atomic-calm_err fn w w' e h = ground arith

failed_keeps :
    (A : Type 0) (P : Db → Type 0) (before : Db) (e : Error) (b : Bool) (w : World)
    → P before
    → (let m : Proc A = if b then recovered before e else roll_back before e trip in P (m w).1.db)
unfolding ◌>>=◌
failed_keeps A P before e true w h = h
failed_keeps A P before e false w h = h

module _ {A : Type 0} where
  commit_keeps :
      (P : Db → Type 0) (before : Db) (a : A) (r : Result (Unit {0})) (w : World)
      → P before
      → P w.db
      → P (commit before a r w).1.db
  unfolding ◌>>=◌
  commit_keeps P before a (ok done) w h k = k
  commit_keeps P before a (err e) w h k = h

  settle_keeps :
      (P : Db → Type 0) (before : Db) (r : Result A) (w : World)
      → P before
      → P w.db
      → P (settle before r w).1.db
  unfolding ◌>>=◌
  settle_keeps P before (err e) w h k =
      failed_keeps A P before e (is e (local LocalError.panicked)) w h
  settle_keeps P before (ok a) w h k = commit_keeps P before a (answer (next w.faults)) _ h k

  begun_keeps :
      (P : Db → Type 0) (fn : Proc A)
      → Keeps P fn
      → (r : Result (Unit {0})) (w : World) → P w.db
      → P (continue r (λ _. do b ← gets (λ v. v.db); r ← attempt fn; settle b r) w).1.db
  unfolding ◌>>=◌
  begun_keeps P fn k (ok done) w h = settle_keeps P w.db (fn w).0 (fn w).1 h (k.at w h)
  begun_keeps P fn k (err e) w h = h

  -- A transaction keeps what its function keeps.
  pub Keeps-atomic : (P : Db → Type 0) (fn : Proc A) → Keeps P fn → Keeps P (atomic fn)
  unfolding atomic ◌>>=◌
  Keeps-atomic P fn k = record {
    at =
        λ w h. begun_keeps P fn k (answer (next w.faults)) (record w { faults = later w.faults }) h;
  }

-- The calls that a transaction can make.
pub data Call : Type 0 where
  create_namespace delete_namespace : String → Call
  insert_namespace_blob : String → Digest → ℕ → Call
  get_namespace_blob stat_namespace_blob : String → Digest → Call
  insert_manifest : String → Digest → String → ℕ → Call
  get_manifest_by_digest delete_manifest_by_digest : String → Digest → Call
  upsert_referrer : String → ReferrerRow → Call
  list_referrers delete_referrer : String → Digest → Call

-- A call, its result dropped.
abbrev call : Call → Proc (Unit {0})
call (create_namespace n) = do Tx.create_namespace n; pure tt
call (delete_namespace n) = do Tx.delete_namespace n; pure tt
call (insert_namespace_blob n d size) = Tx.insert_namespace_blob n d size
call (get_namespace_blob n d) = do Tx.get_namespace_blob n d; pure tt
call (stat_namespace_blob n d) = do Tx.stat_namespace_blob n d; pure tt
call (insert_manifest n d media_type size) = Tx.insert_manifest n d media_type size
call (get_manifest_by_digest n d) = do Tx.get_manifest_by_digest n d; pure tt
call (delete_manifest_by_digest n d) = Tx.delete_manifest_by_digest n d
call (upsert_referrer n row) = Tx.upsert_referrer n row
call (list_referrers n d) = do Tx.list_referrers n d; pure tt
call (delete_referrer n d) = Tx.delete_referrer n d

-- A function that a client hands to `Atomic`: it ends at its first error.
pub calls : List Call → Proc (Unit {0})
calls [] = pure tt
calls (c ∷ cs) = do call c; calls cs

-- Transactions one after the other, whether they fail or not.
pub session : List (List Call) → World → World
session [] w = w
session (t ∷ ts) w = session ts (atomic (calls t) w).1

ruleset call_rules = (
  keeps_rules, Integrity.create_namespace-IsValid, Integrity.delete_namespace-IsValid,
  Integrity.insert_namespace_blob-IsValid, Integrity.get_namespace_blob-IsValid,
  Integrity.stat_namespace_blob-IsValid, Integrity.insert_manifest-IsValid,
  Integrity.get_manifest_by_digest-IsValid, Integrity.delete_manifest_by_digest-IsValid,
  Integrity.upsert_referrer-IsValid, Integrity.list_referrers-IsValid,
  Integrity.delete_referrer-IsValid,
)

call-IsValid : (c : Call) → Keeps IsValid (call c)
call-IsValid (create_namespace n) = search call_rules
call-IsValid _ = search call_rules

calls-IsValid : (cs : List Call) → Keeps IsValid (calls cs)
unfolding calls
calls-IsValid [] = search keeps_rules
calls-IsValid (c ∷ cs) = Keeps-bind _ _ (call-IsValid c) λ _. calls-IsValid cs

-- From valid tables, any transactions of any calls leave valid tables: no primary key is there
-- twice, and every blob, manifest and referrer belongs to a namespace that exists. The answers of
-- the engine, in `w.faults`, may be any.
pub session-IsValid : (ts : List (List Call)) (w : World) → IsValid w.db → IsValid (session ts w).db
unfolding session
session-IsValid [] w h = h
session-IsValid (t ∷ ts) w h =
    session-IsValid ts (atomic (calls t) w).1
      ((Keeps-atomic IsValid (calls t) (calls-IsValid t)).at w h)
