-- ===== src/Metastore/Integrity.antt =====
-- Every operation of a transaction, and every transaction, keeps the tables valid.
use omnistash.Base.{ℕ, zero, suc, String, Option, none, some}
use omnistash.Errors.{Result, ok, err}
use omnistash.Metastore.Tables.{Digest, Db, ReferrerRow}
use omnistash.World.{World, Proc, trip}
use omnistash.Metastore.Tx.{exec, exec_counted, query_row, if_affected, or_throw}
use omnistash.Metastore.Tx
use omnistash.Metastore.Keeps.{Keeps, keeps_rules, Keeps-bind, Keeps-trip, Keeps-pure}
use omnistash.Metastore.Valid.{IsValid, IsValidIfOk}
use omnistash.Metastore.Valid

store_result-IsValid :
    (r : Result Db) (w : World) → IsValid w.db → IsValidIfOk r → IsValid (Tx.store_result r w).1.db
store_result-IsValid (ok db) w h k = k
store_result-IsValid (err e) w h k = h

Keeps-exec :
    (f : World → Result Db)
    → ((w : World) → IsValid w.db → IsValidIfOk (f w))
    → Keeps IsValid (exec f)
unfolding exec
Keeps-exec f k =
    Keeps-bind trip _ Keeps-trip λ _. record { at = λ w h. store_result-IsValid (f w) w h (k w h) }

Keeps-exec_counted :
    (f : World → Db × ℕ)
    → ((w : World) → IsValid w.db → IsValid (f w).0)
    → Keeps IsValid (exec_counted f)
unfolding exec_counted
Keeps-exec_counted f k =
    Keeps-bind trip _ Keeps-trip
      λ _. Keeps-bind _ _ (record { at = k }) λ n. Keeps-bind trip _ Keeps-trip λ _. Keeps-pure n

module _ {A : Type 0} where
  Keeps-query_row : (f : World → Option A) → Keeps IsValid (query_row f)
  unfolding query_row
  Keeps-query_row f = search keeps_rules

  Keeps-or_throw : (m : Proc A) (o : Option A) → Keeps IsValid m → Keeps IsValid (or_throw m o)
  Keeps-or_throw m none h = h
  Keeps-or_throw m (some a) h = Keeps-pure a

  Keeps-if_affected :
      (n : ℕ) (m k : Proc A) → Keeps IsValid m → Keeps IsValid k → Keeps IsValid (if_affected n m k)
  Keeps-if_affected zero m k h g = h
  Keeps-if_affected (suc n) m k h g = g

ruleset valid_rules = (
  keeps_rules, Keeps-exec, Keeps-exec_counted, Keeps-query_row, Keeps-or_throw, Keeps-if_affected,
)

pub create_namespace-IsValid : (name : String) → Keeps IsValid (Tx.create_namespace name)
unfolding Tx.create_namespace
create_namespace-IsValid name = search (valid_rules, Valid.insert_namespace-IsValid)

pub delete_namespace-IsValid : (name : String) → Keeps IsValid (Tx.delete_namespace name)
unfolding Tx.delete_namespace
delete_namespace-IsValid name = search (valid_rules, Valid.delete_namespace-IsValid)

pub insert_namespace_blob-IsValid :
    (name : String) (d : Digest) (size : ℕ) → Keeps IsValid (Tx.insert_namespace_blob name d size)
unfolding Tx.insert_namespace_blob
insert_namespace_blob-IsValid name d size =
    search
      (valid_rules, Valid.insert_namespace_blob-IsValid, Valid.resurrect_namespace_blob-IsValid)

pub get_namespace_blob-IsValid :
    (name : String) (d : Digest) → Keeps IsValid (Tx.get_namespace_blob name d)
unfolding Tx.get_namespace_blob
get_namespace_blob-IsValid name d = search valid_rules

pub stat_namespace_blob-IsValid :
    (name : String) (d : Digest) → Keeps IsValid (Tx.stat_namespace_blob name d)
unfolding Tx.stat_namespace_blob
stat_namespace_blob-IsValid name d = search valid_rules

pub insert_manifest-IsValid :
    (ns : String) (d : Digest) (media_type : String) (size : ℕ)
    → Keeps IsValid (Tx.insert_manifest ns d media_type size)
unfolding Tx.insert_manifest
insert_manifest-IsValid ns d media_type size = search (valid_rules, Valid.insert_manifest-IsValid)

pub get_manifest_by_digest-IsValid :
    (ns : String) (d : Digest) → Keeps IsValid (Tx.get_manifest_by_digest ns d)
unfolding Tx.get_manifest_by_digest
get_manifest_by_digest-IsValid ns d = search valid_rules

pub delete_manifest_by_digest-IsValid :
    (ns : String) (d : Digest) → Keeps IsValid (Tx.delete_manifest_by_digest ns d)
unfolding Tx.delete_manifest_by_digest
delete_manifest_by_digest-IsValid ns d =
    search (valid_rules, Valid.delete_manifest_by_digest-IsValid)

pub upsert_referrer-IsValid :
    (ns : String) (row : ReferrerRow) → Keeps IsValid (Tx.upsert_referrer ns row)
unfolding Tx.upsert_referrer
upsert_referrer-IsValid ns row = search (valid_rules, Valid.upsert_referrer-IsValid)

pub list_referrers-IsValid :
    (ns : String) (subject : Digest) → Keeps IsValid (Tx.list_referrers ns subject)
unfolding Tx.list_referrers
list_referrers-IsValid ns subject = search valid_rules

pub delete_referrer-IsValid : (ns : String) (d : Digest) → Keeps IsValid (Tx.delete_referrer ns d)
unfolding Tx.delete_referrer
delete_referrer-IsValid ns d = search (valid_rules, Valid.delete_referrer-IsValid)
