-- ===== src/Contracts/Passes/Sqlite.antt =====
-- The store over SQLite as the suite sees it, the tables that the tests go through, and the keys that
-- they compare.
use omnistash.Base.{◌≡◌, refl, ℕ, String, ◌==◌, ==_refl, true, false, [], ◌∷◌, string_eq, pair_eq}
use omnistash.Base.Table.{Table, lookup, put, remove}
use omnistash.Metastore.Tables.{Db, Digest, Key, Stamps, empty_db}
use omnistash.Metastore.Sql
use omnistash.Metastore.Tx
use omnistash.Metastore.Store
use omnistash.Contracts.Stores.{MetadataStore, sqlite_store}
use omnistash.Contracts.Metadata.Fixtures.{Setup, Digests, default_name, other_name}
use omnistash.World.{World, ◌>>=◌}

-- `SQLiteMetadataStore`, which opens its operations and statements together.
unfoldable pub store : MetadataStore
unfolding Store.atomic Store.namespace_exists ◌>>=◌ string_eq lookup put remove Tx.create_namespace
    Tx.delete_namespace Tx.insert_namespace_blob Tx.get_namespace_blob Tx.stat_namespace_blob
    Tx.insert_manifest Tx.get_manifest_by_digest Tx.delete_manifest_by_digest Tx.upsert_referrer
    Tx.list_referrers Tx.delete_referrer Tx.exec_counted Tx.exec Tx.query_row Sql.insert_namespace
    Sql.select_namespace Sql.namespace_exists Sql.delete_namespace Sql.has_child
    Sql.insert_namespace_blob Sql.resurrect_namespace_blob Sql.get_namespace_blob_size
    Sql.insert_manifest Sql.get_manifest_by_digest Sql.delete_manifest_by_digest Sql.upsert_referrer
    Sql.list_referrers Sql.referrers_of Sql.order_by_date Sql.insert_by_date Sql.delete_referrer
store = sqlite_store

-- The tables, while the engine answers.
abbrev pub on : World → Db → World
on w db = record w { db = db; faults = [] }

-- `newStore`: the database after the migration
abbrev pub new_sqlite : World → World
new_sqlite w = on w empty_db

abbrev pub sqlite : Digests → Setup
sqlite d = record { store = store; new_store = new_sqlite; digests = d }

abbrev pub stamped : ℕ → Stamps
stamped now = record { created_at = now; updated_at = now }

-- The default namespace alone, and both namespaces.
abbrev pub named : ℕ → Db
named now = record empty_db { namespace = (default_name, stamped now) ∷ [] }

abbrev pub both_names : ℕ → Table String Stamps
both_names now = (default_name, stamped now) ∷ (other_name, stamped now) ∷ []

pub same_key : (ns : String) (d : Digest) → (let k : Key = (ns, d) in k == k) ≡ true
same_key ns d = let k : Key = (ns, d) in ==_refl k

pub other_keys :
    (d : Digest)
    → (let k : Key = (other_name, d) in let j : Key = (default_name, d) in k == j) ≡ false
unfolding string_eq pair_eq
other_keys d = refl
