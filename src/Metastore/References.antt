-- ===== src/Metastore/References.antt =====
-- Foreign keys of the tables to the namespaces.
use omnistash.Base.{String, ◌≡◌, ◌≢◌, refl, false}
use omnistash.Base.{none, [], ◌∷◌, string_eq, pair_eq, arith}
use omnistash.Base.Table.{Table, lookup, put, remove, lookup-put, lookup-remove}
use omnistash.Metastore.Tables.{Digest, Key, Stamps}
use omnistash.Metastore.Sql

-- A key of the table names a namespace that exists.
abbrev pub IsReferencing : {V : Type 0} → Table String Stamps → Table Key V → Type 0
IsReferencing ns t =
    (name : String) (d : Digest) → lookup name ns ≡ none → lookup (name, d) t ≡ none

module _ {V : Type 0} where
  -- A namespace with no row in the table has no key in it.
  pub lookup_of_childless :
      (name : String) (d : Digest) (t : Table Key V)
      → Sql.has_child name t ≡ false
      → lookup (name, d) t ≡ none
  unfolding Sql.has_child lookup pair_eq
  lookup_of_childless name d [] h = refl
  lookup_of_childless name d (((n, e), v) ∷ t) h = ground (arith, lookup_of_childless name d t)

  -- A new row of a namespace that exists.
  pub put-IsReferencing :
      (ns : Table String Stamps) (key : Key) (v : V) (t : Table Key V)
      → lookup key.0 ns ≢ none
      → IsReferencing ns t
      → IsReferencing ns (put key v t)
  put-IsReferencing ns key v t e h name d absent =
      ground (arith, lookup-put (name, d) key v t, h name d absent)

  pub remove-IsReferencing :
      (ns : Table String Stamps) (key : Key) (t : Table Key V)
      → IsReferencing ns t
      → IsReferencing ns (remove key t)
  remove-IsReferencing ns key t h name d absent =
      ground (arith, lookup-remove (name, d) key t, h name d absent)

  -- One more namespace.
  pub IsReferencing-put :
      (ns : Table String Stamps) (new : String) (s : Stamps) (t : Table Key V)
      → IsReferencing ns t
      → IsReferencing (put new s ns) t
  IsReferencing-put ns new s t h name d absent = h name d (ground (arith, lookup-put name new s ns))

  -- One namespace less, of which the table has no row.
  pub IsReferencing-remove :
      (ns : Table String Stamps) (gone : String) (t : Table Key V)
      → Sql.has_child gone t ≡ false
      → IsReferencing ns t
      → IsReferencing (remove gone ns) t
  IsReferencing-remove ns gone t childless h name d absent =
      ground (arith, lookup-remove name gone ns, lookup_of_childless gone d t childless, h name d)
