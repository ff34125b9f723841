-- ===== src/Namespaces.antt =====
-- The namespace service: internal/namespace/service.go. Its `Namespace` has the fields of the row
-- that it is made of.
use omnistash.Base.{String}
use omnistash.Errors.{meta, oci, MetaError, OciError}
use omnistash.Metastore.Tables.{NamespaceRow}
use omnistash.Metastore.Tx
use omnistash.Metastore.Store.{atomic}
use omnistash.Name.{validate_name}
use omnistash.Blob.Service.{map_is}
use omnistash.World.{Proc, lift, attempt, ◌>>=◌, ◌>>◌}

-- `CreateNamespace`
unfoldable pub create_namespace : String → Proc NamespaceRow
create_namespace name = do
  lift (validate_name name)
  atomic (do
    r ← attempt (Tx.create_namespace name)
    lift (map_is (meta MetaError.name_exists) (oci OciError.name_exists) r))

-- `DeleteNamespace`
unfoldable pub delete_namespace : String → Proc NamespaceRow
delete_namespace name = do
  lift (validate_name name)
  atomic (do
    r ← attempt (Tx.delete_namespace name)
    lift (map_is (meta MetaError.name_unknown) (oci OciError.name_unknown) r))
