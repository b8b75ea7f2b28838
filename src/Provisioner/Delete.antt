-- ===== src/Provisioner/Delete.antt =====
-- `Delete`.
use shortrack.Base.{ℕ, none, some, [], ◌==◌}
use shortrack.Go.Text.{text_eq}
use shortrack.Host.Io.{Io, errorf, branch, pure, fail, ◌>>=◌}
use shortrack.Pb.Client.{SigmaClient}
use shortrack.Provisioner.{
  Kube, Annotations, annotation, annotation_pool_id, annotation_volume_id, StorageClassParameters,
}
use shortrack.Provisioner.Pool.{
  rpc, annotated, or_else, listed_pool, class_parameters, make_sigma_client,
}
use shortrack.Provisioner.Provision.{Class, Volume}

-- `defer closer()`
abbrev pub closing_io : {W E A : Type 0} → SigmaClient W E → Io W E A → Io W E A
closing_io client m w = let (r, w') = m w in (r, (client.close w').1)

module _ (K : Kube) where
  open K use {World, Err, get_class}

  -- The number of the pool by the volume's annotation, the class's or the list of pools; 0 where
  -- no pool has the name.
  unfoldable pub find_pool :
      SigmaClient World Err → StorageClassParameters → Annotations → Annotations → Io World Err ℕ
  find_pool client scp volume class = do
    given ←
        annotated "error parsing PersistentVolume pool-id annotation: %w"
          (annotation annotation_pool_id volume)
    classed ← or_else given (
        annotated "error parsing StorageClass pool-id annotation: %w"
          (annotation annotation_pool_id class))
    or_else classed (listed_pool client scp.pool_name)

  -- The number of the volume, by its annotation or by `GetVolume` and its name.
  unfoldable pub find_volume : SigmaClient World Err → ℕ → Volume K → Io World Err ℕ
  find_volume client id pv = do
    given ←
        annotated "error parsing PersistentVolume volume-id annotation: %w"
          (annotation annotation_volume_id pv.annotations)
    or_else given (
        rpc (
          client.get_volume (record { pool_id = id; volume_id = none; volume_name = some pv.name }))
        >>= λ info. pure info.volume_id)

  -- `Delete` once the pool is known. A pool that is not found is no error.
  unfoldable pub delete_from : SigmaClient World Err → Volume K → ℕ → Io World Err (Unit {0})
  delete_from client pv id = branch (id == 0) (pure tt) (do
    n ← find_volume client id pv
    _ ← rpc (client.delete_volume (record { pool_id = id; volume_id = n }))
    pure tt)

  -- `Delete` with the class.
  unfoldable pub delete_with : Volume K → Class K → Io World Err (Unit {0})
  delete_with pv class = do
    scp ← class_parameters K class.parameters
    client ← make_sigma_client K scp
    closing_io client
        (find_pool client scp pv.annotations class.annotations >>= delete_from client pv)

  -- `Delete`
  unfoldable pub delete : Volume K → Io World Err (Unit {0})
  unfolding delete_with
  delete pv =
      branch (text_eq pv.storage_class []) (fail (errorf "volume has no storage class" []))
        (rpc (get_class pv.storage_class) >>= delete_with pv)
