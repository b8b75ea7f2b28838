-- ===== src/Provisioner/Undo.antt =====
-- `Delete` finds the volume that `Provision` has made.
use shortrack.Base.{ℕ, ◌≡◌, refl, ap, ◌∙◌, ◌≤◌, ◌<◌, ◌^◌, String, false, none, [], arith}
use shortrack.Go.Text.{Text, text_eq, text_eq_iff}
use shortrack.Go.Number.{format_uint}
use shortrack.Go.Number.Laws.{parse_uint-format_uint, format_uint-ne-nil}
use shortrack.Host.{value}
use shortrack.Host.Io.{ok, pure, ◌>>=◌}
use shortrack.Pb.{VolumeInfo}
use shortrack.Pb.Client.{SigmaClient}
use shortrack.Provisioner.{
  Kube, Annotations, annotation, annotation_pool_id, annotation_volume_id, StorageClassParameters,
}
use shortrack.Provisioner.Pool.{rpc, annotated, class_parameters, make_sigma_client}
use shortrack.Provisioner.Provision.{Class, Volume, volume_annotations}
use shortrack.Provisioner.Delete.{
  find_pool, find_volume, delete_from, delete_with, delete, closing_io,
}

annotated-format_uint :
    {W : Type 0} (E : Type 0) (message : String) (n : ℕ) (w : W)
    → n < 2 ^ 32
    → annotated {W = W} {E = E} message (format_uint n) w ≡ (ok n, w)
unfolding annotated
annotated-format_uint E message n w fits =
    ground (
      arith,
      parse_uint-format_uint 32 n fits,
      text_eq_iff (format_uint n) [],
      format_uint-ne-nil n,
    )

annotation-pool_id :
    (info : VolumeInfo)
    → annotation annotation_pool_id (volume_annotations info) ≡ format_uint info.pool_id
unfolding format_uint annotation text_eq shortrack.Go.Text.bytes
annotation-pool_id info = refl

annotation-volume_id :
    (info : VolumeInfo)
    → annotation annotation_volume_id (volume_annotations info) ≡ format_uint info.volume_id
unfolding format_uint annotation text_eq shortrack.Go.Text.bytes
annotation-volume_id info = refl

module _ (K : Kube) where
  open K use {World, Err}

  find_pool-annotated :
      (client : SigmaClient World Err) (scp : StorageClassParameters) (info : VolumeInfo)
      (volume class : Annotations) (w : World)
      → volume ≡ volume_annotations info
      → 1 ≤ info.pool_id
      → info.pool_id < 2 ^ 32
      → find_pool K client scp volume class w ≡ (ok info.pool_id, w)
  unfolding find_pool
  find_pool-annotated client scp info volume class w e pos fits =
      let text : annotation annotation_pool_id volume ≡ format_uint info.pool_id =
        ap (annotation annotation_pool_id) e ∙ annotation-pool_id info in
      rw text (
        ground (
          arith,
          annotated-format_uint Err "error parsing PersistentVolume pool-id annotation: %w"
              info.pool_id w fits,
        ))

  find_volume-annotated :
      (client : SigmaClient World Err) (id : ℕ) (info : VolumeInfo) (pv : Volume K) (w : World)
      → pv.annotations ≡ volume_annotations info
      → 1 ≤ info.volume_id
      → info.volume_id < 2 ^ 32
      → find_volume K client id pv w ≡ (ok info.volume_id, w)
  unfolding find_volume
  find_volume-annotated client id info pv w e pos fits =
      let text : annotation annotation_volume_id pv.annotations ≡ format_uint info.volume_id =
        ap (annotation annotation_volume_id) e ∙ annotation-volume_id info in
      rw text (
        ground (
          arith,
          annotated-format_uint Err "error parsing PersistentVolume volume-id annotation: %w"
              info.volume_id w fits,
        ))

  delete_from-annotated :
      (client : SigmaClient World Err) (info : VolumeInfo) (pv : Volume K) (w : World)
      → pv.annotations ≡ volume_annotations info
      → 1 ≤ info.pool_id
      → 1 ≤ info.volume_id
      → info.volume_id < 2 ^ 32
      → delete_from K client pv info.pool_id w
        ≡ (rpc (
                client.delete_volume
                  (record { pool_id = info.pool_id; volume_id = info.volume_id }))
              >>= λ _. pure tt)
            w
  unfolding delete_from
  delete_from-annotated client info pv w e pool_pos pos fits =
      ground (arith, find_volume-annotated client info.pool_id info pv w e pos fits)

  -- `Delete` of a volume with the annotations that `Provision` writes for `info`, its numbers being
  -- `uint32` and not 0, once the class is read and the server is reached: it asks the server for
  -- `DeleteVolume` of exactly these numbers, closes the connection and returns that call's error.
  pub delete-volume_annotations :
      (info : VolumeInfo) (pv : Volume K) (class : Class K) (scp : StorageClassParameters)
      (client : SigmaClient World Err) (w v u : World)
      → text_eq pv.storage_class [] ≡ false
      → K.get_class pv.storage_class w ≡ (value class, v)
      → K.decode class.parameters ≡ (scp, none)
      → text_eq scp.server_addr [] ≡ false
      → K.new_client scp.server_addr v ≡ (value client, u)
      → pv.annotations ≡ volume_annotations info
      → 1 ≤ info.pool_id
      → info.pool_id < 2 ^ 32
      → 1 ≤ info.volume_id
      → info.volume_id < 2 ^ 32
      → delete K pv w
        ≡ closing_io client
            (rpc (
                client.delete_volume
                  (record { pool_id = info.pool_id; volume_id = info.volume_id }))
              >>= λ _. pure tt)
            u
  unfolding delete delete_with class_parameters make_sigma_client
  delete-volume_annotations info pv class scp client w v u named got read addr reached e pool_pos
        pool_fits pos fits =
      ground (
        arith,
        find_pool-annotated client scp info pv.annotations class.annotations u e pool_pos pool_fits,
        delete_from-annotated client info pv u e pool_pos pos fits,
      )
