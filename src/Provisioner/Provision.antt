-- ===== src/Provisioner/Provision.antt =====
-- `Provision`.
use shortrack.Base.{ℕ, true, false, Option, none, some, [], ◌∷◌, ◌++◌, ◌==◌, if◌then◌else◌}
use shortrack.Base.Int.{to_uint64, to_int32}
use shortrack.Go.Text.{Text, bytes, text_eq}
use shortrack.Go.Number.{format_uint, format_int}
use shortrack.Host.{Returned, value, failed}
use shortrack.Host.Io.{
  Io, Error, ok, err, panic, os_error, errorf, wrapped, when, branch, pure, fail, crash, call,
  ◌>>=◌, ◌>>◌,
}
use shortrack.Pb.{VolumeInfo, ResourceStatus, invalid_status, absent, active, degraded}
use shortrack.Pb.Client.{SigmaClient}
use shortrack.Provisioner.{
  Kube, Annotations, annotation, annotate, annotation_iqn, annotation_lun, annotation_pool_id,
  annotation_status, annotation_volume_id, annotation_volume_name, annotation_volume_size,
  StorageClassParameters, StorageClass, Claim, PersistentVolume,
}
use shortrack.Provisioner.Pool.{
  rpc, annotated, or_else, listed_pool, class_parameters, make_sigma_client,
}

-- `controller.ProvisioningFinished`, and the state "".
pub data ProvisioningState : Type 0 where
  finished unknown : ProvisioningState

pub data Result (E A : Type 0) : Type 0 where
  done : A → Result E A
  rejected : ProvisioningState → Error E → Result E A
  crashed : Result E A

abbrev pub Run : Type 0 → Type 0 → Type 0 → Type 0
Run W E A = W → Result E A × W

module _ {W E A : Type 0} where
  -- Code whose error returns have one state.
  abbrev pub tagged : ProvisioningState → Io W E A → Run W E A
  tagged state m w =
      let (r, w') = m w in
      elim r [ ok a ↦ (done a, w') | err e ↦ (rejected state e, w') | panic ↦ (crashed, w') ]

  -- `defer closer()`: on every way out, and the closer's error is dropped.
  abbrev pub closing : SigmaClient W E → Run W E A → Run W E A
  closing client m w = let (r, w') = m w in (r, (client.close w').1)

module _ {W E A B : Type 0} where
  abbrev pub and_then : Run W E A → (A → Run W E B) → Run W E B
  and_then m f w =
      let (r, w') = m w in
      elim r [
        | done a ↦ f a w'
        | rejected state e ↦ (rejected state e, w')
        | crashed ↦ (crashed, w')
      ]

-- `Status.Enum().String()`
abbrev pub status_name : ResourceStatus → Text
status_name invalid_status = bytes "RESOURCE_INVALID_STATUS"
status_name absent = bytes "RESOURCE_ABSENT"
status_name active = bytes "RESOURCE_ACTIVE"
status_name degraded = bytes "RESOURCE_DEGRADED"

-- The annotations of a new volume.
abbrev pub volume_annotations : VolumeInfo → Annotations
volume_annotations info =
    (annotation_iqn, info.iqn)
    ∷ (annotation_lun, format_int info.lun)
    ∷ (annotation_pool_id, format_uint info.pool_id)
    ∷ (annotation_status, status_name info.status)
    ∷ (annotation_volume_id, format_uint info.volume_id)
    ∷ (annotation_volume_name, info.volume_name)
    ∷ (annotation_volume_size, format_uint info.volume_size)
    ∷ []

-- `strings.Join([]string{pvcNamespace, pvcName, options.PVName}, "-")`
abbrev pub volume_name_of : Text → Text → Text → Text
volume_name_of namespace claim pv = namespace ++ bytes "-" ++ claim ++ bytes "-" ++ pv

module _ {W E : Type 0} where
  -- `CreatePool` where no pool was found.
  unfoldable pub created_pool : SigmaClient W E → Text → Io W E ℕ
  created_pool client name =
      rpc (client.create_pool (record { pool_id = none; pool_name = some name })) >>= λ info.
      pure info.pool_id

  -- The number of the pool, and the class's annotation as far as it was read: it is read only
  -- where the claim's gives no number.
  unfoldable pub choose_pool :
      SigmaClient W E → StorageClassParameters → Annotations → Annotations → Io W E (ℕ × Text)
  unfolding created_pool annotated listed_pool
  choose_pool client scp claim class = do
    claimed ←
        annotated "error parsing PersistentVolumeClaim pool-id annotation: %w"
          (annotation annotation_pool_id claim)
    let seen = if claimed == 0 then annotation annotation_pool_id class else []
    classed ← or_else claimed (annotated "error parsing StorageClass pool-id annotation: %w" seen)
    named ← or_else classed (listed_pool client scp.pool_name)
    id ← or_else named (created_pool client scp.pool_name)
    pure (id, seen)

  -- The answer of `GetVolume`, whose error is dropped: the nil response is used further below.
  existing_volume : Returned E VolumeInfo → Io W E VolumeInfo
  existing_volume (value info) w = pure info w
  existing_volume (failed e) w = crash w

  created_or_existing : SigmaClient W E → ℕ → Text → Returned E VolumeInfo → Io W E VolumeInfo
  unfolding existing_volume
  created_or_existing client id name (value info) w = pure info w
  created_or_existing client id name (failed e) w =
      branch (client.already_exists e)
        (call
            (client.get_volume (record { pool_id = id; volume_id = none; volume_name = some name }))
          >>= existing_volume)
        (fail (os_error e)) w

  -- `CreateVolume`, or `GetVolume` where that answers `AlreadyExists`.
  unfoldable pub volume_for : SigmaClient W E → ℕ → Text → ℕ → Io W E VolumeInfo
  unfolding created_or_existing
  volume_for client id name size =
      call (
        client.create_volume
          (record { pool_id = id; volume_id = none; volume_name = some name; volume_size = size }))
      >>= created_or_existing client id name

module _ (K : Kube) where
  open K use {
    World, Err, Parameters, Policy, AccessModes, MountOptions, Quantity, quantity_value,
    update_class,
  }

  abbrev pub Class : Type 0
  Class = StorageClass Parameters Policy MountOptions

  abbrev pub Volume : Type 0
  Volume = PersistentVolume Policy AccessModes MountOptions Quantity

  updated : Option Err → Io World Err (Unit {0})
  updated none w = pure tt w
  updated (some e) w = fail (wrapped "error updating storage class annotations: %w" (os_error e)) w

  -- The class gets the annotation where it was not read or is "".
  unfoldable pub annotate_class : Class → ℕ → Text → Io World Err (Unit {0})
  unfolding updated
  annotate_class class id seen = when (text_eq seen []) (
      call (
        update_class (record class {
          annotations = annotate annotation_pool_id (format_uint id) class.annotations;
        }))
      >>= updated)

  -- The new `PersistentVolume`. The class's reclaim policy is dereferenced.
  abbrev pub volume_of :
      StorageClassParameters
      → Text
      → Claim AccessModes Quantity
      → Class
      → VolumeInfo
      → Policy
      → Volume
  volume_of scp name claim class info policy = record {
    name = name;
    annotations = volume_annotations info;
    reclaim_policy = policy;
    access_modes = claim.access_modes;
    mount_options = class.mount_options;
    capacity = claim.storage;
    iscsi = record {
      target_portal = scp.target_portal;
      iqn = info.iqn;
      lun = to_int32 info.lun;
      fs_type = if text_eq scp.fs_type [] then bytes "ext4" else scp.fs_type;
    };
    storage_class = [];
  }

  make_volume :
      StorageClassParameters
      → Text
      → Claim AccessModes Quantity
      → Class
      → VolumeInfo
      → Option Policy
      → Io World Err Volume
  make_volume scp name claim class info none w = crash w
  make_volume scp name claim class info (some policy) w =
      pure (volume_of scp name claim class info policy) w

  -- `Provision` once the pool is known.
  unfoldable pub provide :
      SigmaClient World Err
      → StorageClassParameters
      → Text
      → Claim AccessModes Quantity
      → Class
      → ℕ × Text
      → Io World Err Volume
  unfolding annotate_class volume_for make_volume
  provide client scp name claim class (id, seen) = do
    annotate_class class id seen
    info ←
        volume_for client id (volume_name_of claim.namespace claim.name name)
          (to_uint64 (quantity_value claim.storage))
    make_volume scp name claim class info class.reclaim_policy

  prepared : Class → Io World Err (StorageClassParameters × SigmaClient World Err)
  prepared class = do
    scp ← class_parameters K class.parameters
    client ← make_sigma_client K scp
    pure (scp, client)

  -- `Provision`, with the name, the claim and the class of its options.
  unfoldable pub provision : Text → Claim AccessModes Quantity → Class → Run World Err Volume
  unfolding prepared
  provision name claim class w = elim claim.has_selector [
    | true ↦ (rejected finished (errorf "claim Selector is not supported" []), w)
    | false ↦
        and_then (tagged finished (prepared class))
          (λ p. closing p.1 (
            and_then (tagged finished (choose_pool p.1 p.0 claim.annotations class.annotations))
              (λ chosen. tagged unknown (provide p.1 p.0 name claim class chosen))))
          w
  ]
