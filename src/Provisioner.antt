-- ===== src/Provisioner.antt =====
-- `k8sprovisioner/k8sprovisioner.go`: its data, and the Kubernetes libraries as a parameter.
pub mod Number
pub mod Pool
pub mod Provision
pub mod Delete
pub mod Undo
pub mod Served
pub mod Held
pub mod Claimed
pub mod Command
use shortrack.Base.{
  ℕ, Bool, true, false, ◌&&◌, Option, none, some, List, [], ◌∷◌, ◌++◌, if◌then◌else◌,
}
use shortrack.Base.Int.{ℤ}
use shortrack.Go.Text.{Text, bytes, text_eq}
use shortrack.Host.{Returned}
use shortrack.Pb.Client.{SigmaClient}

-- `map[string]string`; a nil map and an empty one are both `[]`.
abbrev pub Annotations : Type 0
Annotations = List (Text × Text)

-- `m[key]`, which is "" where the key is missing.
unfoldable pub annotation : Text → Annotations → Text
annotation key [] = []
annotation key ((at, x) ∷ rest) =
    let later = annotation key rest in if text_eq at key then x else later

-- `m[key] = x`
unfoldable pub annotate : Text → Text → Annotations → Annotations
annotate key x [] = (key, x) ∷ []
annotate key x ((at, old) ∷ rest) =
    let later = (at, old) ∷ annotate key x rest in if text_eq at key then (key, x) ∷ rest else later

pub record StorageClassParameters : Type 0 where
  pub pool_name : Text
  pub server_addr : Text
  pub target_portal : Text
  pub fs_type : Text

abbrev pub annotation_iqn : Text
annotation_iqn = bytes "shortrack.sapslaj.xyz/iqn"

abbrev pub annotation_lun : Text
annotation_lun = bytes "shortrack.sapslaj.xyz/lun"

abbrev pub annotation_pool_id : Text
annotation_pool_id = bytes "shortrack.sapslaj.xyz/pool-id"

abbrev pub annotation_status : Text
annotation_status = bytes "shortrack.sapslaj.xyz/status"

abbrev pub annotation_volume_id : Text
annotation_volume_id = bytes "shortrack.sapslaj.xyz/volume-id"

abbrev pub annotation_volume_name : Text
annotation_volume_name = bytes "shortrack.sapslaj.xyz/volume-name"

abbrev pub annotation_volume_size : Text
annotation_volume_size = bytes "shortrack.sapslaj.xyz/volume-size"

-- What the code reads of a `StorageClass`; what it only passes on has the types of `Kube`.
pub record StorageClass (Parameters Policy MountOptions : Type 0) : Type 0 where
  pub parameters : Parameters
  pub annotations : Annotations
  pub reclaim_policy : Option Policy
  pub mount_options : MountOptions

-- Of `controller.ProvisionOptions` and its claim. `storage` is the request for storage.
pub record Claim (AccessModes Quantity : Type 0) : Type 0 where
  pub has_selector : Bool
  pub namespace : Text
  pub name : Text
  pub annotations : Annotations
  pub access_modes : AccessModes
  pub storage : Quantity

pub record IscsiSource : Type 0 where
  pub target_portal : Text
  pub iqn : Text
  pub lun : ℤ
  pub fs_type : Text

-- Of `corev1.PersistentVolume`. `storage_class` is what `GetPersistentVolumeClass` reads.
pub record PersistentVolume (Policy AccessModes MountOptions Quantity : Type 0) : Type 0 where
  pub name : Text
  pub annotations : Annotations
  pub reclaim_policy : Policy
  pub access_modes : AccessModes
  pub mount_options : MountOptions
  pub capacity : Quantity
  pub iscsi : IscsiSource
  pub storage_class : Text

-- `client-go`, `mapstructure.Decode`, `Quantity.Value` and `grpc.NewClient`. The world is that of
-- the cluster and of the servers that it reaches.
pub record Kube : Type 1 where
  pub World : Type 0
  pub Err : Type 0
  pub Parameters : Type 0
  pub Policy : Type 0
  pub AccessModes : Type 0
  pub MountOptions : Type 0
  pub Quantity : Type 0
  pub decode : Parameters → StorageClassParameters × Option Err
  pub quantity_value : Quantity → ℤ
  pub get_class : Text → World → Returned Err (StorageClass Parameters Policy MountOptions) × World
  pub update_class : StorageClass Parameters Policy MountOptions → World → Option Err × World
  pub new_client : Text → World → Returned Err (SigmaClient World Err) × World
