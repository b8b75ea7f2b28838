-- ===== src/Pb.antt =====
-- The messages of `pb/shortrack.proto`, as the generated `pb/shortrack.pb.go` declares them. An
-- optional field is a pointer there.
pub mod Client
use shortrack.Base.{ℕ, Option}
use shortrack.Base.Int.{ℤ}
use shortrack.Go.Text.{Text}

pub data ResourceStatus : Type 0 where
  invalid_status absent active degraded : ResourceStatus

pub record PoolInfo : Type 0 where
  pub pool_id : ℕ
  pub status : ResourceStatus
  pub pool_name : Text
  pub iqn : Text

pub record GetPoolRequest : Type 0 where
  pub pool_id : Option ℕ
  pub pool_name : Option Text

pub record CreatePoolRequest : Type 0 where
  pub pool_id : Option ℕ
  pub pool_name : Option Text

pub record VolumeInfo : Type 0 where
  pub pool_id : ℕ
  pub volume_id : ℕ
  pub status : ResourceStatus
  pub volume_name : Text
  pub volume_size : ℕ
  pub iqn : Text
  pub lun : ℤ

pub record GetVolumeRequest : Type 0 where
  pub pool_id : ℕ
  pub volume_id : Option ℕ
  pub volume_name : Option Text

pub record CreateVolumeRequest : Type 0 where
  pub pool_id : ℕ
  pub volume_id : Option ℕ
  pub volume_name : Option Text
  pub volume_size : ℕ

pub record DeleteVolumeRequest : Type 0 where
  pub pool_id : ℕ
  pub volume_id : ℕ
