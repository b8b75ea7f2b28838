-- ===== src/State.antt =====
-- The data of `sigma/sigma.go`: the configuration, the persistent state, backstores and targets.
use shortrack.Base.{ℕ}
use shortrack.Base.Int.{ℤ}
use shortrack.Base.Map.{Map}
use shortrack.Go.Text.{Text}

pub record ServerConfig : Type 0 where
  pub base_iqn : Text
  pub volumes_dir : Text
  pub portal : Text

-- `ID` and `PoolID` are `uint16`, `Size` is `int64`.
pub record StateVolume : Type 0 where
  pub id : ℕ
  pub name : Text
  pub pool_id : ℕ
  pub size : ℤ

pub record StatePool : Type 0 where
  pub id : ℕ
  pub name : Text
  pub volumes : Map StateVolume

-- `State`. A nil map and an empty one are both `[]`.
pub record SigmaState : Type 0 where
  pub max_lun_id : ℕ
  pub pools : Map StatePool

-- `Type` is Go's `BackstoreType`, a string.
pub record Backstore : Type 0 where
  pub kind : Text
  pub id : ℕ
  pub name : Text
  pub file_path : Text
  pub file_size : ℕ

pub record Target : Type 0 where
  pub id : ℕ
  pub name : Text
  pub iqn : Text
