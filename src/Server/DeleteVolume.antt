-- ===== src/Server/DeleteVolume.antt =====
-- `DeleteVolume`.
pub mod Effect
use shortrack.Base.{
  ℕ, Bool, Option, none, some, List, [], ◌∷◌, ◌==◌, if◌then◌else◌, find, contains_func,
}
use shortrack.Base.Int.{pos, to_uint64}
use shortrack.Base.Map.{lookup, erase}
use shortrack.Go.Text.{text_eq}
use shortrack.State.{ServerConfig, StateVolume, StatePool, SigmaState, Backstore, Target}
use shortrack.Host.{Host}
use shortrack.Lio.Disk.{delete_disk_file}
use shortrack.Lio.Backstores.{backstore_fileio, list_backstores, delete_backstore}
use shortrack.Lio.Luns.{list_luns, delete_lun}
use shortrack.Lio.Targets.{list_targets}
use shortrack.Pb.{VolumeInfo, DeleteVolumeRequest, active, degraded}
use shortrack.Server.Call.{
  Call, Store, Reply, num, invalid_argument, failed_precondition, aborted, internal, pure, attempt,
  branch, or_answer, get_state, set_state, handle, ◌>>=◌, ◌>>◌,
}
use shortrack.Server.Persist.{save_state}
use shortrack.Server.Pools.{uint16, pool_iqn}
use shortrack.Server.Volumes.{volume_response, image_path, change_volumes}

-- A loop that keeps the last hit.
unfoldable pub find_last {ℓ} : {A : Type ℓ} → (A → Bool) → Option A → List A → Option A
find_last f found [] = found
find_last f found (x ∷ xs) = find_last f (if f x then some x else found) xs

-- The backstore that `DeleteVolume` removes, from those listed.
abbrev pub listed_backstore : ℕ → Option Backstore → Backstore
listed_backstore id none = record { kind = []; id = id; name = []; file_path = []; file_size = 0 }
listed_backstore id (some b) = b

-- The backstore with the data of the state, where that knows the volume.
abbrev pub known_backstore : ServerConfig → Backstore → StatePool → Option StateVolume → Backstore
known_backstore cfg b p none = b
known_backstore cfg b p (some v) = record b {
  name = v.name;
  file_path = image_path cfg p v;
  file_size = to_uint64 v.size;
}

-- The same where the pool may be missing.
abbrev pub chosen_backstore : ServerConfig → Backstore → ℕ → Option StatePool → Backstore
chosen_backstore cfg b id none = b
chosen_backstore cfg b id (some p) = known_backstore cfg b p (lookup id p.volumes)

-- `res` with the name that initiators use, if the pool is known.
abbrev pub located : ServerConfig → VolumeInfo → Option StatePool → VolumeInfo
located cfg res none = res
located cfg res (some p) = record res { iqn = pool_iqn cfg p.name }

-- The state without the volume. The map is found by the pool's own `ID`.
abbrev pub without_volume : ℕ → SigmaState → Option StatePool → SigmaState
without_volume id st none = st
without_volume id st (some p) = change_volumes p.id (erase id) st

module _ (H : Host) (cfg : ServerConfig) where
  open H use {World, Err}

  -- The three removals of `DeleteVolume`.
  unfoldable pub remove_volume :
      Target → ℕ → Backstore → VolumeInfo → Call World Err VolumeInfo (Unit {0})
  remove_volume t id b res = do
    attempt (delete_lun H t id) res aborted "could not delete LUN: %v"
    attempt (delete_backstore H b) res aborted "could not delete backstore: %v"
    branch (text_eq b.file_path []) (pure tt)
        (attempt (delete_disk_file H b.file_path) res aborted "could not delete disk file: %v")

  -- `DeleteVolume` from its lock on.
  unfoldable pub drop_volume :
      DeleteVolumeRequest → Target → Backstore → VolumeInfo → Call World Err VolumeInfo VolumeInfo
  unfolding remove_volume
  drop_volume req t b res = do
    st ← get_state
    let id = uint16 req.volume_id
    let pool = lookup (uint16 req.pool_id) st.pools
    let info = located cfg res pool
    remove_volume t id (chosen_backstore cfg b id pool) info
    let shrunk = without_volume id st pool
    set_state shrunk
    attempt (save_state H cfg shrunk) info internal "could not save state: %v"
    pure info

  -- `DeleteVolume` from its call of `ListBackstores` on.
  unfoldable pub drop_listed :
      DeleteVolumeRequest → Target → VolumeInfo → Call World Err VolumeInfo VolumeInfo
  drop_listed req t res = do
    let id = uint16 req.volume_id
    backstores ← attempt (list_backstores H) res failed_precondition "could not list backstores: %v"
    let b = listed_backstore id (find (λ b. b.id == id) backstores)
    branch (text_eq b.kind [])
        (drop_volume req t (record b { kind = backstore_fileio })
          (record res { status = degraded }))
        (drop_volume req t b res)

  -- `DeleteVolume` from its call of `ListLUNs` on.
  unfoldable pub drop_targeted :
      DeleteVolumeRequest → VolumeInfo → Target → Call World Err VolumeInfo VolumeInfo
  drop_targeted req res t = do
    luns ← attempt (list_luns H t) res failed_precondition "could not list active LUNs: %v"
    drop_listed req t (record res {
      status = if contains_func luns (λ n. n == uint16 req.volume_id) then active else degraded;
    })

  -- `DeleteVolume`
  unfoldable pub delete_volume :
      DeleteVolumeRequest → Store World → Reply Err VolumeInfo × Store World
  delete_volume req = handle do
    let res = record (volume_response req.pool_id active) {
      volume_id = req.volume_id;
      lun = pos req.volume_id;
    }
    targets ←
        attempt (list_targets H cfg.base_iqn) res failed_precondition "could not list targets: %v"
    t ←
        or_answer (find_last (λ t. t.id == req.pool_id) none targets) res invalid_argument
          "pool id %d does not exist" (num req.pool_id ∷ [])
    drop_targeted req res t
