-- ===== src/Server/CreateVolume.antt =====
-- `CreateVolume`.
pub mod NextId
pub mod Effect
pub mod Query
use shortrack.Base.{
  ℕ, ◌+◌, max, Bool, ◌||◌, Option, none, some, List, [], ◌∷◌, map, ◌==◌, leb, ltb, if◌then◌else◌,
  find,
}
use shortrack.Base.Int.{to_int64}
use shortrack.Base.Map.{lookup, insert, values}
use shortrack.Go.Text.{text_eq}
use shortrack.Go.Number.{format_uint}
use shortrack.State.{ServerConfig, StateVolume, StatePool, Backstore}
use shortrack.Host.{Host}
use shortrack.Lio.Disk.{touch_disk_file}
use shortrack.Lio.Backstores.{backstore_fileio, list_backstores, upsert_backstore}
use shortrack.Lio.Luns.{upsert_lun}
use shortrack.Pb.{VolumeInfo, CreateVolumeRequest, invalid_status, degraded}
use shortrack.Server.Call.{
  Call, Store, Reply, num, quoted, invalid_argument, already_exists, failed_precondition, aborted,
  internal, resource_exhausted, pure, answer, attempt, branch, answer_if, or_answer, get_state,
  set_state, handle, ◌>>=◌, ◌>>◌,
}
use shortrack.Server.Persist.{save_state}
use shortrack.Server.Pools.{uint16, pool_target, or_default}
use shortrack.Server.Volumes.{volume_response, volume_info, image_path, change_volumes}

-- `slices.Sort`, by insertion.
insert_sorted : ℕ → List ℕ → List ℕ
insert_sorted n [] = n ∷ []
insert_sorted n (m ∷ ms) = if leb n m then n ∷ (m ∷ ms) else m ∷ insert_sorted n ms

unfoldable pub sort : List ℕ → List ℕ
unfolding insert_sorted
sort [] = []
sort (n ∷ ns) = insert_sorted n (sort ns)

-- `ids[len(ids)-1]` of a list that begins with `n`.
unfoldable pub last_of : ℕ → List ℕ → ℕ
last_of n [] = n
last_of n (m ∷ ms) = last_of m ms

-- The new `volume.ID` of `CreateVolume` from the sorted numbers of the backstores. The sum wraps.
next_after : ℕ → List ℕ → ℕ
next_after max_lun_id [] = 1
next_after max_lun_id (n ∷ ns) = uint16 (max max_lun_id (last_of n ns) + 1)

unfoldable pub next_volume_id : ℕ → List Backstore → ℕ
unfolding next_after sort
next_volume_id max_lun_id backstores = next_after max_lun_id (sort (map (λ b. b.id) backstores))

-- The test of `CreateVolume` for a conflict, where `volume` is the volume so far.
abbrev pub volume_conflicts : StateVolume → StateVolume → Bool
volume_conflicts volume existing = existing.id == volume.id || text_eq existing.name volume.name

module _ (H : Host) (cfg : ServerConfig) where
  open H use {World, Err}

  generate_volume_id : VolumeInfo → Call World Err VolumeInfo ℕ
  generate_volume_id res = do
    backstores ←
        attempt (list_backstores H) res failed_precondition "could not generate a new volume ID: %v"
    st ← get_state
    pure (next_volume_id st.max_lun_id backstores)

  -- The number of the new volume: the given one, or one after all that are in use.
  unfoldable pub choose_volume_id : Option ℕ → VolumeInfo → Call World Err VolumeInfo ℕ
  unfolding generate_volume_id
  choose_volume_id (some n) res s =
      branch (uint16 n == 0)
        (answer res invalid_argument "volume 0 is reserved, use a different id" [])
        (pure (uint16 n)) s
  choose_volume_id none res s = generate_volume_id res s

  reject_volume : Option StateVolume → ℕ → VolumeInfo → Call World Err VolumeInfo (Unit {0})
  reject_volume conflict pool_id res s = elim conflict [
    | none ↦ pure tt s
    | some v ↦
        answer res already_exists "volume with id %d and name %q already exists in pool %d"
          (num v.id ∷ quoted v.name ∷ num pool_id ∷ []) s
  ]

  -- The disk file, the backstore and the LUN of a new volume. The backstore's size stays 0.
  unfoldable pub provide_volume :
      StatePool → StateVolume → VolumeInfo → Call World Err VolumeInfo (Unit {0})
  provide_volume p v res = do
    let backstore : Backstore = record {
      kind = backstore_fileio;
      id = v.id;
      name = v.name;
      file_path = image_path cfg p v;
      file_size = 0;
    }
    _ ←
        attempt (touch_disk_file H backstore.file_path v.size) res aborted
          "could not create disk file: %v"
    attempt (upsert_backstore H backstore) res aborted "could not create backstore: %v"
    attempt (upsert_lun H (pool_target cfg p) v.id backstore) res aborted "could not create LUN: %v"

  -- `CreateVolume` behind its choice of a number.
  unfoldable pub make_volume : CreateVolumeRequest → ℕ → Call World Err VolumeInfo VolumeInfo
  unfolding reject_volume provide_volume
  make_volume req id = do
    let res = volume_response req.pool_id invalid_status
    answer_if (id == 0) res resource_exhausted "could not generate a new volume ID" []
    st ← get_state
    let raised = record st { max_lun_id = max st.max_lun_id id }
    set_state raised
    p ←
        or_answer (lookup (uint16 req.pool_id) raised.pools) res invalid_argument
          "pool id %d does not exist" (num (uint16 req.pool_id) ∷ [])
    let blank : StateVolume = record {
      id = id;
      name = [];
      pool_id = 0;
      size = to_int64 req.volume_size;
    }
    reject_volume (find (volume_conflicts blank) (values p.volumes)) (uint16 req.pool_id) res
    let volume = record blank { name = or_default req.volume_name (format_uint id) }
    let info = volume_info cfg req.pool_id p volume
    provide_volume p volume (record info { status = degraded })
    let grown = change_volumes (uint16 req.pool_id) (insert id volume) raised
    set_state grown
    attempt (save_state H cfg grown) info internal "could not save state: %v"
    pure info

  -- `CreateVolume`
  unfoldable pub create_volume :
      CreateVolumeRequest → Store World → Reply Err VolumeInfo × Store World
  unfolding choose_volume_id make_volume
  create_volume req = handle do
    let res = volume_response req.pool_id invalid_status
    answer_if (ltb req.volume_size 1) res invalid_argument
        "volume needs to be more than 0 bytes in size" []
    id ← choose_volume_id req.volume_id res
    make_volume req id
