-- ===== src/Server/Volumes.antt =====
-- What the volume handlers share, and `ListVolumes` and `GetVolume`.
pub mod Held
pub mod ByName
use shortrack.Base.{not, ℕ, ◌||◌, Option, none, some, List, [], ◌∷◌, ◌++◌, map, find}
use shortrack.Base.Int.{pos, to_uint64}
use shortrack.Base.Map.{Map, lookup, insert, values}
use shortrack.Go.Text.{Text, bytes, text_eq}
use shortrack.Go.Path.{join}
use shortrack.State.{ServerConfig, StateVolume, StatePool, SigmaState}
use shortrack.Host.{Host}
use shortrack.Pb.{VolumeInfo, GetVolumeRequest, ResourceStatus, invalid_status, absent, active}
use shortrack.Server.Call.{
  Call, Store, Reply, num, str, invalid_argument, not_found, pure, answer_if, or_answer, get_state,
  handle, ◌>>=◌, ◌>>◌,
}
use shortrack.Server.Pools.{uint16, pool_iqn, or_default, is_some}

-- The zero `VolumeInfo` but for these two fields.
abbrev pub volume_response : ℕ → ResourceStatus → VolumeInfo
volume_response pool_id status = record {
  pool_id = pool_id;
  volume_id = 0;
  status = status;
  volume_name = [];
  volume_size = 0;
  iqn = [];
  lun = pos 0;
}

abbrev pub volume_info : ServerConfig → ℕ → StatePool → StateVolume → VolumeInfo
volume_info cfg pool_id p v = record {
  pool_id = pool_id;
  volume_id = v.id;
  status = active;
  volume_name = v.name;
  volume_size = to_uint64 v.size;
  iqn = pool_iqn cfg p.name;
  lun = pos v.id;
}

-- `path.Join(s.Config.VolumesDir, fmt.Sprintf("%s-%s.img", pool.Name, volume.Name))`
abbrev pub image_path : ServerConfig → StatePool → StateVolume → Text
image_path cfg p v = join (cfg.volumes_dir ∷ (p.name ++ bytes "-" ++ v.name ++ bytes ".img") ∷ [])

-- `s.State.Pools[id].Volumes[…] = …` and `delete(s.State.Pools[id].Volumes, …)`: the map of volumes
-- is shared by the copies of the pool. A missing pool has none.
unfoldable pub change_volumes : ℕ → (Map StateVolume → Map StateVolume) → SigmaState → SigmaState
change_volumes id f st = elim (lookup id st.pools) [
  | none ↦ st
  | some p ↦ record st { pools = insert id (record p { volumes = f p.volumes }) st.pools }
]

module _ (H : Host) (cfg : ServerConfig) where
  open H use {World, Err}

  -- `ListVolumes`, whose request holds the pool's number alone.
  unfoldable pub list_volumes : ℕ → Store World → Reply Err (List VolumeInfo) × Store World
  list_volumes pool_id = handle do
    st ← get_state
    p ←
        or_answer (lookup (uint16 pool_id) st.pools) [] invalid_argument "pool id %d does not exist"
          (num (uint16 pool_id) ∷ [])
    pure (map (volume_info cfg pool_id p) (values p.volumes))

  -- The volume that a request means. By name, the test compares the name of the pool.
  find_volume : Option ℕ → Text → VolumeInfo → StatePool → Call World Err VolumeInfo StateVolume
  find_volume (some id) name res p s =
      or_answer (lookup (uint16 id) p.volumes) (record res { volume_id = id; status = absent })
        not_found "volume_id %d not found" (num id ∷ []) s
  find_volume none name res p s =
      or_answer (find (λ (v : StateVolume). text_eq name p.name) (values p.volumes))
        (record res { volume_name = name; status = absent }) not_found "volume_name %s not found"
        (str name ∷ []) s

  -- `GetVolume`
  unfoldable pub get_volume : GetVolumeRequest → Store World → Reply Err VolumeInfo × Store World
  unfolding find_volume
  get_volume req = handle do
    let res = volume_response req.pool_id invalid_status
    answer_if (not (is_some req.volume_id || is_some req.volume_name)) res invalid_argument
        "volume_id or volume_name must be specified" []
    st ← get_state
    p ←
        or_answer (lookup (uint16 req.pool_id) st.pools) res invalid_argument
          "pool id %d does not exist" (num (uint16 req.pool_id) ∷ [])
    v ← find_volume req.volume_id (or_default req.volume_name []) res p
    pure (volume_info cfg v.pool_id p v)
