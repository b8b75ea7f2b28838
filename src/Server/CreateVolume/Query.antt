-- ===== src/Server/CreateVolume/Query.antt =====
-- A new volume is found again.
use shortrack.Base.{ℕ, ◌≡◌, ap, ◌∙◌, none, some, if◌then◌else◌, ◌==◌, ◌&&◌, arith}
use shortrack.Base.Map.{lookup, insert, lookup-insert}
use shortrack.State.{ServerConfig, StateVolume, StatePool}
use shortrack.Host.{Host}
use shortrack.Pb.{VolumeInfo, GetVolumeRequest, CreateVolumeRequest}
use shortrack.Server.Call.{Store, reply}
use shortrack.Server.Pools.{uint16}
use shortrack.Server.Volumes.{get_volume, volume_info}
use shortrack.Server.Volumes.Held.{volume_at, volume_at-insert, lookup-change_volumes}
use shortrack.Server.CreateVolume.{create_volume}
use shortrack.Server.CreateVolume.Effect.{create_volume_success, new_volume, raised}

abbrev pub at_number : ℕ → ℕ → GetVolumeRequest
at_number pool_id n = record { pool_id = pool_id; volume_id = some n; volume_name = none }

module _ (H : Host) (cfg : ServerConfig) where
  get_volume_found :
      (i n : ℕ) (s : Store H.World) (p : StatePool) (v : StateVolume)
      → lookup (uint16 i) s.state.pools ≡ some p
      → lookup (uint16 n) p.volumes ≡ some v
      → get_volume H cfg (at_number i n) s ≡ (reply (volume_info cfg v.pool_id p v) none, s)
  unfolding get_volume
  get_volume_found i n s p v e f = ground arith

  -- After a `CreateVolume` without error, `GetVolume` by the same pool and the answered number
  -- gives the same answer but for the pool's number, which it answers as 0, and changes nothing.
  pub get_volume-create_volume :
      (req : CreateVolumeRequest) (s : Store H.World) (info : VolumeInfo)
      → (create_volume H cfg req s).0 ≡ reply info none
      → let s' = (create_volume H cfg req s).1 in
        get_volume H cfg (at_number req.pool_id info.volume_id) s'
        ≡ (reply (record info { pool_id = 0 }) none, s')
  get_volume-create_volume req s info h =
      let (id, p, pos, small, found, _, same, changed) = create_volume_success H cfg req s info h in
      let v : StateVolume = new_volume req id in
      let p' : StatePool = record p { volumes = insert id v p.volumes } in
      rw same (
        get_volume_found req.pool_id id _ p' v
          (ap (λ st. lookup (uint16 req.pool_id) st.pools) changed
            ∙ lookup-change_volumes (uint16 req.pool_id) (uint16 req.pool_id) (insert id v)
                (raised id s.state) p found
            ∙ ground arith)
          (lookup-insert id (uint16 id) v p.volumes ∙ ground arith))

  -- Where `CreateVolume` returns no error, every pool's volumes are as they were, but for the new
  -- one: it stands under the answered number in the requested pool, whose number loses its high
  -- bits, and it has the requested name and size.
  pub create_volume_held :
      (req : CreateVolumeRequest) (s : Store H.World) (info : VolumeInfo) (i k : ℕ)
      → (create_volume H cfg req s).0 ≡ reply info none
      → volume_at i k (create_volume H cfg req s).1.state ≡ (
          if uint16 req.pool_id == i && info.volume_id == k
          then some (new_volume req info.volume_id)
          else volume_at i k s.state)
  create_volume_held req s info i k h =
      let (id, p, pos, small, found, _, same, changed) = create_volume_success H cfg req s info h in
      rw same (
        ap (volume_at i k) changed
        ∙ volume_at-insert (uint16 req.pool_id) i k id (new_volume req id) (raised id s.state) p
            found)
