-- ===== src/Server/Service.antt =====
-- The gRPC service: the eight calls of `SigmaServer`, one after the other.
pub mod Restart
pub mod Invariance
use shortrack.Base.{Bool, true, false, not, ℕ, List, [], ◌∷◌}
use shortrack.State.{ServerConfig}
use shortrack.Host.{Host}
use shortrack.Pb.{
  GetPoolRequest, CreatePoolRequest, GetVolumeRequest, CreateVolumeRequest, DeleteVolumeRequest,
}
use shortrack.Server.Call.{Store, reply_fails, is_panicked}
use shortrack.Server.Pools
use shortrack.Server.Volumes
use shortrack.Server.CreateVolume.{create_volume}
use shortrack.Server.DeleteVolume.{delete_volume}

-- The methods of `SigmaServer`, each with its request.
pub data Request : Type 0 where
  list_pools : Request
  get_pool : GetPoolRequest → Request
  create_pool : CreatePoolRequest → Request
  delete_pool : ℕ → Request
  list_volumes : ℕ → Request
  get_volume : GetVolumeRequest → Request
  create_volume_request : CreateVolumeRequest → Request
  delete_volume_request : DeleteVolumeRequest → Request

-- The calls that are meant to change the state.
abbrev pub is_write : Request → Bool
is_write list_pools = false
is_write (get_pool req) = false
is_write (create_pool req) = true
is_write (delete_pool n) = true
is_write (list_volumes n) = false
is_write (get_volume req) = false
is_write (create_volume_request req) = true
is_write (delete_volume_request req) = true

module _ (H : Host) (cfg : ServerConfig) where
  -- What one call leaves of the server.
  unfoldable pub serve : Request → Store H.World → Store H.World
  serve list_pools s = (Pools.list_pools H cfg s).1
  serve (get_pool req) s = (Pools.get_pool H cfg req s).1
  serve (create_pool req) s = (Pools.create_pool H cfg req s).1
  serve (delete_pool n) s = (Pools.delete_pool H cfg n s).1
  serve (list_volumes n) s = (Volumes.list_volumes H cfg n s).1
  serve (get_volume req) s = (Volumes.get_volume H cfg req s).1
  serve (create_volume_request req) s = (create_volume H cfg req s).1
  serve (delete_volume_request req) s = (delete_volume H cfg req s).1

  -- Whether one call returns without error.
  unfoldable pub acknowledges : Request → Store H.World → Bool
  acknowledges list_pools s = not (reply_fails (Pools.list_pools H cfg s).0)
  acknowledges (get_pool req) s = not (reply_fails (Pools.get_pool H cfg req s).0)
  acknowledges (create_pool req) s = not (reply_fails (Pools.create_pool H cfg req s).0)
  acknowledges (delete_pool n) s = not (reply_fails (Pools.delete_pool H cfg n s).0)
  acknowledges (list_volumes n) s = not (reply_fails (Volumes.list_volumes H cfg n s).0)
  acknowledges (get_volume req) s = not (reply_fails (Volumes.get_volume H cfg req s).0)
  acknowledges (create_volume_request req) s = not (reply_fails (create_volume H cfg req s).0)
  acknowledges (delete_volume_request req) s = not (reply_fails (delete_volume H cfg req s).0)

  -- Whether one call ends in a panic.
  unfoldable pub panics : Request → Store H.World → Bool
  panics list_pools s = is_panicked (Pools.list_pools H cfg s).0
  panics (get_pool req) s = is_panicked (Pools.get_pool H cfg req s).0
  panics (create_pool req) s = is_panicked (Pools.create_pool H cfg req s).0
  panics (delete_pool n) s = is_panicked (Pools.delete_pool H cfg n s).0
  panics (list_volumes n) s = is_panicked (Volumes.list_volumes H cfg n s).0
  panics (get_volume req) s = is_panicked (Volumes.get_volume H cfg req s).0
  panics (create_volume_request req) s = is_panicked (create_volume H cfg req s).0
  panics (delete_volume_request req) s = is_panicked (delete_volume H cfg req s).0

  unfoldable pub serve_all : List Request → Store H.World → Store H.World
  unfolding serve
  serve_all [] s = s
  serve_all (r ∷ rs) s = serve_all rs (serve r s)
