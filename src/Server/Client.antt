-- ===== src/Server/Client.antt =====
-- A client of the modelled server: gRPC hands on the response, or the error without the response.
use shortrack.Base.{Bool, true, false, none, some}
use shortrack.State.{ServerConfig}
use shortrack.Host.{Host, Returned, value, failed}
use shortrack.Pb.Client.{SigmaClient}
use shortrack.Server.Call.{Store, Reply, reply, panicked, Status, Code, already_exists}
use shortrack.Server.Pools.{list_pools, get_pool, create_pool, delete_pool}
use shortrack.Server.Volumes.{list_volumes, get_volume}
use shortrack.Server.CreateVolume.{create_volume}
use shortrack.Server.DeleteVolume.{delete_volume}

-- A status, or a connection that a panic has cut.
pub data RpcError (E : Type 0) : Type 0 where
  status_error : Status E → RpcError E
  disconnected : RpcError E

module _ {E R : Type 0} where
  abbrev pub received : Reply E R → Returned (RpcError E) R
  received (reply res none) = value res
  received (reply res (some st)) = failed (status_error st)
  received panicked = failed disconnected

  abbrev pub over :
      {W : Type 0} → (Store W → Reply E R × Store W) → Store W → Returned (RpcError E) R × Store W
  over f s = let (r, s') = f s in (received r, s')

abbrev pub is_already_exists : Code → Bool
is_already_exists already_exists = true
is_already_exists _ = false

abbrev pub has_status_already_exists : {E : Type 0} → RpcError E → Bool
has_status_already_exists (status_error st) = is_already_exists st.code
has_status_already_exists disconnected = false

abbrev pub server_client : (H : Host) → ServerConfig → SigmaClient (Store H.World) (RpcError H.Err)
server_client H cfg = record {
  list_pools = over (list_pools H cfg);
  get_pool = λ req. over (get_pool H cfg req);
  create_pool = λ req. over (create_pool H cfg req);
  delete_pool = λ n. over (delete_pool H cfg n);
  list_volumes = λ n. over (list_volumes H cfg n);
  get_volume = λ req. over (get_volume H cfg req);
  create_volume = λ req. over (create_volume H cfg req);
  delete_volume = λ req. over (delete_volume H cfg req);
  close = λ s. (none, s);
  already_exists = has_status_already_exists;
}
