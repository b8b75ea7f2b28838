-- ===== src/Server/Service/Restart.antt =====
-- What survives a restart of the server.
use shortrack.Base.{◌≡◌, refl, true, not, none, some, arith}
use shortrack.State.{ServerConfig}
use shortrack.Host.{Host}
use shortrack.Host.Io.{ok}
use shortrack.Server.Call.{Store, Reply, reply, panicked, reply_fails}
use shortrack.Server.Invariant.{initial_state}
use shortrack.Server.Persist.{load_state, state_path}
use shortrack.Server.Persist.RoundTrip.{IsDurable, HasText, load_state-save_state}
use shortrack.Server.Order.{SameState}
use shortrack.Server.Pools
use shortrack.Server.CreateVolume.{create_volume}
use shortrack.Server.DeleteVolume.{delete_volume}
use shortrack.Server.Durable.{
  IsSaved, create_pool-IsSaved, delete_pool-IsSaved, create_volume-IsSaved, delete_volume-IsSaved,
}
use shortrack.Server.Service.{Request, serve, acknowledges, is_write}

Reply-answered :
    {E R : Type 0} (x : Reply E R) → not (reply_fails x) ≡ true → (res : R) × (x ≡ reply res none)
Reply-answered (reply res none) h = (res, refl)
Reply-answered (reply res (some e)) h = absurd (ground arith)
Reply-answered panicked h = absurd (ground arith)

module _ (H : Host) (cfg : ServerConfig) where
  serve-IsSaved :
      (r : Request) (s : Store H.World)
      → is_write r ≡ true
      → acknowledges H cfg r s ≡ true
      → IsSaved H cfg (serve H cfg r s)
  unfolding serve acknowledges
  serve-IsSaved Request.list_pools s w h = absurd (ground arith)
  serve-IsSaved (Request.get_pool req) s w h = absurd (ground arith)
  serve-IsSaved (Request.list_volumes n) s w h = absurd (ground arith)
  serve-IsSaved (Request.get_volume req) s w h = absurd (ground arith)
  serve-IsSaved (Request.create_pool req) s w h =
      let (res, e) = Reply-answered (Pools.create_pool H cfg req s).0 h in
      create_pool-IsSaved H cfg req s res e
  serve-IsSaved (Request.delete_pool n) s w h =
      let (res, e) = Reply-answered (Pools.delete_pool H cfg n s).0 h in
      delete_pool-IsSaved H cfg n s res e
  serve-IsSaved (Request.create_volume_request req) s w h =
      let (res, e) = Reply-answered (create_volume H cfg req s).0 h in
      create_volume-IsSaved H cfg req s res e
  serve-IsSaved (Request.delete_volume_request req) s w h =
      let (res, e) = Reply-answered (delete_volume H cfg req s).0 h in
      delete_volume-IsSaved H cfg req s res e

  -- Where the state file is durable, a server that stops after a call that changes the state and
  -- returns without error, and starts again, loads the state that the call has left, up to the
  -- order of the maps, whatever the state was before: the names in it being valid UTF-8.
  pub load_state-serve :
      (durable : IsDurable H (state_path cfg)) (r : Request) (s : Store H.World)
      → is_write r ≡ true
      → acknowledges H cfg r s ≡ true
      → HasText durable.utf8 (serve H cfg r s).state
      → let restart : Store H.World = record {
        state = initial_state;
        world = (serve H cfg r s).world;
      } in
        ((load_state H cfg restart).0 ≡ ok tt)
        × SameState (serve H cfg r s).state (load_state H cfg restart).1.state
  load_state-serve durable r s changes answered named =
      let (w, saved, left) = serve-IsSaved r s changes answered in
      rw left at (load_state-save_state H cfg durable (serve H cfg r s).state w named saved)
