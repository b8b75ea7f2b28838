-- ===== src/Server/Pools/Progress.antt =====
-- When `CreatePool` succeeds.
use shortrack.Base.{ℕ, ◌≡◌, ◌≢◌, none, some, find, arith}
use shortrack.Base.Map.{values}
use shortrack.State.{ServerConfig}
use shortrack.Host.{Host}
use shortrack.Host.Io.{Io, ok}
use shortrack.Lio.Targets.{upsert_target}
use shortrack.Pb.{CreatePoolRequest}
use shortrack.Server.Call.{Store, reply}
use shortrack.Server.Persist.{save_state}
use shortrack.Server.Pools.{create_pool, pool_conflicts, pool_info, pool_target, uint16}
use shortrack.Server.Pools.Create.{new_pool, blank_pool, with_pool}

module _ (H : Host) (cfg : ServerConfig) where
  -- The new pool's target is written.
  abbrev pub written : CreatePoolRequest → ℕ → Io H.World H.Err (Unit {0})
  written req id = upsert_target H (pool_target cfg (new_pool req id))

  -- A `CreatePool` with a number whose low 16 bits are not 0 and that passes the test for a conflict
  -- answers the new pool, without error, as soon as the kernel's target can be written and the
  -- state saved.
  pub create_pool_progress :
      (req : CreatePoolRequest) (s : Store H.World) (n : ℕ)
      → req.pool_id ≡ some n
      → uint16 n ≢ 0
      → find (pool_conflicts req (blank_pool (uint16 n))) (values s.state.pools) ≡ none
      → (written req (uint16 n) s.world).0 ≡ ok tt
      → (save_state H cfg
          (with_pool (new_pool req (uint16 n)) s.state)
          (written req (uint16 n) s.world).1).0
        ≡ ok tt
      → (create_pool H cfg req s).0 ≡ reply (pool_info cfg (new_pool req (uint16 n))) none
  unfolding create_pool
  create_pool_progress req s n asked nz free written saved = ground arith
