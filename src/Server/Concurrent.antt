-- ===== src/Server/Concurrent.antt =====
-- Calls that run at once. `StateMutex` guards the second part of `CreatePool`, `DeletePool` and
-- `DeleteVolume`, the whole of the other calls and `ReconcileAll`; the first part of the three
-- reads the kernel's configuration outside the lock. Between any two guarded parts other code and
-- the kernel may change the world.
pub mod Invariance
pub mod Linear
use shortrack.Base.{ℕ, ◌≡◌, List, [], ◌∷◌, ◌++◌}
use shortrack.State.{ServerConfig, Target, Backstore}
use shortrack.Host.{Host}
use shortrack.Pb.{CreatePoolRequest, PoolInfo, DeleteVolumeRequest, VolumeInfo}
use shortrack.Server.Call.{Store, next}
use shortrack.Server.Pools.{choose_pool_id, make_pool, drop_pool}
use shortrack.Server.DeleteVolume.{drop_volume}
use shortrack.Server.Service.{Request, serve}

-- A call that has found out what it needs, and waits for the lock.
pub data Waiting : Type 0 where
  creating_pool : CreatePoolRequest → ℕ → Waiting
  deleting_pool : ℕ → Target → PoolInfo → Waiting
  deleting_volume : DeleteVolumeRequest → Target → Backstore → VolumeInfo → Waiting

pub record System (W : Type 0) : Type 0 where
  pub store : Store W
  pub waiting : List Waiting

module _ (H : Host) (cfg : ServerConfig) where
  -- The guarded part of a call.
  unfoldable pub finish : Waiting → Store H.World → Store H.World
  finish (creating_pool req id) s = (make_pool H cfg req id s).1
  finish (deleting_pool n t res) s = (drop_pool H cfg n t res s).1
  finish (deleting_volume req t b res) s = (drop_volume H cfg req t b res s).1

  -- What can happen next. The first parts of the two deletions change nothing but the world, and
  -- what they find is left open.
  pub data Moves : System H.World → System H.World → Type 0 where
    outside :
        (y : System H.World) (w : H.World)
        → Moves y (record y { store = record (y.store) { world = w } })
    whole :
        (y : System H.World) (r : Request) → Moves y (record y { store = serve H cfg r y.store })
    choose :
        (y : System H.World) (req : CreatePoolRequest) (id : ℕ)
        → (choose_pool_id H cfg req.pool_id y.store).0 ≡ next id
        → Moves y (record {
          store = (choose_pool_id H cfg req.pool_id y.store).1;
          waiting = creating_pool req id ∷ y.waiting;
        })
    find_pool :
        (y : System H.World) (n : ℕ) (t : Target) (res : PoolInfo) (w : H.World)
        → Moves y (record {
          store = record (y.store) { world = w };
          waiting = deleting_pool n t res ∷ y.waiting;
        })
    find_volume :
        (y : System H.World) (req : DeleteVolumeRequest) (t : Target) (b : Backstore)
        (res : VolumeInfo) (w : H.World)
        → Moves y (record {
          store = record (y.store) { world = w };
          waiting = deleting_volume req t b res ∷ y.waiting;
        })
    lock :
        (y : System H.World) (xs ys : List Waiting) (c : Waiting)
        → y.waiting ≡ xs ++ (c ∷ ys)
        → Moves y (record { store = finish c y.store; waiting = xs ++ ys })

  -- The systems that can be reached.
  pub data Reaches (y : System H.World) : System H.World → Type 0 where
    here : Reaches y y
    moved : {z u : System H.World} → Reaches y z → Moves z u → Reaches y u
