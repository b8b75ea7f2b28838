-- ===== src/Server/Spec.antt =====
-- The service as a client sees it: pools and volumes by number, and what a call may do to them.
-- Their order in memory and in the file, and `MaxLUNID`, are forgotten.
pub mod Refines
use shortrack.Base.{ℕ, ◌≡◌, ◌≤◌, ◌<◌, ◌^◌, Option, none, some, List, [], ◌∷◌, if◌then◌else◌, ◌==◌}
use shortrack.Base.Int.{ℤ, to_int64}
use shortrack.Base.Map.{lookup}
use shortrack.Go.Text.{Text}
use shortrack.Go.Number.{format_uint}
use shortrack.State.{StateVolume, StatePool, SigmaState}
use shortrack.Pb.{CreatePoolRequest, CreateVolumeRequest, DeleteVolumeRequest}
use shortrack.Server.Pools.{uint16, or_default}
use shortrack.Server.Pools.Create.{IsRequested}
use shortrack.Server.Service.{
  Request, create_pool, delete_pool, create_volume_request, delete_volume_request,
}

-- A volume's name and size.
pub record VolumeView : Type 0 where
  pub name : Text
  pub size : ℤ

pub record PoolView : Type 0 where
  pub name : Text
  pub volumes : ℕ → Option VolumeView

abbrev pub View : Type 0
View = ℕ → Option PoolView

abbrev pub option_map : {A B : Type 0} → (A → B) → Option A → Option B
option_map f none = none
option_map f (some a) = some (f a)

abbrev pub volume_view : StateVolume → VolumeView
volume_view v = record { name = v.name; size = v.size }

abbrev pub pool_view : StatePool → PoolView
pool_view p = record { name = p.name; volumes = λ k. option_map volume_view (lookup k p.volumes) }

-- What a client can know of the state.
abbrev pub view : SigmaState → View
view st k = option_map pool_view (lookup k st.pools)

abbrev pub update : {A : Type 0} → ℕ → Option A → (ℕ → Option A) → ℕ → Option A
update k x f j = if k == j then x else f j

abbrev pub empty_pool : Text → PoolView
empty_pool name = record { name = name; volumes = λ k. none }

abbrev pub with_volume : ℕ → Option VolumeView → PoolView → PoolView
with_volume k v p = record p { volumes = update k v p.volumes }

abbrev pub requested_volume : CreateVolumeRequest → ℕ → VolumeView
requested_volume req n = record {
  name = or_default req.volume_name (format_uint n);
  size = to_int64 req.volume_size;
}

-- What one call may do: nothing, or what its name says, with a number that is requested, unused
-- and from 1 to 65535.
pub data Permits (v : View) : Request → View → Type 0 where
  unchanged : (r : Request) → Permits v r v
  add_pool :
      (req : CreatePoolRequest) (n : ℕ)
      → 1 ≤ n
      → n < 2 ^ 16
      → IsRequested req.pool_id n
      → v n ≡ none
      → Permits v
          (create_pool req)
          (update n (some (empty_pool (or_default req.pool_name (format_uint n)))) v)
  remove_pool : (n : ℕ) → Permits v (delete_pool n) (update (uint16 n) none v)
  add_volume :
      (req : CreateVolumeRequest) (n : ℕ) (p : PoolView)
      → 1 ≤ n
      → n < 2 ^ 16
      → IsRequested req.volume_id n
      → v (uint16 req.pool_id) ≡ some p
      → p.volumes n ≡ none
      → Permits v
          (create_volume_request req)
          (update (uint16 req.pool_id) (some (with_volume n (some (requested_volume req n)) p)) v)
  remove_volume :
      (req : DeleteVolumeRequest) (p : PoolView)
      → v (uint16 req.pool_id) ≡ some p
      → Permits v
          (delete_volume_request req)
          (update (uint16 req.pool_id) (some (with_volume (uint16 req.volume_id) none p)) v)

-- What a sequence of calls may do.
pub data PermitsAll : View → List Request → View → Type 0 where
  done : (v : View) → PermitsAll v [] v
  then :
      (r : Request) (rs : List Request) {v u w : View}
      → Permits v r u
      → PermitsAll u rs w
      → PermitsAll v (r ∷ rs) w
