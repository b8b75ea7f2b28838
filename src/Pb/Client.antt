-- ===== src/Pb/Client.antt =====
-- `SigmaClient` of `pb/shortrack_grpc.pb.go`: a response, or an error and no response.
use shortrack.Base.{ℕ, Bool, Option, List}
use shortrack.Host.{Returned}
use shortrack.Pb.{
  PoolInfo, GetPoolRequest, CreatePoolRequest, VolumeInfo, GetVolumeRequest, CreateVolumeRequest,
  DeleteVolumeRequest,
}

-- `close` is that of the connection; `already_exists` tells whether `status.Convert(err).Code()`
-- is `codes.AlreadyExists`.
pub record SigmaClient (W E : Type 0) : Type 0 where
  pub list_pools : W → Returned E (List PoolInfo) × W
  pub get_pool : GetPoolRequest → W → Returned E PoolInfo × W
  pub create_pool : CreatePoolRequest → W → Returned E PoolInfo × W
  pub delete_pool : ℕ → W → Returned E PoolInfo × W
  pub list_volumes : ℕ → W → Returned E (List VolumeInfo) × W
  pub get_volume : GetVolumeRequest → W → Returned E VolumeInfo × W
  pub create_volume : CreateVolumeRequest → W → Returned E VolumeInfo × W
  pub delete_volume : DeleteVolumeRequest → W → Returned E VolumeInfo × W
  pub close : W → Option E × W
  pub already_exists : E → Bool
