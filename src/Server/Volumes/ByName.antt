-- ===== src/Server/Volumes/ByName.antt =====
-- `GetVolume` by a volume's name.
use shortrack.Base.{ℕ, ◌≡◌, refl, Bool, false, none, some, List, [], ◌∷◌, find, arith}
use shortrack.Base.Map.{lookup, values}
use shortrack.Go.Text.{Text, text_eq}
use shortrack.State.{ServerConfig, StateVolume, StatePool}
use shortrack.Host.{Host}
use shortrack.Pb.{GetVolumeRequest, absent}
use shortrack.Server.Call.{Store, reply, not_found, str}
use shortrack.Server.Pools.{uint16}
use shortrack.Server.Volumes.{get_volume, volume_response}

find-false : (xs : List StateVolume) (b : Bool) → b ≡ false → find (λ v. b) xs ≡ none
find-false [] b e = refl
find-false (x ∷ xs) b e = ground (arith, find-false xs b e)

abbrev pub named : ℕ → Text → GetVolumeRequest
named pool_id name = record { pool_id = pool_id; volume_id = none; volume_name = some name }

module _ (H : Host) (cfg : ServerConfig) where
  -- `GetVolume` by a name other than the pool's own answers `NotFound`, whatever volumes the pool
  -- holds, one of that name included, and changes nothing.
  pub get_volume-named :
      (pool_id : ℕ) (name : Text) (s : Store H.World) (p : StatePool)
      → lookup (uint16 pool_id) s.state.pools ≡ some p
      → text_eq name p.name ≡ false
      → get_volume H cfg (named pool_id name) s ≡ (
        reply
            (record (volume_response pool_id absent) { volume_name = name })
            (some (record {
              code = not_found;
              format = "volume_name %s not found";
              args = str name ∷ [];
            })),
        s,
      )
  unfolding get_volume
  get_volume-named pool_id name s p held other =
      ground (arith, find-false (values p.volumes) (text_eq name p.name) other)
