-- ===== src/Provisioner/Pool.antt =====
-- What `Provision` and `Delete` share: the parameters of the class, the client, and the ways to
-- the number of the pool.
use shortrack.Base.{ℕ, String, Option, none, some, List, [], ◌∷◌, ◌==◌, if◌then◌else◌}
use shortrack.Go.Text.{Text, text_eq}
use shortrack.Go.Number.{Parsed, parsed, bad_number, parse_uint}
use shortrack.Host.{Returned, value, failed}
use shortrack.Host.Io.{Io, os_error, num_error, errorf, wrapped, branch, pure, fail, call, ◌>>=◌}
use shortrack.Pb.{PoolInfo}
use shortrack.Pb.Client.{SigmaClient}
use shortrack.Provisioner.{Kube, StorageClassParameters}

module _ {W E : Type 0} where
  abbrev pub returned : {A : Type 0} → Returned E A → Io W E A
  returned (value a) w = pure a w
  returned (failed e) w = fail (os_error e) w

  -- `res, err := f(…); if err != nil { return err }`
  abbrev pub rpc : {A : Type 0} → (W → Returned E A × W) → Io W E A
  rpc f = call f >>= returned

  abbrev number_or : String → Text → Parsed ℕ → Io W E ℕ
  number_or message raw (parsed n) w = pure n w
  number_or message raw (bad_number e) w = fail (wrapped message (num_error e raw)) w

  -- A number in an annotation, 0 where that is "": by `ParseNumber[uint32]`.
  unfoldable pub annotated : String → Text → Io W E ℕ
  annotated message raw =
      branch (text_eq raw []) (pure 0) (number_or message raw (parse_uint 32 raw))

  -- `if id == 0 { id = … }`
  abbrev pub or_else : ℕ → Io W E ℕ → Io W E ℕ
  or_else id m = branch (id == 0) m (pure id)

-- The number of the first pool of the name, or 0.
unfoldable pub pool_named : Text → List PoolInfo → ℕ
pool_named name [] = 0
pool_named name (p ∷ ps) =
    let rest = pool_named name ps in if text_eq p.pool_name name then p.pool_id else rest

module _ {W E : Type 0} where
  -- The pool by `ListPools` and the name of the class's parameters.
  unfoldable pub listed_pool : SigmaClient W E → Text → Io W E ℕ
  listed_pool client name =
      branch (text_eq name []) (fail (errorf "poolName must be configured in the StorageClass" []))
        (rpc client.list_pools >>= λ pools. pure (pool_named name pools))

module _ (K : Kube) where
  open K use {World, Err, Parameters, decode, new_client}

  abbrev decoded : StorageClassParameters × Option Err → Io World Err StorageClassParameters
  decoded (scp, none) w = pure scp w
  decoded (scp, some e) w = fail (os_error e) w

  -- `GetStorageClassParameters`
  unfoldable pub class_parameters : Parameters → Io World Err StorageClassParameters
  class_parameters p = decoded (decode p)

  -- `MakeSigmaClient`
  unfoldable pub make_sigma_client : StorageClassParameters → Io World Err (SigmaClient World Err)
  make_sigma_client scp =
      branch (text_eq scp.server_addr [])
        (fail (errorf "serverAddr must be configured in the StorageClass" []))
        (rpc (new_client scp.server_addr))
