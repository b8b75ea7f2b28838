-- ===== src/Provisioner/Held.antt =====
-- The volume that `Provision` gets from the modelled server.
use shortrack.Base.{
  ℕ, ◌≡◌, refl, ap, subst, ◌∙◌, ◌==◌, ◌&&◌, false, Bool-cases, inl, inr, none, some, if◌then◌else◌,
  arith,
}
use shortrack.Base.Map.{lookup, insert}
use shortrack.Go.Text.{Text, text_eq}
use shortrack.State.{ServerConfig, StatePool}
use shortrack.Host.{Host, value, failed}
use shortrack.Host.Io.{ok, err, panic, os_error}
use shortrack.Host.Io.Cases.{Returned-cases}
use shortrack.Pb.{VolumeInfo, CreateVolumeRequest}
use shortrack.Pb.Client.{SigmaClient}
use shortrack.Server.Call.{Store, reply, Status, already_exists}
use shortrack.Server.Pools.{uint16}
use shortrack.Server.Volumes.Held.{volume_at, lookup-change_volumes}
use shortrack.Server.Volumes.ByName.{named, get_volume-named}
use shortrack.Server.CreateVolume.{create_volume}
use shortrack.Server.CreateVolume.Effect.{
  new_volume, raised, create_volume-state, create_volume_success,
}
use shortrack.Server.CreateVolume.Query.{create_volume_held}
use shortrack.Server.Client.{
  server_client, RpcError, received, has_status_already_exists, is_already_exists, status_error,
}
use shortrack.Provisioner.Provision.{volume_for}
use shortrack.Provisioner.Served.{received-value}

-- The request of `Provision`.
abbrev pub volume_request : ℕ → Text → ℕ → CreateVolumeRequest
volume_request id name size = record {
  pool_id = id;
  volume_id = none;
  volume_name = some name;
  volume_size = size;
}

module _ (H : Host) (cfg : ServerConfig) where
  abbrev client : SigmaClient (Store H.World) (RpcError H.Err)
  client = server_client H cfg

  -- `CreateVolume` keeps the pools and their names, however it ends.
  create_volume-named :
      (req : CreateVolumeRequest) (s : Store H.World) (i : ℕ) (p : StatePool)
      → lookup i s.state.pools ≡ some p
      → (q : StatePool) × (lookup i (create_volume H cfg req s).1.state.pools ≡ some q)
        × (q.name ≡ p.name)
  create_volume-named req s i p held = elim (create_volume-state H cfg req s) [
    | inl same ↦ (p, ap (λ st. lookup i st.pools) same ∙ held, refl)
    | inr (id, pos, small, asked, inl up) ↦ (p, ap (λ st. lookup i st.pools) up ∙ held, refl)
    | inr (id, pos, small, asked, inr (r, found, free, more)) ↦
        let j = uint16 req.pool_id in
        let at =
          ap (λ st. lookup i st.pools) more
          ∙ lookup-change_volumes j i (insert id (new_volume req id)) (raised id s.state) r found in
        elim (Bool-cases (j == i)) [
          | inl same ↦ (
            record r { volumes = insert id (new_volume req id) r.volumes },
            ground (arith, at),
            ground (arith, found, held),
          )
          | inr other ↦ (p, ground (arith, at, held), refl)
        ]
  ]

  get_volume-fails :
      (id : ℕ) (name : Text) (s : Store H.World) (p : StatePool)
      → lookup (uint16 id) s.state.pools ≡ some p
      → text_eq name p.name ≡ false
      → (e : RpcError H.Err) × ((client.get_volume (named id name) s).0 ≡ failed e)
  get_volume-fails id name s p held other =
      (_, ap (λ r. received r.0) (get_volume-named H cfg id name s p held other))

  volume_for-created :
      (id size : ℕ) (name : Text) (s : Store H.World) (info : VolumeInfo)
      → (client.create_volume (volume_request id name size) s).0 ≡ value info
      → volume_for client id name size s
        ≡ (ok info, (create_volume H cfg (volume_request id name size) s).1)
  unfolding volume_for
  volume_for-created id size name s info made = ground arith

  volume_for-refused :
      (id size : ℕ) (name : Text) (s : Store H.World) (e e' : RpcError H.Err)
      → (client.create_volume (volume_request id name size) s).0 ≡ failed e
      → (client.get_volume
          (named id name)
          (create_volume H cfg (volume_request id name size) s).1).0
        ≡ failed e'
      → (volume_for client id name size s).0
        ≡ (if has_status_already_exists e then panic else err (os_error e))
  unfolding volume_for
  volume_for-refused id size name s e e' bad missing =
      elim (Bool-cases (has_status_already_exists e)) [
        | inl exists ↦ ground arith
        | inr other ↦ ground arith
      ]

  -- Where `CreateVolume` answers `AlreadyExists` for a pool of another name than the volume's,
  -- `Provision` panics: its `GetVolume` by name fails too, and the nil response is used.
  pub volume_for-already_exists :
      (id size : ℕ) (name : Text) (s : Store H.World) (p : StatePool) (res : VolumeInfo)
      (st : Status H.Err)
      → lookup (uint16 id) s.state.pools ≡ some p
      → text_eq name p.name ≡ false
      → (create_volume H cfg (volume_request id name size) s).0 ≡ reply res (some st)
      → st.code ≡ already_exists
      → (volume_for client id name size s).0 ≡ panic
  volume_for-already_exists id size name s p res st held other refused code =
      let req = volume_request id name size in
      let (q, kept, same) = create_volume-named req s (uint16 id) p held in
      let (e, missing) =
        get_volume-fails id name (create_volume H cfg req s).1 q kept
          (ap (text_eq name) same ∙ other) in
      volume_for-refused id size name s (status_error st) e (ap received refused) missing
      ∙ ground (arith, ap is_already_exists code)

  -- Where `Provision` gets a volume from the server for a pool of another name than the volume's,
  -- the server holds the volume in that pool under the answered number, with the requested name
  -- and size, and every other volume of every pool is as it was; the answer has the pool's number.
  pub volume_for-held :
      (id size : ℕ) (name : Text) (s : Store H.World) (p : StatePool) (info : VolumeInfo) (i k : ℕ)
      → lookup (uint16 id) s.state.pools ≡ some p
      → text_eq name p.name ≡ false
      → (volume_for client id name size s).0 ≡ ok info
      → (info.pool_id ≡ id)
        × (volume_at i k (volume_for client id name size s).1.state ≡ (
            if uint16 id == i && info.volume_id == k
            then some (new_volume (volume_request id name size) info.volume_id)
            else volume_at i k s.state))
  volume_for-held id size name s p info i k held other h =
      let req = volume_request id name size in
      elim (Returned-cases (client.create_volume req s).0) [
        | inr (e, bad) ↦
            let (q, kept, same) = create_volume-named req s (uint16 id) p held in
            let (e', missing) =
              get_volume-fails id name (create_volume H cfg req s).1 q kept
                (ap (text_eq name) same ∙ other) in
            absurd (ground (arith, volume_for-refused id size name s e e' bad missing))
        | inl (info', made) ↦
            let eq = volume_for-created id size name s info' made in
            let answer = received-value (create_volume H cfg req s).0 info' made in
            let (n, q, pos, small, found, free, same, changed) =
              create_volume_success H cfg req s info' answer in
            let given : info' ≡ info = ground (arith, eq) in
            subst
              (λ j.
                (j.pool_id ≡ id)
                × (volume_at i k (volume_for client id name size s).1.state ≡ (
                    if uint16 id == i && j.volume_id == k
                    then some (new_volume req j.volume_id)
                    else volume_at i k s.state)))
              given
              (
                ap (λ j. j.pool_id) same,
                ap (λ r. volume_at i k r.1.state) eq
                    ∙ create_volume_held H cfg req s info' i k answer,
              )
      ]
