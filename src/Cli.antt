-- ===== src/Cli.antt =====
-- The client commands of `main.go`.
pub mod Commands
use shortrack.Base.{ℕ, Bool, true, false, Option, none, some, List, [], ◌==◌, if◌then◌else◌}
use shortrack.Go.Text.{Text, text_eq}
use shortrack.Host.{Returned, value, failed}
use shortrack.Host.Io.{Io, call, ◌>>=◌, ◌>>◌, pure}
use shortrack.Pb.{PoolInfo, VolumeInfo}
use shortrack.Pb.Client.{SigmaClient}
use shortrack.Provisioner.Pool.{returned}
use shortrack.Provisioner.Delete.{closing_io}

-- A command with the values of its flags: 0 and "" where a flag is not given.
pub data Command : Type 0 where
  list_pools : Command
  get_pool create_pool : ℕ → Text → Command
  delete_pool : ℕ → Command
  list_volumes : ℕ → Command
  get_volume : ℕ → ℕ → Text → Command
  create_volume : ℕ → ℕ → Text → ℕ → Command
  delete_volume : ℕ → ℕ → Command

-- What a command prints, before it is encoded.
pub data Response : Type 0 where
  pools : List PoolInfo → Response
  pool : PoolInfo → Response
  volumes : List VolumeInfo → Response
  volume : VolumeInfo → Response

-- `if cmd.Uint32(…) != 0 { … = ptr.Of(…) }`
abbrev pub given_number : ℕ → Option ℕ
given_number n = if n == 0 then none else some n

-- `if cmd.String(…) != "" { … = ptr.Of(…) }`
abbrev pub given_text : Text → Option Text
given_text s = if text_eq s [] then none else some s

abbrev pub answered : {W E A : Type 0} → (A → Response) → Returned E A × W → Returned E Response × W
answered wrap (value a, w) = (value (wrap a), w)
answered wrap (failed e, w) = (failed e, w)

module _ {W E : Type 0} where
  -- The call of a command's action.
  unfoldable pub request : SigmaClient W E → Command → W → Returned E Response × W
  request client list_pools w = answered pools (client.list_pools w)
  request client (get_pool id name) w =
      answered pool
        (client.get_pool (record { pool_id = given_number id; pool_name = given_text name }) w)
  request client (create_pool id name) w =
      answered pool
        (client.create_pool (record { pool_id = given_number id; pool_name = given_text name }) w)
  request client (delete_pool id) w = answered pool (client.delete_pool id w)
  request client (list_volumes id) w = answered volumes (client.list_volumes id w)
  request client (get_volume id n name) w = answered volume (
      client.get_volume
        (record { pool_id = id; volume_id = given_number n; volume_name = given_text name }) w)
  request client (create_volume id n name size) w = answered volume (
      client.create_volume
        (record {
          pool_id = id;
          volume_id = given_number n;
          volume_name = given_text name;
          volume_size = size;
        })
        w)
  request client (delete_volume id n) w =
      answered volume (client.delete_volume (record { pool_id = id; volume_id = n }) w)

-- `grpc.NewClient`, `json.MarshalIndent`, the text of an error, and `fmt.Println`.
pub record Terminal : Type 1 where
  pub World : Type 0
  pub Err : Type 0
  pub new_client : Text → World → Returned Err (SigmaClient World Err) × World
  pub marshal_indent : Response → Returned Err Text
  pub error_text : Err → Text
  pub print : Text → World → World

module _ (T : Terminal) where
  open T use {World, Err, new_client, marshal_indent, error_text, print}

  abbrev or_error_text : Returned Err Text → Text
  or_error_text (value text) = text
  or_error_text (failed e) = error_text e

  -- `JSON`
  unfoldable pub json : Response → Text
  json r = or_error_text (marshal_indent r)

  printed : Response → Io World Err (Unit {0})
  printed r w = pure tt (print (json r) w)

  -- The action of a command, for the server at `addr`.
  unfoldable pub act : Text → Command → Io World Err (Unit {0})
  unfolding printed
  act addr c = do
    client ← call (new_client addr) >>= returned
    closing_io client (call (request client c) >>= returned >>= printed)
