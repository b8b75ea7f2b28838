-- ===== src/Cli/Commands.antt =====
-- The commands that `main.go` declares for clients of the service: their flags, and how an action
-- reads them. Flags are parsed by `github.com/urfave/cli`.
use shortrack.Base.{ℕ, ◌≡◌, ap, Bool, true, false, List, [], ◌∷◌, arith}
use shortrack.Go.Text.{Text, bytes}
use shortrack.Host.Io.{Io}
use shortrack.Cli.{
  Command, list_pools, get_pool, create_pool, delete_pool, list_volumes, get_volume, create_volume,
  delete_volume, Terminal, act,
}

-- `cli.StringFlag`, `cli.Uint32Flag` and `cli.Uint64Flag`
pub data FlagKind : Type 0 where
  string_flag uint32_flag uint64_flag : FlagKind

pub record Flag : Type 0 where
  pub name : Text
  pub kind : FlagKind
  pub required : Bool

-- `cmd.String`, `cmd.Uint32` and `cmd.Uint64`
pub record Flags : Type 0 where
  pub string : Text → Text
  pub uint32 : Text → ℕ
  pub uint64 : Text → ℕ

-- A `cli.Command`, whose action reads the address of the server and what it asks of the service.
pub record CliCommand : Type 0 where
  pub name : Text
  pub flags : List Flag
  pub action : Flags → Text × Command

-- The entries of the list of commands.
pub data Entry : Type 0 where
  list_pools_entry get_pool_entry create_pool_entry delete_pool_entry list_volumes_entry : Entry
  get_volume_entry create_volume_entry delete_volume_entry : Entry

abbrev addr : Text
addr = bytes "addr"

abbrev pool_id : Text
pool_id = bytes "pool-id"

abbrev pool_name : Text
pool_name = bytes "pool-name"

abbrev volume_id : Text
volume_id = bytes "volume-id"

abbrev volume_name : Text
volume_name = bytes "volume-name"

abbrev size : Text
size = bytes "size"

abbrev required : FlagKind → Text → Flag
required kind name = record { name = name; kind = kind; required = true }

abbrev optional : FlagKind → Text → Flag
optional kind name = record { name = name; kind = kind; required = false }

abbrev list_pools_command : CliCommand
list_pools_command = record {
  name = bytes "list-pools";
  flags = required string_flag addr ∷ [];
  action = λ f. (f.string addr, list_pools);
}

abbrev get_pool_command : CliCommand
get_pool_command = record {
  name = bytes "get-pool";
  flags =
      required string_flag addr
      ∷ (optional uint32_flag pool_id ∷ (optional string_flag pool_name ∷ []));
  action = λ f. (f.string addr, get_pool (f.uint32 pool_id) (f.string pool_name));
}

abbrev create_pool_command : CliCommand
create_pool_command = record {
  name = bytes "create-pool";
  flags =
      required string_flag addr
      ∷ (optional uint32_flag pool_id ∷ (optional string_flag pool_name ∷ []));
  action = λ f. (f.string addr, create_pool (f.uint32 pool_id) (f.string pool_name));
}

abbrev delete_pool_command : CliCommand
delete_pool_command = record {
  name = bytes "delete-pool";
  flags = required string_flag addr ∷ (required uint32_flag pool_id ∷ []);
  action = λ f. (f.string addr, delete_pool (f.uint32 pool_id));
}

abbrev list_volumes_command : CliCommand
list_volumes_command = record {
  name = bytes "list-volumes";
  flags = required string_flag addr ∷ (required uint32_flag pool_id ∷ []);
  action = λ f. (f.string addr, list_volumes (f.uint32 pool_id));
}

abbrev get_volume_command : CliCommand
get_volume_command = record {
  name = bytes "get-volume";
  flags =
      required string_flag addr
      ∷ (required uint32_flag pool_id
          ∷ (optional uint32_flag volume_id ∷ (optional string_flag volume_name ∷ [])));
  action = λ f.
      (f.string addr, get_volume (f.uint32 pool_id) (f.uint32 volume_id) (f.string volume_name));
}

abbrev create_volume_command : CliCommand
create_volume_command = record {
  name = bytes "create-volume";
  flags =
      required string_flag addr
      ∷ (required uint32_flag pool_id
          ∷ (optional uint32_flag volume_id
              ∷ (optional string_flag volume_name ∷ (required uint64_flag size ∷ []))));
  action = λ f. (
    f.string addr,
    create_volume (f.uint32 pool_id) (f.uint32 volume_id) (f.string volume_name) (f.uint64 size),
  );
}

abbrev delete_volume_command : CliCommand
delete_volume_command = record {
  name = bytes "delete-volume";
  flags =
      required string_flag addr
      ∷ (required uint32_flag pool_id ∷ (required uint32_flag volume_id ∷ []));
  action = λ f. (f.string addr, delete_volume (f.uint32 pool_id) (f.uint32 volume_id));
}

unfoldable pub declared : Entry → CliCommand
declared list_pools_entry = list_pools_command
declared get_pool_entry = get_pool_command
declared create_pool_entry = create_pool_command
declared delete_pool_entry = delete_pool_command
declared list_volumes_entry = list_volumes_command
declared get_volume_entry = get_volume_command
declared create_volume_entry = create_volume_command
declared delete_volume_entry = delete_volume_command

-- The entries in the order of the list, where `list-volumes` stands twice.
abbrev pub client_entries : List Entry
client_entries =
    list_pools_entry
    ∷ (get_pool_entry
        ∷ (create_pool_entry
            ∷ (delete_pool_entry
                ∷ (list_volumes_entry
                    ∷ (list_volumes_entry
                        ∷ (get_volume_entry
                            ∷ (create_volume_entry ∷ (delete_volume_entry ∷ []))))))))

-- The two readings have the value of a flag in common, and that of each flag of a list.
abbrev SameValue : FlagKind → Text → Flags → Flags → Type 0
SameValue string_flag name f g = f.string name ≡ g.string name
SameValue uint32_flag name f g = f.uint32 name ≡ g.uint32 name
SameValue uint64_flag name f g = f.uint64 name ≡ g.uint64 name

unfoldable pub SameFlags : List Flag → Flags → Flags → Type 0
SameFlags [] f g = Unit {0}
SameFlags (x ∷ xs) f g = SameValue x.kind x.name f g × SameFlags xs f g

same_action :
    (e : Entry) (f g : Flags)
    → SameFlags ((declared e).flags) f g
    → (declared e).action f ≡ (declared e).action g
unfolding declared SameFlags
same_action list_pools_entry f g same = ground arith
same_action get_pool_entry f g same = ground arith
same_action create_pool_entry f g same = ground arith
same_action delete_pool_entry f g same = ground arith
same_action list_volumes_entry f g same = ground arith
same_action get_volume_entry f g same = ground arith
same_action create_volume_entry f g same = ground arith
same_action delete_volume_entry f g same = ground arith

module _ (T : Terminal) where
  open T use {World, Err}

  -- The action of a command with the values of its flags.
  unfoldable pub run_entry : Entry → Flags → Io World Err (Unit {0})
  run_entry e f = let (server, asked) = (declared e).action f in act T server asked

  -- Two readings of the flags that agree on the flags that a command declares, each at its declared
  -- type, make its action do the same: call the same server with the same request, and print the
  -- same.
  pub run_entry-SameFlags :
      (e : Entry) (f g : Flags) → SameFlags ((declared e).flags) f g → run_entry e f ≡ run_entry e g
  unfolding run_entry
  run_entry-SameFlags e f g same =
      ap (λ (a : Text × Command). act T a.0 a.1) (same_action e f g same)
