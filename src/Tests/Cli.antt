-- ===== src/Tests/Cli.antt =====
-- Tests of the commands against the modelled server.
use shortrack.Base.{◌≡◌, refl, []}
use shortrack.Host.{value}
use shortrack.Pb.Client.{SigmaClient}
use shortrack.Server.Call.{Store}
use shortrack.Server.Client.{server_client, RpcError}
use shortrack.Cli.{create_pool, get_pool, pool, request, Terminal}
use shortrack.Cli.Commands.{Flags, get_volume_entry, run_entry, run_entry-SameFlags}
use shortrack.Tests.Hosts.{writing, config}

abbrev client : SigmaClient (Store writing.World) (RpcError writing.Err)
client = server_client writing config

-- A terminal that reaches the modelled server at every address.
abbrev terminal : Terminal
terminal = record {
  World = Store writing.World;
  Err = RpcError writing.Err;
  new_client = λ addr s. (value client, s);
  marshal_indent = λ r. value [];
  error_text = λ e. [];
  print = λ text s. s;
}

abbrev blank_flags : Flags
blank_flags = record { string = λ name. []; uint32 = λ name. 1; uint64 = λ name. 0 }

-- The command `get-volume` does not declare the flag `size`.
run_entry-SameFlags_example :
    run_entry terminal get_volume_entry blank_flags
    ≡ run_entry terminal get_volume_entry (record blank_flags { uint64 = λ name. 5 })
unfolding shortrack.Cli.Commands.SameFlags shortrack.Cli.Commands.declared
run_entry-SameFlags_example =
    run_entry-SameFlags terminal get_volume_entry blank_flags
      (record blank_flags { uint64 = λ name. 5 }) (refl, (refl, (refl, (refl, tt))))
