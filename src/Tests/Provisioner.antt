-- ===== src/Tests/Provisioner.antt =====
-- Tests of the provisioner: against the modelled server, and of a cluster with one volume.
use shortrack.Base.{
  ℕ, ◌≡◌, ◌≢◌, refl, ◌==◌, ◌&&◌, true, false, if◌then◌else◌, none, some, List, [], ◌∷◌, arith,
}
use shortrack.Base.Int.{pos}
use shortrack.Base.Map.{lookup}
use shortrack.Go.Text.{Text, bytes, text_eq}
use shortrack.Go.Number.{parsed, parse_uint, format_uint}
use shortrack.State.{StatePool}
use shortrack.Host.{value}
use shortrack.Host.Io.{ok, panic, pure, ◌>>=◌}
use shortrack.Env.{uint16_kind, get}
use shortrack.Pb.{VolumeInfo, invalid_status}
use shortrack.Pb.Client.{SigmaClient}
use shortrack.Server.Call.{Store, Status, reply, already_exists, num, quoted}
use shortrack.Server.Invariant.{initial_state-IsWellFormed}
use shortrack.Server.Pools.{uint16}
use shortrack.Server.Volumes.{volume_info, volume_response}
use shortrack.Server.Volumes.Held.{volume_at}
use shortrack.Server.CreateVolume.{create_volume}
use shortrack.Server.CreateVolume.Effect.{new_volume}
use shortrack.Server.Client.{server_client, RpcError}
use shortrack.Server.Process.Start.{unloaded}
use shortrack.Provisioner.{
  Kube, Annotations, annotation, annotation_pool_id, StorageClassParameters,
}
use shortrack.Provisioner.Pool.{rpc}
use shortrack.Provisioner.Provision.{
  Class, Volume, choose_pool, volume_for, volume_annotations, annotate_class,
}
use shortrack.Provisioner.Delete.{delete, closing_io}
use shortrack.Provisioner.Served.{choose_pool-named}
use shortrack.Provisioner.Held.{volume_request, volume_for-held, volume_for-already_exists}
use shortrack.Provisioner.Undo.{delete-volume_annotations}
use shortrack.Provisioner.Claimed.{IsMoved, annotate_class-choose_pool}
use shortrack.Provisioner.Number.{parse_number}
use shortrack.Provisioner.Number.Laws.{in_variable, get-parse_number}
use shortrack.Tests.Hosts.{writing, config}
use shortrack.Tests.Packages.{no_parsers, environment}

abbrev Err : Type 0
Err = RpcError writing.Err

abbrev client : SigmaClient (Store writing.World) Err
client = server_client writing config

abbrev parameters : StorageClassParameters
parameters = record {
  pool_name = bytes "gold";
  server_addr = bytes "10.0.0.1:29581";
  target_portal = bytes "10.0.0.1:3260";
  fs_type = [];
}

abbrev fresh : Store writing.World
fresh = unloaded []

gold_chosen : (choose_pool client parameters [] [] fresh).0 ≡ ok (1, [])
unfolding choose_pool text_eq annotation bytes shortrack.Server.Pools.list_pools
    shortrack.Provisioner.Pool.pool_named shortrack.Server.Pools.create_pool
    shortrack.Lio.Targets.list_targets shortrack.Server.Pools.free_pool_id
    shortrack.Server.Pools.first_free shortrack.Server.Pools.in_use
    shortrack.Lio.Targets.upsert_target shortrack.Lio.Config.set_config shortrack.Go.Text.trim_space
    shortrack.Lio.Config.write_config shortrack.Server.Persist.save_state
gold_chosen = refl

choose_pool-named_example :
    (p : StatePool) × (lookup 1 (choose_pool client parameters [] [] fresh).1.state.pools ≡ some p)
    × (p.name ≡ bytes "gold")
unfolding annotation
choose_pool-named_example =
    choose_pool-named writing config parameters [] [] fresh 1 [] initial_state-IsWellFormed refl
      refl gold_chosen

abbrev gold : StatePool
gold = record { id = 7; name = bytes "gold"; volumes = [] }

abbrev start : Store writing.World
start = record { state = record { max_lun_id = 3; pools = (7, gold) ∷ [] }; world = [] }

abbrev disk : Text
disk = bytes "claim-disk"

abbrev disk_info : VolumeInfo
disk_info = volume_info config 7 gold (new_volume (volume_request 7 disk 2) 1)

start_gold : lookup (uint16 7) start.state.pools ≡ some gold
unfolding lookup
start_gold = refl

disk_differs : text_eq disk gold.name ≡ false
unfolding text_eq bytes
disk_differs = refl

disk_provided : (volume_for client 7 disk 2 start).0 ≡ ok disk_info
unfolding volume_for create_volume shortrack.Lio.Backstores.list_backstores
    shortrack.Server.CreateVolume.next_volume_id lookup shortrack.Lio.Disk.touch_disk_file
    shortrack.Base.Int.to_int64 shortrack.Lio.Backstores.upsert_backstore text_eq bytes
    shortrack.Lio.Backstores.upsert_fileio shortrack.Lio.Config.write_config
    shortrack.Go.Text.trim_space shortrack.Go.Text.trim_prefix shortrack.Lio.Luns.upsert_lun
    shortrack.Server.Persist.save_state
disk_provided = refl

volume_for-held_example :
    (disk_info.pool_id ≡ 7)
    × (volume_at 7 1 (volume_for client 7 disk 2 start).1.state ≡ (
        if uint16 7 == 7 && disk_info.volume_id == 1
        then some (new_volume (volume_request 7 disk 2) disk_info.volume_id)
        else volume_at 7 1 start.state))
volume_for-held_example =
    volume_for-held writing config 7 2 disk start gold disk_info 7 1 start_gold disk_differs
      disk_provided

abbrev held : StatePool
held = record gold { volumes = (1, new_volume (volume_request 7 disk 2) 1) ∷ [] }

abbrev after : Store writing.World
after = record { state = record { max_lun_id = 1; pools = (7, held) ∷ [] }; world = [] }

after_held : lookup (uint16 7) after.state.pools ≡ some held
unfolding lookup
after_held = refl

abbrev refusal : Status writing.Err
refusal = record {
  code = already_exists;
  format = "volume with id %d and name %q already exists in pool %d";
  args = num 1 ∷ quoted disk ∷ num 7 ∷ [];
}

disk_refused :
    (create_volume writing config (volume_request 7 disk 2) after).0
    ≡ reply (volume_response 7 invalid_status) (some refusal)
unfolding create_volume shortrack.Lio.Backstores.list_backstores
    shortrack.Server.CreateVolume.next_volume_id lookup
disk_refused = refl

volume_for-already_exists_example : (volume_for client 7 disk 2 after).0 ≡ panic
volume_for-already_exists_example =
    volume_for-already_exists writing config 7 2 disk after held (volume_response 7 invalid_status)
      refusal after_held disk_differs disk_refused refl

abbrev cluster : Kube
cluster = record {
  World = Store writing.World;
  Err = Err;
  Parameters = StorageClassParameters;
  Policy = Unit {0};
  AccessModes = Unit {0};
  MountOptions = Unit {0};
  Quantity = ℕ;
  decode = λ p. (p, none);
  quantity_value = pos;
  get_class = λ name w. (
    value (record {
      parameters = parameters;
      annotations = [];
      reclaim_policy = some tt;
      mount_options = tt;
    }),
    w,
  );
  update_class = λ class w. (none, w);
  new_client = λ addr w. (value client, w);
}

abbrev class : Class cluster
class = record {
  parameters = parameters;
  annotations = [];
  reclaim_policy = some tt;
  mount_options = tt;
}

abbrev volume : Volume cluster
volume = record {
  name = bytes "pv";
  annotations = volume_annotations disk_info;
  reclaim_policy = tt;
  access_modes = tt;
  mount_options = tt;
  capacity = 2;
  iscsi = record {
    target_portal = parameters.target_portal;
    iqn = disk_info.iqn;
    lun = disk_info.lun;
    fs_type = bytes "ext4";
  };
  storage_class = bytes "fast";
}

class_named : text_eq volume.storage_class [] ≡ false
unfolding text_eq bytes
class_named = refl

server_named : text_eq parameters.server_addr [] ≡ false
unfolding text_eq bytes
server_named = refl

delete-volume_annotations_example :
    delete cluster volume after
    ≡ closing_io client
        (rpc (client.delete_volume (record { pool_id = 7; volume_id = 1 })) >>= λ _. pure tt)
        after
delete-volume_annotations_example =
    delete-volume_annotations cluster disk_info volume class parameters client after after after
      class_named refl refl server_named refl refl (omega arith) (omega arith) (omega arith)
      (omega arith)

abbrev claimed : Annotations
claimed = (annotation_pool_id, bytes "7") ∷ []

seven_claimed : parse_uint 32 (annotation annotation_pool_id claimed) ≡ parsed 7
unfolding parse_uint annotation text_eq bytes
seven_claimed = refl

nothing_annotated : annotation annotation_pool_id [] ≡ []
unfolding annotation
nothing_annotated = refl

annotate_class-choose_pool_example :
    (choose_pool client parameters claimed class.annotations start ≡ (ok (7, []), start))
    × ((changed : Class cluster) × IsMoved cluster class changed 7
        × ((annotate_class cluster class 7 [] start).1 ≡ (cluster.update_class changed start).1)
        × (choose_pool client parameters [] changed.annotations start
            ≡ (ok (7, format_uint 7), start)))
annotate_class-choose_pool_example =
    annotate_class-choose_pool cluster client parameters claimed [] class 7 start start
      seven_claimed (λ e. absurd (omega (arith, e))) nothing_annotated

get-parse_number_example :
    let (v, e) = parse_number no_parsers uint16_kind (format_uint 80) in
    get no_parsers environment (bytes "PORT") uint16_kind ≡ (v, in_variable (bytes "PORT") e)
get-parse_number_example =
    get-parse_number no_parsers environment (bytes "PORT") (format_uint 80) uint16_kind tt refl
