-- ===== src/Tests/Volumes.antt =====
-- Tests of the volume handlers, of the whole service and of the state file.
use shortrack.Base.{
  ℕ, max, ◌≡◌, refl, ◌≢◌, ◌<◌, ◌≤◌, ◌^◌, ◌+◌, ◌-◌, ◌==◌, ◌&&◌, if◌then◌else◌, false, Option, none,
  some, List, [], ◌∷◌, map, find, arith, ◌⊎◌,
}
use shortrack.Base.Int.{ℤ, pos}
use shortrack.Base.Map.{lookup, insert, values}
use shortrack.Go.Text.{bytes, text_eq}
use shortrack.State.{StatePool, StateVolume, Backstore}
use shortrack.Pb.{VolumeInfo, CreateVolumeRequest, DeleteVolumeRequest, degraded, absent}
use shortrack.Host.Io.{ok}
use shortrack.Server.Call.{Store, reply, not_found, str}
use shortrack.Server.Invariant.{
  IsWellFormed, IsVolume, AreVolumes-insert, insert-IsWellFormed, initial_state,
  initial_state-IsWellFormed,
}
use shortrack.Server.Persist.{load_state, save_state}
use shortrack.Server.Persist.RoundTrip.{load_state-save_state}
use shortrack.Server.Pools.{uint16}
use shortrack.Server.Volumes.{get_volume, volume_info, volume_response}
use shortrack.Server.Volumes.ByName.{get_volume-named, named}
use shortrack.Server.Volumes.Held.{volume_at}
use shortrack.Server.CreateVolume.{create_volume, volume_conflicts, next_volume_id}
use shortrack.Server.CreateVolume.Effect.{create_volume_success, new_volume, blank_volume, grown}
use shortrack.Server.CreateVolume.Query.{get_volume-create_volume, create_volume_held, at_number}
use shortrack.Server.CreateVolume.NextId.{next_volume_id_fresh, IsNext}
use shortrack.Server.DeleteVolume.{delete_volume}
use shortrack.Server.DeleteVolume.Effect.{delete_volume_success}
use shortrack.Server.Service.{Request, create_pool, create_volume_request, list_pools, serve_all}
use shortrack.Server.Service.Invariance.{serve_all-IsWellFormed}
use shortrack.Server.Order.{SameState}
use shortrack.Server.Persist.RoundTrip.{HasText}
use shortrack.Tests.Hosts.{writing, listing, one_file, one_file-IsDurable, config}
use shortrack.Server.CreateVolume.NextId.Largest.{largest, next_volume_id-largest}

abbrev gold : StatePool
gold = record { id = 7; name = bytes "gold"; volumes = [] }

abbrev start : Store writing.World
start = record { state = record { max_lun_id = 3; pools = (7, gold) ∷ [] }; world = [] }

abbrev disk_request : CreateVolumeRequest
disk_request = record {
  pool_id = 7;
  volume_id = some 5;
  volume_name = some (bytes "disk");
  volume_size = 2;
}

abbrev disk_info : VolumeInfo
disk_info = volume_info config 7 gold (new_volume disk_request 5)

abbrev after : Store writing.World
after = (create_volume writing config disk_request start).1

disk_created : (create_volume writing config disk_request start).0 ≡ reply disk_info none
unfolding create_volume lookup shortrack.Lio.Disk.touch_disk_file shortrack.Base.Int.to_int64
    shortrack.Lio.Backstores.upsert_backstore shortrack.Go.Text.text_eq bytes
    shortrack.Lio.Backstores.upsert_fileio shortrack.Lio.Config.write_config
    shortrack.Go.Text.trim_space shortrack.Go.Text.trim_prefix shortrack.Lio.Luns.upsert_lun
    save_state
disk_created = refl

create_volume_success_example :
    (id : ℕ) × (p : StatePool) × (1 ≤ id)
    × (id < 2 ^ 16)
    × (lookup 7 start.state.pools ≡ some p)
    × (find (volume_conflicts (blank_volume disk_request id)) (values p.volumes) ≡ none)
    × (disk_info ≡ volume_info config 7 p (new_volume disk_request id))
    × (after.state ≡ grown disk_request id start.state)
create_volume_success_example =
    create_volume_success writing config disk_request start disk_info disk_created

get_volume-create_volume_example :
    get_volume writing config (at_number 7 5) after
    ≡ (reply (record disk_info { pool_id = 0 }) none, after)
get_volume-create_volume_example =
    get_volume-create_volume writing config disk_request start disk_info disk_created

create_volume_held_example : volume_at 7 5 after.state ≡ (
    if uint16 7 == 7 && 5 == 5 then some (new_volume disk_request 5) else volume_at 7 5 start.state)
create_volume_held_example =
    create_volume_held writing config disk_request start disk_info 7 5 disk_created

abbrev drop_request : DeleteVolumeRequest
drop_request = record { pool_id = 7; volume_id = 5 }

abbrev dropped_info : VolumeInfo
dropped_info = record {
  pool_id = 7;
  volume_id = 5;
  status = degraded;
  volume_name = [];
  volume_size = 0;
  iqn = bytes "iqn.2024-01.test:gold";
  lun = pos 5;
}

abbrev disk : StateVolume
disk = record { id = 5; name = bytes "disk"; pool_id = 0; size = pos 2 }

abbrev filled : Store listing.World
filled = record {
  state = record { max_lun_id = 5; pools = (7, record gold { volumes = (5, disk) ∷ [] }) ∷ [] };
  world = [];
}

disk-IsVolume : IsVolume 5 5 disk
disk-IsVolume = record {
  keyed = refl;
  positive = omega arith;
  small = omega arith;
  counted = omega arith;
  unlinked = refl;
}

filled-IsWellFormed : IsWellFormed filled.state
unfolding lookup insert
filled-IsWellFormed =
    insert-IsWellFormed 7 (record gold { volumes = (5, disk) ∷ [] })
      (record { max_lun_id = 5; pools = [] })
      (record { small = omega arith; distinct = tt; pools = λ k p e. cc })
      (record {
        keyed = refl;
        positive = omega arith;
        small = omega arith;
        distinct = (refl, tt);
        volumes = AreVolumes-insert 5 5 disk [] (λ k v e. cc) disk-IsVolume;
      })

disk_dropped : (delete_volume listing config drop_request filled).0 ≡ reply dropped_info none
unfolding delete_volume shortrack.Lio.Targets.list_targets shortrack.Go.Text.has_prefix bytes
    shortrack.Go.Number.parse_uint shortrack.Go.Text.trim_prefix
    shortrack.Server.DeleteVolume.find_last shortrack.Lio.Luns.list_luns
    shortrack.Lio.Backstores.list_backstores shortrack.Go.Text.text_eq shortrack.Go.Text.split
    shortrack.Lio.Backstores.last_dir shortrack.Lio.Luns.delete_lun
    shortrack.Lio.Backstores.delete_backstore lookup shortrack.Go.Path.join
    shortrack.Lio.Disk.delete_disk_file save_state shortrack.Server.DeleteVolume.drop_targeted
    shortrack.Server.DeleteVolume.drop_listed shortrack.Server.DeleteVolume.drop_volume
disk_dropped = refl

delete_volume_success_example :
    volume_at 7 5 (delete_volume listing config drop_request filled).1.state
    ≡ (if uint16 7 == 7 && uint16 5 == 5 then none else volume_at 7 5 filled.state)
delete_volume_success_example =
    delete_volume_success listing config drop_request filled dropped_info 7 5 filled-IsWellFormed
      disk_dropped

abbrev backstore : ℕ → Backstore
backstore n = record { kind = []; id = n; name = []; file_path = []; file_size = 0 }

abbrev two_backstores : List Backstore
two_backstores = backstore 9 ∷ (backstore 4 ∷ [])

next_volume_id_fresh_example :
    IsNext 3 (map (λ c. c.id) (two_backstores)) (next_volume_id 3 two_backstores)
next_volume_id_fresh_example =
    next_volume_id_fresh 3 (backstore 9) (backstore 4 ∷ []) (omega arith)
      (omega arith, (omega arith, tt))

abbrev requests : List Request
requests =
    create_pool (record { pool_id = some 7; pool_name = some (bytes "gold") })
    ∷ create_volume_request disk_request
    ∷ list_pools
    ∷ []

abbrev fresh : Store writing.World
fresh = record { state = initial_state; world = [] }

serve_all-IsWellFormed_example : IsWellFormed (serve_all writing config requests fresh).state
serve_all-IsWellFormed_example =
    serve_all-IsWellFormed writing config requests fresh initial_state-IsWellFormed

filled_named : HasText one_file-IsDurable.utf8 filled.state
filled_named = ((refl, (refl, tt)), tt)

filled_saved : (save_state one_file config filled.state []).0 ≡ ok tt
unfolding save_state
filled_saved = refl

load_state-save_state_example :
    let restart : Store one_file.World = record {
      state = initial_state;
      world = (save_state one_file config filled.state []).1;
    } in
    ((load_state one_file config restart).0 ≡ ok tt)
    × SameState filled.state (load_state one_file config restart).1.state
load_state-save_state_example =
    load_state-save_state one_file config one_file-IsDurable filled.state [] filled_named
      filled_saved

filled_gold : lookup 7 filled.state.pools ≡ some (record gold { volumes = (5, disk) ∷ [] })
unfolding lookup
filled_gold = refl

disk_differs : text_eq (bytes "disk") gold.name ≡ false
unfolding text_eq bytes
disk_differs = refl

get_volume-named_example : get_volume listing config (named 7 (bytes "disk")) filled ≡ (
  reply
      (record (volume_response 7 absent) { volume_name = bytes "disk" })
      (some (record {
        code = not_found;
        format = "volume_name %s not found";
        args = str (bytes "disk") ∷ [];
      })),
  filled,
)
get_volume-named_example =
    get_volume-named listing config 7 (bytes "disk") filled
      (record gold { volumes = (5, disk) ∷ [] }) filled_gold disk_differs

next_volume_id-largest_example :
    next_volume_id 3 two_backstores ≡ uint16 (max 3 (largest (map (λ c. c.id) two_backstores)) + 1)
next_volume_id-largest_example = next_volume_id-largest 3 (backstore 9) (backstore 4 ∷ [])
