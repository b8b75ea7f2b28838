-- ===== src/Tests/Process.antt =====
-- Tests of the service as a whole: the specification, restarts and interleavings.
use shortrack.Base.{◌≡◌, refl, true, false, Option, none, some, List, [], ◌∷◌}
use shortrack.Go.Text.{Text, bytes, text_eq}
use shortrack.State.{StatePool, Target}
use shortrack.Host.{Returned, value}
use shortrack.Host.Io.{ok}
use shortrack.Pb.{CreatePoolRequest, absent}
use shortrack.Server.Call.{Store}
use shortrack.Server.Invariant.{IsWellFormed, initial_state, initial_state-IsWellFormed}
use shortrack.Server.Persist.{load_state}
use shortrack.Server.Pools.{pool_response}
use shortrack.Server.Service.{
  Request, create_pool, delete_pool, list_pools, serve, serve_all, acknowledges,
}
use shortrack.Server.Service.Restart.{load_state-serve}
use shortrack.Server.Order.{SameState}
use shortrack.Server.Persist.RoundTrip.{HasText}
use shortrack.Server.Spec.{PermitsAll, view}
use shortrack.Server.Spec.Refines.{serve_all-PermitsAll}
use shortrack.Server.Process.{Flags, Event, request, tick, serving, run, start}
use shortrack.Server.Process.Laws.{requests_of, run-PermitsAll}
use shortrack.Server.Process.Start.{start-serve, unloaded, config_of}
use shortrack.Server.Concurrent.{System, Waiting, deleting_pool, finish, Moves, Reaches}
use shortrack.Server.Concurrent.Linear.{calls, calls-PermitsAll}
use shortrack.Server.Concurrent.Invariance.{IsSound, Reaches-IsSound}
use shortrack.Tests.Hosts.{writing, one_file, one_file-IsDurable, config}

abbrev fresh : Store writing.World
fresh = unloaded []

abbrev gold : StatePool
gold = record { id = 7; name = bytes "gold"; volumes = [] }

abbrev gold_request : CreatePoolRequest
gold_request = record { pool_id = some 7; pool_name = some (bytes "gold") }

abbrev requests : List Request
requests = create_pool gold_request ∷ (list_pools ∷ (delete_pool 7 ∷ []))

serve_all-PermitsAll_example :
    PermitsAll (view initial_state) requests (view (serve_all writing config requests fresh).state)
serve_all-PermitsAll_example =
    serve_all-PermitsAll writing config requests fresh initial_state-IsWellFormed

abbrev events : List Event
events = request (create_pool gold_request) ∷ (tick ∷ [])

abbrev later : Store writing.World
later = record { state = record { max_lun_id = 0; pools = (7, gold) ∷ [] }; world = 10 ∷ [] }

events_served : run writing config events (serving fresh) ≡ serving later
unfolding run shortrack.Lio.Portals.dir_names shortrack.Server.Process.happens
    shortrack.Server.Service.panics shortrack.Server.Pools.create_pool
    shortrack.Lio.Targets.upsert_target shortrack.Lio.Config.set_config text_eq
    shortrack.Go.Text.trim_space bytes shortrack.Lio.Config.write_config
    shortrack.Server.Persist.save_state shortrack.Server.Reconcile.reconcile_all
    shortrack.Lio.Config.setup_lio shortrack.Lio.Targets.list_targets serve
    shortrack.Base.Map.insert shortrack.Lio.Portals.list_portals shortrack.Lio.Portals.upsert_portal
    shortrack.Base.Int.sub_int64 shortrack.Base.Int.to_int64 shortrack.Base.Int.to_uint64
    shortrack.Base.Map.erase shortrack.Base.Map.lookup shortrack.Go.Number.format_uint
    shortrack.Go.Number.parse_uint shortrack.Go.Path.clean shortrack.Go.Path.intercalate
    shortrack.Go.Path.join shortrack.Go.Text.cut_prefix shortrack.Go.Text.has_prefix
    shortrack.Go.Text.split shortrack.Go.Text.trim_left shortrack.Go.Text.trim_prefix
    shortrack.Host.Io.collect shortrack.Host.Io.collect_all shortrack.Host.Io.for_each
    shortrack.Lio.Backstores.backstore_entry shortrack.Lio.Backstores.delete_backstore
    shortrack.Lio.Backstores.last_dir shortrack.Lio.Backstores.list_backstores
    shortrack.Lio.Backstores.upsert_backstore shortrack.Lio.Backstores.upsert_fileio
    shortrack.Lio.Disk.touch_disk_file shortrack.Lio.Luns.delete_lun shortrack.Lio.Luns.list_luns
    shortrack.Lio.Luns.prefixed_entry shortrack.Lio.Luns.upsert_lun
    shortrack.Lio.Portals.delete_portal shortrack.Lio.Targets.delete_target
    shortrack.Lio.Targets.target_entry shortrack.Lio.Targets.target_groups
    shortrack.Server.CreateVolume.create_volume shortrack.Server.CreateVolume.make_volume
    shortrack.Server.DeleteVolume.delete_volume shortrack.Server.DeleteVolume.drop_listed
    shortrack.Server.DeleteVolume.drop_targeted shortrack.Server.DeleteVolume.drop_volume
    shortrack.Server.DeleteVolume.find_last shortrack.Server.Pools.delete_pool
    shortrack.Server.Pools.drop_pool shortrack.Server.Pools.get_pool
    shortrack.Server.Pools.list_pools shortrack.Server.Pools.make_pool
    shortrack.Server.Reconcile.reconcile_pool shortrack.Server.Reconcile.reconcile_volume
    shortrack.Server.Volumes.change_volumes shortrack.Server.Volumes.get_volume
    shortrack.Server.Volumes.list_volumes
events_served = refl

run-PermitsAll_example :
    IsWellFormed later.state
    × PermitsAll (view initial_state) (requests_of events) (view later.state)
run-PermitsAll_example =
    run-PermitsAll writing config events fresh later initial_state-IsWellFormed events_served

-- A server that holds a pool creates another one.
abbrev silver : StatePool
silver = record { id = 9; name = bytes "silver"; volumes = [] }

abbrev three : Store one_file.World
three = record { state = record { max_lun_id = 3; pools = (9, silver) ∷ [] }; world = [] }

abbrev gold_call : Request
gold_call = create_pool gold_request

created : acknowledges one_file config gold_call three ≡ true
unfolding acknowledges shortrack.Server.Pools.create_pool text_eq bytes
    shortrack.Lio.Targets.upsert_target shortrack.Lio.Config.set_config shortrack.Go.Text.trim_space
    shortrack.Lio.Config.write_config shortrack.Server.Persist.save_state
created = refl

created_named : HasText one_file-IsDurable.utf8 (serve one_file config gold_call three).state
unfolding serve shortrack.Server.Pools.create_pool text_eq bytes shortrack.Lio.Targets.upsert_target
    shortrack.Lio.Config.set_config shortrack.Go.Text.trim_space shortrack.Lio.Config.write_config
    shortrack.Server.Persist.save_state shortrack.Base.Map.insert
created_named = ((refl, tt), ((refl, tt), tt))

load_state-serve_example :
    let left = serve one_file config gold_call three in
    ((load_state one_file config (unloaded left.world)).0 ≡ ok tt)
    × SameState left.state (load_state one_file config (unloaded left.world)).1.state
load_state-serve_example =
    load_state-serve one_file config one_file-IsDurable gold_call three refl created created_named

abbrev flags : Flags
flags = record {
  base_iqn = bytes "iqn.2024-01.test";
  volume_dir = bytes "/v";
  portal = bytes "10.0.0.1:3260";
  listen = bytes ":29581";
}

abbrev no_name : one_file.World → Returned one_file.Err Text × one_file.World
no_name w = (value [], w)

abbrev listens : Text → one_file.World → Option one_file.Err × one_file.World
listens addr w = (none, w)

iqn_given : text_eq flags.base_iqn [] ≡ false
unfolding text_eq bytes
iqn_given = refl

started :
    (start one_file no_name listens flags
      (unloaded (serve one_file (config_of flags) gold_call three).world)).0
    ≡ ok config
unfolding run shortrack.Lio.Portals.dir_names shortrack.Server.Process.happens
    shortrack.Server.Service.panics shortrack.Server.Pools.create_pool
    shortrack.Lio.Targets.upsert_target shortrack.Lio.Config.set_config text_eq
    shortrack.Go.Text.trim_space bytes shortrack.Lio.Config.write_config
    shortrack.Server.Persist.save_state shortrack.Server.Reconcile.reconcile_all
    shortrack.Lio.Config.setup_lio shortrack.Lio.Targets.list_targets serve
    shortrack.Base.Map.insert shortrack.Lio.Portals.list_portals shortrack.Lio.Portals.upsert_portal
    shortrack.Base.Int.sub_int64 shortrack.Base.Int.to_int64 shortrack.Base.Int.to_uint64
    shortrack.Base.Map.erase shortrack.Base.Map.lookup shortrack.Go.Number.format_uint
    shortrack.Go.Number.parse_uint shortrack.Go.Path.clean shortrack.Go.Path.intercalate
    shortrack.Go.Path.join shortrack.Go.Text.cut_prefix shortrack.Go.Text.has_prefix
    shortrack.Go.Text.split shortrack.Go.Text.trim_left shortrack.Go.Text.trim_prefix
    shortrack.Host.Io.collect shortrack.Host.Io.collect_all shortrack.Host.Io.for_each
    shortrack.Lio.Backstores.backstore_entry shortrack.Lio.Backstores.delete_backstore
    shortrack.Lio.Backstores.last_dir shortrack.Lio.Backstores.list_backstores
    shortrack.Lio.Backstores.upsert_backstore shortrack.Lio.Backstores.upsert_fileio
    shortrack.Lio.Disk.touch_disk_file shortrack.Lio.Luns.delete_lun shortrack.Lio.Luns.list_luns
    shortrack.Lio.Luns.prefixed_entry shortrack.Lio.Luns.upsert_lun
    shortrack.Lio.Portals.delete_portal shortrack.Lio.Targets.delete_target
    shortrack.Lio.Targets.target_entry shortrack.Lio.Targets.target_groups
    shortrack.Server.CreateVolume.create_volume shortrack.Server.CreateVolume.make_volume
    shortrack.Server.DeleteVolume.delete_volume shortrack.Server.DeleteVolume.drop_listed
    shortrack.Server.DeleteVolume.drop_targeted shortrack.Server.DeleteVolume.drop_volume
    shortrack.Server.DeleteVolume.find_last shortrack.Server.Pools.delete_pool
    shortrack.Server.Pools.drop_pool shortrack.Server.Pools.get_pool
    shortrack.Server.Pools.list_pools shortrack.Server.Pools.make_pool
    shortrack.Server.Reconcile.reconcile_pool shortrack.Server.Reconcile.reconcile_volume
    shortrack.Server.Volumes.change_volumes shortrack.Server.Volumes.get_volume
    shortrack.Server.Volumes.list_volumes start load_state shortrack.Server.Reconcile.prune_targets
    shortrack.Server.Reconcile.prune_backstores
started = refl

start-serve_example :
    SameState
      (serve one_file (config_of flags) gold_call three).state
      (start one_file no_name listens flags
        (unloaded (serve one_file (config_of flags) gold_call three).world)).1.state
start-serve_example =
    start-serve one_file no_name listens flags config one_file-IsDurable iqn_given gold_call three
      refl created created_named started

abbrev no_target : Target
no_target = record { id = 0; name = []; iqn = [] }

abbrev waits : Waiting
waits = deleting_pool 7 no_target (pool_response absent)

abbrev idle : System writing.World
idle = record { store = fresh; waiting = [] }

abbrev busy : System writing.World
busy = record { store = fresh; waiting = waits ∷ [] }

abbrev busier : System writing.World
busier = record {
  store = serve writing config (create_pool gold_request) fresh;
  waiting = waits ∷ [];
}

abbrev rested : System writing.World
rested = record { store = finish writing config waits busier.store; waiting = [] }

busy_run : Reaches writing config idle rested
busy_run =
    Reaches.moved
      (Reaches.moved
        (Reaches.moved Reaches.here (Moves.find_pool idle 7 no_target (pool_response absent) []))
        (Moves.whole busy (create_pool gold_request)))
      (Moves.lock busier [] [] waits refl)

idle-IsSound : IsSound idle
idle-IsSound = record { state = initial_state-IsWellFormed; chosen = tt }

Reaches-IsSound_example : IsSound rested
Reaches-IsSound_example = Reaches-IsSound writing config idle-IsSound busy_run

calls-PermitsAll_example :
    PermitsAll (view idle.store.state) (calls writing config busy_run) (view rested.store.state)
calls-PermitsAll_example = calls-PermitsAll writing config busy_run idle-IsSound
