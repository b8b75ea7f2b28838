-- ===== src/Tests/Reconcile.antt =====
-- A test of `ReconcileAll` with one pool and one volume.
use shortrack.Base.{◌≡◌, refl, [], ◌∷◌}
use shortrack.Base.Int.{pos}
use shortrack.Go.Text.{bytes}
use shortrack.State.{SigmaState, StatePool, StateVolume}
use shortrack.Host.Io.{ok}
use shortrack.Server.Reconcile.{reconcile_all}
use shortrack.Server.Reconcile.Done.{IsDone, reconcile_all-IsDone}
use shortrack.Tests.Hosts.{writing, config}

abbrev disk : StateVolume
disk = record { id = 5; name = bytes "disk"; pool_id = 0; size = pos 2 }

abbrev gold : StatePool
gold = record { id = 7; name = bytes "gold"; volumes = (5, disk) ∷ [] }

abbrev filled : SigmaState
filled = record { max_lun_id = 5; pools = (7, gold) ∷ [] }

filled_reconciled : (reconcile_all writing config filled []).0 ≡ ok tt
unfolding reconcile_all shortrack.Lio.Config.setup_lio shortrack.Lio.Targets.list_targets
    shortrack.Lio.Targets.upsert_target shortrack.Lio.Config.set_config shortrack.Go.Text.text_eq
    shortrack.Go.Text.trim_space bytes shortrack.Lio.Config.write_config
    shortrack.Lio.Portals.list_portals shortrack.Lio.Portals.dir_names
    shortrack.Lio.Portals.upsert_portal shortrack.Lio.Luns.list_luns
    shortrack.Lio.Disk.touch_disk_file shortrack.Lio.Backstores.upsert_backstore
    shortrack.Lio.Backstores.upsert_fileio shortrack.Go.Text.trim_prefix
    shortrack.Lio.Luns.upsert_lun shortrack.Base.Int.sub_int64 shortrack.Base.Int.to_int64
    shortrack.Base.Int.to_uint64 shortrack.Base.Map.lookup shortrack.Go.Number.format_uint
    shortrack.Go.Number.parse_uint shortrack.Go.Path.clean shortrack.Go.Path.intercalate
    shortrack.Go.Path.join shortrack.Go.Text.cut_prefix shortrack.Go.Text.has_prefix
    shortrack.Go.Text.split shortrack.Go.Text.trim_left shortrack.Host.Io.collect
    shortrack.Host.Io.collect_all shortrack.Host.Io.for_each
    shortrack.Lio.Backstores.backstore_entry shortrack.Lio.Backstores.delete_backstore
    shortrack.Lio.Backstores.last_dir shortrack.Lio.Backstores.list_backstores
    shortrack.Lio.Luns.delete_lun shortrack.Lio.Luns.prefixed_entry
    shortrack.Lio.Portals.delete_portal shortrack.Lio.Targets.delete_target
    shortrack.Lio.Targets.target_entry shortrack.Lio.Targets.target_groups
    shortrack.Server.Reconcile.prune_backstores shortrack.Server.Reconcile.prune_targets
    shortrack.Server.Reconcile.reconcile_pool shortrack.Server.Reconcile.reconcile_volume
filled_reconciled = refl

reconcile_all-IsDone_example :
    IsDone writing config filled [] (reconcile_all writing config filled []).1
reconcile_all-IsDone_example = reconcile_all-IsDone writing config filled [] filled_reconciled
