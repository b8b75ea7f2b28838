-- ===== src/Server/Reconcile.antt =====
-- `ReconcileAll`, which makes the kernel's configuration follow the state.
pub mod Done
use shortrack.Base.{not, Bool, ◌&&◌, ◌*◌, List, [], ◌∷◌, ◌==◌, contains_func}
use shortrack.Base.Int.{ℤ, pos, max_ℤ, to_uint64}
use shortrack.Base.Map.{lookup, values}
use shortrack.Go.Text.{text_eq}
use shortrack.State.{ServerConfig, StateVolume, StatePool, SigmaState, Backstore, Target}
use shortrack.Host.{Host}
use shortrack.Host.Io.{Io, when, pure, ◌>>=◌, ◌>>◌, for_each, collect_all}
use shortrack.Lio.Config.{setup_lio}
use shortrack.Lio.Disk.{touch_disk_file}
use shortrack.Lio.Backstores.{backstore_fileio, list_backstores, delete_backstore, upsert_backstore}
use shortrack.Lio.Portals.{list_portals, delete_portal, upsert_portal}
use shortrack.Lio.Luns.{list_luns, delete_lun, upsert_lun}
use shortrack.Lio.Targets.{list_targets, delete_target, upsert_target}
use shortrack.Server.Pools.{pool_target, is_some}
use shortrack.Server.Volumes.{image_path}

-- `slices.ContainsFunc` over the backstores in use: number, type and name agree.
abbrev pub same_backstore : Backstore → Backstore → Bool
same_backstore existing b =
    b.id == existing.id && (text_eq b.kind existing.kind && text_eq b.name existing.name)

-- The size to which a disk file is grown: `max(1024*1024*1024, volume.Size)`.
abbrev pub wanted_size : StateVolume → ℤ
wanted_size v = max_ℤ (pos (1024 * 1024 * 1024)) v.size

module _ (H : Host) (cfg : ServerConfig) where
  open H use {World, Err}

  -- The first loop: targets that no pool stands for are removed.
  unfoldable pub prune_targets : SigmaState → List Target → Io World Err (Unit {0})
  unfolding for_each
  prune_targets st = for_each λ t. when (not (is_some (lookup t.id st.pools))) (delete_target H t)

  -- One round of the second loop: the target of a pool, its portals and its stale LUNs.
  unfoldable pub reconcile_pool : StatePool → Io World Err (Unit {0})
  unfolding for_each
  reconcile_pool p = do
    let t = pool_target cfg p
    upsert_target H t
    portals ← list_portals H t
    for_each (λ portal. when (not (text_eq portal cfg.portal)) (delete_portal H t portal)) portals
    upsert_portal H t cfg.portal
    luns ← list_luns H t
    for_each (λ lun. when (not (is_some (lookup lun p.volumes))) (delete_lun H t lun)) luns

  -- One round of the third loop: the disk file, the backstore and the LUN of a volume.
  unfoldable pub reconcile_volume : StatePool → StateVolume → Io World Err (List Backstore)
  reconcile_volume p v = do
    size ← touch_disk_file H (image_path cfg p v) (wanted_size v)
    let backstore : Backstore = record {
      kind = backstore_fileio;
      id = v.id;
      name = v.name;
      file_path = image_path cfg p v;
      file_size = to_uint64 size;
    }
    upsert_backstore H backstore
    upsert_lun H (pool_target cfg p) v.id backstore
    pure (backstore ∷ [])

  -- The last loop: backstores that stand for no volume are removed.
  unfoldable pub prune_backstores : List Backstore → List Backstore → Io World Err (Unit {0})
  unfolding for_each
  prune_backstores backstores =
      for_each λ b. when (not (contains_func backstores (same_backstore b))) (delete_backstore H b)

  -- `ReconcileAll`, under the read lock: it does not change the state.
  unfoldable pub reconcile_all : SigmaState → Io World Err (Unit {0})
  unfolding prune_targets reconcile_pool reconcile_volume prune_backstores for_each collect_all
  reconcile_all st = do
    setup_lio H
    targets ← list_targets H cfg.base_iqn
    prune_targets st targets
    for_each reconcile_pool (values st.pools)
    backstores ←
        collect_all (λ (p : StatePool). collect_all (reconcile_volume p) (values p.volumes))
          (values st.pools)
    existing ← list_backstores H
    prune_backstores backstores existing
