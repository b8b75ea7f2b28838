-- ===== src/Server/Reconcile/Done.antt =====
-- What `ReconcileAll` has done where it returns nil.
use shortrack.Base.{◌≡◌, sym, ap, ◌∙◌, Bool, not, ◌&&◌, ◌==◌, List, contains_func, arith}
use shortrack.Base.Map.{lookup, values}
use shortrack.Go.Text.{text_eq}
use shortrack.State.{ServerConfig, StateVolume, StatePool, SigmaState, Backstore, Target}
use shortrack.Host.{Host}
use shortrack.Host.Io.{Io, ok, ◌>>=◌, ◌>>◌, collect_all, for_each}
use shortrack.Host.Io.Success.{Ran, Ran-bind, only, only-same, for_each-when, collect_all-contains}
use shortrack.Lio.Config.{setup_lio}
use shortrack.Lio.Backstores.{backstore_fileio, list_backstores, delete_backstore}
use shortrack.Lio.Targets.{list_targets, delete_target}
use shortrack.Server.Pools.{is_some}
use shortrack.Server.Reconcile.{
  same_backstore, prune_targets, prune_backstores, reconcile_pool, reconcile_volume, reconcile_all,
}

-- The volume's backstore has the number, the type and the name of the listed one.
abbrev pub stands_for : Backstore → StateVolume → Bool
stands_for b v = v.id == b.id && (text_eq backstore_fileio b.kind && text_eq v.name b.name)

abbrev pub is_used : SigmaState → Backstore → Bool
is_used st b =
    contains_func (values st.pools) (λ p. contains_func (values p.volumes) (stands_for b))

-- The target has the number of no pool.
abbrev pub unused : SigmaState → Target → Bool
unused st t = not (is_some (lookup t.id st.pools))

abbrev pub unwanted : SigmaState → Backstore → Bool
unwanted st b = not (is_used st b)

module _ (H : Host) (cfg : ServerConfig) where
  -- The disk files, backstores and LUNs of all volumes.
  abbrev pub volumes_round : SigmaState → Io H.World H.Err (List Backstore)
  volumes_round st =
      collect_all (λ (p : StatePool). collect_all (reconcile_volume H cfg p) (values p.volumes))
        (values st.pools)

  -- The way from the world `w` to the world `w'`, each step without error and in the world that the
  -- step before it has left: of the targets that are listed, those of no pool are deleted and no
  -- other; the round of every pool, and then that of every volume; of the backstores that are
  -- listed, those of no volume are deleted and no other.
  pub record IsDone (st : SigmaState) (w w' : H.World) : Type 0 where
    pub w1 : H.World
    pub set_up : Ran (setup_lio H) w tt w1
    pub targets : List Target
    pub w2 : H.World
    pub targets_listed : Ran (list_targets H cfg.base_iqn) w1 targets w2
    pub w3 : H.World
    pub targets_deleted : Ran (for_each (delete_target H) (only (unused st) targets)) w2 tt w3
    pub w4 : H.World
    pub pools_done : Ran (for_each (reconcile_pool H cfg) (values st.pools)) w3 tt w4
    pub volume_backstores : List Backstore
    pub w5 : H.World
    pub volumes_done : Ran (volumes_round st) w4 volume_backstores w5
    pub backstores : List Backstore
    pub w6 : H.World
    pub backstores_listed : Ran (list_backstores H) w5 backstores w6
    pub backstores_deleted :
        Ran (for_each (delete_backstore H) (only (unwanted st) backstores)) w6 tt w'

  reconcile_volume-stands_for :
      (p : StatePool) (v : StateVolume) (w : H.World) (bs : List Backstore) (b : Backstore)
      → (reconcile_volume H cfg p v w).0 ≡ ok bs
      → contains_func bs (same_backstore b) ≡ stands_for b v
  unfolding reconcile_volume
  reconcile_volume-stands_for p v w bs b h = ground arith

  reconcile_all-backstores :
      (st : SigmaState) (w : H.World) (bs : List Backstore) (b : Backstore)
      → (collect_all
          (λ (p : StatePool). collect_all (reconcile_volume H cfg p) (values p.volumes))
          (values st.pools)
          w).0
        ≡ ok bs
      → contains_func bs (same_backstore b) ≡ is_used st b
  reconcile_all-backstores st w bs b h =
      collect_all-contains _ (same_backstore b)
        (λ (p : StatePool). contains_func (values p.volumes) (stands_for b))
        (λ p v cs e.
          collect_all-contains (reconcile_volume H cfg p) (same_backstore b) (stands_for b)
            (λ x u ds d. reconcile_volume-stands_for p x u ds b d) (values p.volumes) v cs e)
        (values st.pools) w bs h

  -- The steps of `ReconcileAll`, each with what follows it.
  module _ (st : SigmaState) where
    abbrev from_volumes : List Backstore → Io H.World H.Err (Unit {0})
    from_volumes used = list_backstores H >>= prune_backstores H cfg used

    abbrev from_pools : Io H.World H.Err (Unit {0})
    from_pools = volumes_round st >>= from_volumes

    abbrev from_targets : Io H.World H.Err (Unit {0})
    from_targets = for_each (reconcile_pool H cfg) (values st.pools) >> from_pools

    abbrev from_list : List Target → Io H.World H.Err (Unit {0})
    from_list targets = prune_targets H cfg st targets >> from_targets

    abbrev from_setup : Io H.World H.Err (Unit {0})
    from_setup = list_targets H cfg.base_iqn >>= from_list

  prune_targets-only :
      (st : SigmaState) (targets : List Target) (w : H.World)
      → prune_targets H cfg st targets w ≡ for_each (delete_target H) (only (unused st) targets) w
  unfolding prune_targets
  prune_targets-only st targets w = for_each-when (unused st) (delete_target H) targets w

  prune_backstores-only :
      (st : SigmaState) (w : H.World) (used : List Backstore)
      → (volumes_round st w).0 ≡ ok used
      → (backstores : List Backstore) (u : H.World)
      → prune_backstores H cfg used backstores u
        ≡ for_each (delete_backstore H) (only (unwanted st) backstores) u
  unfolding prune_backstores
  prune_backstores-only st w used volumes backstores u =
      for_each-when (λ b. not (contains_func used (same_backstore b))) (delete_backstore H)
        backstores u
      ∙ ap (λ bs. for_each (delete_backstore H) bs u)
          (only-same (λ b. not (contains_func used (same_backstore b))) (unwanted st)
            (λ b. ap not (reconcile_all-backstores st w used b volumes)) backstores)

  -- A `ReconcileAll` that returns nil has gone from its first world to its last by these steps: it
  -- sets up the kernel's tree, lists the targets and deletes exactly those of them with the number
  -- of no pool, runs the round of every pool and of every volume, lists the backstores, and deletes
  -- exactly those of them that have not the number, type and name of a volume.
  pub reconcile_all-IsDone :
      (st : SigmaState) (w : H.World)
      → (reconcile_all H cfg st w).0 ≡ ok tt
      → IsDone st w (reconcile_all H cfg st w).1
  unfolding reconcile_all
  reconcile_all-IsDone st w h =
      let w' = (reconcile_all H cfg st w).1 in
      let all : Ran (setup_lio H >> from_setup st) w tt w' = ap (λ r. (r, w')) h in
      let (_, w1, ready, h1) = Ran-bind (setup_lio H) (λ _. from_setup st) w tt w' all in
      let (targets, w2, listed, h2) =
        Ran-bind (list_targets H cfg.base_iqn) (from_list st) w1 tt w' h1 in
      let (_, w3, pruned, h3) =
        Ran-bind (prune_targets H cfg st targets) (λ _. from_targets st) w2 tt w' h2 in
      let (_, w4, pools, h4) =
        Ran-bind (for_each (reconcile_pool H cfg) (values st.pools)) (λ _. from_pools st) w3 tt w'
          h3 in
      let (used, w5, volumes, h5) = Ran-bind (volumes_round st) (from_volumes st) w4 tt w' h4 in
      let (backstores, w6, found, swept) =
        Ran-bind (list_backstores H) (prune_backstores H cfg used) w5 tt w' h5 in
      record {
        w1 = w1;
        set_up = ready;
        targets = targets;
        w2 = w2;
        targets_listed = listed;
        w3 = w3;
        targets_deleted = sym (prune_targets-only st targets w2) ∙ pruned;
        w4 = w4;
        pools_done = pools;
        volume_backstores = used;
        w5 = w5;
        volumes_done = volumes;
        backstores = backstores;
        w6 = w6;
        backstores_listed = found;
        backstores_deleted =
            sym (prune_backstores-only st w4 used (ap (λ r. r.0) volumes) backstores w6) ∙ swept;
      }
