-- ===== src/Server/Concurrent/Invariance.antt =====
-- The state stays well-formed under every interleaving.
use shortrack.Base.{◌<◌, ◌^◌, List, [], ◌∷◌, ◌++◌, inl, inr, arith, subst}
use shortrack.State.{ServerConfig}
use shortrack.Host.{Host}
use shortrack.Host.Io.Loops.{All}
use shortrack.Server.Call.{Store}
use shortrack.Server.Invariant.{IsWellFormed, insert-IsWellFormed, erase-IsWellFormed}
use shortrack.Server.Pools.Create.{
  new_pool, make_pool-state, choose_pool_id-state, choose_pool_id-small, choose_pool_id-IsRequested,
  IsRequested,
}
use shortrack.Server.Pools.Delete.{drop_pool-state}
use shortrack.Server.DeleteVolume.Effect.{drop_volume-state}
use shortrack.Server.Service.Invariance.{serve-IsWellFormed, new_pool-IsPool, shrunk-IsWellFormed}
use shortrack.Server.Concurrent.{
  Waiting, creating_pool, deleting_pool, deleting_volume, System, finish, Moves, Reaches,
}

-- The number that a waiting `CreatePool` has chosen fits `uint16`, and is the requested one.
abbrev pub IsChosen : Waiting → Type 0
IsChosen (creating_pool req id) = (id < 2 ^ 16) × IsRequested req.pool_id id
IsChosen (deleting_pool n t res) = Unit
IsChosen (deleting_volume req t b res) = Unit

pub record IsSound {W : Type 0} (y : System W) : Type 0 where
  pub state : IsWellFormed y.store.state
  pub chosen : All IsChosen y.waiting

pub All-remove :
    (xs ys : List Waiting) (c : Waiting)
    → All IsChosen (xs ++ (c ∷ ys))
    → IsChosen c × All IsChosen (xs ++ ys)
All-remove [] ys c h = h
All-remove (x ∷ xs) ys c h = let (this, rest) = All-remove xs ys c h.1 in (this, (h.0, rest))

module _ (H : Host) (cfg : ServerConfig) where
  finish-IsWellFormed :
      (c : Waiting) (s : Store H.World)
      → IsChosen c
      → IsWellFormed s.state
      → IsWellFormed (finish H cfg c s).state
  unfolding finish
  finish-IsWellFormed (creating_pool req id) s small h = elim (make_pool-state H cfg req id s) [
    | inl same ↦ rw same h
    | inr (nz, _, changed) ↦ rw changed (
        insert-IsWellFormed id (new_pool req id) s.state h
          (new_pool-IsPool _ id req (omega arith) small.0))
  ]
  finish-IsWellFormed (deleting_pool n t res) s _ h = elim (drop_pool-state H cfg n t res s) [
    | inl same ↦ rw same h
    | inr changed ↦ rw changed (erase-IsWellFormed _ s.state h)
  ]
  finish-IsWellFormed (deleting_volume req t b res) s _ h =
      elim (drop_volume-state H cfg req t b res s) [
        | inl same ↦ rw same h
        | inr changed ↦ rw changed (shrunk-IsWellFormed req s.state h)
      ]

  pub Moves-IsSound : {y z : System H.World} → Moves H cfg y z → IsSound y → IsSound z
  Moves-IsSound (Moves.outside y w) h = record { state = h.state; chosen = h.chosen }
  Moves-IsSound (Moves.whole y r) h = record {
    state = serve-IsWellFormed H cfg r y.store h.state;
    chosen = h.chosen;
  }
  Moves-IsSound (Moves.choose y req id e) h = record {
    state = rw (choose_pool_id-state H cfg req.pool_id y.store) h.state;
    chosen = (
      (
        choose_pool_id-small H cfg req.pool_id y.store id e,
        choose_pool_id-IsRequested H cfg req.pool_id y.store id e,
      ),
      h.chosen,
    );
  }
  Moves-IsSound (Moves.find_pool y n t res w) h = record {
    state = h.state;
    chosen = (tt, h.chosen);
  }
  Moves-IsSound (Moves.find_volume y req t b res w) h = record {
    state = h.state;
    chosen = (tt, h.chosen);
  }
  Moves-IsSound (Moves.lock y xs ys c e) h =
      let (this, rest) = All-remove xs ys c (subst (All IsChosen) e h.chosen) in
      record { state = finish-IsWellFormed c y.store this h.state; chosen = rest }

  -- Whatever calls run at once, in every order of their guarded parts and with any changes of the
  -- world between them: from a well-formed state in which every waiting `CreatePool` has chosen a
  -- `uint16` number, only such states are reached.
  pub Reaches-IsSound : {y z : System H.World} → IsSound y → Reaches H cfg y z → IsSound z
  Reaches-IsSound h Reaches.here = h
  Reaches-IsSound h (Reaches.moved r m) = Moves-IsSound m (Reaches-IsSound h r)
