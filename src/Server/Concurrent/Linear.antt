-- ===== src/Server/Concurrent/Linear.antt =====
-- Calls that run at once do what the specification permits, in the order of their guarded parts.
use shortrack.Base.{subst, List, [], ◌∷◌, ◌++◌, inl, inr, arith}
use shortrack.State.{ServerConfig}
use shortrack.Host.{Host}
use shortrack.Host.Io.Loops.{All}
use shortrack.Server.Call.{Store}
use shortrack.Server.Invariant.{IsWellFormed}
use shortrack.Server.Pools.Create.{make_pool-state, choose_pool_id-state, free-lookup}
use shortrack.Server.Pools.Delete.{drop_pool-state}
use shortrack.Server.DeleteVolume.Effect.{drop_volume-state}
use shortrack.Server.Service.{Request}
use shortrack.Server.Spec.{View, view, Permits, PermitsAll}
use shortrack.Server.Spec.Refines.{with_pool-Permits, erase-Permits, shrunk-Permits, serve-Permits}
use shortrack.Server.Concurrent.{
  Waiting, creating_pool, deleting_pool, deleting_volume, System, finish, Moves, Reaches,
}
use shortrack.Server.Concurrent.Invariance.{IsChosen, IsSound, All-remove, Reaches-IsSound}

-- The call that waits.
abbrev pub call_of : Waiting → Request
call_of (creating_pool req id) = Request.create_pool req
call_of (deleting_pool n t res) = Request.delete_pool n
call_of (deleting_volume req t b res) = Request.delete_volume_request req

PermitsAll-append :
    {u v w : View} (rs qs : List Request)
    → PermitsAll u rs v
    → PermitsAll v qs w
    → PermitsAll u (rs ++ qs) w
PermitsAll-append [] qs (PermitsAll.done _) g = g
PermitsAll-append (r ∷ rs) qs (PermitsAll.then _ _ one rest) g =
    PermitsAll.then r (rs ++ qs) one (PermitsAll-append rs qs rest g)

module _ (H : Host) (cfg : ServerConfig) where
  -- The calls whose guarded parts a step runs.
  unfoldable pub locked : {y z : System H.World} → Moves H cfg y z → List Request
  locked (Moves.outside y w) = []
  locked (Moves.whole y r) = r ∷ []
  locked (Moves.choose y req id e) = []
  locked (Moves.find_pool y n t res w) = []
  locked (Moves.find_volume y req t b res w) = []
  locked (Moves.lock y xs ys c e) = call_of c ∷ []

  -- The same for a run, in the order of the locks.
  unfoldable pub calls : {y z : System H.World} → Reaches H cfg y z → List Request
  unfolding locked
  calls Reaches.here = []
  calls (Reaches.moved r m) = calls r ++ locked m

  finish-Permits :
      (c : Waiting) (s : Store H.World)
      → IsChosen c
      → IsWellFormed s.state
      → Permits (view s.state) (call_of c) (view (finish H cfg c s).state)
  unfolding finish
  finish-Permits (creating_pool req id) s chosen wf = elim (make_pool-state H cfg req id s) [
    | inl same ↦ rw same (Permits.unchanged _)
    | inr (nz, free, changed) ↦
        with_pool-Permits req id s.state _ (omega arith) chosen.0 chosen.1
          (free-lookup H cfg req id s.state wf free) changed
  ]
  finish-Permits (deleting_pool n t res) s _ wf =
      erase-Permits n s.state _ (drop_pool-state H cfg n t res s)
  finish-Permits (deleting_volume req t b res) s _ wf =
      shrunk-Permits req s.state _ wf (drop_volume-state H cfg req t b res s)

  one : {v w : View} (r : Request) → Permits v r w → PermitsAll v (r ∷ []) w
  one r p = PermitsAll.then r [] p (PermitsAll.done _)

  locked-PermitsAll :
      {y z : System H.World} (m : Moves H cfg y z)
      → IsSound y
      → PermitsAll (view y.store.state) (locked m) (view z.store.state)
  unfolding locked
  locked-PermitsAll (Moves.outside y w) h = PermitsAll.done _
  locked-PermitsAll (Moves.whole y r) h = one r (serve-Permits H cfg r y.store h.state)
  locked-PermitsAll (Moves.choose y req id e) h =
      rw (choose_pool_id-state H cfg req.pool_id y.store) (PermitsAll.done _)
  locked-PermitsAll (Moves.find_pool y n t res w) h = PermitsAll.done _
  locked-PermitsAll (Moves.find_volume y req t b res w) h = PermitsAll.done _
  locked-PermitsAll (Moves.lock y xs ys c e) h =
      one (call_of c)
        (finish-Permits c y.store (All-remove xs ys c (subst (All IsChosen) e h.chosen)).0 h.state)

  -- Whatever calls run at once, from a sound system: what a client can see has changed as if the
  -- calls had run one after the other, in the order of their guarded parts, each doing what the
  -- specification permits.
  pub calls-PermitsAll :
      {y z : System H.World} (r : Reaches H cfg y z)
      → IsSound y
      → PermitsAll (view y.store.state) (calls r) (view z.store.state)
  unfolding calls
  calls-PermitsAll Reaches.here h = PermitsAll.done _
  calls-PermitsAll (Reaches.moved r m) h =
      PermitsAll-append (calls r) (locked m) (calls-PermitsAll r h)
        (locked-PermitsAll m (Reaches-IsSound H cfg h r))
