-- ===== src/Server/Order/Served.antt =====
-- The service on states up to the order of their maps.
use mathlib.Core.Quot
use mathlib.Core.Quot.{Quot, Quot-set}
use shortrack.Base.{◌≡◌, refl, ap, subst, Bool, not, List, [], ◌∷◌}
use shortrack.State.{ServerConfig, SigmaState}
use shortrack.Host.{Host}
use shortrack.Server.Call.{Store}
use shortrack.Server.Service.{Request, serve, serve_all, acknowledges}
use shortrack.Server.Service.Invariance.{
  serve-IsWellFormed, list_pools-same, get_pool-same, list_volumes-same, get_volume-same,
}
use shortrack.Server.Invariant.{IsWellFormed}
use shortrack.Server.Order.{on, EndsAlike, SameState, SameStore, IsSorted}
use shortrack.Server.Order.Pools.{create_pool-alike, delete_pool-alike}
use shortrack.Server.Order.Volumes.{create_volume-alike}
use shortrack.Server.Order.Removal.{delete_volume-alike}
use shortrack.Server.Order.Reads.{
  list_pools-fails, list_volumes-fails, get_pool-fails, get_volume-fails,
}

module _ (H : Host) (cfg : ServerConfig) (sorted : IsSorted H) where
  -- A read leaves both stores alone.
  read-alike :
      (fails fails_too : Bool) (s t : SigmaState) (w : H.World) (a b : Store H.World)
      → fails ≡ fails_too
      → a ≡ on s w
      → b ≡ on t w
      → SameState s t
      → EndsAlike (not fails) (not fails_too) a b
  read-alike fails fails_too s t w a b same e e' h =
      rw (e, e') (record { outcome = ap not same; world = refl; state = h })

  acknowledged :
      {fails fails_too : Bool} {a b : Store H.World}
      → EndsAlike fails fails_too a b
      → EndsAlike (not fails) (not fails_too) a b
  acknowledged h = record { outcome = ap not h.outcome; world = h.world; state = h.state }

  serve-alike :
      (r : Request) (s t : SigmaState) (w : H.World)
      → IsWellFormed s
      → IsWellFormed t
      → SameState s t
      → EndsAlike
          (acknowledges H cfg r (on s w))
          (acknowledges H cfg r (on t w))
          (serve H cfg r (on s w))
          (serve H cfg r (on t w))
  unfolding serve acknowledges
  serve-alike Request.list_pools s t w wf wf' h =
      read-alike _ _ s t w _ _ (list_pools-fails H cfg s t w) (list_pools-same H cfg (on s w))
        (list_pools-same H cfg (on t w)) h
  serve-alike (Request.get_pool req) s t w wf wf' h =
      read-alike _ _ s t w _ _ (get_pool-fails H cfg req s t w wf wf' h)
        (get_pool-same H cfg req (on s w)) (get_pool-same H cfg req (on t w)) h
  serve-alike (Request.create_pool req) s t w wf wf' h =
      acknowledged (create_pool-alike H cfg sorted req s t w wf wf' h)
  serve-alike (Request.delete_pool n) s t w wf wf' h =
      acknowledged (delete_pool-alike H cfg sorted n s t w h)
  serve-alike (Request.list_volumes n) s t w wf wf' h =
      read-alike _ _ s t w _ _ (list_volumes-fails H cfg n s t w h)
        (list_volumes-same H cfg n (on s w)) (list_volumes-same H cfg n (on t w)) h
  serve-alike (Request.get_volume req) s t w wf wf' h =
      read-alike _ _ s t w _ _ (get_volume-fails H cfg req s t w wf wf' h)
        (get_volume-same H cfg req (on s w)) (get_volume-same H cfg req (on t w)) h
  serve-alike (Request.create_volume_request req) s t w wf wf' h =
      acknowledged (create_volume-alike H cfg sorted req s t w wf wf' h)
  serve-alike (Request.delete_volume_request req) s t w wf wf' h =
      acknowledged (delete_volume-alike H cfg sorted req s t w h)

  -- One call, from stores that differ at most in the order of the maps: it is acknowledged in both
  -- or in none, and it leaves such stores, with the same world.
  serve-SameStore :
      (r : Request) (s t : Store H.World)
      → SameStore s t
      → (acknowledges H cfg r s ≡ acknowledges H cfg r t)
        × SameStore (serve H cfg r s) (serve H cfg r t)
  serve-SameStore r s t h =
      let both = serve-alike r s.state t.state s.world h.left h.right h.state in
      let same : on t.state s.world ≡ t = ap (on t.state) h.world in
      subst
        (λ (u : Store H.World).
          (acknowledges H cfg r s ≡ acknowledges H cfg r u)
          × SameStore (serve H cfg r s) (serve H cfg r u))
        same
        (
          both.outcome,
          record {
            world = both.world;
            left = serve-IsWellFormed H cfg r s h.left;
            right = serve-IsWellFormed H cfg r (on t.state s.world) h.right;
            state = both.state;
          },
        )

  -- Every sequence of calls, from stores that have the same world and well-formed states which
  -- differ at most in the order of the maps, leaves such stores; and the call after it is
  -- acknowledged in both or in none. The encoding of the state must not depend on the order.
  pub serve_all-SameStore :
      (rs : List Request) (s t : Store H.World) (r : Request)
      → SameStore s t
      → SameStore (serve_all H cfg rs s) (serve_all H cfg rs t)
        × (acknowledges H cfg r (serve_all H cfg rs s)
            ≡ acknowledges H cfg r (serve_all H cfg rs t))
  unfolding serve_all
  serve_all-SameStore [] s t r h = (h, (serve-SameStore r s t h).0)
  serve_all-SameStore (q ∷ rs) s t r h =
      serve_all-SameStore rs (serve H cfg q s) (serve H cfg q t) r (serve-SameStore q s t h).1

  -- The stores up to order, and the service on them.
  abbrev pub Unordered : Type 0
  Unordered = Quot (SameStore {W = H.World})

  pub serve_unordered : Request → Unordered → Unordered
  serve_unordered r =
      Quot.lift Quot-set (λ s. Quot.mk (serve H cfg r s))
        (λ s t h. Quot.sound (serve-SameStore r s t h).1)

  pub serve_all_unordered : List Request → Unordered → Unordered
  serve_all_unordered [] x = x
  serve_all_unordered (r ∷ rs) x = serve_all_unordered rs (serve_unordered r x)

  -- The service implements the service on stores up to order.
  pub serve_all-mk :
      (rs : List Request) (s : Store H.World)
      → Quot.mk (serve_all H cfg rs s) ≡ serve_all_unordered rs (Quot.mk s)
  unfolding serve_all serve_all_unordered serve_unordered
  serve_all-mk [] s = refl
  serve_all-mk (r ∷ rs) s = serve_all-mk rs (serve H cfg r s)
