-- ===== src/Tests/Order.antt =====
-- A test of the service on two orders of one state.
use shortrack.Base.{ℕ, ◌≡◌, refl, subst, List, [], ◌∷◌, some, arith}
use shortrack.Base.Map.{lookup, insert}
use shortrack.Go.Text.{bytes}
use shortrack.State.{StatePool, SigmaState}
use shortrack.Server.Call.{Store}
use shortrack.Server.Invariant.{
  IsWellFormed, IsPool, insert-IsWellFormed, initial_state, initial_state-IsWellFormed,
}
use shortrack.Server.Service.{
  Request, create_pool, delete_pool, list_pools, serve_all, acknowledges,
}
use shortrack.Server.Order.{on, SameEntry, SameEntry-refl, SameStore}
use shortrack.Server.Order.Served.{serve_all-SameStore}
use shortrack.Tests.Hosts.{writing, config}

abbrev gold : StatePool
gold = record { id = 7; name = bytes "gold"; volumes = [] }

abbrev silver : StatePool
silver = record { id = 9; name = bytes "silver"; volumes = [] }

abbrev gold_first : SigmaState
gold_first = record { max_lun_id = 0; pools = (7, gold) ∷ (9, silver) ∷ [] }

abbrev silver_first : SigmaState
silver_first = record { max_lun_id = 0; pools = (9, silver) ∷ (7, gold) ∷ [] }

gold-IsPool : IsPool 0 7 gold
unfolding lookup
gold-IsPool = record {
  keyed = refl;
  positive = omega arith;
  small = omega arith;
  distinct = tt;
  volumes = λ k v e. cc;
}

silver-IsPool : IsPool 0 9 silver
unfolding lookup
silver-IsPool = record {
  keyed = refl;
  positive = omega arith;
  small = omega arith;
  distinct = tt;
  volumes = λ k v e. cc;
}

gold_first-IsWellFormed : IsWellFormed gold_first
unfolding insert
gold_first-IsWellFormed =
    insert-IsWellFormed 9 silver (record { max_lun_id = 0; pools = (7, gold) ∷ [] })
      (insert-IsWellFormed 7 gold initial_state initial_state-IsWellFormed gold-IsPool)
      silver-IsPool

silver_first-IsWellFormed : IsWellFormed silver_first
unfolding insert
silver_first-IsWellFormed =
    insert-IsWellFormed 7 gold (record { max_lun_id = 0; pools = (9, silver) ∷ [] })
      (insert-IsWellFormed 9 silver initial_state initial_state-IsWellFormed silver-IsPool)
      gold-IsPool

lookups : (k : ℕ) → lookup k gold_first.pools ≡ lookup k silver_first.pools
unfolding lookup
lookups k = ground arith

abbrev one : Store writing.World
one = on gold_first []

abbrev other : Store writing.World
other = on silver_first []

orders : SameStore one other
orders = record {
  world = refl;
  left = gold_first-IsWellFormed;
  right = silver_first-IsWellFormed;
  state = record {
    bound = refl;
    pools = λ k.
        subst (SameEntry (lookup k gold_first.pools)) (lookups k)
          (SameEntry-refl (lookup k gold_first.pools));
  };
}

abbrev requests : List Request
requests = list_pools ∷ delete_pool 7 ∷ []

abbrev again : Request
again = create_pool (record { pool_id = some 7; pool_name = some (bytes "gold") })

serve_all-SameStore_example :
    SameStore (serve_all writing config requests one) (serve_all writing config requests other)
    × (acknowledges writing config again (serve_all writing config requests one)
        ≡ acknowledges writing config again (serve_all writing config requests other))
serve_all-SameStore_example =
    serve_all-SameStore writing config (λ s t h. refl) requests one other again orders
