-- ===== src/Tests/Pools.antt =====
-- Tests of the pool handlers.
use shortrack.Base.{
  ℕ, ◌≡◌, refl, ◌≢◌, ◌<◌, ◌≤◌, false, Option, none, some, List, [], ◌∷◌, arith, if◌then◌else◌, ◌==◌,
  ◌^◌, find,
}
use shortrack.Base.Map.{lookup, values}
use shortrack.Go.Text.{bytes}
use shortrack.State.{StatePool, Target}
use shortrack.Pb.{PoolInfo, CreatePoolRequest, active, absent}
use shortrack.Server.Call.{Store, reply, not_found, num}
use shortrack.Server.Invariant.{
  IsWellFormed, insert-IsWellFormed, initial_state, initial_state-IsWellFormed,
}
use shortrack.Server.Pools.{
  create_pool, get_pool, delete_pool, list_pools, pool_conflicts, uint16, free_pool_id, in_use,
  pool_iqn, pool_info, pool_response,
}
use shortrack.Server.Pools.Create.{create_pool_fresh}
use shortrack.Server.Pools.Query.{get_pool-create_pool, by_id}
use shortrack.Server.Pools.Delete.{delete_pool_success}
use shortrack.Server.Pools.FreeId.{free_pool_id_least}
use shortrack.Tests.Hosts.{writing, config}
use shortrack.Server.Pools.Listing.{info_of, list_pools-lookup}
use shortrack.Server.Persist.{save_state}

abbrev start : Store writing.World
start = record { state = initial_state; world = [] }

abbrev gold_request : CreatePoolRequest
gold_request = record { pool_id = some 7; pool_name = some (bytes "gold") }

abbrev gold_info : PoolInfo
gold_info = record {
  pool_id = 7;
  status = active;
  pool_name = bytes "gold";
  iqn = bytes "iqn.2024-01.test:gold";
}

abbrev gold : StatePool
gold = record { id = 7; name = bytes "gold"; volumes = [] }

abbrev after : Store writing.World
after = (create_pool writing config gold_request start).1

gold_created : (create_pool writing config gold_request start).0 ≡ reply gold_info none
unfolding create_pool shortrack.Lio.Targets.upsert_target shortrack.Lio.Config.set_config
    shortrack.Go.Text.text_eq shortrack.Go.Text.trim_space bytes shortrack.Lio.Config.write_config
    shortrack.Server.Persist.save_state
gold_created = refl

gold_held : lookup 7 after.state.pools ≡ some gold
unfolding create_pool shortrack.Lio.Targets.upsert_target shortrack.Lio.Config.set_config
    shortrack.Go.Text.text_eq shortrack.Go.Text.trim_space bytes shortrack.Lio.Config.write_config
    shortrack.Server.Persist.save_state lookup shortrack.Base.Map.insert
gold_held = refl

create_pool_fresh_example :
    (lookup 7 initial_state.pools ≡ none)
    × ((k : ℕ)
        → lookup k after.state.pools ≡ (if 7 == k then some gold else lookup k initial_state.pools))
create_pool_fresh_example =
    create_pool_fresh writing config gold_request start gold_info initial_state-IsWellFormed
      gold_created

get_pool-create_pool_example :
    get_pool writing config (by_id 7) after ≡ (reply gold_info none, after)
get_pool-create_pool_example =
    get_pool-create_pool writing config gold_request start gold_info gold_created

absent_deleted :
    (delete_pool writing config 7 after).0
    ≡ reply (record (pool_response absent) { pool_id = 7 }) none
unfolding delete_pool create_pool shortrack.Lio.Targets.list_targets
    shortrack.Lio.Targets.delete_target shortrack.Lio.Portals.list_portals
    shortrack.Lio.Portals.dir_names shortrack.Lio.Luns.list_luns shortrack.Server.Persist.save_state
absent_deleted = refl

delete_pool_success_example :
    let s' = (delete_pool writing config 7 after).1 in
    (s'.state.max_lun_id ≡ after.state.max_lun_id)
    × ((k : ℕ) → lookup k s'.state.pools ≡ (if 7 == k then none else lookup k after.state.pools))
    × (get_pool writing config (by_id 7) s' ≡ (
      reply
          (record (pool_response absent) { pool_id = 7 })
          (some (record { code = not_found; format = "pool_id %d not found"; args = num 7 ∷ [] })),
      s',
    ))
delete_pool_success_example =
    delete_pool_success writing config 7 after (record (pool_response absent) { pool_id = 7 })
      absent_deleted

abbrev taken : List Target
taken = record { id = 1; name = []; iqn = [] } ∷ record { id = 3; name = []; iqn = [] } ∷ []

two_chosen : free_pool_id taken ≡ 2
unfolding free_pool_id shortrack.Server.Pools.first_free in_use
two_chosen = refl

four_unused : in_use taken 4 ≡ false
unfolding in_use
four_unused = refl

free_pool_id_least_example :
    (1 ≤ free_pool_id taken)
    × (free_pool_id taken ≤ 4)
    × (in_use taken (free_pool_id taken) ≡ false)
free_pool_id_least_example = free_pool_id_least taken 4 (omega arith) (omega arith) four_unused

abbrev silver : StatePool
silver = record { id = 9; name = bytes "silver"; volumes = [] }

abbrev one_pool : Store writing.World
one_pool = record { state = record { max_lun_id = 0; pools = (9, silver) ∷ [] }; world = [] }

one_pool-IsWellFormed : IsWellFormed one_pool.state
unfolding lookup shortrack.Base.Map.insert
one_pool-IsWellFormed =
    insert-IsWellFormed 9 silver initial_state initial_state-IsWellFormed (record {
      keyed = refl;
      positive = omega arith;
      small = omega arith;
      distinct = tt;
      volumes = λ k v e. cc;
    })

list_pools-lookup_example :
    (infos : List PoolInfo) × (list_pools writing config one_pool ≡ (reply infos none, one_pool))
    × (find (λ i. i.pool_id == 9) infos ≡ info_of config (lookup 9 one_pool.state.pools))
list_pools-lookup_example = list_pools-lookup writing config one_pool 9 one_pool-IsWellFormed
