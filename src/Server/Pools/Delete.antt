-- ===== src/Server/Pools/Delete.antt =====
-- `DeletePool`: what it does to the state.
use shortrack.Base.{ℕ, ◌≡◌, ◌⊎◌, none, some, [], ◌∷◌, arith, ap, ◌∙◌, ◌==◌, if◌then◌else◌}
use shortrack.Base.Map.{erase, lookup, lookup-erase}
use shortrack.State.{ServerConfig, Target}
use shortrack.Host.{Host}
use shortrack.Pb.{PoolInfo, absent}
use shortrack.Server.Call.{Store, reply, not_found, num}
use shortrack.Server.Pools.{get_pool, delete_pool, drop_pool, pool_response, uint16}
use shortrack.Server.Pools.Query.{by_id}

module _ (H : Host) (cfg : ServerConfig) where
  pub drop_pool-state :
      (n : ℕ) (t : Target) (res : PoolInfo) (s : Store H.World)
      → let s' = (drop_pool H cfg n t res s).1 in
        (s'.state ≡ s.state)
        ⊎ (s'.state ≡ record (s.state) { pools = erase (uint16 n) s.state.pools })
  unfolding drop_pool
  drop_pool-state n t res s = ground arith

  pub delete_pool-state :
      (n : ℕ) (s : Store H.World)
      → let s' = (delete_pool H cfg n s).1 in
        (s'.state ≡ s.state)
        ⊎ (s'.state ≡ record (s.state) { pools = erase (uint16 n) s.state.pools })
  unfolding delete_pool
  delete_pool-state n s = ground arith

  delete_pool-reply :
      (n : ℕ) (s : Store H.World) (info : PoolInfo)
      → (delete_pool H cfg n s).0 ≡ reply info none
      → (delete_pool H cfg n s).1.state
        ≡ record (s.state) { pools = erase (uint16 n) s.state.pools }
  unfolding delete_pool
  delete_pool-reply n s info h = ground arith

  get_pool_missing :
      (n : ℕ) (s : Store H.World)
      → lookup (uint16 n) s.state.pools ≡ none
      → get_pool H cfg (by_id n) s ≡ (
        reply
            (record (pool_response absent) { pool_id = n })
            (some
              (record { code = not_found; format = "pool_id %d not found"; args = num n ∷ [] })),
        s,
      )
  unfolding get_pool
  get_pool_missing n s e = ground arith

  -- Where `DeletePool` returns no error, the pool with the number's low 16 bits is gone, every
  -- other pool is as it was, `MaxLUNID` too, and `GetPool` by that number answers `NotFound`.
  pub delete_pool_success :
      (n : ℕ) (s : Store H.World) (info : PoolInfo)
      → (delete_pool H cfg n s).0 ≡ reply info none
      → let s' = (delete_pool H cfg n s).1 in
        (s'.state.max_lun_id ≡ s.state.max_lun_id)
        × ((k : ℕ)
            → lookup k s'.state.pools ≡ (if uint16 n == k then none else lookup k s.state.pools))
        × (get_pool H cfg (by_id n) s' ≡ (
          reply
              (record (pool_response absent) { pool_id = n })
              (some
                (record { code = not_found; format = "pool_id %d not found"; args = num n ∷ [] })),
          s',
        ))
  delete_pool_success n s info h =
      let gone = delete_pool-reply n s info h in
      (
        ap (λ st. st.max_lun_id) gone,
        λ k. rw gone (lookup-erase (uint16 n) k s.state.pools),
        get_pool_missing n _
            (rw gone (lookup-erase (uint16 n) (uint16 n) s.state.pools ∙ ground arith)),
      )
