-- ===== src/Server/Pools/Query.antt =====
-- `GetPool` after `CreatePool` and `DeletePool`, and by name.
use shortrack.Base.{
  ℕ, ◌≡◌, ◌≢◌, ◌⊎◌, inl, inr, none, some, [], ◌∷◌, refl, arith, ap, sym, ◌∙◌, find, Option-cases,
}
use shortrack.Base.Map.{values, lookup, lookup-insert, find-none, find-some}
use shortrack.Go.Text.{Text, text_eq, text_eq_iff}
use shortrack.State.{ServerConfig, StatePool}
use shortrack.Host.{Host}
use shortrack.Pb.{PoolInfo, CreatePoolRequest, GetPoolRequest, absent}
use shortrack.Server.Call.{Store, reply, not_found, str}
use shortrack.Server.Pools.{create_pool, get_pool, pool_info, pool_response, uint16}
use shortrack.Server.Pools.Create.{create_pool_success}

abbrev pub by_id : ℕ → GetPoolRequest
by_id n = record { pool_id = some n; pool_name = none }

abbrev pub by_name : Text → GetPoolRequest
by_name name = record { pool_id = none; pool_name = some name }

module _ (H : Host) (cfg : ServerConfig) where
  get_pool_found :
      (n : ℕ) (s : Store H.World) (p : StatePool)
      → lookup (uint16 n) s.state.pools ≡ some p
      → get_pool H cfg (by_id n) s ≡ (reply (pool_info cfg p) none, s)
  unfolding get_pool
  get_pool_found n s p e = ground arith

  -- After a `CreatePool` without error, `GetPool` by the answered number gives the same answer, and
  -- it changes nothing.
  pub get_pool-create_pool :
      (req : CreatePoolRequest) (s : Store H.World) (info : PoolInfo)
      → (create_pool H cfg req s).0 ≡ reply info none
      → let s' = (create_pool H cfg req s).1 in
        get_pool H cfg (by_id info.pool_id) s' ≡ (reply info none, s')
  get_pool-create_pool req s info h =
      let (pos, small, same, changed) = create_pool_success H cfg req s info h in
      let p : StatePool = record { id = info.pool_id; name = info.pool_name; volumes = [] } in
      get_pool_found info.pool_id _ p (
        rw changed
          (lookup-insert info.pool_id (uint16 info.pool_id) p s.state.pools ∙ ground arith))
      ∙ ap (λ i. (reply i none, (create_pool H cfg req s).1)) (sym same)

  get_pool_named :
      (name : Text) (s : Store H.World)
      → ((p : StatePool) × (p.name ≡ name)
          × (get_pool H cfg (by_name name) s ≡ (reply (pool_info cfg p) none, s)))
        ⊎ (((k : ℕ) (p : StatePool) → lookup k s.state.pools ≡ some p → p.name ≢ name)
            × (get_pool H cfg (by_name name) s ≡ (
              reply
                  (record (pool_response absent) { pool_name = name })
                  (some (record {
                    code = not_found;
                    format = "pool_name %s not found";
                    args = str name ∷ [];
                  })),
              s,
            )))
  unfolding get_pool
  get_pool_named name s =
      elim (Option-cases (find (λ (p : StatePool). text_eq name p.name) (values s.state.pools))) [
        | inl missing ↦ inr (
          λ k p e q.
              ground (arith, text_eq_iff name p.name, find-none _ s.state.pools k p missing e),
          ground arith,
        )
        | inr (p, found) ↦ inl (
          p,
          ground (arith, text_eq_iff name p.name, find-some _ (values s.state.pools) p found),
          ground arith,
        )
      ]

  -- Where the state holds a pool, `GetPool` by that pool's name returns no error and answers a pool
  -- of that name.
  pub get_pool-by_name :
      (k : ℕ) (p : StatePool) (s : Store H.World)
      → lookup k s.state.pools ≡ some p
      → (q : StatePool) × (q.name ≡ p.name)
        × (get_pool H cfg (by_name p.name) s ≡ (reply (pool_info cfg q) none, s))
  get_pool-by_name k p s held = elim (get_pool_named p.name s) [
    | inl found ↦ found
    | inr (missing, _) ↦ absurd (missing k p held refl)
  ]
