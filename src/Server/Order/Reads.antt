-- ===== src/Server/Order/Reads.antt =====
-- The calls that only read do not see the order of the state's maps, but for the order of a list.
use shortrack.Base.{
  ℕ, ◌≡◌, refl, sym, ◌∙◌, Bool, inl, inr, ◌⊎◌, none, some, [], Option-cases, find, arith,
}
use shortrack.Base.Map.{Map, AreDistinct, values}
use shortrack.Go.Text.{Text, text_eq}
use shortrack.State.{ServerConfig, StateVolume, StatePool, SigmaState}
use shortrack.Host.{Host}
use shortrack.Pb.{GetPoolRequest, GetVolumeRequest}
use shortrack.Server.Call.{reply_fails}
use shortrack.Server.Invariant.{IsWellFormed}
use shortrack.Server.Pools.{uint16, or_default, get_pool, list_pools}
use shortrack.Server.Volumes.{get_volume, list_volumes}
use shortrack.Server.Order.{on, SameVolumes, SameState, SameState-sym, entries, find-order}

-- The searches from both orders: both fail, or both find something.
abbrev Found : {V : Type 0} → (V → Bool) → Map V → Map V → Type 0
Found {V} f m n =
    ((find f (values m) ≡ none) × (find f (values n) ≡ none))
    ⊎ ((x : V) × (y : V) × (find f (values m) ≡ some x) × (find f (values n) ≡ some y))

find-order_cases :
    {V : Type 0} (f : V → Bool) (m n : Map V)
    → (find f (values m) ≡ none → find f (values n) ≡ none)
    → (find f (values n) ≡ none → find f (values m) ≡ none)
    → Found f m n
find-order_cases f m n there back = elim (Option-cases (find f (values m))) [
  | inl free ↦ inl (free, there free)
  | inr (x, found) ↦ elim (Option-cases (find f (values n))) [
    | inl free' ↦ absurd (ground (arith, back free'))
    | inr (y, found') ↦ inr (x, y, found, found')
  ]
]

-- Pools by name.
named-order :
    (name : Text) (s t : SigmaState)
    → IsWellFormed t
    → SameState s t
    → find (λ (p : StatePool). text_eq name p.name) (values s.pools) ≡ none
    → find (λ (p : StatePool). text_eq name p.name) (values t.pools) ≡ none
named-order name s t wf h =
    find-order (λ p. text_eq name p.name) s.pools t.pools wf.distinct
      (λ k q e. elim (entries s t k h) [
        | inl (missing, missing') ↦ absurd (ground arith)
        | inr (p, m, found, found', same) ↦ (p, found, ground arith)
      ])

named-Found :
    (name : Text) (s t : SigmaState)
    → IsWellFormed s
    → IsWellFormed t
    → SameState s t
    → Found (λ (p : StatePool). text_eq name p.name) s.pools t.pools
named-Found name s t wf wf' h =
    find-order_cases (λ p. text_eq name p.name) s.pools t.pools (named-order name s t wf' h)
      (named-order name t s wf (SameState-sym s t h))

volumes-Found :
    (f : StateVolume → Bool) (m n : Map StateVolume)
    → AreDistinct m
    → AreDistinct n
    → SameVolumes m n
    → Found f m n
volumes-Found f m n d d' h =
    find-order_cases f m n (find-order f m n d' (λ k y e. (y, h k ∙ e, refl)))
      (find-order f n m d (λ k y e. (y, sym (h k) ∙ e, refl)))

module _ (H : Host) (cfg : ServerConfig) where
  pub list_pools-fails :
      (s t : SigmaState) (w : H.World)
      → reply_fails (list_pools H cfg (on s w)).0 ≡ reply_fails (list_pools H cfg (on t w)).0
  unfolding list_pools
  list_pools-fails s t w = refl

  pub list_volumes-fails :
      (n : ℕ) (s t : SigmaState) (w : H.World)
      → SameState s t
      → reply_fails (list_volumes H cfg n (on s w)).0
        ≡ reply_fails (list_volumes H cfg n (on t w)).0
  unfolding list_volumes
  list_volumes-fails n s t w h = elim (entries s t (uint16 n) h) [
    | inl (missing, missing') ↦ ground arith
    | inr (p, m, found, found', same) ↦ ground arith
  ]

  pub get_pool-fails :
      (req : GetPoolRequest) (s t : SigmaState) (w : H.World)
      → IsWellFormed s
      → IsWellFormed t
      → SameState s t
      → reply_fails (get_pool H cfg req (on s w)).0 ≡ reply_fails (get_pool H cfg req (on t w)).0
  unfolding get_pool
  get_pool-fails req s t w wf wf' h = elim (Option-cases req.pool_id) [
    | inl none_given ↦ elim (named-Found (or_default req.pool_name []) s t wf wf' h) [
      | inl (free, free') ↦ ground arith
      | inr (p, q, found, found') ↦ ground arith
    ]
    | inr (n, given) ↦ elim (entries s t (uint16 n) h) [
      | inl (missing, missing') ↦ ground arith
      | inr (p, m, found, found', same) ↦ ground arith
    ]
  ]

  pub get_volume-fails :
      (req : GetVolumeRequest) (s t : SigmaState) (w : H.World)
      → IsWellFormed s
      → IsWellFormed t
      → SameState s t
      → reply_fails (get_volume H cfg req (on s w)).0
        ≡ reply_fails (get_volume H cfg req (on t w)).0
  unfolding get_volume
  get_volume-fails req s t w wf wf' h = elim (entries s t (uint16 req.pool_id) h) [
    | inl (missing, missing') ↦ ground arith
    | inr (p, m, found, found', same) ↦ elim (Option-cases req.volume_id) [
      | inr (n, given) ↦ ground (arith, same (uint16 n))
      | inl none_given ↦
          elim (volumes-Found (λ (v : StateVolume). text_eq (or_default req.volume_name []) p.name)
            p.volumes m (wf.pools (uint16 req.pool_id) p found).distinct
            (wf'.pools (uint16 req.pool_id) (record p { volumes = m }) found').distinct same) [
              | inl (free, free') ↦ ground arith
              | inr (v, u, one, two) ↦ ground arith
            ]
    ]
  ]
