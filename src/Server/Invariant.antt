-- ===== src/Server/Invariant.antt =====
-- What holds of the server's state between two requests.
use shortrack.Base.{
  ℕ, ◌≡◌, ◌^◌, ◌<◌, ◌≤◌, some, max, arith, ◌==◌, [], inl, inr, Bool-cases, Option-cases,
}
use shortrack.Base.Map.{
  AreDistinct, insert-AreDistinct, erase-AreDistinct, Map, lookup, insert, erase, lookup-insert,
  lookup-erase,
}
use shortrack.State.{StateVolume, StatePool, SigmaState}
use shortrack.Server.Volumes.{change_volumes}

-- The volume under the key `k`: `CreateVolume` never sets `PoolID`.
pub record IsVolume (bound k : ℕ) (v : StateVolume) : Type 0 where
  pub keyed : v.id ≡ k
  pub positive : 1 ≤ k
  pub small : k < 2 ^ 16
  pub counted : k ≤ bound
  pub unlinked : v.pool_id ≡ 0

abbrev pub AreVolumes : ℕ → Map StateVolume → Type 0
AreVolumes bound m = (k : ℕ) (v : StateVolume) → lookup k m ≡ some v → IsVolume bound k v

pub record IsPool (bound k : ℕ) (p : StatePool) : Type 0 where
  pub keyed : p.id ≡ k
  pub positive : 1 ≤ k
  pub small : k < 2 ^ 16
  pub distinct : AreDistinct p.volumes
  pub volumes : AreVolumes bound p.volumes

-- Every entry stands under its own number, numbers are `uint16` and not 0, no number stands twice
-- in one map, and `MaxLUNID` is at least every volume's number.
pub record IsWellFormed (st : SigmaState) : Type 0 where
  pub small : st.max_lun_id < 2 ^ 16
  pub distinct : AreDistinct st.pools
  pub pools : (k : ℕ) (p : StatePool) → lookup k st.pools ≡ some p → IsPool st.max_lun_id k p

abbrev pub initial_state : SigmaState
initial_state = record { max_lun_id = 0; pools = [] }

pub initial_state-IsWellFormed : IsWellFormed initial_state
unfolding lookup
initial_state-IsWellFormed = record { small = omega arith; distinct = tt; pools = λ k p e. cc }

pub AreVolumes-insert :
    (bound k : ℕ) (v : StateVolume) (m : Map StateVolume)
    → AreVolumes bound m
    → IsVolume bound k v
    → AreVolumes bound (insert k v m)
AreVolumes-insert bound k v m h new j w e = elim (Bool-cases (k == j)) [
  | inl same ↦ ground (arith, lookup-insert k j v m)
  | inr other ↦ ground (arith, lookup-insert k j v m, h j w)
]

pub AreVolumes-erase :
    (bound k : ℕ) (m : Map StateVolume) → AreVolumes bound m → AreVolumes bound (erase k m)
AreVolumes-erase bound k m h j w e = ground (arith, lookup-erase k j m, h j w)

pub IsVolume-raise : (b c k : ℕ) (v : StateVolume) → b ≤ c → IsVolume b k v → IsVolume c k v
IsVolume-raise b c k v le h = ground arith

pub insert-IsWellFormed :
    (k : ℕ) (p : StatePool) (st : SigmaState)
    → IsWellFormed st
    → IsPool st.max_lun_id k p
    → IsWellFormed (record st { pools = insert k p st.pools })
insert-IsWellFormed k p st h new = record {
  small = h.small;
  distinct = insert-AreDistinct k p st.pools h.distinct;
  pools = λ j q e. elim (Bool-cases (k == j)) [
    | inl same ↦ ground (arith, lookup-insert k j p st.pools)
    | inr other ↦ ground (arith, lookup-insert k j p st.pools, h.pools j q)
  ];
}

pub erase-IsWellFormed :
    (k : ℕ) (st : SigmaState)
    → IsWellFormed st
    → IsWellFormed (record st { pools = erase k st.pools })
erase-IsWellFormed k st h = record {
  small = h.small;
  distinct = erase-AreDistinct k st.pools h.distinct;
  pools = λ j q e. ground (arith, lookup-erase k j st.pools, h.pools j q);
}

pub raise-IsWellFormed :
    (n : ℕ) (st : SigmaState)
    → n < 2 ^ 16
    → IsWellFormed st
    → IsWellFormed (record st { max_lun_id = max st.max_lun_id n })
raise-IsWellFormed n st lt h = record {
  small = omega arith;
  distinct = h.distinct;
  pools = λ k p e.
      let q = h.pools k p e in
      record {
        keyed = q.keyed;
        positive = q.positive;
        small = q.small;
        distinct = q.distinct;
        volumes = λ j v f. IsVolume-raise _ _ j v (omega arith) (q.volumes j v f);
      };
}

pub change_volumes-IsWellFormed :
    (k : ℕ) (f : Map StateVolume → Map StateVolume) (st : SigmaState)
    → IsWellFormed st
    → ((m : Map StateVolume) → AreDistinct m → AreDistinct (f m))
    → ((m : Map StateVolume) → AreVolumes st.max_lun_id m → AreVolumes st.max_lun_id (f m))
    → IsWellFormed (change_volumes k f st)
unfolding change_volumes
change_volumes-IsWellFormed k f st h single keep = elim (Option-cases (lookup k st.pools)) [
  | inl missing ↦ rw (missing, change_volumes) h
  | inr (p, found) ↦
      let q = h.pools k p found in
      rw (found, change_volumes)
        (insert-IsWellFormed k (record p { volumes = f p.volumes }) st h
          (record {
            keyed = q.keyed;
            positive = q.positive;
            small = q.small;
            distinct = single p.volumes q.distinct;
            volumes = keep p.volumes q.volumes;
          }))
]
