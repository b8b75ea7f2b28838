-- ===== src/Server/Volumes/Held.antt =====
-- The volumes that the state holds, by the pool's number and their own.
use shortrack.Base.{
  ℕ, ◌≡◌, refl, ◌∙◌, ap, Option, none, some, if◌then◌else◌, ◌==◌, arith, Bool-cases, inl, inr, [],
  true, ◌&&◌,
}
use shortrack.Base.Map.{Map, lookup, insert, erase, lookup-insert, lookup-erase}
use shortrack.State.{StateVolume, StatePool, SigmaState}
use shortrack.Server.Volumes.{change_volumes}

abbrev pub volumes_of : Option StatePool → Map StateVolume
volumes_of none = []
volumes_of (some p) = p.volumes

-- `s.State.Pools[i].Volumes[k]`
abbrev pub volume_at : ℕ → ℕ → SigmaState → Option StateVolume
volume_at i k st = lookup k (volumes_of (lookup i st.pools))

pub lookup-change_volumes :
    (i j : ℕ) (f : Map StateVolume → Map StateVolume) (st : SigmaState) (p : StatePool)
    → lookup i st.pools ≡ some p
    → lookup j (change_volumes i f st).pools
      ≡ (if i == j then some (record p { volumes = f p.volumes }) else lookup j st.pools)
unfolding change_volumes lookup
lookup-change_volumes i j f st p found =
    rw (found, change_volumes) (lookup-insert i j (record p { volumes = f p.volumes }) st.pools)

-- A change of a pool's volumes is seen in that pool alone.
pub volume_at-change_volumes :
    (i j k : ℕ) (f : Map StateVolume → Map StateVolume) (st : SigmaState) (p : StatePool)
    → lookup i st.pools ≡ some p
    → volume_at j k (change_volumes i f st)
      ≡ (if i == j then lookup k (f p.volumes) else volume_at j k st)
volume_at-change_volumes i j k f st p found =
    ap (λ q. lookup k (volumes_of q)) (lookup-change_volumes i j f st p found)
    ∙ elim (Bool-cases (i == j)) [ inl same ↦ rw same refl | inr other ↦ rw other refl ]

volume_at_held :
    (i j k : ℕ) (st : SigmaState) (p : StatePool)
    → lookup i st.pools ≡ some p
    → (i == j) ≡ true
    → volume_at j k st ≡ lookup k p.volumes
volume_at_held i j k st p found same =
    let at_j : lookup j st.pools ≡ some p = ground arith in ap (λ q. lookup k (volumes_of q)) at_j

pub volume_at_missing :
    (i j k : ℕ) (st : SigmaState)
    → lookup i st.pools ≡ none
    → (i == j) ≡ true
    → volume_at j k st ≡ none
unfolding lookup
volume_at_missing i j k st missing same =
    let at_j : lookup j st.pools ≡ none = ground arith in ap (λ q. lookup k (volumes_of q)) at_j

pub volume_at-insert :
    (i j k n : ℕ) (v : StateVolume) (st : SigmaState) (p : StatePool)
    → lookup i st.pools ≡ some p
    → volume_at j k (change_volumes i (insert n v) st)
      ≡ (if i == j && n == k then some v else volume_at j k st)
volume_at-insert i j k n v st p found =
    volume_at-change_volumes i j k (insert n v) st p found ∙ elim (Bool-cases (i == j)) [
      | inl same ↦ rw (same, volume_at_held i j k st p found same) (lookup-insert n k v p.volumes)
      | inr other ↦ rw other refl
    ]

pub volume_at-erase :
    (i j k n : ℕ) (st : SigmaState) (p : StatePool)
    → lookup i st.pools ≡ some p
    → volume_at j k (change_volumes i (erase n) st)
      ≡ (if i == j && n == k then none else volume_at j k st)
volume_at-erase i j k n st p found =
    volume_at-change_volumes i j k (erase n) st p found ∙ elim (Bool-cases (i == j)) [
      | inl same ↦ rw (same, volume_at_held i j k st p found same) (lookup-erase n k p.volumes)
      | inr other ↦ rw other refl
    ]
