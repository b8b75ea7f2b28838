-- ===== src/Server/Order.antt =====
-- The order of Go's maps. A `range` visits the entries of a map in any order, and the model keeps
-- them in a list: states that hold the same entries stand for one state.
pub mod Steps
pub mod Pools
pub mod Volumes
pub mod Removal
pub mod Reads
pub mod Served
use shortrack.Base.{
  ℕ, ◌≡◌, refl, sym, ap, ◌∙◌, ◌==◌, Bool-cases, Bool, true, false, inl, inr, ◌⊎◌, Option, none,
  some, Option-cases, List, [], ◌∷◌, find, if◌then◌else◌, arith,
}
use shortrack.Base.Map.{
  Map, AreDistinct, AllEntries, lookup-AllEntries, lookup, insert, erase, values, lookup-insert,
  lookup-erase, find-none,
}
use shortrack.State.{ServerConfig, StateVolume, StatePool, SigmaState}
use shortrack.Host.{Host}
use shortrack.Server.Call.{Store}
use shortrack.Server.Invariant.{IsWellFormed}
use shortrack.Server.Persist.{save_state}
use shortrack.Server.Volumes.{change_volumes}

abbrev pub SameVolumes : Map StateVolume → Map StateVolume → Type 0
SameVolumes m n = (k : ℕ) → lookup k m ≡ lookup k n

-- The pools differ at most in the order of their volumes.
abbrev pub SamePool : StatePool → StatePool → Type 0
SamePool p q = (q ≡ record p { volumes = q.volumes }) × SameVolumes p.volumes q.volumes

abbrev pub SameEntry : Option StatePool → Option StatePool → Type 0
SameEntry none none = Unit
SameEntry (some p) (some q) = SamePool p q
SameEntry none (some q) = ⊥
SameEntry (some p) none = ⊥

-- The states differ at most in the order of their pools and volumes.
pub record SameState (s t : SigmaState) : Type 0 where
  pub bound : s.max_lun_id ≡ t.max_lun_id
  pub pools : (k : ℕ) → SameEntry (lookup k s.pools) (lookup k t.pools)

pub SameEntry-refl : (x : Option StatePool) → SameEntry x x
SameEntry-refl none = tt
SameEntry-refl (some p) = (refl, λ k. refl)

pub SameState-refl : (s : SigmaState) → SameState s s
SameState-refl s = record { bound = refl; pools = λ k. SameEntry-refl _ }

entry_cases :
    (x y : Option StatePool)
    → SameEntry x y
    → ((x ≡ none) × (y ≡ none))
      ⊎ ((p : StatePool) × (m : Map StateVolume) × (x ≡ some p)
          × (y ≡ some (record p { volumes = m }))
          × SameVolumes p.volumes m)
entry_cases none none h = inl (refl, refl)
entry_cases (some p) (some q) h = inr (p, q.volumes, refl, ap some h.0, h.1)
entry_cases none (some q) h = absurd h
entry_cases (some p) none h = absurd h

abbrev holding : Map StateVolume → StatePool → StatePool
holding m p = record p { volumes = m }

SamePool-sym : (p q : StatePool) → SamePool p q → SamePool q p
SamePool-sym p q h = (ap (holding p.volumes) (sym h.0), λ k. sym (h.1 k))

SameEntry-sym : (x y : Option StatePool) → SameEntry x y → SameEntry y x
SameEntry-sym none none h = tt
SameEntry-sym (some p) (some q) h = SamePool-sym p q h
SameEntry-sym none (some q) h = absurd h
SameEntry-sym (some p) none h = absurd h

pub SameState-sym : (s t : SigmaState) → SameState s t → SameState t s
SameState-sym s t h = record { bound = sym h.bound; pools = λ k. SameEntry-sym _ _ (h.pools k) }

-- Entries under one key: both missing, or two pools that are the same but for the order.
pub entries :
    (s t : SigmaState) (k : ℕ)
    → SameState s t
    → ((lookup k s.pools ≡ none) × (lookup k t.pools ≡ none))
      ⊎ ((p : StatePool) × (m : Map StateVolume) × (lookup k s.pools ≡ some p)
          × (lookup k t.pools ≡ some (record p { volumes = m }))
          × SameVolumes p.volumes m)
entries s t k h = entry_cases _ _ (h.pools k)

find-refused :
    {V : Type 0} (f : V → Bool) (m : Map V)
    → AllEntries (λ k x. f x ≡ false) m
    → find f (values m) ≡ none
find-refused f [] h = refl
find-refused f ((k, x) ∷ m) h = ground (arith, h.0, find-refused f m h.1)

-- The search for an entry that passes a test fails in both orders or in none.
pub find-order :
    {V : Type 0} (f : V → Bool) (m n : Map V)
    → AreDistinct n
    → ((k : ℕ) (y : V) → lookup k n ≡ some y → (x : V) × (lookup k m ≡ some x) × (f x ≡ f y))
    → find f (values m) ≡ none
    → find f (values n) ≡ none
find-order f m n d h missing = find-refused f n (
    lookup-AllEntries (λ k y. f y ≡ false) n d
      (λ k y e. let (x, found, same) = h k y e in sym same ∙ find-none f m k x missing found))

pub insert-SameState :
    (k : ℕ) (p : StatePool) (m : Map StateVolume) (s t : SigmaState)
    → SameVolumes p.volumes m
    → SameState s t
    → SameState
        (record s { pools = insert k p s.pools })
        (record t { pools = insert k (record p { volumes = m }) t.pools })
insert-SameState k p m s t same h = record {
  bound = h.bound;
  pools = λ j.
      rw (lookup-insert k j p s.pools, lookup-insert k j (record p { volumes = m }) t.pools)
        (elim (Bool-cases (k == j)) [
          | inl here ↦ rw here (refl, same)
          | inr other ↦ rw other (h.pools j)
        ]);
}

pub erase-SameState :
    (k : ℕ) (s t : SigmaState)
    → SameState s t
    → SameState (record s { pools = erase k s.pools }) (record t { pools = erase k t.pools })
erase-SameState k s t h = record {
  bound = h.bound;
  pools = λ j.
      rw (lookup-erase k j s.pools, lookup-erase k j t.pools)
        (elim (Bool-cases (k == j)) [ inl here ↦ rw here tt | inr other ↦ rw other (h.pools j) ]);
}

pub change_volumes-SameState :
    (k : ℕ) (f : Map StateVolume → Map StateVolume) (s t : SigmaState)
    → ((m n : Map StateVolume) → SameVolumes m n → SameVolumes (f m) (f n))
    → SameState s t
    → SameState (change_volumes k f s) (change_volumes k f t)
unfolding change_volumes
change_volumes-SameState k f s t keep h = elim (entries s t k h) [
  | inl (missing, missing') ↦ rw (missing, missing', change_volumes) h
  | inr (p, m, found, found', same) ↦
      rw (found, found', change_volumes)
        (insert-SameState k (record p { volumes = f p.volumes }) (f m) s t (keep p.volumes m same)
          h)
]

pub insert-SameVolumes :
    (k : ℕ) (v : StateVolume) (m n : Map StateVolume)
    → SameVolumes m n
    → SameVolumes (insert k v m) (insert k v n)
insert-SameVolumes k v m n h j = rw (lookup-insert k j v m, lookup-insert k j v n, h j) refl

pub erase-SameVolumes :
    (k : ℕ) (m n : Map StateVolume) → SameVolumes m n → SameVolumes (erase k m) (erase k n)
erase-SameVolumes k m n h j = rw (lookup-erase k j m, lookup-erase k j n, h j) refl

abbrev pub on : {W : Type 0} → SigmaState → W → Store W
on st w = record { state = st; world = w }

-- The stores have the same world, and states that are well-formed and the same but for the order.
pub record SameStore {W : Type 0} (s t : Store W) : Type 0 where
  pub world : s.world ≡ t.world
  pub left : IsWellFormed s.state
  pub right : IsWellFormed t.state
  pub state : SameState s.state t.state

-- Two runs end alike: both without error or both with one, in stores that are the same but for
-- the order.
pub record EndsAlike {W : Type 0} (fails fails' : Bool) (s t : Store W) : Type 0 where
  pub outcome : fails ≡ fails'
  pub world : s.world ≡ t.world
  pub state : SameState s.state t.state

-- `encoding/json` sorts the keys of a map: the encoding does not depend on the order.
abbrev pub IsSorted : Host → Type 0
IsSorted H = (s t : SigmaState) → SameState s t → H.marshal_indent s ≡ H.marshal_indent t

pub save_state-SameState :
    (H : Host) (cfg : ServerConfig) (s t : SigmaState) (w : H.World)
    → IsSorted H
    → SameState s t
    → save_state H cfg s w ≡ save_state H cfg t w
unfolding save_state
save_state-SameState H cfg s t w sorted h = ground (arith, sorted s t h)
