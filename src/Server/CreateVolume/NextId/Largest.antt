-- ===== src/Server/CreateVolume/NextId/Largest.antt =====
-- Sorting and taking the last number is taking the largest.
use shortrack.Base.{ℕ, ◌≡◌, ◌≤◌, ◌+◌, ap, refl, sym, subst, max, List, [], ◌∷◌, map, arith}
use shortrack.State.{Backstore}
use shortrack.Server.Pools.{uint16}
use shortrack.Server.CreateVolume.{sort, last_of, next_after, next_volume_id}
use shortrack.Server.CreateVolume.NextId.{
  AllLe, IsSorted, AllLe-sort, AllLe-sort_of, AllLe-last_of, last_of_small, sort-IsSorted,
  insert_sorted-ne-nil, AllLe-weaken,
}

abbrev pub largest : List ℕ → ℕ
largest [] = 0
largest (n ∷ ns) = max n (largest ns)

AllLe-largest : (ns : List ℕ) → AllLe (largest ns) ns
AllLe-largest [] = tt
AllLe-largest (n ∷ ns) =
    (omega arith, AllLe-weaken (largest ns) _ ns (omega arith) (AllLe-largest ns))

largest-le : (b : ℕ) (ns : List ℕ) → AllLe b ns → largest ns ≤ b
largest-le b [] h = omega arith
largest-le b (n ∷ ns) h = omega (arith, largest-le b ns h.1, h.0)

next_after-largest :
    (bound : ℕ) (ids l : List ℕ)
    → l ≡ sort ids
    → ¬ (l ≡ [])
    → next_after bound l ≡ uint16 (max bound (largest ids) + 1)
unfolding next_after
next_after-largest bound ids [] e ne = absurd (ne refl)
next_after-largest bound ids (n ∷ ns) e ne =
    let sorted : IsSorted (n ∷ ns) = subst IsSorted (sym e) (sort-IsSorted ids) in
    let below : AllLe (largest ids) (n ∷ ns) =
      subst (AllLe (largest ids)) (sym e) (AllLe-sort_of (largest ids) ids (AllLe-largest ids)) in
    let above : AllLe (last_of n ns) ids =
      AllLe-sort (last_of n ns) ids (subst (AllLe (last_of n ns)) e (AllLe-last_of n ns sorted)) in
    let same : last_of n ns ≡ largest ids =
      omega (arith, last_of_small (largest ids) n ns below, largest-le (last_of n ns) ids above) in
    ap (λ m. uint16 (max bound m + 1)) same

-- The number that `CreateVolume` chooses by sorting, where there are backstores, is one more than
-- the largest of `MaxLUNID` and their numbers, modulo 2 ^ 16; their order is of no account.
pub next_volume_id-largest :
    (bound : ℕ) (b : Backstore) (bs : List Backstore)
    → next_volume_id bound (b ∷ bs) ≡ uint16 (max bound (largest (map (λ c. c.id) (b ∷ bs))) + 1)
unfolding next_volume_id
next_volume_id-largest bound b bs =
    next_after-largest bound (map (λ c. c.id) (b ∷ bs)) (sort (map (λ c. c.id) (b ∷ bs))) refl
      (insert_sorted-ne-nil b.id _)
