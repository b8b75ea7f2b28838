-- ===== src/Server/CreateVolume/NextId.antt =====
-- The number that `CreateVolume` chooses by itself.
pub mod Largest
use shortrack.Base.{
  ℕ, ◌≤◌, ◌<◌, ◌^◌, max, ◌≡◌, ◌≢◌, refl, List, [], ◌∷◌, map, arith, inl, inr, ◌⊎◌, ◌-◌,
}
use native.Mathlib.Decide.{dec_lt}
use shortrack.State.{Backstore}
use shortrack.Server.CreateVolume.{insert_sorted, sort, last_of, next_after, next_volume_id}

-- Every element is at most `n`.
abbrev pub AllLe : ℕ → List ℕ → Type 0
AllLe n [] = Unit
AllLe n (m ∷ ms) = (m ≤ n) × AllLe n ms

abbrev IsSorted : List ℕ → Type 0
IsSorted [] = Unit
IsSorted (n ∷ []) = Unit
IsSorted (n ∷ (m ∷ ms)) = (n ≤ m) × IsSorted (m ∷ ms)

insert_sorted-IsSorted : (n : ℕ) (ms : List ℕ) → IsSorted ms → IsSorted (insert_sorted n ms)
unfolding insert_sorted
insert_sorted-IsSorted n [] h = tt
insert_sorted-IsSorted n (m ∷ []) h = ground arith
insert_sorted-IsSorted n (m ∷ (k ∷ ms)) h = ground (arith, insert_sorted-IsSorted n (k ∷ ms) h.1)

sort-IsSorted : (ns : List ℕ) → IsSorted (sort ns)
unfolding sort
sort-IsSorted [] = tt
sort-IsSorted (n ∷ ns) = insert_sorted-IsSorted n (sort ns) (sort-IsSorted ns)

AllLe-insert_sorted : (b n : ℕ) (ms : List ℕ) → AllLe b (insert_sorted n ms) → (n ≤ b) × AllLe b ms
unfolding insert_sorted
AllLe-insert_sorted b n [] h = (h.0, tt)
AllLe-insert_sorted b n (m ∷ ms) h = ground (arith, AllLe-insert_sorted b n ms)

AllLe-sort : (b : ℕ) (ns : List ℕ) → AllLe b (sort ns) → AllLe b ns
unfolding sort
AllLe-sort b [] h = tt
AllLe-sort b (n ∷ ns) h =
    let (le, rest) = AllLe-insert_sorted b n (sort ns) h in (le, AllLe-sort b ns rest)

le-last_of : (n : ℕ) (ms : List ℕ) → IsSorted (n ∷ ms) → n ≤ last_of n ms
unfolding last_of
le-last_of n [] h = omega arith
le-last_of n (m ∷ ms) h = omega (arith, le-last_of m ms h.1)

AllLe-last_of : (n : ℕ) (ms : List ℕ) → IsSorted (n ∷ ms) → AllLe (last_of n ms) (n ∷ ms)
unfolding last_of
AllLe-last_of n [] h = (omega arith, tt)
AllLe-last_of n (m ∷ ms) h = (omega (arith, le-last_of m ms h.1), AllLe-last_of m ms h.1)

pub next_volume_id_small : (bound : ℕ) (bs : List Backstore) → next_volume_id bound bs < 2 ^ 16
unfolding next_volume_id
next_volume_id_small bound bs = ground arith

AllLe-insert_sorted_of : (b n : ℕ) (ms : List ℕ) → n ≤ b → AllLe b ms → AllLe b (insert_sorted n ms)
unfolding insert_sorted
AllLe-insert_sorted_of b n [] le h = (le, tt)
AllLe-insert_sorted_of b n (m ∷ ms) le h = ground (arith, AllLe-insert_sorted_of b n ms)

AllLe-sort_of : (b : ℕ) (ns : List ℕ) → AllLe b ns → AllLe b (sort ns)
unfolding sort
AllLe-sort_of b [] h = tt
AllLe-sort_of b (n ∷ ns) h = AllLe-insert_sorted_of b n (sort ns) h.0 (AllLe-sort_of b ns h.1)

AllLe-weaken : (a b : ℕ) (ns : List ℕ) → a ≤ b → AllLe a ns → AllLe b ns
AllLe-weaken a b [] le h = tt
AllLe-weaken a b (n ∷ ns) le h = (omega arith, AllLe-weaken a b ns le h.1)

last_of_small : (b n : ℕ) (ms : List ℕ) → AllLe b (n ∷ ms) → last_of n ms ≤ b
unfolding last_of
last_of_small b n [] h = h.0
last_of_small b n (m ∷ ms) h = last_of_small b m ms h.1

insert_sorted-ne-nil : (n : ℕ) (ms : List ℕ) → insert_sorted n ms ≢ []
unfolding insert_sorted
insert_sorted-ne-nil n [] e = cc
insert_sorted-ne-nil n (m ∷ ms) e = ground arith

-- What the next number after a sorted list can be.
abbrev pub IsNext : ℕ → List ℕ → ℕ → Type 0
IsNext bound ids n =
    ((n ≡ 0) × ((bound ≡ 65535) ⊎ (¬ AllLe 65534 ids))) ⊎ ((bound < n) × AllLe (n - 1) ids)

next_after-IsNext :
    (bound : ℕ) (l : List ℕ)
    → l ≢ []
    → bound < 2 ^ 16
    → IsSorted l
    → AllLe 65535 l
    → IsNext bound l (next_after bound l)
unfolding next_after
next_after-IsNext bound [] ne small sorted fits = absurd (ne refl)
next_after-IsNext bound (n ∷ ns) ne small sorted fits =
    let top = last_of n ns in
    let le = last_of_small 65535 n ns fits in
    elim (dec_lt (max bound top) 65535) [
      | yes lt ↦
          inr (omega arith, AllLe-weaken top _ (n ∷ ns) (omega arith) (AllLe-last_of n ns sorted))
      | no ge ↦ inl (
        omega arith,
        elim (dec_lt bound 65535) [
          | yes lt ↦ inr (λ all. absurd (omega (arith, last_of_small 65534 n ns all)))
          | no full ↦ inl (omega arith)
        ],
      )
    ]

-- `CreateVolume`, asked for no number while there are backstores, tries one above `MaxLUNID` and
-- above every backstore's number. It finds none, and tries 0, only where `MaxLUNID` or some
-- backstore's number is 65535.
pub next_volume_id_fresh :
    (bound : ℕ) (b : Backstore) (bs : List Backstore)
    → bound < 2 ^ 16
    → AllLe 65535 (map (λ c. c.id) (b ∷ bs))
    → IsNext bound (map (λ c. c.id) (b ∷ bs)) (next_volume_id bound (b ∷ bs))
unfolding next_volume_id
next_volume_id_fresh bound b bs small fits =
    let ids : List ℕ = map (λ c. c.id) (b ∷ bs) in
    elim (next_after-IsNext bound (sort ids) (insert_sorted-ne-nil b.id _) small (sort-IsSorted ids)
      (AllLe-sort_of 65535 ids fits)) [
        | inl (is_zero, full) ↦ inl (
          is_zero,
          elim full [
            | inl top ↦ inl top
            | inr over ↦ inr (λ all. over (AllLe-sort_of 65534 ids all))
          ],
        )
        | inr (above, all) ↦ inr (above, AllLe-sort _ ids all)
      ]
