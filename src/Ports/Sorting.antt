-- ===== src/Ports/Sorting.antt =====
-- `sort_unstable` and `dedup` on ports: the result ascends and holds the same ports.
use signet_sandbox.Prelude.{
  ℕ, ◌+◌, ◌≤◌, ◌≡◌, ◌⊎◌, ◌↔◌, List, [], ◌∷◌, In, leb, ◌==◌, if◌then◌else◌, arith,
}

insert : ℕ → List ℕ → List ℕ
insert a [] = a ∷ []
insert a (x ∷ xs) = let rest = insert a xs in if leb a x then a ∷ x ∷ xs else x ∷ rest

unfoldable pub sort : List ℕ → List ℕ
unfolding insert
sort [] = []
sort (x ∷ xs) = insert x (sort xs)

-- What follows an element that has been kept.
dedup_from : ℕ → List ℕ → List ℕ
dedup_from a [] = []
dedup_from a (x ∷ xs) =
    let skip = dedup_from a xs in let keep = dedup_from x xs in if x == a then skip else x ∷ keep

unfoldable pub dedup : List ℕ → List ℕ
unfolding dedup_from
dedup [] = []
dedup (x ∷ xs) = x ∷ dedup_from x xs

-- Every element is at least `low`, and they do not descend.
abbrev IsSorted : ℕ → List ℕ → Type 0
IsSorted low [] = Unit
IsSorted low (x ∷ xs) = (low ≤ x) × IsSorted x xs

-- The elements grow strictly, from `low` on.
abbrev pub IsAscending : ℕ → List ℕ → Type 0
IsAscending low [] = Unit
IsAscending low (x ∷ xs) = (low ≤ x) × IsAscending (x + 1) xs

insert-IsSorted : (a low : ℕ) (xs : List ℕ) → low ≤ a → IsSorted low xs → IsSorted low (insert a xs)
unfolding insert
insert-IsSorted a low [] h s = (h, tt)
insert-IsSorted a low (x ∷ xs) h s = ground (arith, insert-IsSorted a x xs)

sort-IsSorted : (xs : List ℕ) → IsSorted 0 (sort xs)
unfolding sort
sort-IsSorted [] = tt
sort-IsSorted (x ∷ xs) = insert-IsSorted x 0 (sort xs) (omega arith) (sort-IsSorted xs)

dedup_from-IsAscending :
    (a : ℕ) (xs : List ℕ) → IsSorted a xs → IsAscending (a + 1) (dedup_from a xs)
unfolding dedup_from
dedup_from-IsAscending a [] s = tt
dedup_from-IsAscending a (x ∷ xs) s =
    ground (arith, dedup_from-IsAscending a xs, dedup_from-IsAscending x xs)

dedup-IsAscending : (xs : List ℕ) → IsSorted 0 xs → IsAscending 0 (dedup xs)
unfolding dedup
dedup-IsAscending [] s = tt
dedup-IsAscending (x ∷ xs) s = (omega arith, dedup_from-IsAscending x xs s.1)

pub IsAscending-taken : (xs : List ℕ) → IsAscending 0 (dedup (sort xs))
IsAscending-taken xs = dedup-IsAscending (sort xs) (sort-IsSorted xs)

In-insert : (q a : ℕ) (xs : List ℕ) → In q (insert a xs) ↔ ((q ≡ a) ⊎ In q xs)
unfolding insert
In-insert q a [] = ground arith
In-insert q a (x ∷ xs) = ground (arith, In-insert q a xs)

In-sort : (q : ℕ) (xs : List ℕ) → In q (sort xs) ↔ In q xs
unfolding sort
In-sort q [] = ground arith
In-sort q (x ∷ xs) = ground (arith, In-insert q x (sort xs), In-sort q xs)

In-dedup_from : (q a : ℕ) (xs : List ℕ) → ((q ≡ a) ⊎ In q (dedup_from a xs)) ↔ ((q ≡ a) ⊎ In q xs)
unfolding dedup_from
In-dedup_from q a [] = ground arith
In-dedup_from q a (x ∷ xs) = ground (arith, In-dedup_from q a xs, In-dedup_from q x xs)

In-dedup : (q : ℕ) (xs : List ℕ) → In q (dedup xs) ↔ In q xs
unfolding dedup
In-dedup q [] = ground arith
In-dedup q (x ∷ xs) = ground (arith, In-dedup_from q x xs)

pub In-taken : (q : ℕ) (xs : List ℕ) → In q (dedup (sort xs)) ↔ In q xs
In-taken q xs = ground (arith, In-dedup q (sort xs), In-sort q xs)
