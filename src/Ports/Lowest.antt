-- ===== src/Ports/Lowest.antt =====
-- `lowest_free_port` returns the lowest free port of the range.
use mathlib.Core.Path.{subst}
use signet_sandbox.Prelude.{
  ◌⊎◌, inl, inr, ◌∙◌, Bool-cases, leb→le, ℕ, ◌+◌, ◌≤◌, ◌<◌, ◌≡◌, ◌↔◌, List, [], ◌∷◌, In, none, some,
  arith, leb, if◌then◌else◌,
}
use signet_sandbox.Ports.Sorting.{sort, dedup, IsAscending, IsAscending-taken, In-taken}
use signet_sandbox.Ports.{walk, lowest_free_port}

lt_cases : (a b : ℕ) → (a < b) ⊎ (b ≤ a)
lt_cases a b = grind arith

below_ascending : (q low : ℕ) (xs : List ℕ) → IsAscending low xs → q < low → ¬ In q xs
below_ascending q low [] s h = λ z. z
below_ascending q low (x ∷ xs) s h = ground (arith, below_ascending q (x + 1) xs)

le-walk : (xs : List ℕ) (c : ℕ) → c ≤ walk xs c
unfolding walk
le-walk [] c = omega arith
le-walk (x ∷ xs) c = ground (arith, le-walk xs c, le-walk xs (c + 1))

walk_free : (xs : List ℕ) (low c : ℕ) → IsAscending low xs → ¬ In (walk xs c) xs
unfolding walk
walk_free [] low c s = λ z. z
walk_free (x ∷ xs) low c s = ground (
  arith,
  walk_free xs (x + 1) c,
  walk_free xs (x + 1) (c + 1),
  le-walk xs c,
  le-walk xs (c + 1),
  below_ascending c (x + 1) xs,
)

walk_held : (xs : List ℕ) (c q : ℕ) → c ≤ q → q < walk xs c → In q xs
unfolding walk
walk_held [] c q h k = absurd (omega arith)
walk_held (x ∷ xs) c q h k = ground (arith, walk_held xs c q, walk_held xs (c + 1) q)

module _ (base : ℕ) (held : List ℕ) where
  candidate : ℕ
  candidate = walk (dedup (sort held)) base

  le-candidate : base ≤ candidate
  unfolding candidate
  le-candidate = le-walk _ base

  candidate_free : ¬ In candidate held
  unfolding candidate
  candidate_free i = walk_free _ 0 base (IsAscending-taken held) ((In-taken _ held).1 i)

  below_candidate : (q : ℕ) → base ≤ q → q < candidate → In q held
  unfolding candidate
  below_candidate q h k = (In-taken q held).0 (walk_held _ base q h k)

  lowest_free_port_lem :
      (max : ℕ)
      → lowest_free_port base max held ≡ (if leb candidate max then some candidate else none)
  unfolding lowest_free_port candidate
  lowest_free_port_lem max = ground (arith, le-candidate)

-- The port `p` is the lowest of `[base, max]` that is not held.
abbrev pub IsLowestFree : ℕ → ℕ → List ℕ → ℕ → Type 0
IsLowestFree base max held p =
    (base ≤ p) × (p ≤ max) × (¬ In p held) × ((q : ℕ) → base ≤ q → q < p → In q held)

lowest_sound :
    (base max : ℕ) (held : List ℕ) (p : ℕ)
    → lowest_free_port base max held ≡ some p
    → IsLowestFree base max held p
lowest_sound base max held p e =
    let found : (candidate base held ≡ p) × (p ≤ max) =
      ground (arith, lowest_free_port_lem base held max) in
    subst (λ c. c ≤ max → IsLowestFree base max held c) found.0
      (λ fits. (le-candidate base held, fits, candidate_free base held, below_candidate base held))
      found.1

lowest_complete :
    (base max : ℕ) (held : List ℕ) (p : ℕ)
    → IsLowestFree base max held p
    → lowest_free_port base max held ≡ some p
lowest_complete base max held p (ge, le, free, low) =
    ground (arith, lowest_free_port_lem base held max, same)
  where
    same : candidate base held ≡ p
    same = elim (lt_cases (candidate base held) p) [
      | inl lt ↦ absurd (candidate_free base held (low _ (le-candidate base held) lt))
      | inr ge' ↦ elim (lt_cases p (candidate base held)) [
        | inl lt ↦ absurd (free (below_candidate base held p ge lt))
        | inr le' ↦ omega arith
      ]
    ]

-- The allocator returns `p` exactly when `p` is the lowest port of the range that is not held,
-- whatever the order of the held ports, their repetitions and those outside the range.
pub lowest_free_port_exact :
    (base max : ℕ) (held : List ℕ) (p : ℕ)
    → (lowest_free_port base max held ≡ some p) ↔ IsLowestFree base max held p
lowest_free_port_exact base max held p =
    (lowest_sound base max held p, lowest_complete base max held p)

-- The allocator reports an exhausted range exactly when every port of the range is held.
pub lowest_free_port_exhausted :
    (base max : ℕ) (held : List ℕ)
    → (lowest_free_port base max held ≡ none) ↔ ((q : ℕ) → base ≤ q → q ≤ max → In q held)
lowest_free_port_exhausted base max held = (
  λ e q ge le. below_candidate base held q ge (ground (arith, lowest_free_port_lem base held max)),
  λ all. elim (Bool-cases (leb (candidate base held) max)) [
    | inl fits ↦
        absurd (candidate_free base held (all _ (le-candidate base held) (leb→le _ _ fits)))
    | inr past ↦ lowest_free_port_lem base held max ∙ rw past
  ],
)
