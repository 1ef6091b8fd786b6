-- ===== src/Ports/Triples.antt =====
-- `free_port_triple` returns the lowest aligned triple of free ports, and its fuel suffices.
use signet_sandbox.Prelude.{
  ℕ, zero, suc, ◌+◌, ◌*◌, ◌%◌, ◌≤◌, ◌<◌, ◌≡◌, ◌↔◌, ◌⊎◌, inl, inr, List, In, none, some, true, false,
  arith, Bool-cases, Option-cases, In-of_contains, contains_of_In, leb, ap, sym, ◌∙◌,
}
use signet_sandbox.Ports.{triple_free, triple_loop, free_port_triple}

-- The three ports from `p` on are free.
pub record IsFree (held : List ℕ) (p : ℕ) : Type 0 where
  pub rest : ¬ In p held
  pub grpc : ¬ In (p + 1) held
  pub p2p : ¬ In (p + 2) held

IsFree-of_test : (held : List ℕ) (p : ℕ) → triple_free held p ≡ true → IsFree held p
unfolding triple_free
IsFree-of_test held p e = record {
  rest = λ i. ground (arith, contains_of_In held p i);
  grpc = λ i. ground (arith, contains_of_In held (p + 1) i);
  p2p = λ i. ground (arith, contains_of_In held (p + 2) i);
}

test_of_IsFree : (held : List ℕ) (p : ℕ) → IsFree held p → triple_free held p ≡ true
unfolding triple_free
test_of_IsFree held p f = ground (
  arith,
  f.rest,
  f.grpc,
  f.p2p,
  In-of_contains held p,
  In-of_contains held (p + 1),
  In-of_contains held (p + 2),
)

aligned_cases : (p q : ℕ) → p ≤ q → q % 3 ≡ p % 3 → (q ≡ p) ⊎ (p + 3 ≤ q)
aligned_cases p q ge al = grind arith

lt_cases : (a b : ℕ) → (a < b) ⊎ (b ≤ a)
lt_cases a b = grind arith

abbrev IsBusyBelow : List ℕ → ℕ → ℕ → Type 0
IsBusyBelow held p r = (q : ℕ) → p ≤ q → q < r → q % 3 ≡ p % 3 → triple_free held q ≡ false

busy_step :
    (held : List ℕ) (p r : ℕ)
    → triple_free held p ≡ false
    → IsBusyBelow held (p + 3) r
    → IsBusyBelow held p r
busy_step held p r busy rest q ge lt align = elim (aligned_cases p q ge align) [
  | inl e ↦ rw e busy
  | inr ge' ↦ rest q ge' lt (omega arith)
]

triple_loop_sound :
    (fuel p max : ℕ) (held : List ℕ) (r : ℕ)
    → triple_loop fuel p max held ≡ some r
    → (p ≤ r) × (r % 3 ≡ p % 3) × (r + 2 ≤ max) × (triple_free held r ≡ true) × IsBusyBelow held p r
unfolding triple_loop
triple_loop_sound zero p max held r e = cc
triple_loop_sound (suc fuel) p max held r e = elim (Bool-cases (leb (p + 2) max)) [
  | inr past ↦ absurd (ground (arith, past))
  | inl fits ↦ elim (Bool-cases (triple_free held p)) [
    | inl free ↦
        let same : p ≡ r = ground (arith, fits, free) in
        (
          omega arith,
          ap (λ n. n % 3) (sym same),
          ground (arith, fits, same),
          rw (← same) free,
          λ q ge lt. absurd (omega arith),
        )
    | inr busy ↦
        let (le, align, top, free, low) =
          triple_loop_sound fuel (p + 3) max held r (ground (arith, fits, busy)) in
        (omega arith, omega arith, top, free, busy_step held p r busy low)
  ]
]

triple_loop-none :
    (fuel p max : ℕ) (held : List ℕ)
    → max < p + 3 * fuel
    → triple_loop fuel p max held ≡ none
    → (q : ℕ) → p ≤ q
    → q % 3 ≡ p % 3
    → q + 2 ≤ max
    → triple_free held q ≡ false
unfolding triple_loop
triple_loop-none zero p max held enough e q ge align top = absurd (omega arith)
triple_loop-none (suc fuel) p max held enough e q ge align top = elim (aligned_cases p q ge align) [
  | inl same ↦ ground (arith, same)
  | inr ge' ↦
      triple_loop-none fuel (p + 3) max held (omega arith) (ground arith) q ge' (omega arith) top
]

-- The triple from `p` on is the lowest aligned one within `[base, max]` that is free.
pub record IsLowestTriple (base max : ℕ) (held : List ℕ) (p : ℕ) : Type 0 where
  pub from_base : base ≤ p
  pub to_max : p + 2 ≤ max
  pub aligned : p % 3 ≡ 0
  pub free : IsFree held p
  pub lowest : (q : ℕ) → base ≤ q → q < p → q % 3 ≡ 0 → ¬ IsFree held q

not-IsFree : (held : List ℕ) (q : ℕ) → triple_free held q ≡ false → ¬ IsFree held q
not-IsFree held q e f = ground (arith, test_of_IsFree held q f)

pub triple_sound :
    (base max : ℕ) (held : List ℕ) (p : ℕ)
    → free_port_triple base max held ≡ some p
    → IsLowestTriple base max held p
unfolding free_port_triple
triple_sound base max held p e =
    let (le, align, top, free, low) = triple_loop_sound (suc max) _ max held p e in
    record {
      from_base = omega arith;
      to_max = top;
      aligned = omega arith;
      free = IsFree-of_test held p free;
      lowest = λ q ge lt al. not-IsFree held q (low q (omega arith) lt (omega arith));
    }

pub triple_none :
    (base max : ℕ) (held : List ℕ)
    → free_port_triple base max held ≡ none
    → (q : ℕ) → base ≤ q
    → q + 2 ≤ max
    → q % 3 ≡ 0
    → ¬ IsFree held q
unfolding free_port_triple
triple_none base max held e q ge top al =
    not-IsFree held q
      (triple_loop-none (suc max) _ max held (omega arith) e q (omega arith) (omega arith) top)

triple_complete :
    (base max : ℕ) (held : List ℕ) (p : ℕ)
    → IsLowestTriple base max held p
    → free_port_triple base max held ≡ some p
triple_complete base max held p l = elim (Option-cases (free_port_triple base max held)) [
  | inl e ↦ absurd (triple_none base max held e p l.from_base l.to_max l.aligned l.free)
  | inr (r, e) ↦
      let s = triple_sound base max held r e in
      elim (lt_cases r p) [
        | inl lt ↦ absurd (l.lowest r s.from_base lt s.aligned s.free)
        | inr ge ↦ elim (lt_cases p r) [
          | inl lt ↦ absurd (s.lowest p l.from_base lt l.aligned l.free)
          | inr le ↦ e ∙ ap some (omega arith)
        ]
      ]
]

-- The search returns `p` exactly when `p` is divisible by 3, its triple lies within the range and
-- is free, and no lower aligned triple of the range is free.
pub free_port_triple_exact :
    (base max : ℕ) (held : List ℕ) (p : ℕ)
    → (free_port_triple base max held ≡ some p) ↔ IsLowestTriple base max held p
free_port_triple_exact base max held p =
    (triple_sound base max held p, triple_complete base max held p)

-- The search returns `None` exactly when no aligned triple of the range is free.
pub free_port_triple_exhausted :
    (base max : ℕ) (held : List ℕ)
    → (free_port_triple base max held ≡ none)
      ↔ ((q : ℕ) → base ≤ q → q + 2 ≤ max → q % 3 ≡ 0 → ¬ IsFree held q)
free_port_triple_exhausted base max held = (
  triple_none base max held,
  λ all. elim (Option-cases (free_port_triple base max held)) [
    | inl e ↦ e
    | inr (r, e) ↦
        let s = triple_sound base max held r e in
        absurd (all r s.from_base s.to_max s.aligned s.free)
  ],
)
