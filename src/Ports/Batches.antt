-- ===== src/Ports/Batches.antt =====
-- `next_lightning_ports`: a batch of triples for several instances of one environment.
use signet_sandbox.Prelude.{
  ℕ, zero, suc, ◌+◌, ◌%◌, ◌≤◌, ◌<◌, ◌≡◌, ◌↔◌, ◌⊎◌, inl, inr, List, [], ◌∷◌, ◌++◌, In, some, ok, err,
  arith, length, Option-cases, ap, refl, sym, ◌∙◌, Result,
}
use signet_sandbox.Ports.{allocate, free_port_triple, PoolError, exhausted}
use signet_sandbox.Ports.Triples.{IsFree, IsLowestTriple, triple_sound, triple_none}

aligned_order : (p q : ℕ) → p % 3 ≡ 0 → q % 3 ≡ 0 → (q < p) ⊎ ((p ≡ q) ⊎ (p + 3 ≤ q))
aligned_order p q h k = grind arith

result_cases : (r : Result PoolError (List ℕ)) → ((ps : List ℕ) × (r ≡ ok ps)) ⊎ (r ≡ err exhausted)
result_cases (ok ps) = inl (ps, refl)
result_cases (err exhausted) = inr refl

In-append : (q : ℕ) (xs ys : List ℕ) → In q (xs ++ ys) ↔ (In q xs ⊎ In q ys)
In-append q [] ys = ground arith
In-append q (x ∷ xs) ys = ground (arith, In-append q xs ys)

-- A triple of the range that may be given out.
pub record IsUsable (max : ℕ) (held : List ℕ) (p : ℕ) : Type 0 where
  pub to_max : p + 2 ≤ max
  pub aligned : p % 3 ≡ 0
  pub free : IsFree held p

-- Usable triples that ascend from `low` and do not overlap.
abbrev pub IsBatch : ℕ → List ℕ → ℕ → List ℕ → Type 0
IsBatch max held low [] = Unit
IsBatch max held low (p ∷ ps) = (low ≤ p) × IsUsable max held p × IsBatch max held (p + 3) ps

abbrev taken : List ℕ → ℕ → List ℕ
taken held p = held ++ p ∷ (p + 1) ∷ (p + 2) ∷ []

IsFree-before : (held : List ℕ) (p q : ℕ) → IsFree (taken held p) q → IsFree held q × ((p ≡ q) → ⊥)
IsFree-before held p q f = (
  record {
    rest = λ i. f.rest ((In-append q held _).1 (inl i));
    grpc = λ i. f.grpc ((In-append (q + 1) held _).1 (inl i));
    p2p = λ i. f.p2p ((In-append (q + 2) held _).1 (inl i));
  },
  λ e. f.rest ((In-append q held _).1 (inr (ground arith))),
)

IsFree-after : (held : List ℕ) (p q : ℕ) → p + 3 ≤ q → IsFree held q → IsFree (taken held p) q
IsFree-after held p q gap f = record {
  rest = λ i. elim ((In-append q held _).0 i) [ inl h ↦ f.rest h | inr h ↦ ground arith ];
  grpc = λ i. elim ((In-append (q + 1) held _).0 i) [ inl h ↦ f.grpc h | inr h ↦ ground arith ];
  p2p = λ i. elim ((In-append (q + 2) held _).0 i) [ inl h ↦ f.p2p h | inr h ↦ ground arith ];
}

IsBatch-before :
    (max : ℕ) (held : List ℕ) (p low : ℕ) (ps : List ℕ)
    → IsBatch max (taken held p) low ps
    → IsBatch max held low ps
IsBatch-before max held p low [] b = tt
IsBatch-before max held p low (q ∷ ps) (ge, u, b) = (
  ge,
  record { to_max = u.to_max; aligned = u.aligned; free = (IsFree-before held p q u.free).0 },
  IsBatch-before max held p (q + 3) ps b,
)

IsBatch-after :
    (max : ℕ) (held : List ℕ) (p low : ℕ) (ps : List ℕ)
    → p + 3 ≤ low
    → IsBatch max held low ps
    → IsBatch max (taken held p) low ps
IsBatch-after max held p low [] gap b = tt
IsBatch-after max held p low (q ∷ ps) gap (ge, u, b) = (
  ge,
  record {
    to_max = u.to_max;
    aligned = u.aligned;
    free = IsFree-after held p q (omega arith) u.free;
  },
  IsBatch-after max held p (q + 3) ps (omega arith) b,
)

-- What is allocated after the lowest triple `p` lies above it.
rebase :
    (base max : ℕ) (held : List ℕ) (p : ℕ) (ps : List ℕ)
    → IsLowestTriple base max held p
    → IsBatch max (taken held p) base ps
    → IsBatch max (taken held p) (p + 3) ps
rebase base max held p [] l b = tt
rebase base max held p (q ∷ ps) l (ge, u, b) = (above, u, b)
  where
    above : p + 3 ≤ q
    above =
        let (before, other) = IsFree-before held p q u.free in
        elim (aligned_order p q l.aligned u.aligned) [
          | inl lt ↦ absurd (l.lowest q ge lt u.aligned before)
          | inr (inl e) ↦ absurd (other e)
          | inr (inr gt) ↦ gt
        ]

allocate_step :
    (n base max : ℕ) (held ps : List ℕ)
    → allocate (suc n) base max held ≡ ok ps
    → (p : ℕ) × (rest : List ℕ) × (free_port_triple base max held ≡ some p)
      × (allocate n base max (taken held p) ≡ ok rest)
      × (ps ≡ p ∷ rest)
unfolding allocate
allocate_step n base max held ps e = ground arith

allocate_found :
    (n base max : ℕ) (held : List ℕ) (p : ℕ) (ps : List ℕ)
    → free_port_triple base max held ≡ some p
    → allocate n base max (taken held p) ≡ ok ps
    → allocate (suc n) base max held ≡ ok (p ∷ ps)
unfolding allocate
allocate_found n base max held p ps e done = ground arith

-- A successful allocation returns as many triples as were asked for: each within the range,
-- divisible by 3 and free of the held ports, in ascending order and disjoint from one another.
pub allocate_disjoint :
    (triples base max : ℕ) (held ps : List ℕ)
    → allocate triples base max held ≡ ok ps
    → (length ps ≡ triples) × IsBatch max held base ps
unfolding allocate
allocate_disjoint zero base max held [] e = (refl, tt)
allocate_disjoint zero base max held (p ∷ ps) e = cc
allocate_disjoint (suc n) base max held ps e =
    let (p, rest, found, more, same) = allocate_step n base max held ps e in
    let l = triple_sound base max held p found in
    let (len, batch) = allocate_disjoint n base max (taken held p) rest more in
    rw same (
      ap suc len,
      (
        l.from_base,
        record { to_max = l.to_max; aligned = l.aligned; free = l.free },
        IsBatch-before max held p (p + 3) rest (rebase base max held p rest l batch),
      ),
    )

weaken :
    (max : ℕ) (held : List ℕ) (low low' : ℕ) (ps : List ℕ)
    → low ≤ low'
    → IsBatch max held low' ps
    → IsBatch max held low ps
weaken max held low low' [] h b = tt
weaken max held low low' (p ∷ ps) h (ge, u, b) = (omega arith, u, b)

-- Where a batch exists, its head is no lower than the triple that the search finds.
allocate_complete :
    (triples base max : ℕ) (held qs : List ℕ)
    → length qs ≡ triples
    → IsBatch max held base qs
    → (ps : List ℕ) × (allocate triples base max held ≡ ok ps)
unfolding allocate
allocate_complete zero base max held qs len b = ([], refl)
allocate_complete (suc n) base max held [] len b = absurd (omega arith)
allocate_complete (suc n) base max held (q ∷ qs) len (ge, u, b) =
    elim (Option-cases (free_port_triple base max held)) [
      | inl e ↦ absurd (triple_none base max held e q ge u.to_max u.aligned u.free)
      | inr (p, e) ↦
          let l = triple_sound base max held p e in
          let low : p ≤ q = elim (aligned_order p q l.aligned u.aligned) [
            | inl lt ↦ absurd (l.lowest q ge lt u.aligned u.free)
            | inr le ↦ omega arith
          ] in
          let gap : p + 3 ≤ q + 3 = omega arith in
          let (ps, done) = allocate_complete n base max (taken held p) qs (omega arith) (
            weaken max (taken held p) base (q + 3) qs (omega arith)
              (IsBatch-after max held p (q + 3) qs gap b)) in
          (p ∷ ps, allocate_found n base max held p ps e done)
    ]

-- The pool is reported as exhausted exactly when the range does not hold that many disjoint free
-- triples that start at multiples of 3: the greedy choice never fails where another choice of such
-- triples would succeed.
pub allocate-exhausted :
    (triples base max : ℕ) (held : List ℕ)
    → (allocate triples base max held ≡ err exhausted)
      ↔ ((qs : List ℕ) → length qs ≡ triples → ¬ IsBatch max held base qs)
allocate-exhausted triples base max held = (
  λ e qs len b.
      let (ps, done) = allocate_complete triples base max held qs len b in cc (sym e ∙ done),
  λ none_fits. elim (result_cases (allocate triples base max held)) [
    | inl (ps, e) ↦
        let (len, b) = allocate_disjoint triples base max held ps e in absurd (none_fits ps len b)
    | inr e ↦ e
  ],
)
