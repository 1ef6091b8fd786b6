-- ===== src/Versions/Order.antt =====
-- `compare_segments` is the lexicographic order of version numbers padded by zeros.
use signet_sandbox.Prelude.{
  ℕ, zero, suc, ◌+◌, ◌≤◌, ◌<◌, ◌≡◌, ◌↔◌, ◌⊎◌, inl, inr, max, compare, Ordering, List, [], ◌∷◌,
  length, arith, refl, sym, ap, ◌∙◌,
}
use signet_sandbox.Versions.{segment, compare_from, compare_segments}

segment_past : (a : List ℕ) (i : ℕ) → length a ≤ i → segment a i ≡ 0
segment_past [] i h = refl
segment_past (x ∷ a) zero h = absurd (omega arith)
segment_past (x ∷ a) (suc i) h = segment_past a i (omega arith)

-- `a` lies below `b`: at the first segment where they differ, that of `a` is less.
pub record IsBelow (a b : List ℕ) : Type 0 where
  pub at : ℕ
  pub same : (j : ℕ) → j < at → segment a j ≡ segment b j
  pub less : segment a at < segment b at

pub IsSame : List ℕ → List ℕ → Type 0
IsSame a b = (j : ℕ) → segment a j ≡ segment b j

compare_cases :
    (a b : ℕ)
    → ((compare a b ≡ Ordering.lt) × (a < b))
      ⊎ (((compare a b ≡ Ordering.eq) × (a ≡ b)) ⊎ ((compare a b ≡ Ordering.gt) × (b < a)))
compare_cases a b = ground arith

-- What each answer says, where the segments before `i` agree.
abbrev Outcome : List ℕ → List ℕ → ℕ → Ordering → Type 0
Outcome a b n Ordering.lt = IsBelow a b
Outcome a b n Ordering.eq = (j : ℕ) → j < n → segment a j ≡ segment b j
Outcome a b n Ordering.gt = IsBelow b a

agree_step :
    (a b : List ℕ) (i : ℕ)
    → ((j : ℕ) → j < i → segment a j ≡ segment b j)
    → segment a i ≡ segment b i
    → (j : ℕ) → j < i + 1
    → segment a j ≡ segment b j
agree_step a b i before here j h = elim (split j i h) [ inl lt ↦ before j lt | inr e ↦ rw e here ]
  where
    split : (j i : ℕ) → j < i + 1 → (j < i) ⊎ (j ≡ i)
    split j i h = grind arith

compare_from-Outcome :
    (rounds i n : ℕ) (a b : List ℕ)
    → i + rounds ≡ n
    → ((j : ℕ) → j < i → segment a j ≡ segment b j)
    → Outcome a b n (compare_from rounds i a b)
unfolding compare_from
compare_from-Outcome zero i n a b e before = λ j h. before j (omega arith)
compare_from-Outcome (suc k) i n a b e before = elim (compare_cases (segment a i) (segment b i)) [
  | inl (c, less) ↦ rw c (record { at = i; same = before; less = less })
  | inr (inl (c, same)) ↦
      rw c (compare_from-Outcome k (i + 1) n a b (omega arith) (agree_step a b i before same))
  | inr (inr (c, less)) ↦ rw c (record { at = i; same = λ j h. sym (before j h); less = less })
]

same_all :
    (a b : List ℕ)
    → ((j : ℕ) → j < max (length a) (length b) → segment a j ≡ segment b j)
    → (j : ℕ) → segment a j ≡ segment b j
same_all a b h j = elim (split j (max (length a) (length b))) [
  | inl lt ↦ h j lt
  | inr ge ↦ segment_past a j (omega arith) ∙ sym (segment_past b j (omega arith))
]
  where
    split : (j i : ℕ) → (j < i) ⊎ (i ≤ j)
    split j i = grind arith

compare_segments-Outcome :
    (a b : List ℕ) → Outcome a b (max (length a) (length b)) (compare_segments a b)
unfolding compare_segments
compare_segments-Outcome a b =
    compare_from-Outcome (max (length a) (length b)) 0 _ a b (omega arith)
      (λ j h. absurd (omega arith))

not_same-IsBelow : (a b : List ℕ) → IsSame a b → ¬ IsBelow a b
unfolding IsSame
not_same-IsBelow a b s l = omega (arith, s l.at, l.less)

not_both-IsBelow : (a b : List ℕ) → IsBelow a b → ¬ IsBelow b a
not_both-IsBelow a b l r = elim (order l.at r.at) [
  | inl lt ↦ omega (arith, r.same l.at lt, l.less)
  | inr (inl gt) ↦ omega (arith, l.same r.at gt, r.less)
  | inr (inr e) ↦ absurd (omega (arith, r.less, l.less, ap (segment a) e, ap (segment b) e))
]
  where
    order : (i j : ℕ) → (i < j) ⊎ ((j < i) ⊎ (i ≡ j))
    order i j = grind arith

order_unique :
    (a b : List ℕ) (n : ℕ) (o : Ordering)
    → n ≡ max (length a) (length b)
    → Outcome a b n o
    → (o ≡ Ordering.lt ↔ IsBelow a b)
      × (o ≡ Ordering.eq ↔ IsSame a b)
      × (o ≡ Ordering.gt ↔ IsBelow b a)
unfolding IsSame
order_unique a b n Ordering.lt e l = (
  (λ _. l, λ _. refl),
  (λ c. cc, λ s. absurd (not_same-IsBelow a b s l)),
  (λ c. cc, λ r. absurd (not_both-IsBelow a b l r)),
)
order_unique a b n Ordering.eq e h =
    let s = same_all a b (λ j k. h j (omega arith)) in
    (
      (λ c. cc, λ l. absurd (not_same-IsBelow a b s l)),
      (λ _. s, λ _. refl),
      (λ c. cc, λ r. absurd (not_same-IsBelow b a (λ j. sym (s j)) r)),
    )
order_unique a b n Ordering.gt e r = (
  (λ c. cc, λ l. absurd (not_both-IsBelow a b l r)),
  (λ c. cc, λ s. absurd (not_same-IsBelow b a (λ j. sym (s j)) r)),
  (λ _. r, λ _. refl),
)

-- The comparison is the lexicographic order of the segment sequences, each continued by zeros: it
-- answers less, equal or greater exactly when the first difference, if any, says so.
pub compare_segments_exact :
    (a b : List ℕ)
    → (compare_segments a b ≡ Ordering.lt ↔ IsBelow a b)
      × (compare_segments a b ≡ Ordering.eq ↔ IsSame a b)
      × (compare_segments a b ≡ Ordering.gt ↔ IsBelow b a)
compare_segments_exact a b =
    order_unique a b _ (compare_segments a b) refl (compare_segments-Outcome a b)
