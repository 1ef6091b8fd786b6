-- ===== src/Signer/Search/Complete.antt =====
-- What the search leaves untested when every thread has returned.
use signet_sandbox.Prelude.{
  ◌≤◌, Bool-cases, ◌⊎◌, inl, inr, ℕ, zero, suc, ◌+◌, ◌*◌, ◌^◌, ◌<◌, ◌≡◌, sym, ap, ◌∙◌, Bool, true,
  false, Option, none, some, ltb, ◌==◌, ==_iff, arith,
}
use mathlib.Core.Bool.{false≢true}
use mathlib.Core.Path.{subst}
use signet_sandbox.Signer.Search.Sound.{IsHit, IsSoundCell, Run-IsSound}
use signet_sandbox.Signer.Search.{
  Shared, Worker, loading, checking, storing, stopping, finished, advance, act, Search, update,
  Step, Run, begin, next, IsJoined,
}

lt_cases : (a b : ℕ) → (a < b) ⊎ (b ≤ a)
lt_cases a b = grind arith

mul_mono : (a b n : ℕ) → a ≤ b → a * n ≤ b * n
mul_mono a b zero h = omega arith
mul_mono a b (suc n) h = omega (arith, h, mul_mono a b n h)

abbrev pub IsFound : Option ℕ → Type 0
IsFound none = ⊥
IsFound (some nonce) = Unit

module _ (threads : ℕ) (meets : ℕ → Bool) where
  -- The first `j` nonces of thread `t` were tested and failed.
  abbrev AreTested : ℕ → ℕ → Type 0
  AreTested t j = (i : ℕ) → i < j → meets (t + i * threads) ≡ false

  abbrev IsPast : ℕ → ℕ → Type 0
  IsPast t nonce = (j : ℕ) × (nonce ≡ t + j * threads) × AreTested t j

  abbrev pub IsMissed : ℕ → Type 0
  IsMissed t = (i : ℕ) → t + i * threads < 2 ^ 32 → meets (t + i * threads) ≡ false

  abbrev Holds : ℕ → Option ℕ → Worker → Type 0
  Holds t found (loading nonce) = IsPast t nonce
  Holds t found (checking nonce) = IsPast t nonce
  Holds t found (storing nonce) = Unit
  Holds t found stopping = IsFound found
  Holds t found finished = IsFound found ⊎ IsMissed t

  Holds-later :
      (t : ℕ) (found found' : Option ℕ) (w : Worker)
      → (IsFound found → IsFound found')
      → Holds t found w
      → Holds t found' w
  Holds-later t found found' (loading nonce) f h = h
  Holds-later t found found' (checking nonce) f h = h
  Holds-later t found found' (storing nonce) f h = _
  Holds-later t found found' stopping f h = f h
  Holds-later t found found' finished f (inl h) = inl (f h)
  Holds-later t found found' finished f (inr h) = inr h

  tested_more : (t j : ℕ) → AreTested t j → meets (t + j * threads) ≡ false → AreTested t (j + 1)
  tested_more t j h last i below = elim (Bool-cases (i == j)) [
    | inl e ↦ ap (λ (k : ℕ). meets (t + k * threads)) ((==_iff i j).0 e) ∙ last
    | inr e ↦ h i (ground (arith, e, below))
  ]

  missed : (t j : ℕ) → AreTested t j → 2 ^ 32 ≤ t + j * threads → IsMissed t
  missed t j h past i below = elim (lt_cases i j) [
    | inl lt ↦ h i lt
    | inr ge ↦ absurd (omega (arith, past, below, mul_mono j i threads ge))
  ]

  advance-Holds :
      (t nonce : ℕ) (found : Option ℕ)
      → IsPast t nonce
      → meets nonce ≡ false
      → Holds t found (advance threads nonce)
  unfolding advance
  advance-Holds t nonce found (j, e, h) fails =
      let tested : AreTested t (j + 1) = tested_more t j h (ap meets (sym e) ∙ fails) in
      elim (Bool-cases (ltb (nonce + threads) (2 ^ 32))) [
        | inl fits ↦ rw fits (j + 1, omega (arith, e), tested)
        | inr past ↦ rw past (inr (missed t (j + 1) tested (ground (arith, e, past))))
      ]

  act-Holds :
      (t : ℕ) (w : Worker) (s : Shared)
      → (s.stop ≡ true → IsFound s.found)
      → Holds t s.found w
      → (let (w', s') = act threads meets w s in
          Holds t s'.found w'
          × (s'.stop ≡ true → IsFound s'.found)
          × (IsFound s.found → IsFound s'.found))
  unfolding act
  act-Holds t (loading nonce) s c h = elim (Bool-cases s.stop) [
    | inl e ↦ rw e (inl (c e), λ _. c e, λ f. f)
    | inr e ↦ rw e (h, λ b. absurd (false≢true b), λ f. f)
  ]
  act-Holds t (checking nonce) s c h = elim (Bool-cases (meets nonce)) [
    | inl e ↦ rw e (_, c, λ f. f)
    | inr e ↦ rw e (advance-Holds t nonce s.found h e, c, λ f. f)
  ]
  act-Holds t (storing nonce) s c h = (_, λ e. _, λ f. _)
  act-Holds t stopping s c h = (inl h, λ e. h, λ f. f)
  act-Holds t finished s c h = (h, c, λ f. f)

  abbrev IsComplete : Search → Type 0
  IsComplete s =
      ((t : ℕ) → t < threads → Holds t s.shared.found (s.workers t))
      × (s.shared.stop ≡ true → IsFound s.shared.found)

  update-Holds :
      (workers : ℕ → Worker) (found : Option ℕ) (t i : ℕ) (w : Worker)
      → Holds t found w
      → Holds i found (workers i)
      → Holds i found (update workers t w i)
  unfolding update
  update-Holds workers found t i w h k = elim (Bool-cases (i == t)) [
    | inl e ↦ rw e (subst (λ (u : ℕ). Holds u found w) (sym ((==_iff i t).0 e)) h)
    | inr e ↦ rw e k
  ]

  Step-IsComplete : (s r : Search) → Step threads meets s r → IsComplete s → IsComplete r
  Step-IsComplete s _ (Step.pick t below busy) (ws, c) =
      let (w, c', f) = act-Holds t (s.workers t) s.shared c (ws t below) in
      (λ i h. update-Holds s.workers _ t i _ w (Holds-later i _ _ (s.workers i) f (ws i h)), c')

  Run-IsComplete : (n : ℕ) (s : Search) → Run threads meets n s → IsComplete s
  Run-IsComplete n s begin = (
    λ t h. (0, omega arith, λ i below. absurd (omega (arith, below))),
    λ b. absurd (false≢true b),
  )
  Run-IsComplete n s (next run step) = Step-IsComplete _ s step (Run-IsComplete _ _ run)

  -- Each number belongs to one of the threads.
  thread_of : (nonce : ℕ) → 0 < threads → (t i : ℕ) × (t < threads) × (nonce ≡ t + i * threads)
  thread_of zero h = (0, 0, h, omega arith)
  thread_of (suc nonce) h =
      let (t, i, below, e) = thread_of nonce h in
      elim (lt_cases (t + 1) threads) [
        | inl lt ↦ (t + 1, i, lt, omega (arith, e))
        | inr ge ↦ (0, i + 1, h, omega (arith, e, below, ge))
      ]

  all_missed :
      0 < threads
      → ((t : ℕ) → t < threads → IsMissed t)
      → (nonce : ℕ) → nonce < 2 ^ 32
      → meets nonce ≡ false
  all_missed some_thread h nonce below =
      let (t, i, lt, e) = thread_of nonce some_thread in
      ap meets e ∙ h t lt i (omega (arith, e, below))

  -- The cell of the end: a hit, or nothing when no nonce hits.
  abbrev pub IsOutcome : Option ℕ → Type 0
  IsOutcome (some nonce) = IsHit meets nonce
  IsOutcome none = (nonce : ℕ) → nonce < 2 ^ 32 → meets nonce ≡ false

  outcome :
      (found : Option ℕ)
      → 0 < threads
      → ((t : ℕ) → t < threads → Holds t found finished)
      → IsSoundCell threads meets found
      → IsOutcome found
  outcome (some nonce) some_thread h hit = hit
  outcome none some_thread h hit =
      all_missed some_thread λ t below. elim (h t below) [ inl f ↦ absurd f | inr m ↦ m ]

  -- When every thread has returned, whatever the order of their steps, the cell holds a nonce of 32
  -- bits whose header meets the target or, if it is empty, no nonce of 32 bits does. There are
  -- between one and 2^32 threads.
  pub search_outcome :
      (n : ℕ) (s : Search)
      → 0 < threads
      → threads ≤ 2 ^ 32
      → Run threads meets n s
      → IsJoined threads s
      → IsOutcome s.shared.found
  search_outcome n s some_thread few run joined =
      let (ws, c) = Run-IsComplete n s run in
      outcome s.shared.found some_thread
        (λ t below. subst (Holds t s.shared.found) (joined t below) (ws t below))
        (Run-IsSound threads meets n s few run).1
