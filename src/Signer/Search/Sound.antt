-- ===== src/Signer/Search/Sound.antt =====
-- What the search finds.
use signet_sandbox.Prelude.{
  ◌≤◌, Bool-cases, inl, inr, ℕ, ◌+◌, ◌^◌, ◌<◌, ◌≡◌, Bool, true, Option, none, some, ltb, ◌==◌,
  arith,
}
use signet_sandbox.Signer.Search.{
  Shared, Worker, loading, checking, storing, stopping, finished, advance, act, Search, update,
  Step, Run, begin, next,
}

-- A nonce of 32 bits whose header meets the target.
abbrev pub IsHit : (ℕ → Bool) → ℕ → Type 0
IsHit meets nonce = (nonce < 2 ^ 32) × (meets nonce ≡ true)

module _ (threads : ℕ) (meets : ℕ → Bool) where
  abbrev IsSoundWorker : Worker → Type 0
  IsSoundWorker (loading nonce) = nonce < 2 ^ 32
  IsSoundWorker (checking nonce) = nonce < 2 ^ 32
  IsSoundWorker (storing nonce) = IsHit meets nonce
  IsSoundWorker stopping = Unit
  IsSoundWorker finished = Unit

  abbrev pub IsSoundCell : Option ℕ → Type 0
  IsSoundCell none = Unit
  IsSoundCell (some nonce) = IsHit meets nonce

  act_sound :
      (w : Worker) (s : Shared)
      → IsSoundWorker w
      → IsSoundCell s.found
      → IsSoundWorker (act threads meets w s).0 × IsSoundCell (act threads meets w s).1.found
  unfolding act advance
  act_sound (loading nonce) s h k = elim (Bool-cases s.stop) [
    | inl e ↦ rw e (_, k)
    | inr e ↦ rw e (h, k)
  ]
  act_sound (checking nonce) s h k = elim (Bool-cases (meets nonce)) [
    | inl e ↦ rw e ((h, e), k)
    | inr e ↦ elim (Bool-cases (ltb (nonce + threads) (2 ^ 32))) [
      | inl fits ↦ rw (e, fits) (ground (arith, fits), k)
      | inr past ↦ rw (e, past) (_, k)
    ]
  ]
  act_sound (storing nonce) s h k = (_, h)
  act_sound stopping s h k = (_, k)
  act_sound finished s h k = (_, k)

  abbrev pub IsSound : Search → Type 0
  IsSound s = ((t : ℕ) → t < threads → IsSoundWorker (s.workers t)) × IsSoundCell s.shared.found

  update_sound :
      (workers : ℕ → Worker) (t i : ℕ) (w : Worker)
      → IsSoundWorker w
      → IsSoundWorker (workers i)
      → IsSoundWorker (update workers t w i)
  unfolding update
  update_sound workers t i w h k = elim (Bool-cases (i == t)) [ inl e ↦ rw e h | inr e ↦ rw e k ]

  Step-IsSound : (s r : Search) → Step threads meets s r → IsSound s → IsSound r
  Step-IsSound s _ (Step.pick t below busy) (ws, cell) =
      let (w, c) = act_sound (s.workers t) s.shared (ws t below) cell in
      (λ i h. update_sound s.workers t i _ w (ws i h), c)

  -- Never more threads than `u32`s.
  pub Run-IsSound : (n : ℕ) (s : Search) → threads ≤ 2 ^ 32 → Run threads meets n s → IsSound s
  Run-IsSound n s few begin = (λ t h. omega (arith, h, few), _)
  Run-IsSound n s few (next run step) = Step-IsSound _ s step (Run-IsSound _ _ few run)
