-- ===== src/Signer/Search/Ends.antt =====
-- The search ends: it takes a bounded number of steps, in every order of them, and it is never
-- stuck before every thread has returned.
use signet_sandbox.Prelude.{
  ◌≤◌, Bool-cases, ◌⊎◌, inl, inr, ℕ, zero, suc, ◌+◌, ◌*◌, ◌-◌, ◌^◌, ◌<◌, ◌≡◌, ◌≢◌, refl, ap, ◌∙◌,
  sym, Bool, ltb, ◌==◌, ==_iff, arith,
}
use signet_sandbox.Signer.Search.{
  Shared, Worker, loading, checking, storing, stopping, finished, advance, act, Search, update,
  Step, Run, begin, next, IsJoined, after, start,
}

-- A bound on the accesses that a thread has left.
pub weight : Worker → ℕ
weight (loading nonce) = 2 * (2 ^ 32 - nonce) + 4
weight (checking nonce) = 2 * (2 ^ 32 - nonce) + 3
weight (storing nonce) = 2
weight stopping = 1
weight finished = 0

pub total : ℕ → (ℕ → Worker) → ℕ
unfolding weight
total zero workers = 0
total (suc k) workers = weight (workers k) + total k workers

weight_bound : (w : Worker) → weight w ≤ 2 ^ 33 + 4
unfolding weight
weight_bound (loading nonce) = omega arith
weight_bound (checking nonce) = omega arith
weight_bound (storing nonce) = omega arith
weight_bound stopping = omega arith
weight_bound finished = omega arith

module _ (threads : ℕ) (meets : ℕ → Bool) where
  act_lighter :
      (w : Worker) (s : Shared)
      → 0 < threads
      → w ≢ finished
      → weight (act threads meets w s).0 < weight w
  unfolding act advance weight
  act_lighter (loading nonce) s h busy = elim (Bool-cases s.stop) [
    | inl e ↦ rw e (omega arith)
    | inr e ↦ rw e (omega arith)
  ]
  act_lighter (checking nonce) s h busy = elim (Bool-cases (meets nonce)) [
    | inl e ↦ rw e (omega arith)
    | inr e ↦ elim (Bool-cases (ltb (nonce + threads) (2 ^ 32))) [
      | inl fits ↦ rw (e, fits) (ground (arith, fits, h))
      | inr past ↦ rw (e, past) (omega arith)
    ]
  ]
  act_lighter (storing nonce) s h busy = omega arith
  act_lighter stopping s h busy = omega arith
  act_lighter finished s h busy = absurd (busy refl)

  total_same :
      (k : ℕ) (workers : ℕ → Worker) (t : ℕ) (w : Worker)
      → k ≤ t
      → total k (update workers t w) ≡ total k workers
  unfolding total update
  total_same zero workers t w h = refl
  total_same (suc k) workers t w h = ground (arith, h, total_same k workers t w)

  total_lighter :
      (k : ℕ) (workers : ℕ → Worker) (t : ℕ) (w : Worker)
      → t < k
      → weight w < weight (workers t)
      → total k (update workers t w) < total k workers
  unfolding total update
  total_lighter zero workers t w h l = absurd (omega (arith, h))
  total_lighter (suc k) workers t w h l = elim (Bool-cases (k == t)) [
    | inl e ↦
        let same : weight (workers t) ≡ weight (workers k) =
          ap (λ (u : ℕ). weight (workers u)) (sym ((==_iff k t).0 e)) in
        rw e (omega (arith, same, l, total_same k workers t w (ground (arith, e))))
    | inr e ↦ rw e (ground (arith, h, l, e, total_lighter k workers t w))
  ]

  total_bound : (k : ℕ) (workers : ℕ → Worker) → total k workers ≤ k * (2 ^ 33 + 4)
  unfolding total
  total_bound zero workers = omega arith
  total_bound (suc k) workers = omega (arith, weight_bound (workers k), total_bound k workers)

  Run-lighter :
      (n : ℕ) (s : Search)
      → 0 < threads
      → Run threads meets n s
      → n + total threads s.workers ≤ threads * (2 ^ 33 + 4)
  Run-lighter n s h begin = omega (arith, total_bound threads start.workers)
  Run-lighter _ _ h (next {n = m} {s = r} run (Step.pick t below busy)) = omega (
    arith,
    Run-lighter m r h run,
    total_lighter threads r.workers t _ below (act_lighter (r.workers t) r.shared h busy),
  )

  worker_cases : (w : Worker) → (w ≡ finished) ⊎ (w ≢ finished)
  unfolding weight
  worker_cases finished = inl refl
  worker_cases stopping = inr λ e. absurd (omega (arith, ap weight e))
  worker_cases (storing nonce) = inr λ e. absurd (omega (arith, ap weight e))
  worker_cases (checking nonce) = inr λ e. absurd (omega (arith, ap weight e))
  worker_cases (loading nonce) = inr λ e. absurd (omega (arith, ap weight e))

  find_busy :
      (k : ℕ) (workers : ℕ → Worker)
      → ((t : ℕ) → t < k → workers t ≡ finished) ⊎ ((t : ℕ) × (t < k) × (workers t ≢ finished))
  find_busy zero workers = inl λ t h. absurd (omega (arith, h))
  find_busy (suc k) workers = elim (find_busy k workers) [
    | inr (t, h, busy) ↦ inr (t, omega (arith, h), busy)
    | inl done ↦ elim (worker_cases (workers k)) [
      | inr busy ↦ inr (k, omega arith, busy)
      | inl e ↦ inl λ t h. elim (Bool-cases (t == k)) [
        | inl same ↦ ap workers ((==_iff t k).0 same) ∙ e
        | inr other ↦ done t (ground (arith, h, other))
      ]
    ]
  ]

  -- However the threads interleave, the search takes at most `threads * (2^33 + 4)` steps, and as
  -- long as some thread has not returned, a thread can act. There is at least one thread.
  pub search_ends :
      (n : ℕ) (s : Search)
      → 0 < threads
      → Run threads meets n s
      → (n ≤ threads * (2 ^ 33 + 4))
        × (IsJoined threads s ⊎ ((r : Search) × Step threads meets s r))
  search_ends n s h run = (
    omega (arith, Run-lighter n s h run),
    elim (find_busy threads s.workers) [
      | inl done ↦ inl done
      | inr (t, below, busy) ↦ inr (after threads meets s t, Step.pick t below busy)
    ],
  )
