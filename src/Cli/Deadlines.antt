-- ===== src/Cli/Deadlines.antt =====
-- The waiting of `up` ends.
use signet_sandbox.Prelude.{
  ℕ, zero, suc, ◌+◌, ◌≤◌, ◌<◌, ◌≡◌, refl, Bool-cases, inl, inr, String, true, List, Result, ok, err,
  leb, arith, if◌then◌else◌,
}
use signet_sandbox.Core.{
  ConnectionBundle, EnvStatus, ready, provisioning, stopped, expired, destroyed,
}
use signet_sandbox.Cli.Waiting.{
  Outside, Waited, done, timed_out, unfinished, terminal, failed, has_all, by_status, judge,
  ready_loop, judge_wallets, wallet_loop,
}

-- A sleep takes at least its seconds, and a request does not turn the clock back.
pub record IsClock {S : Type 0} (o : Outside S) : Type 0 where
  pub sleeps : (secs : ℕ) (s : S) → o.now s + secs ≤ o.now (o.sleep secs s)
  pub polls : (id : String) (s : S) → o.now s ≤ o.now (o.poll id s).1

-- The last request gave this answer, and nothing was done since.
abbrev pub LastAnswer : {S : Type 0} → Outside S → Result String ConnectionBundle → S → Type 0
LastAnswer {S = S} o answer now = (id : String) × (before : S) × (o.poll id before ≡ (answer, now))

-- A status from which an environment does not become ready.
pub data IsTerminal : EnvStatus → Type 0 where
  is_stopped : IsTerminal stopped
  is_expired : IsTerminal expired
  is_destroyed : IsTerminal destroyed

-- What the last request said: that the environment is ready, that it has that terminal status, or
-- that error; or the time is up.
abbrev pub IsVerdict : {S : Type 0} → Outside S → ℕ → Waited × S → Type 0
IsVerdict o deadline (done bundle, s) = (bundle.status ≡ ready) × LastAnswer o (ok bundle) s
IsVerdict o deadline (timed_out, s) = deadline ≤ o.now s
IsVerdict o deadline (terminal status, s) =
    IsTerminal status
    × ((bundle : ConnectionBundle) × (bundle.status ≡ status) × LastAnswer o (ok bundle) s)
IsVerdict o deadline (failed e, s) = LastAnswer o (err e) s
IsVerdict o deadline (unfinished, s) = ⊥

-- Every instance has its wallet, or the time is up, or a request failed.
abbrev pub IsWalletVerdict : List String → ℕ → ℕ → Waited → Type 0
IsWalletVerdict names deadline now (done bundle) = has_all bundle.lightning names ≡ true
IsWalletVerdict names deadline now timed_out = deadline ≤ now
IsWalletVerdict names deadline now (terminal status) = ⊥
IsWalletVerdict names deadline now (failed e) = Unit
IsWalletVerdict names deadline now unfinished = ⊥

module _ {S : Type 0} (o : Outside S) (poll_secs deadline : ℕ) (clock : IsClock o)
    (pause : 0 < poll_secs) where
  abbrev Verdict : Waited × S → Type 0
  Verdict p = IsVerdict o deadline p

  abbrev WalletVerdict : List String → Waited × S → Type 0
  WalletVerdict names p = IsWalletVerdict names deadline (o.now p.1) p.0

  by_status-Verdict :
      (again : String → S → Waited × S) (bundle : ConnectionBundle) (status : EnvStatus) (s : S)
      → bundle.status ≡ status
      → LastAnswer o (ok bundle) s
      → ((id : String) → Verdict (again id s))
      → Verdict (by_status o poll_secs deadline again bundle status s)
  unfolding by_status
  by_status-Verdict again bundle ready s e last h = (e, last)
  by_status-Verdict again bundle provisioning s e last h = h bundle.environment_id
  by_status-Verdict again bundle stopped s e last h = (is_stopped, (bundle, e, last))
  by_status-Verdict again bundle expired s e last h = (is_expired, (bundle, e, last))
  by_status-Verdict again bundle destroyed s e last h = (is_destroyed, (bundle, e, last))

  judge-Verdict :
      (again : String → S → Waited × S) (id : String) (before : S)
      (r : Result String ConnectionBundle × S)
      → o.poll id before ≡ r
      → ((id : String) → Verdict (again id r.1))
      → Verdict (judge o poll_secs deadline again r)
  unfolding judge
  judge-Verdict again id before (err e, s) last h = (id, before, last)
  judge-Verdict again id before (ok bundle, s) last h =
      by_status-Verdict again bundle bundle.status s refl (id, before, last) h

  timed-Verdict :
      (Q : Waited × S → Type 0) (s : S) (rest : Waited × S)
      → (deadline ≤ o.now s → Q (timed_out, s))
      → (o.now s < deadline → Q rest)
      → Q (if leb deadline (o.now s) then (timed_out, s) else rest)
  timed-Verdict Q s rest late early = elim (Bool-cases (leb deadline (o.now s))) [
    | inl e ↦ rw e (late (ground (arith, e)))
    | inr e ↦ rw e (early (ground (arith, e)))
  ]

  -- With a round of fuel, and more rounds than seconds left to the deadline, the wait for readiness
  -- gives a verdict: ready with the bundle of the last request, whose status is ready; a
  -- terminal status, or a failure, only as the last request gave it; a time-out only once the
  -- deadline has passed. The clock does not go back and the pause is positive.
  pub ready_loop-IsVerdict :
      (fuel : ℕ) (id : String) (s : S)
      → deadline < o.now s + fuel
      → 0 < fuel
      → IsVerdict o deadline (ready_loop o poll_secs deadline fuel id s)
  unfolding ready_loop
  ready_loop-IsVerdict zero id s time some_fuel = absurd (omega (arith, some_fuel))
  ready_loop-IsVerdict (suc fuel) id s time some_fuel =
      let slept = o.sleep poll_secs s in
      let polled = o.poll id slept in
      timed-Verdict Verdict s
        (judge o poll_secs deadline (ready_loop o poll_secs deadline fuel) polled) (λ late. late)
        λ early. judge-Verdict (ready_loop o poll_secs deadline fuel) id slept polled refl λ next.
          ready_loop-IsVerdict fuel next polled.1
            (omega (arith, time, pause, clock.sleeps poll_secs s, clock.polls id slept))
            (omega (arith, time, early))

  judge_wallets-WalletVerdict :
      (names : List String) (again : String → S → Waited × S)
      (r : Result String ConnectionBundle × S)
      → (o.now r.1 < deadline
          → (id : String) → WalletVerdict names (again id (o.sleep poll_secs r.1)))
      → WalletVerdict names (judge_wallets o poll_secs deadline names again r)
  unfolding judge_wallets
  judge_wallets-WalletVerdict names again (err e, s) h = tt
  judge_wallets-WalletVerdict names again (ok bundle, s) h =
      elim (Bool-cases (has_all bundle.lightning names)) [
        | inl e ↦ rw e e
        | inr e ↦ rw e (
            timed-Verdict (WalletVerdict names) s
              (again bundle.environment_id (o.sleep poll_secs s)) (λ late. late)
              (λ early. h early bundle.environment_id))
      ]

  -- With a round of fuel, and more rounds than seconds left to the deadline, the wait for the
  -- wallets gives a verdict: done only if every named instance is in the bundle, a time-out only
  -- once the deadline has passed. The clock does not go back and the pause is positive.
  pub wallet_loop-IsWalletVerdict :
      (fuel : ℕ) (names : List String) (id : String) (s : S)
      → deadline < o.now s + fuel
      → 0 < fuel
      → IsWalletVerdict names deadline
          (o.now (wallet_loop o poll_secs deadline fuel names id s).1)
          (wallet_loop o poll_secs deadline fuel names id s).0
  unfolding wallet_loop
  wallet_loop-IsWalletVerdict zero names id s time some_fuel = absurd (omega (arith, some_fuel))
  wallet_loop-IsWalletVerdict (suc fuel) names id s time some_fuel =
      judge_wallets-WalletVerdict names (wallet_loop o poll_secs deadline fuel names) (o.poll id s)
        λ early next.
          wallet_loop-IsWalletVerdict fuel names next (o.sleep poll_secs (o.poll id s).1)
            (omega (arith, time, pause, clock.sleeps poll_secs (o.poll id s).1, clock.polls id s))
            (omega (arith, time, early, clock.polls id s))
