-- ===== src/Cli/Waiting.antt =====
-- The waiting of `up` in crates/signet-cli/src/main.rs: for the environment to be ready, and then for
-- the wallets of its Lightning instances. `S` is the world outside, with a clock in seconds.
use signet_sandbox.Prelude.{
  ℕ, zero, suc, String, Bool, true, false, ◌&&◌, List, [], ◌∷◌, none, some, Result, ok, err, leb,
  if◌then◌else◌,
}
use signet_sandbox.Maps.{Map, lookup}
use signet_sandbox.Core.{
  ConnectionBundle, EnvStatus, LightningConnection, ready, provisioning, stopped, expired,
  destroyed,
}

-- `poll` is the request `environment.get` and the decoding of its answer.
pub record Outside (S : Type 0) : Type 0 where
  pub now : S → ℕ
  pub sleep : ℕ → S → S
  pub poll : String → S → Result String ConnectionBundle × S

-- `unfinished` is a loop that ran out of fuel.
pub data Waited : Type 0 where
  done : ConnectionBundle → Waited
  timed_out unfinished : Waited
  terminal : EnvStatus → Waited
  failed : String → Waited

unfoldable pub has_instance : Map LightningConnection → String → Bool
unfolding lookup
has_instance connections name = elim (lookup name connections) [ none ↦ false | some c ↦ true ]

-- `have.is_empty()`: no instance is missing.
unfoldable pub has_all : Map LightningConnection → List String → Bool
unfolding has_instance
has_all connections [] = true
has_all connections (name ∷ names) = has_instance connections name && has_all connections names

module _ {S : Type 0} (o : Outside S) (poll_secs deadline : ℕ) where
  unfoldable pub by_status :
      (String → S → Waited × S) → ConnectionBundle → EnvStatus → S → Waited × S
  by_status again bundle ready s = (done bundle, s)
  by_status again bundle provisioning s = again bundle.environment_id s
  by_status again bundle stopped s = (terminal stopped, s)
  by_status again bundle expired s = (terminal expired, s)
  by_status again bundle destroyed s = (terminal destroyed, s)

  -- What a poll says: the status decides.
  unfoldable pub judge : (String → S → Waited × S) → Result String ConnectionBundle × S → Waited × S
  unfolding by_status
  judge again (err e, s) = (failed e, s)
  judge again (ok bundle, s) = by_status again bundle bundle.status s

  unfoldable pub ready_loop : ℕ → String → S → Waited × S
  unfolding judge
  ready_loop zero id s = (unfinished, s)
  ready_loop (suc fuel) id s =
      let rest = judge (ready_loop fuel) (o.poll id (o.sleep poll_secs s)) in
      if leb deadline (o.now s) then (timed_out, s) else rest

  -- The wallets of all the names, or another round if there is still time.
  unfoldable pub judge_wallets :
      List String → (String → S → Waited × S) → Result String ConnectionBundle × S → Waited × S
  unfolding has_all
  judge_wallets names again (err e, s) = (failed e, s)
  judge_wallets names again (ok bundle, s) =
      if has_all bundle.lightning names
      then (done bundle, s)
      else if leb deadline (o.now s)
      then (timed_out, s)
      else again bundle.environment_id (o.sleep poll_secs s)

  unfoldable pub wallet_loop : ℕ → List String → String → S → Waited × S
  unfolding judge_wallets
  wallet_loop zero names id s = (unfinished, s)
  wallet_loop (suc fuel) names id s = judge_wallets names (wallet_loop fuel names) (o.poll id s)
