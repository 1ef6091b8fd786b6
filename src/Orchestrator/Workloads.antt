-- ===== src/Orchestrator/Workloads.antt =====
-- Scaling, readiness, credentials and funding of one environment:
-- crates/signet-orchestrator/src/lib.rs.
use signet_sandbox.Prelude.{
  ℕ, String, Bool, false, List, [], ◌∷◌, Option, none, some, Result, ok, err, leb,
}
use signet_sandbox.Actions.{Action, pure, lift, attempt, map_err, ◌>>=◌, ◌>>◌}
use signet_sandbox.Maps.{lookup, Map}
use signet_sandbox.Platform.{
  Platform, World, KubeError, WorkloadKind, stateful_set, deployment, list_workloads, scale,
  get_stateful_set, get_secret, fund,
}
use signet_sandbox.Platform.Calls.{request}
use signet_sandbox.Orchestrator.Naming.{
  OrchestrateError, kube, faucet, manifest_kind, namespace_for, secret_name,
}

module _ {C : Type 0} (platform : Platform C) where
  -- The loop of `scale_all`; an item without a name is passed over.
  unfoldable pub scale_each :
      WorkloadKind
      → String
      → ℕ
      → List (Option String)
      → Action (World C) OrchestrateError (Unit {0})
  unfolding request
  scale_each kind ns replicas [] = pure tt
  scale_each kind ns replicas (none ∷ names) = scale_each kind ns replicas names
  scale_each kind ns replicas (some name ∷ names) = do
    map_err kube (request platform (scale kind ns name replicas))
    scale_each kind ns replicas names

  unfoldable pub scale_all :
      WorkloadKind → String → ℕ → Action (World C) OrchestrateError (Unit {0})
  unfolding request scale_each
  scale_all kind ns replicas = do
    names ← map_err kube (request platform (list_workloads kind ns))
    scale_each kind ns replicas names

  unfoldable pub set_workload_replicas : String → ℕ → Action (World C) OrchestrateError (Unit {0})
  unfolding scale_all
  set_workload_replicas env_id replicas = do
    scale_all stateful_set (namespace_for env_id) replicas
    scale_all deployment (namespace_for env_id) replicas

  abbrev has_replica : Result KubeError (Option ℕ) → Bool
  has_replica (ok (some n)) = leb 1 n
  has_replica (ok none) = false
  has_replica (err e) = false

  -- A failed request reads as not ready.
  unfoldable pub core_ready : String → Action (World C) OrchestrateError Bool
  unfolding request
  core_ready env_id = do
    sts ← attempt (request platform (get_stateful_set (namespace_for env_id) "bitcoind"))
    pure (has_replica sts)

  abbrev data_or_default : Option (Map (List ℕ)) → Map (List ℕ)
  data_or_default none = []
  data_or_default (some data') = data'

  abbrev credentials : Option (List ℕ) → Option (List ℕ) → Result OrchestrateError (String × String)
  credentials (some u) (some p) = ok (platform.from_utf8_lossy u, platform.from_utf8_lossy p)
  credentials _ _ = err (manifest_kind secret_name)

  unfoldable pub rpc_credentials : String → Action (World C) OrchestrateError (String × String)
  unfolding request lookup
  rpc_credentials env_id = do
    secret ← map_err kube (request platform (get_secret (namespace_for env_id) secret_name))
    lift (
        credentials (lookup "BITCOIN_RPC_USER" (data_or_default secret))
          (lookup "BITCOIN_RPC_PASSWORD" (data_or_default secret)))

  abbrev txid_of : Option (Option String) → Result OrchestrateError String
  txid_of none = err (faucet "bad faucet response")
  txid_of (some none) = err (faucet "faucet response missing txid")
  txid_of (some (some txid)) = ok txid

  unfoldable pub faucet_fund : String → String → ℕ → Action (World C) OrchestrateError String
  unfolding request
  faucet_fund env_id address amount_sat = do
    text ← map_err kube (request platform (fund (namespace_for env_id) address amount_sat))
    lift (txid_of (platform.response_txid text))
