-- ===== src/Orchestrator/Keeping.antt =====
-- The calls of Kubernetes that the lifecycle makes leave the database and the mesh tasks alone.
use signet_sandbox.Prelude.{
  ℕ, ◌≡◌, refl, ◌∙◌, String, List, [], ◌∷◌, Option, none, some, Result, ok, err, arith,
}
use signet_sandbox.Actions.{Action, continue, map_err, ◌>>=◌}
use signet_sandbox.Platform.{
  Platform, World, Request, WorkloadKind, scale, list_workloads, stateful_set, deployment,
  find_namespace,
}
use signet_sandbox.Platform.Calls.{request}
use signet_sandbox.Orchestrator.Naming.{kube, namespace_for}
use signet_sandbox.Orchestrator.Workloads.{
  set_workload_replicas, scale_all, scale_each, core_ready, rpc_credentials, faucet_fund,
}
use signet_sandbox.Orchestrator.Pods.{
  exec_in_pod, lightning_admin_macaroon, lightning_tls_ca, lightning_node_id,
}
use signet_sandbox.Orchestrator.Reaper.{
  delete_env_namespace, destroy_environment, environment_exists,
}

module _ {C E A : Type 0} where
  -- Whatever it returns, the action keeps the database.
  abbrev pub KeepsDb : Action (World C) E A → Type 0
  KeepsDb m = (w : World C) → (m w).1.db ≡ w.db

module _ {C E A B : Type 0} where
  keeps_continue :
      (f : A → Action (World C) E B)
      → ((a : A) → KeepsDb (f a))
      → (r : Result E A × World C) → (continue f r).1.db ≡ r.1.db
  keeps_continue f keeps (ok a, w) = keeps a w
  keeps_continue f keeps (err e, w) = refl

  pub keeps_bind :
      (m : Action (World C) E A) (f : A → Action (World C) E B)
      → KeepsDb m
      → ((a : A) → KeepsDb (f a))
      → KeepsDb (m >>= f)
  keeps_bind m f first second w = keeps_continue f second (m w) ∙ first w

module _ {C : Type 0} (platform : Platform C) where
  pub keeps_request : (r : Request) → KeepsDb (map_err kube (request platform r))
  unfolding request
  keeps_request r w = ground arith

  keeps_scale_each :
      (kind : WorkloadKind) (ns : String) (replicas : ℕ) (names : List (Option String))
      → KeepsDb (scale_each platform kind ns replicas names)
  unfolding scale_each
  keeps_scale_each kind ns replicas [] w = refl
  keeps_scale_each kind ns replicas (none ∷ names) w = keeps_scale_each kind ns replicas names w
  keeps_scale_each kind ns replicas (some name ∷ names) w =
      keeps_bind (map_err kube (request platform (scale kind ns name replicas)))
        (λ u. scale_each platform kind ns replicas names)
        (keeps_request (scale kind ns name replicas)) (λ u. keeps_scale_each kind ns replicas names)
        w

  keeps_scale_all :
      (kind : WorkloadKind) (ns : String) (replicas : ℕ)
      → KeepsDb (scale_all platform kind ns replicas)
  unfolding scale_all
  keeps_scale_all kind ns replicas =
      keeps_bind (map_err kube (request platform (list_workloads kind ns)))
        (scale_each platform kind ns replicas) (keeps_request (list_workloads kind ns))
        (keeps_scale_each kind ns replicas)

  -- Scaling an environment changes no table.
  pub keeps_set_workload_replicas :
      (env_id : String) (replicas : ℕ) → KeepsDb (set_workload_replicas platform env_id replicas)
  unfolding set_workload_replicas
  keeps_set_workload_replicas env_id replicas =
      keeps_bind (scale_all platform stateful_set (namespace_for env_id) replicas)
        (λ u. scale_all platform deployment (namespace_for env_id) replicas)
        (keeps_scale_all stateful_set (namespace_for env_id) replicas)
        (λ u. keeps_scale_all deployment (namespace_for env_id) replicas)

  pub keeps_environment_exists : (env_id : String) → KeepsDb (environment_exists platform env_id)
  unfolding environment_exists
  keeps_environment_exists env_id = keeps_request (find_namespace (namespace_for env_id))

  -- Neither does deleting its namespace.
  pub keeps_destroy_environment : (env_id : String) → KeepsDb (destroy_environment platform env_id)
  unfolding destroy_environment delete_env_namespace request
  keeps_destroy_environment env_id w = ground arith

  -- Nor reading the readiness and the credentials, and funding an address.
  pub keeps_core_ready : (env_id : String) → KeepsDb (core_ready platform env_id)
  unfolding core_ready request
  keeps_core_ready env_id w = ground arith

  pub keeps_rpc_credentials : (env_id : String) → KeepsDb (rpc_credentials platform env_id)
  unfolding rpc_credentials request
  keeps_rpc_credentials env_id w = ground arith

  pub keeps_faucet_fund :
      (env_id address : String) (sats : ℕ) → KeepsDb (faucet_fund platform env_id address sats)
  unfolding faucet_fund request
  keeps_faucet_fund env_id address sats w = ground arith

  -- Nor reading what a Lightning pod serves.
  pub keeps_lightning_admin_macaroon :
      (env_id name : String) → KeepsDb (lightning_admin_macaroon platform env_id name)
  unfolding lightning_admin_macaroon exec_in_pod request
  keeps_lightning_admin_macaroon env_id name w = ground arith

  pub keeps_lightning_tls_ca :
      (env_id name : String) → KeepsDb (lightning_tls_ca platform env_id name)
  unfolding lightning_tls_ca request
  keeps_lightning_tls_ca env_id name w = ground arith

  pub keeps_lightning_node_id :
      (env_id name : String) → KeepsDb (lightning_node_id platform env_id name)
  unfolding lightning_node_id exec_in_pod request
  keeps_lightning_node_id env_id name w = ground arith
