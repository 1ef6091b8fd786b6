-- ===== src/Cli/Cluster/Spared.antt =====
-- When the cluster is kept.
use signet_sandbox.Prelude.{
  ℕ, zero, suc, ◌≡◌, String, Bool, true, false, Option, none, some, [], ◌∷◌, if◌then◌else◌,
}
use signet_sandbox.Rpc.{format}
use signet_sandbox.Actions.{Action, pure, fail, ◌>>=◌}
use signet_sandbox.Actions.Keeping.{Keeps, Keeps-then}
use signet_sandbox.Cli.Ports.{k3s_api_port}
use signet_sandbox.Cli.Cluster.{
  Command, cluster_get, cluster_create, kubeconfig_write, cluster_delete, cluster_start,
  inspect_balancer, node_statuses, published_ranges, Output, Host, succeeded, spec_drifted, outcome,
  run, cluster_exists, create_cluster, started, start_cluster, cluster_spec_drifted, says_ready,
  wait_rounds, wait_for_node, after_drift, prepare, ensure_cluster,
}

-- Every command but the deletion of the cluster.
abbrev pub IsGentle : Command → Type 0
IsGentle cluster_delete = ⊥
IsGentle _ = Unit

module _ {H : Type 0} (host : Host H) (P : H → Type 0) where
  -- What is known of the machine: the gentle commands keep `P`, and the balancer shows the ports
  -- of the current specification.
  pub record IsCurrent : Type 0 where
    pub gentle : (c : Command) → IsGentle c → Keeps P (host.tool c)
    pub inspects : (s : H) → P s → P (host.docker inspect_balancer s).1
    pub sleeps : (s : H) → P s → P (host.sleep s)
    pub published :
        (s : H) → spec_drifted host.bindings_of (host.docker inspect_balancer s).0 ≡ false

  module _ (current : IsCurrent) where
    outcome-Keeps : (out : Option Output) → Keeps P (outcome host out)
    outcome-Keeps none = λ s h. h
    outcome-Keeps (some out) = go out.success
      where
        go :
            (b : Bool) → Keeps {S = H} {E = String} P (if b then pure tt else fail "command failed")
        go true = λ s h. h
        go false = λ s h. h

    run-Keeps : (c : Command) → IsGentle c → Keeps P (run host c)
    unfolding run
    run-Keeps c h = Keeps-then P (host.tool c) (outcome host) (current.gentle c h) outcome-Keeps

    exists-Keeps : Keeps P (cluster_exists host)
    unfolding cluster_exists
    exists-Keeps =
        Keeps-then P (host.tool cluster_get) (λ out. pure (succeeded out))
          (current.gentle cluster_get tt) (λ out s h. h)

    create-Keeps : Keeps P (create_cluster host)
    unfolding create_cluster
    create-Keeps =
        Keeps-then P (run host command) (λ created. run host kubeconfig_write)
          (run-Keeps command tt) (λ created. run-Keeps kubeconfig_write tt)
      where
        command : Command
        command = cluster_create k3s_api_port published_ranges

    started-Keeps : (out : Option Output) → Keeps P (started host out)
    unfolding started cluster_exists
    started-Keeps none = λ s h. h
    started-Keeps (some out) = go out.success
      where
        failed : Bool → Action H String Bool
        failed still =
            if still then fail (format ("cluster start failed: " ∷ out.stderr ∷ [])) else pure true

        failed-Keeps : (still : Bool) → Keeps P (failed still)
        failed-Keeps true = λ s h. h
        failed-Keeps false = λ s h. h

        go : (b : Bool) → Keeps P (if b then pure false else (cluster_exists host >>= failed))
        go true = λ s h. h
        go false = Keeps-then P (cluster_exists host) failed exists-Keeps failed-Keeps

    start-Keeps : Keeps P (start_cluster host)
    unfolding start_cluster
    start-Keeps =
        Keeps-then P (host.tool cluster_start) (started host) (current.gentle cluster_start tt)
          started-Keeps

    kept-Keeps : Keeps P (after_drift host false)
    unfolding after_drift
    kept-Keeps = Keeps-then P (start_cluster host) again start-Keeps again-Keeps
      where
        again : Bool → Action H String (Unit {0})
        again gone = if gone then create_cluster host else pure tt

        again-Keeps : (gone : Bool) → Keeps P (again gone)
        again-Keeps true = create-Keeps
        again-Keeps false = λ s h. h

    prepare-Keeps : (exists : Bool) → Keeps P (prepare host exists)
    unfolding prepare cluster_spec_drifted
    prepare-Keeps false = create-Keeps
    prepare-Keeps true = λ s h.
        rw (current.published s)
          (kept-Keeps (host.docker inspect_balancer s).1 (current.inspects s h))

    rounds-Keeps : (rounds : ℕ) → Keeps P (wait_rounds host rounds)
    unfolding wait_rounds
    rounds-Keeps zero = λ s h. h
    rounds-Keeps (suc rounds) =
        Keeps-then P (host.tool node_statuses) polled (current.gentle node_statuses tt)
          λ out. polled-Keeps (rounds-Keeps rounds) (says_ready out)
      where
        next : Bool → Action H String (Unit {0})
        next b = if b then pure tt else (λ s. wait_rounds host rounds (host.sleep s))

        polled : Option Output → Action H String (Unit {0})
        polled out = next (says_ready out)

        polled-Keeps : Keeps P (wait_rounds host rounds) → (b : Bool) → Keeps P (next b)
        polled-Keeps later true = λ s h. h
        polled-Keeps later false = λ s h. later (host.sleep s) (current.sleeps s h)

    -- Setting the local cluster up deletes nothing while the balancer shows the ports of the
    -- current specification: what every other command keeps is kept, whichever of them fail.
    pub ensure_cluster-Keeps : Keeps P (ensure_cluster host)
    unfolding ensure_cluster wait_for_node
    ensure_cluster-Keeps =
        Keeps-then P (cluster_exists host)
          (λ exists. prepare host exists >>= λ prepared. wait_for_node host) exists-Keeps
          λ exists.
            Keeps-then P (prepare host exists) (λ prepared. wait_for_node host)
              (prepare-Keeps exists) (λ prepared. rounds-Keeps 90)
