-- ===== src/Cli/Cluster.antt =====
-- The local cluster in crates/signet-cli/src/local.rs: whether it is created, started or created
-- anew. `Host` is the machine with k3d, kubectl and docker.
pub mod Spared
use signet_sandbox.Prelude.{
  ℕ, zero, suc, String, Bool, true, false, ◌||◌, ◌++◌, not, List, [], ◌∷◌, Option, none, some,
  Result, ok, err, if◌then◌else◌,
}
use signet_sandbox.Cli.Ports.{
  k3s_api_port, single_ports, window_start, window_end, expected_host_ports,
  parse_host_port_bindings, same_ports,
}
use signet_sandbox.Actions.{Action, pure, fail, ◌>>=◌}
use signet_sandbox.Rpc.{format}
use signet_sandbox.Texts.{codes, strip_prefix}
use signet_sandbox.Bitcoind.{Fields}

-- The commands of k3d, kubectl and docker. A creation names the port of the cluster's API and the
-- ranges that the balancer publishes; the arguments that never vary are left out.
pub data Command : Type 0 where
  cluster_get kubeconfig_write cluster_delete cluster_start : Command
  cluster_create : ℕ → List (ℕ × ℕ) → Command
  inspect_balancer node_statuses : Command

-- The output as text, that of the errors trimmed.
pub record Output : Type 0 where
  pub success : Bool
  pub stdout : String
  pub stderr : String

-- `tool` finds k3d or kubectl and runs it: an error where it cannot be had, nothing where it does
-- not start. `bindings_of` is serde_json's reading of a map.
pub record Host (H : Type 0) : Type 0 where
  pub tool : Command → Action H String (Option Output)
  pub docker : Command → H → Option Output × H
  pub sleep : H → H
  pub bindings_of : String → Result String Fields

abbrev is_some : Option (List ℕ) → Bool
is_some none = false
is_some (some s) = true

-- `str::contains`.
unfoldable pub says : List ℕ → List ℕ → Bool
unfolding strip_prefix
says word [] = is_some (strip_prefix word [])
says word (c ∷ s) = let later = says word s in is_some (strip_prefix word (c ∷ s)) || later

abbrev each_alone : List ℕ → List (ℕ × ℕ)
each_alone [] = []
each_alone (p ∷ ports) = (p, p) ∷ each_alone ports

-- `--port` once for every fixed port, then for the window.
unfoldable pub published_ranges : List (ℕ × ℕ)
published_ranges = each_alone single_ports ++ ((window_start, window_end) ∷ [])

abbrev pub succeeded : Option Output → Bool
succeeded none = false
succeeded (some out) = out.success

abbrev ports_drifted : Result String (List ℕ) → Bool
unfolding same_ports expected_host_ports
ports_drifted (ok actual) = not (same_ports actual expected_host_ports)
ports_drifted (err e) = false

-- A balancer that cannot be inspected counts as drift, bindings that cannot be read do not.
unfoldable pub spec_drifted : (String → Result String Fields) → Option Output → Bool
unfolding parse_host_port_bindings ports_drifted same_ports expected_host_ports
spec_drifted bindings_of none = true
spec_drifted bindings_of (some out) =
    if out.success then ports_drifted (parse_host_port_bindings bindings_of out.stdout) else true

abbrev pub says_ready : Option Output → Bool
unfolding says
says_ready none = false
says_ready (some out) = says (codes "True") (codes out.stdout)

module _ {H : Type 0} (host : Host H) where
  abbrev pub outcome : Option Output → Action H String (Unit {0})
  outcome none = fail "command did not start"
  outcome (some out) = if out.success then pure tt else fail "command failed"

  -- `run`, which wants a success.
  unfoldable pub run : Command → Action H String (Unit {0})
  run command = do out ← host.tool command; outcome out

  unfoldable pub cluster_exists : Action H String Bool
  cluster_exists = do out ← host.tool cluster_get; pure (succeeded out)

  unfoldable pub create_cluster : Action H String (Unit {0})
  unfolding run published_ranges
  create_cluster = do
    created ← run (cluster_create k3s_api_port published_ranges)
    run kubeconfig_write

  unfoldable pub delete_cluster : Action H String (Unit {0})
  unfolding run
  delete_cluster = run cluster_delete

  abbrev pub started : Option Output → Action H String Bool
  unfolding cluster_exists
  started none = fail "command did not start"
  started (some out) = if out.success then pure false else (do
    still_exists ← cluster_exists
    if still_exists then fail (format ("cluster start failed: " ∷ out.stderr ∷ [])) else pure true)

  -- True where the start failed and k3d deleted the cluster.
  unfoldable pub start_cluster : Action H String Bool
  unfolding started cluster_exists
  start_cluster = do out ← host.tool cluster_start; started out

  unfoldable pub cluster_spec_drifted : Action H String Bool
  unfolding spec_drifted
  cluster_spec_drifted s =
      let (out, t) = host.docker inspect_balancer s in (ok (spec_drifted host.bindings_of out), t)

  -- 90 rounds, two seconds apart.
  unfoldable pub wait_rounds : ℕ → Action H String (Unit {0})
  wait_rounds zero = fail "node never became ready after 180s"
  wait_rounds (suc rounds) = do
    out ← host.tool node_statuses
    if says_ready out then pure tt else (λ s. wait_rounds rounds (host.sleep s))

  unfoldable pub wait_for_node : Action H String (Unit {0})
  unfolding wait_rounds
  wait_for_node = wait_rounds 90

  unfoldable pub after_drift : Bool → Action H String (Unit {0})
  unfolding delete_cluster create_cluster start_cluster
  after_drift true = do deleted ← delete_cluster; create_cluster
  after_drift false = do gone ← start_cluster; if gone then create_cluster else pure tt

  unfoldable pub prepare : Bool → Action H String (Unit {0})
  unfolding create_cluster cluster_spec_drifted after_drift
  prepare false = create_cluster
  prepare true = do drifted ← cluster_spec_drifted; after_drift drifted

  unfoldable pub ensure_cluster : Action H String (Unit {0})
  unfolding cluster_exists prepare wait_for_node
  ensure_cluster = do exists ← cluster_exists; prepared ← prepare exists; wait_for_node
