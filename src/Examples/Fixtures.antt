-- ===== src/Examples/Fixtures.antt =====
-- The platform, the tables and the callers of the runs.
use signet_sandbox.Prelude.{ℕ, String, true, false, [], ◌∷◌, Option, none, some, ok, err, Result}
use signet_sandbox.Core.{LightningInstance, lnd}
use signet_sandbox.Store.Rows.{EnvironmentRow, Db, ready, destroyed, Status}
use signet_sandbox.Store.Statements.{NewEnvironment}
use signet_sandbox.Platform.{
  Platform, World, api, Request, Answer, KubeError, find_namespace, delete_namespace,
  list_workloads,
}
use signet_sandbox.Api.State.{AppState, Caller}

-- Namespaces exist and can be deleted, and no workload runs; any other request is answered with 404.
abbrev answers : (r : Request) → Unit {0} → Result KubeError (Answer r) × Unit {0}
answers (find_namespace n) c = (ok true, c)
answers (delete_namespace n) c = (ok tt, c)
answers (list_workloads k n) c = (ok [], c)
answers r c = (err (api 404), c)

-- The only UUID is `u1`.
abbrev pub quiet_platform : Platform (Unit {0})
quiet_platform = record {
  answer = answers;
  parse_docs = λ m. none;
  parse_uuid = λ s. elim (text.Mathlib.Text.◌==◌ s "u1") [ true ↦ some 1 | false ↦ none ];
  hyphenated = λ n. "u1";
  simple = λ n. "0123456789abcdef";
  to_rfc3339 = λ n. "";
  parse_rfc3339 = λ s. some 10;
  add_seconds = λ a b. none;
  sha256 = λ s. s;
  from_utf8_lossy = λ s. "";
  json_text_field = λ f s. none;
  response_txid = λ s. none;
  signet_address = λ s. ok tt;
  is_ip_address = λ s. false;
  instance_tls = λ a b c. none;
}

abbrev row_of : ℕ → String → Status → Option ℕ → EnvironmentRow
row_of id owner status port = record {
  id = id;
  name = "demo";
  npub_owner = owner;
  status = status;
  block_policy = "on_demand";
  signet_challenge = "51";
  component_explorer = false;
  component_indexer = true;
  component_faucet = true;
  rpc_endpoint = "";
  electrum_port = port;
  explorer_port = none;
  faucet_endpoint = none;
  ttl_secs = none;
  created_at = 5;
  expires_at = none;
  versions = none;
}

abbrev pub alices : EnvironmentRow
alices = row_of 1 "alice" ready (some 20000)

abbrev pub dead : EnvironmentRow
dead = row_of 2 "bob" destroyed (some 20001)

abbrev pub tables : Db
tables = record { environments = alices ∷ dead ∷ []; lightning = []; api_tokens = []; faults = [] }

abbrev pub world : World (Unit {0})
world = record { db = tables; cluster = tt; meshes = [] }

abbrev pub alice : Caller
alice = record { npub = "alice" }

abbrev pub bob : Caller
bob = record { npub = "bob" }

abbrev pub server : AppState
server = record {
  public_url = "http://localhost";
  orchestrator = record {
    env_host = "localhost";
    ln_host = "localhost";
    url_scheme = "http";
    explorer_ports = true;
  };
  catalog = record { entries = [] };
}

abbrev pub node : LightningInstance
node = record { name = "n1"; implementation = lnd }

abbrev pub new : NewEnvironment
new = record {
  id = 3;
  name = "next";
  npub_owner = "bob";
  block_policy = "on_demand";
  signet_challenge = "51";
  component_explorer = false;
  component_indexer = true;
  component_faucet = false;
  rpc_endpoint = "";
  explorer_port = none;
  electrum_port = some 20001;
  ttl_secs = none;
  expires_at = none;
  versions = none;
}
