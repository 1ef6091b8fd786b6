-- ===== src/Orchestrator/Mesh.antt =====
-- The mesh of Lightning peers: crates/signet-orchestrator/src/lib.rs. `json_of` is serde_json's
-- parser.
pub mod Pairs
use text.Mathlib.Text.{◌==◌ as str_eq}
use signet_sandbox.Prelude.{
  ℕ, ◌+◌, String, Bool, true, false, ◌||◌, List, [], ◌∷◌, ◌++◌, length, Option, none, some, Result,
  ok, err, if◌then◌else◌, ltb,
}
use signet_sandbox.Actions.{Action, pure, fail, lift, attempt, ◌>>=◌}
use signet_sandbox.Rpc.{format}
use signet_sandbox.Bitcoind.{Json, string, array, get, Jsons, no_items, item}
use signet_sandbox.Platform.{Platform, World}
use signet_sandbox.Orchestrator.Naming.{OrchestrateError, exec}
use signet_sandbox.Orchestrator.Pods.{exec_in_pod, lightning_node_id, lncli_base}

abbrev add_key : Option Json → List String → List String
add_key (some (string key)) keys = key ∷ keys
add_key _ keys = keys

-- The `pub_key` of each peer that has one.
unfoldable pub keys_of : Jsons → List String
unfolding get
keys_of no_items = []
keys_of (item peer peers) = add_key (get "pub_key" peer) (keys_of peers)

abbrev keys_in : Option Json → List String
unfolding keys_of get
keys_in (some (array peers)) = keys_of peers
keys_in _ = []

unfoldable pub parse_peer_keys : Result String Json → Result OrchestrateError (List String)
unfolding keys_in keys_of get
parse_peer_keys (err e) = err (exec (format ("listpeers output is not JSON: " ∷ e ∷ [])))
parse_peer_keys (ok json) = ok (keys_in (get "peers" json))

unfoldable pub any_key : String → List String → Bool
any_key key [] = false
any_key key (k ∷ keys) = str_eq k key || any_key key keys

module _ {C : Type 0} (platform : Platform C) (json_of : List ℕ → Result String Json) where
  unfoldable pub lightning_connect_peer :
      String → String → String → String → Action (World C) OrchestrateError (Unit {0})
  unfolding exec_in_pod
  lightning_connect_peer env_id instance' peer_node_id peer_instance = do
    out ← exec_in_pod platform env_id instance' (
        lncli_base
        ++ "connect" ∷ format (peer_node_id ∷ "@lnd-" ∷ peer_instance ∷ ":9735" ∷ []) ∷ [])
    pure tt

  unfoldable pub lightning_peer_keys :
      String → String → Action (World C) OrchestrateError (List String)
  unfolding exec_in_pod parse_peer_keys
  lightning_peer_keys env_id instance' = do
    buf ← exec_in_pod platform env_id instance' (lncli_base ++ "listpeers" ∷ [])
    lift (parse_peer_keys (json_of buf))

  -- A failed connect whose peer is there after all is no error, and not counted.
  unfoldable pub connected :
      String
      → String
      → String
      → Result OrchestrateError (Unit {0})
      → Action (World C) OrchestrateError ℕ
  unfolding lightning_peer_keys any_key
  connected env_id a b_node_id (ok u) = pure 1
  connected env_id a b_node_id (err e) = do
    peers ← lightning_peer_keys env_id a
    if any_key b_node_id peers then pure 0 else fail e

  -- One pair, whose first instance has the peers `a_peers`.
  unfoldable pub connect_pair :
      String → String → List String → String → String → Action (World C) OrchestrateError ℕ
  unfolding connected lightning_connect_peer any_key
  connect_pair env_id a a_peers b b_node_id = if any_key b_node_id a_peers then pure 0 else (do
    outcome ← attempt (lightning_connect_peer env_id a b_node_id b)
    connected env_id a b_node_id outcome)

  -- The instances behind `a`, each with its node's key.
  unfoldable pub connect_later :
      String → String → List String → List (String × String) → Action (World C) OrchestrateError ℕ
  unfolding connect_pair
  connect_later env_id a a_peers [] = pure 0
  connect_later env_id a a_peers ((b, b_node_id) ∷ rest) = do
    initiated ← connect_pair env_id a a_peers b b_node_id
    more ← connect_later env_id a a_peers rest
    pure (initiated + more)

  unfoldable pub connect_each :
      String → List (String × String) → Action (World C) OrchestrateError ℕ
  unfolding connect_later lightning_peer_keys
  connect_each env_id [] = pure 0
  connect_each env_id ((a, a_node_id) ∷ rest) = do
    a_peers ← lightning_peer_keys env_id a
    initiated ← connect_later env_id a a_peers rest
    more ← connect_each env_id rest
    pure (initiated + more)

  unfoldable pub with_node_ids :
      String → List String → Action (World C) OrchestrateError (List (String × String))
  unfolding lightning_node_id
  with_node_ids env_id [] = pure []
  with_node_ids env_id (instance' ∷ rest) = do
    node_id ← lightning_node_id platform env_id instance'
    more ← with_node_ids env_id rest
    pure ((instance', node_id) ∷ more)

  unfoldable pub mesh_lightning_peers : String → List String → Action (World C) OrchestrateError ℕ
  unfolding with_node_ids connect_each
  mesh_lightning_peers env_id instances =
      if ltb (length instances) 2
      then pure 0
      else (do nodes ← with_node_ids env_id instances; connect_each env_id nodes)
