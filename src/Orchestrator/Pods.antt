-- ===== src/Orchestrator/Pods.antt =====
-- Commands in the pods of Lightning instances:
-- crates/signet-orchestrator/src/lib.rs.
use text.Mathlib.Text.{◌==◌ as str_eq}
use signet_sandbox.Prelude.{
  ℕ, String, Bool, false, List, [], ◌∷◌, ◌++◌, Option, none, some, Result, ok, err, if◌then◌else◌,
}
use signet_sandbox.Actions.{Action, pure, lift, map_err, ◌>>=◌}
use signet_sandbox.Rpc.{format}
use signet_sandbox.Maps.{lookup, Map}
use signet_sandbox.Encoding.{encode_hex}
use signet_sandbox.Platform.{Platform, World, Execution, exec as exec_request, get_secret}
use signet_sandbox.Platform.Calls.{request}
use signet_sandbox.Orchestrator.Naming.{OrchestrateError, kube, exec, namespace_for, lnd_pod_name}

abbrev join : List String → String
join [] = ""
join (s ∷ []) = s
join (s ∷ t ∷ rest) = format (s ∷ " " ∷ join (t ∷ rest) ∷ [])

abbrev lnd_macaroon_path : String
lnd_macaroon_path = "/root/.lnd/data/chain/bitcoin/signet/admin.macaroon"

abbrev lnd_tls_cert_flag : String
lnd_tls_cert_flag = "--tlscertpath=/root/.lnd/tls/tls.crt"

abbrev pub lncli_base : List String
lncli_base = "lncli" ∷ "--network=signet" ∷ lnd_tls_cert_flag ∷ []

abbrev succeeded : Option (Option String) → Bool
succeeded (some (some status)) = str_eq status "Success"
succeeded _ = false

-- The bytes of a command that succeeded.
abbrev pub output_of : String → String → Execution → Result OrchestrateError (List ℕ)
output_of command pod e = elim e.stdout [
  | none ↦ err (exec "no stdout")
  | some (err message) ↦ err (exec message)
  | some (ok bytes) ↦
      if succeeded e.status
      then ok bytes
      else err (exec (format (command ∷ " in " ∷ pod ∷ " failed" ∷ [])))
]

module _ {C : Type 0} (platform : Platform C) where
  unfoldable pub exec_in_pod :
      String → String → List String → Action (World C) OrchestrateError (List ℕ)
  unfolding request
  exec_in_pod env_id instance' args = do
    execution ←
        map_err kube
          (request platform (exec_request (namespace_for env_id) (lnd_pod_name instance') args))
    lift (output_of (join args) (lnd_pod_name instance') execution)

  unfoldable pub lightning_admin_macaroon :
      String → String → Action (World C) OrchestrateError (List ℕ)
  unfolding exec_in_pod encode_hex
  lightning_admin_macaroon env_id instance' = do
    buf ← exec_in_pod env_id instance' ("cat" ∷ lnd_macaroon_path ∷ [])
    pure (encode_hex buf)

  abbrev pub ca_of : String → Option (Map (List ℕ)) → Result OrchestrateError (List ℕ)
  unfolding lookup encode_hex
  ca_of instance' none = err (exec (format ("secret lnd-" ∷ instance' ∷ "-tls has no ca.crt" ∷ [])))
  ca_of instance' (some entries) = elim (lookup "ca.crt" entries) [
    | none ↦ err (exec (format ("secret lnd-" ∷ instance' ∷ "-tls has no ca.crt" ∷ [])))
    | some bytes ↦ ok (encode_hex bytes)
  ]

  unfoldable pub lightning_tls_ca : String → String → Action (World C) OrchestrateError (List ℕ)
  unfolding request
  lightning_tls_ca env_id instance' = do
    secret ← map_err kube (
        request platform
          (get_secret (namespace_for env_id) (format ("lnd-" ∷ instance' ∷ "-tls" ∷ []))))
    lift (ca_of instance' secret)

  abbrev parse_node_id : Option (Option String) → Result OrchestrateError String
  parse_node_id none = err (exec "getinfo output is not JSON")
  parse_node_id (some none) = err (exec "getinfo has no identity_pubkey")
  parse_node_id (some (some node_id)) = ok node_id

  unfoldable pub lightning_node_id : String → String → Action (World C) OrchestrateError String
  unfolding exec_in_pod
  lightning_node_id env_id instance' = do
    buf ← exec_in_pod env_id instance' (lncli_base ++ "getinfo" ∷ [])
    lift (parse_node_id (platform.json_text_field "identity_pubkey" buf))
