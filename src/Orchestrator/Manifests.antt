-- ===== src/Orchestrator/Manifests.antt =====
-- Applying manifests, and one Lightning instance: crates/signet-orchestrator/src/lib.rs.
use text.Mathlib.Text.{◌==◌ as str_eq}
use signet_sandbox.Prelude.{
  ℕ, ◌+◌, String, Bool, ◌||◌, List, [], ◌∷◌, Option, none, some, Result, ok, err, ◌==◌,
  if◌then◌else◌,
}
use signet_sandbox.Actions.{Action, pure, fail, lift, attempt, map_err, ◌>>=◌, ◌>>◌}
use signet_sandbox.Rpc.{format}
use signet_sandbox.Maps.{lookup, Map}
use signet_sandbox.Core.{LightningInstance}
use signet_sandbox.Images.{container_images}
use signet_sandbox.Platform.{
  Platform, World, KubeError, api, transport, Container, Object, Document, Manifest, lnd,
  InstanceTls, create_secret, create_service, create_object,
}
use signet_sandbox.Platform.Calls.{request}
use signet_sandbox.Orchestrator.Naming.{
  Orchestrator, OrchestrateError, kube, manifest, manifest_kind, tls,
}

-- Each container whose name has an image takes it.
unfoldable pub patch_images : Map (List ℕ) → List Container → List Container
unfolding lookup
patch_images images [] = []
patch_images images (c ∷ containers) =
    (elim (lookup c.name images) [ none ↦ c | some image ↦ record c { image = some image } ])
    ∷ patch_images images containers

abbrev patch_object : Map (List ℕ) → Object → Object
patch_object images o = elim o.containers [
  | none ↦ o
  | some containers ↦ record o { containers = some (patch_images images containers) }
]

abbrev has_containers : String → Bool
has_containers kind = str_eq kind "StatefulSet" || str_eq kind "Deployment"

abbrev is_plain : String → Bool
is_plain kind =
    str_eq kind "ConfigMap" || str_eq kind "Service" || str_eq kind "PersistentVolumeClaim"

-- The object that a document stands for, with its images.
unfoldable pub object_of : Map (List ℕ) → Document → Result OrchestrateError (String × Object)
unfolding patch_images
object_of images d = elim d.kind [
  | none ↦ err (manifest_kind d.preview)
  | some kind ↦
      if is_plain kind || has_containers kind
      then elim d.typed [
        | none ↦ err manifest
        | some o ↦ ok (kind, (if has_containers kind then patch_object images o else o))
      ]
      else err (manifest_kind kind)
]

module _ {C : Type 0} (platform : Platform C) where
  -- Documents are applied in order; the first failure ends it.
  apply_documents :
      String → Map (List ℕ) → List Document → Action (World C) OrchestrateError (Unit {0})
  unfolding request object_of
  apply_documents ns images [] = pure tt
  apply_documents ns images (d ∷ documents) = do
    (kind, object) ← lift (object_of images d)
    map_err kube (request platform (create_object ns kind object))
    apply_documents ns images documents

  abbrev documents_of : Manifest → Result OrchestrateError (List Document)
  documents_of m = elim (platform.parse_docs m) [ none ↦ err manifest | some ds ↦ ok ds ]

  unfoldable pub apply_manifest :
      String → Manifest → Map (List ℕ) → Action (World C) OrchestrateError (Unit {0})
  unfolding apply_documents container_images
  apply_manifest ns m images = do
    documents ← lift (documents_of m)
    apply_documents ns (container_images images) documents

  -- A secret that exists is kept.
  abbrev unless_exists : Result KubeError (Unit {0}) → Action (World C) OrchestrateError (Unit {0})
  unless_exists (ok u) = pure tt
  unless_exists (err (api c)) = if c == 409 then pure tt else fail (kube (api c))
  unless_exists (err transport) = fail (kube transport)

  apply_lnd_tls_secret :
      String → String → InstanceTls → Action (World C) OrchestrateError (Unit {0})
  unfolding request
  apply_lnd_tls_secret ns instance' certs = do
    outcome ← attempt (
        request platform (
          create_secret ns record {
            name = format ("lnd-" ∷ instance' ∷ "-tls" ∷ []);
            string_data =
                ("ca.crt", certs.ca_pem)
                ∷ ("tls.crt", certs.chain_pem)
                ∷ ("tls.key", certs.key_pem)
                ∷ [];
          }))
    unless_exists outcome

  -- REST, gRPC and p2p on three ports in a row.
  apply_lnd_lb : String → LightningInstance → ℕ → Action (World C) OrchestrateError (Unit {0})
  unfolding request
  apply_lnd_lb ns instance' rest_port = map_err kube (
      request platform (
        create_service ns record {
          name = format ("lnd-lb-" ∷ instance'.name ∷ []);
          selector = ("app", format ("lnd-" ∷ instance'.name ∷ [])) ∷ [];
          ports =
              record { name = some "rest"; port = rest_port; target_port = 8080 }
              ∷ record { name = some "grpc"; port = rest_port + 1; target_port = 10009 }
              ∷ record { name = some "p2p"; port = rest_port + 2; target_port = 9735 }
              ∷ [];
        }))

  abbrev certs_of : Option InstanceTls → Result OrchestrateError InstanceTls
  certs_of none = err tls
  certs_of (some certs) = ok certs

  unfoldable pub apply_lnd :
      Orchestrator
      → String
      → Map (List ℕ)
      → LightningInstance × ℕ
      → Action (World C) OrchestrateError (Unit {0})
  unfolding apply_lnd_tls_secret apply_manifest apply_lnd_lb
  apply_lnd o ns images (instance', rest_port) = do
    certs ← lift (certs_of (platform.instance_tls instance'.name ns o.ln_host))
    apply_lnd_tls_secret ns instance'.name certs
    apply_manifest ns (lnd instance'.name) images
    apply_lnd_lb ns instance' rest_port
