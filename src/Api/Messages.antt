-- ===== src/Api/Messages.antt =====
-- The texts of version errors: crates/signet-core/src/versions.rs and
-- crates/signet-orchestrator/src/lib.rs.
use signet_sandbox.Prelude.{String, [], ◌∷◌, none, some, Result, ok, err}
use signet_sandbox.Rpc.{RpcError, error, invalid_params, format}
use signet_sandbox.Maps.{Map, lookup}
use signet_sandbox.Versions.{VersionCatalog, VersionEntry, SelectionError, unknown_version, unmet}
use signet_sandbox.Images.{VersionError, unknown_component, bad_tag, incompatible}

abbrev join_keys : Map VersionEntry → String
join_keys [] = ""
join_keys ((key, entry) ∷ []) = key
join_keys ((key, entry) ∷ second ∷ rest) = format (key ∷ ", " ∷ join_keys (second ∷ rest) ∷ [])

available : VersionCatalog → String → String
unfolding lookup
available catalog component = elim (lookup component catalog.entries) [
  | none ↦ "none"
  | some versions ↦ join_keys versions
]

selection_text : VersionCatalog → SelectionError → String
unfolding available
selection_text catalog (unknown_version component version) = format (
    "unknown version `"
    ∷ version
    ∷ "` for `"
    ∷ component
    ∷ "` (available: "
    ∷ available catalog component
    ∷ ")"
    ∷ [])
selection_text catalog (unmet component version dependency constraint dep_version) = format (
    component ∷ " " ∷ version ∷ " requires " ∷ dependency ∷ " " ∷ constraint ∷ ", but "
    ∷ dep_version ∷ " was selected" ∷ [])

unfoldable pub version_text : VersionCatalog → VersionError → String
unfolding selection_text
version_text catalog (unknown_component component) =
    format
      ("unknown component `" ∷ component ∷ "` (expected bitcoind, electrs, explorer, or lnd)" ∷ [])
version_text catalog (bad_tag tag) =
    format ("invalid image tag `" ∷ tag ∷ "` (expected alphanumeric with . _ -)" ∷ [])
version_text catalog (incompatible e) = selection_text catalog e

-- A version error is an INVALID_PARAMS with its text.
unfoldable pub version_result :
    {A : Type 0} → VersionCatalog → Result VersionError A → Result RpcError A
unfolding version_text
version_result catalog (ok a) = ok a
version_result catalog (err e) = err (error invalid_params (version_text catalog e))
