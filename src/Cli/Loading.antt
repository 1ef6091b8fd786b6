-- ===== src/Cli/Loading.antt =====
-- The images of the node, `ensure_images` of crates/signet-cli/src/local.rs. What ctr lists is
-- searched as a text, as in the code.
pub mod Idle
use text.Mathlib.Text.{◌==◌ as str_eq}
use signet_sandbox.Prelude.{
  ℕ, String, Bool, true, false, ◌&&◌, List, [], ◌∷◌, ◌++◌, Option, none, some, Result, ok, err,
  if◌then◌else◌,
}
use signet_sandbox.Actions.{Action, pure, fail, attempt, ◌>>=◌}
use signet_sandbox.Rpc.{format}
use signet_sandbox.Texts.{codes}
use signet_sandbox.Cli.{has_slash, full_image, fully_qualified, required_refs}
use signet_sandbox.Cli.Cluster.{Output, says}

-- The name to pull, and the retags.
abbrev pub Image : Type 0
Image = String × List String

abbrev pub images : List Image
images =
    ("signet-api:latest", [])
    ∷ ("signet-signer:latest", "signet-signer:dev" ∷ [])
    ∷ ("signet-faucet:latest", "signet-faucet:dev" ∷ [])
    ∷ ("electrs:latest", "electrs:dev" ∷ "electrs:0.11.1" ∷ [])
    ∷ ("bitcoin/bitcoin:29.4", [])
    ∷ ("mempool/backend:v3.3.1", [])
    ∷ ("mempool/frontend:v3.3.1", [])
    ∷ []

-- The commands of docker: `list_refs`, `import_copy`, `pull` and `tag` run ctr in the node.
pub data DockerCommand : Type 0 where
  list_refs copy_in import_copy : DockerCommand
  inspect save pull : String → DockerCommand
  tag : String → String → DockerCommand

-- An error is a command that did not start.
pub record Docker (H : Type 0) : Type 0 where
  pub docker : DockerCommand → Action H String Output
  pub remove_copy : H → H

abbrev line : String → List ℕ
line r = codes r ++ 10 ∷ []

abbrev pub is_listed : List ℕ → String → Bool
unfolding says
is_listed listed r = says (line r) listed

abbrev pub all_listed : List ℕ → List String → Bool
unfolding is_listed
all_listed listed [] = true
all_listed listed (r ∷ refs) = is_listed listed r && all_listed listed refs

abbrev pub add_all : List ℕ → List String → List ℕ
add_all listed [] = listed
add_all listed (r ∷ refs) = add_all (listed ++ line r) refs

abbrev pub candidates : String → String → List String
unfolding has_slash full_image
candidates registry name =
    if has_slash name then name ∷ [] else name ∷ full_image registry name ∷ []

abbrev pub pull_source : String → String → String
unfolding has_slash full_image
pull_source registry name =
    if has_slash name then format ("docker.io/" ∷ name ∷ []) else full_image registry name

abbrev pub listing : Result String Output → List ℕ
listing (ok out) = codes out.stdout ++ 10 ∷ []
listing (err e) = 10 ∷ []

abbrev succeeds : Result String Output → Bool
succeeds (ok out) = out.success
succeeds (err e) = false

module _ {H : Type 0} (node : Docker H) where
  abbrev captured : Output → Action H String String
  captured out = if out.success then pure out.stdout else fail out.stderr

  unfoldable pub run_capture : DockerCommand → Action H String String
  run_capture command = do out ← node.docker command; captured out

  unfoldable pub node_image_list : Action H String (List ℕ)
  node_image_list = do out ← attempt (node.docker list_refs); pure (listing out)

  -- The first candidate that the docker of the host has.
  unfoldable pub host_ref : List String → Action H String (Option String)
  host_ref [] = pure none
  host_ref (r ∷ refs) = do
    out ← attempt (node.docker (inspect r))
    let rest = host_ref refs in if succeeds out then pure (some r) else rest

  unfoldable pub tag_each : String → List String → Action H String (Unit {0})
  unfolding run_capture
  tag_each imported [] = pure tt
  tag_each imported (r ∷ refs) =
      let rest = tag_each imported refs in
      if str_eq r imported then rest else (do tagged ← run_capture (tag imported r); rest)

  unfoldable pub transfer : String → List String → Action H String (Unit {0})
  unfolding run_capture tag_each fully_qualified
  transfer source required = do
    saved ← run_capture (save source)
    copied ← run_capture copy_in
    imported ← run_capture import_copy
    tagged ← tag_each (fully_qualified source) required
    λ s. (ok tt, node.remove_copy s)

  -- `ctr_quiet` with `tag` for each reference that is not listed.
  unfoldable pub tag_missing : String → List String → List ℕ → Action H String (List ℕ)
  unfolding run_capture
  tag_missing source [] listed = pure listed
  tag_missing source (r ∷ refs) listed =
      if is_listed listed r
      then tag_missing source refs listed
      else (do tagged ← run_capture (tag source r); tag_missing source refs (listed ++ line r))

  -- What is listed, and whether the image failed.
  abbrev pub pulled :
      String → List String → List ℕ → Result String String → Action H String (List ℕ × Bool)
  unfolding tag_missing
  pulled source required listed (err e) = pure (listed, true)
  pulled source required listed (ok text) = do
    now_listed ← tag_missing source required listed
    pure (now_listed, false)

  unfoldable pub pull_image : String → List String → List ℕ → Action H String (List ℕ × Bool)
  unfolding run_capture pulled
  pull_image source required listed = do
    outcome ← attempt (run_capture (pull source))
    pulled source required listed outcome

  abbrev pub transferred :
      String → List String → List ℕ → Result String (Unit {0}) → Action H String (List ℕ × Bool)
  unfolding pull_image
  transferred source required listed (ok done) = pure (add_all listed required, false)
  transferred source required listed (err e) = pull_image source required listed

  abbrev pub from_host :
      String → List String → List ℕ → Option String → Action H String (List ℕ × Bool)
  unfolding transfer transferred pull_image
  from_host source required listed none = pull_image source required listed
  from_host source required listed (some r) = do
    outcome ← attempt (transfer r required)
    transferred source required listed outcome

  unfoldable pub ensure_image : String → Image → List ℕ → Action H String (List ℕ × Bool)
  unfolding required_refs host_ref candidates pull_source from_host
  ensure_image registry (name, retags) listed =
      if all_listed listed (required_refs registry name retags) then pure (listed, false) else (do
        found ← host_ref (candidates registry name)
        from_host (pull_source registry name) (required_refs registry name retags) listed found)

  -- The labels of the images that failed, in order.
  unfoldable pub ensure_each : String → List Image → List ℕ → Action H String (List (List String))
  unfolding ensure_image required_refs
  ensure_each registry [] listed = pure []
  ensure_each registry ((name, retags) ∷ more) listed = do
    (now_listed, failed) ← ensure_image registry (name, retags) listed
    labels ← ensure_each registry more now_listed
    pure (if failed then required_refs registry name retags ∷ labels else labels)

  abbrev pub verdict : List (List String) → Action H String (Unit {0})
  verdict [] = pure tt
  verdict (label ∷ labels) = fail "images failed to resolve"

  unfoldable pub ensure_images : String → Action H String (Unit {0})
  unfolding node_image_list ensure_each
  ensure_images registry = do
    listed ← node_image_list
    failed ← ensure_each registry images listed
    verdict failed
