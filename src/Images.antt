-- ===== src/Images.antt =====
-- Component selection and image resolution of crates/signet-orchestrator/src/lib.rs. An image
-- reference is the list of its code points.
pub mod Components
pub mod Resolved
use text.Mathlib.Text.{◌==◌ as str_eq}
use signet_sandbox.Prelude.{
  ℕ, zero, suc, String, Bool, true, false, not, ◌+◌, ◌||◌, ◌&&◌, List, [], ◌∷◌, ◌++◌, Option, none,
  some, Result, ok, err, ltb, ◌==◌, if◌then◌else◌, ◌>>=◌, ok_or,
}
use signet_sandbox.Words.{is_digit, is_lower, is_upper}
use signet_sandbox.Texts.{codes, strip_prefix, utf8_len, replace_first}
use signet_sandbox.Maps.{Map, lookup, insert, insert_all}
use signet_sandbox.Versions.{VersionCatalog, SelectionError, default_version, validate_selection}
use Components.{ComponentSpec, components}

pub data VersionError : Type 0 where
  unknown_component bad_tag : String → VersionError
  incompatible : SelectionError → VersionError

abbrev is_tag_char : ℕ → Bool
is_tag_char c = is_digit c || is_lower c || is_upper c || c == b'.' || c == b'_' || c == b'-'

abbrev pub all_chars : (ℕ → Bool) → List ℕ → Bool
all_chars p [] = true
all_chars p (c ∷ s) = p c && all_chars p s

unfoldable pub validate_tag : String → Result VersionError (Unit {0})
unfolding utf8_len
validate_tag tag =
    if utf8_len (codes tag) == 0
      || ltb 64 (utf8_len (codes tag))
      || not (all_chars is_tag_char (codes tag))
    then err (bad_tag tag)
    else ok tt

validate_tags : Map String → Result VersionError (Unit {0})
unfolding validate_tag
validate_tags [] = ok tt
validate_tags ((component, tag) ∷ tags) = do done ← validate_tag tag; validate_tags tags

-- Component, repository and registry prefix.
abbrev pub versioned_components : List (String × String × String)
versioned_components =
    ("bitcoind", "bitcoin/bitcoin", "docker.io/")
    ∷ ("electrs", "electrs", "ghcr.io/nully0x/")
    ∷ ("lnd", "lightninglabs/lnd", "docker.io/")
    ∷ ("explorer", "mempool/backend", "docker.io/")
    ∷ []

abbrev pub pin : Option (Map String) → String → Option String
pin none component = none
pin (some tags) component = lookup component tags

-- The user's pin of a component, or the catalog's default.
unfoldable pub tag_for : VersionCatalog → Option (Map String) → String → Option String
unfolding default_version lookup
tag_for catalog tags component = elim (pin tags component) [
  | some tag ↦ some tag
  | none ↦ default_version catalog component
]

abbrev pub image_ref : String → String → String → List ℕ
image_ref registry repo tag = codes registry ++ (codes repo ++ (b':' ∷ codes tag))

-- The loop over `VERSIONED_COMPONENTS`.
resolve_versioned :
    VersionCatalog
    → Option (Map String)
    → List (String × String × String)
    → Map (List ℕ)
    → Result VersionError (Map (List ℕ))
unfolding tag_for validate_tag insert
resolve_versioned catalog tags [] images = ok images
resolve_versioned catalog tags ((component, repo, registry) ∷ rest) images = do
  tag ← ok_or (tag_for catalog tags component) (unknown_component component)
  done ← validate_tag tag
  resolve_versioned catalog tags rest (insert component (image_ref registry repo tag) images)

abbrev tags_or_empty : Option (Map String) → Map String
tags_or_empty none = []
tags_or_empty (some tags) = tags

abbrev selection_error : Result SelectionError (Unit {0}) → Result VersionError (Unit {0})
selection_error (ok u) = ok u
selection_error (err e) = err (incompatible e)

abbrev base_images : Map (List ℕ)
base_images = ("faucet", codes "signet-faucet:dev") ∷ ("signer", codes "signet-signer:dev") ∷ []

-- The explorer pod pins backend and frontend to the same tag.
with_frontend : Map (List ℕ) → Map (List ℕ)
unfolding lookup insert replace_first
with_frontend images = elim (lookup "explorer" images) [
  | none ↦ images
  | some backend ↦
      insert "explorer-web"
        (replace_first (codes "mempool/backend") (codes "mempool/frontend") backend) images
]

unfoldable pub resolve_images :
    VersionCatalog → Option (Map String) → Result VersionError (Map (List ℕ))
unfolding validate_tags validate_selection resolve_versioned with_frontend
resolve_images catalog tags = do
  tags_ok ← validate_tags (tags_or_empty tags)
  selected ← selection_error (validate_selection catalog (tags_or_empty tags))
  images ← resolve_versioned catalog tags versioned_components base_images
  ok (with_frontend images)

find_spec : String → List ComponentSpec → Option ComponentSpec
find_spec key [] = none
find_spec key (s ∷ specs) = if str_eq s.key key then some s else find_spec key specs

-- Each container of a pod takes the image with its own repository.
patch_containers : List ℕ → String → List (String × String) → Map (List ℕ) → Map (List ℕ)
unfolding insert replace_first
patch_containers image first_repo [] patched = patched
patch_containers image first_repo ((container, repo) ∷ rest) patched =
    patch_containers image first_repo rest
      (insert container (replace_first (codes first_repo) (codes repo) image) patched)

abbrev first_repo : ComponentSpec → String
first_repo s = elim s.containers [ [] ↦ "" | c ∷ cs ↦ c.1 ]

container_images_onto : Map (List ℕ) → Map (List ℕ) → Map (List ℕ)
unfolding patch_containers find_spec insert
container_images_onto [] patched = patched
container_images_onto ((key, image) ∷ images) patched =
    container_images_onto images (elim (find_spec key components) [
      | some spec ↦ patch_containers image (first_repo spec) spec.containers patched
      | none ↦ insert key image patched
    ])

-- From images keyed by component to images keyed by container.
unfoldable pub container_images : Map (List ℕ) → Map (List ℕ)
unfolding container_images_onto
container_images images = container_images_onto images []
