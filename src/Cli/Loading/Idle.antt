-- ===== src/Cli/Loading/Idle.antt =====
-- When the images need nothing.
use signet_sandbox.Prelude.{ℕ, ◌≡◌, refl, String, Bool, true, false, ◌&&◌, List, [], ◌∷◌, ok}
use signet_sandbox.Actions.{pure}
use signet_sandbox.Cli.{required_refs}
use signet_sandbox.Cli.Loading.{
  Image, images, Docker, list_refs, all_listed, listing, ensure_image, ensure_each, node_image_list,
  ensure_images,
}

-- Every reference that the images need is listed.
unfoldable pub has_all : String → List Image → List ℕ → Bool
unfolding required_refs all_listed
has_all registry [] listed = true
has_all registry ((name, retags) ∷ more) listed =
    all_listed listed (required_refs registry name retags) && has_all registry more listed

both : (a b : Bool) → a && b ≡ true → (a ≡ true) × (b ≡ true)
both true b h = (refl, h)
both false b h = (h, cc)

module _ {H : Type 0} (node : Docker H) (registry : String) where
  image_idle :
      (name : String) (retags : List String) (listed : List ℕ)
      → all_listed listed (required_refs registry name retags) ≡ true
      → ensure_image node registry (name, retags) listed ≡ pure (listed, false)
  unfolding ensure_image
  image_idle name retags listed h = rw h refl

  each_idle :
      (more : List Image) (listed : List ℕ) (s : H)
      → has_all registry more listed ≡ true
      → ensure_each node registry more listed s ≡ (ok [], s)
  unfolding ensure_each has_all
  each_idle [] listed s h = refl
  each_idle ((name, retags) ∷ more) listed s h =
      let (now, later) =
        both (all_listed listed (required_refs registry name retags)) (has_all registry more listed)
          h in
      rw (image_idle name retags listed now) (rw (each_idle more listed s later) refl)

  -- When everything that the images need is listed, setting the images up succeeds and runs no
  -- command but the listing: nothing is saved, copied, pulled or tagged.
  pub ensure_images_idle :
      (s : H)
      → has_all registry images (listing (node.docker list_refs s).0) ≡ true
      → ensure_images node registry s ≡ (ok tt, (node.docker list_refs s).1)
  unfolding ensure_images node_image_list
  ensure_images_idle s h =
      rw (each_idle images (listing (node.docker list_refs s).0) (node.docker list_refs s).1 h) refl
