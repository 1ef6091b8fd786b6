-- ===== src/Images/Resolved.antt =====
-- What `resolve_images` returns where it succeeds.
use signet_sandbox.Prelude.{
  String, ◌≡◌, ◌⊎◌, true, false, none, inl, inr, refl, List, ◌∷◌, [], Option, some, ok, arith,
  Option-cases, ℕ, ◌∙◌, ap,
}
use signet_sandbox.Texts.{codes}
use signet_sandbox.Maps.{Map, lookup, insert}
use signet_sandbox.Versions.{VersionCatalog, VersionEntry, find_default, default_version}
use signet_sandbox.Images.{
  validate_tag, tag_for, image_ref, resolve_versioned, versioned_components, base_images,
  with_frontend, resolve_images,
}

-- The first version that is marked as the default.
abbrev pub IsDefault : Map VersionEntry → String → Type 0
IsDefault [] tag = ⊥
IsDefault ((version, entry) ∷ versions) tag =
    ((entry.default ≡ true) × (tag ≡ version)) ⊎ ((entry.default ≡ false) × IsDefault versions tag)

-- The tag that the user pinned for the component, or, if none is, one that the catalog marks as
-- the component's default.
abbrev pub IsTag : VersionCatalog → Option (Map String) → String → String → Type 0
IsTag catalog tags component tag =
    ((pins : Map String) × (tags ≡ some pins) × (lookup component pins ≡ some tag))
    ⊎ (((pins : Map String) → tags ≡ some pins → lookup component pins ≡ none)
        × ((versions : Map VersionEntry) × (lookup component catalog.entries ≡ some versions)
            × IsDefault versions tag))

-- The component's image is that of a well-formed tag, which is the pin or else the default.
pub record IsPinned (catalog : VersionCatalog) (tags : Option (Map String)) (images : Map (List ℕ))
    (component image_key repo registry tag : String) : Type 0 where
  pub chosen : IsTag catalog tags component tag
  pub well_formed : validate_tag tag ≡ ok tt
  pub image : lookup image_key images ≡ some (image_ref registry repo tag)

find_default-IsDefault :
    (versions : Map VersionEntry) (tag : String)
    → find_default versions ≡ some tag
    → IsDefault versions tag
unfolding find_default
find_default-IsDefault [] tag h = cc
find_default-IsDefault ((version, entry) ∷ versions) tag h =
    ground (arith, h, find_default-IsDefault versions tag)

default_version-IsDefault :
    (catalog : VersionCatalog) (component tag : String)
    → default_version catalog component ≡ some tag
    → (versions : Map VersionEntry) × (lookup component catalog.entries ≡ some versions)
      × IsDefault versions tag
unfolding default_version
default_version-IsDefault catalog component tag h = go (lookup component catalog.entries) refl h
  where
    go :
        (found : Option (Map VersionEntry))
        → lookup component catalog.entries ≡ found
        → (elim found [ none ↦ none | some versions ↦ find_default versions ]) ≡ some tag
        → (versions : Map VersionEntry) × (lookup component catalog.entries ≡ some versions)
          × IsDefault versions tag
    go none e k = cc
    go (some versions) e k = (versions, e, find_default-IsDefault versions tag k)

tag_for-IsTag :
    (catalog : VersionCatalog) (tags : Option (Map String)) (component tag : String)
    → tag_for catalog tags component ≡ some tag
    → IsTag catalog tags component tag
unfolding tag_for
tag_for-IsTag catalog none component tag h =
    inr ((λ pins e. cc), default_version-IsDefault catalog component tag h)
tag_for-IsTag catalog (some pins) component tag h = elim (Option-cases (lookup component pins)) [
  | inl e ↦
      inr (
        (λ others same. cc),
        default_version-IsDefault catalog component tag (ground (arith, h, e)),
      )
  | inr (t, e) ↦ inl (pins, refl, ground (arith, h, e))
]

resolve_step :
    (catalog : VersionCatalog) (tags : Option (Map String)) (component repo registry : String)
    (rest : List (String × String × String)) (images out : Map (List ℕ))
    → resolve_versioned catalog tags ((component, repo, registry) ∷ rest) images ≡ ok out
    → (tag : String) × (tag_for catalog tags component ≡ some tag)
      × (validate_tag tag ≡ ok tt)
      × (resolve_versioned catalog tags rest (insert component (image_ref registry repo tag) images)
          ≡ ok out)
unfolding resolve_versioned
resolve_step catalog tags component repo registry rest images out h =
    elim (Option-cases (tag_for catalog tags component)) [
      | inl e ↦ absurd (ground (arith, e))
      | inr (tag, e) ↦ (tag, ground (arith, e), ground (arith, e), ground (arith, e))
    ]

resolve_parts :
    (catalog : VersionCatalog) (tags : Option (Map String)) (images : Map (List ℕ))
    → resolve_images catalog tags ≡ ok images
    → (out : Map (List ℕ)) × (resolve_versioned catalog tags versioned_components base_images
        ≡ ok out)
      × (images ≡ with_frontend out)
unfolding resolve_images
resolve_parts catalog tags images h = ground arith

resolve_end :
    (catalog : VersionCatalog) (tags : Option (Map String)) (images out : Map (List ℕ))
    → resolve_versioned catalog tags [] images ≡ ok out
    → out ≡ images
unfolding resolve_versioned
resolve_end catalog tags images out h = ground arith

-- The map that the loop builds from four tags.
abbrev four_images : String → String → String → String → Map (List ℕ)
four_images b e l x = insert "explorer" (image_ref "docker.io/" "mempool/backend" x) (
    insert "lnd" (image_ref "docker.io/" "lightninglabs/lnd" l) (
      insert "electrs" (image_ref "ghcr.io/nully0x/" "electrs" e)
        (insert "bitcoind" (image_ref "docker.io/" "bitcoin/bitcoin" b) base_images)))

four_lookups :
    (b e l x : String)
    → let images = with_frontend (four_images b e l x) in
      (lookup "bitcoind" images ≡ some (image_ref "docker.io/" "bitcoin/bitcoin" b))
      × (lookup "electrs" images ≡ some (image_ref "ghcr.io/nully0x/" "electrs" e))
      × (lookup "lnd" images ≡ some (image_ref "docker.io/" "lightninglabs/lnd" l))
      × (lookup "explorer" images ≡ some (image_ref "docker.io/" "mempool/backend" x))
      × (lookup "explorer-web" images ≡ some (image_ref "docker.io/" "mempool/frontend" x))
      × (lookup "signer" images ≡ some (codes "signet-signer:dev"))
      × (lookup "faucet" images ≡ some (codes "signet-faucet:dev"))
unfolding with_frontend
four_lookups b e l x = (refl, refl, refl, refl, refl, refl, refl)

-- A successful resolution gives the signer and the faucet their development images, and each
-- versioned component the image of its own repository at a well-formed tag, which is the user's pin,
-- or, if the component has none, the first version that the catalog marks as the default; the
-- explorer's frontend carries the same tag as its backend.
pub resolve_images_sound :
    (catalog : VersionCatalog) (tags : Option (Map String)) (images : Map (List ℕ))
    → resolve_images catalog tags ≡ ok images
    → (bitcoind electrs lnd explorer : String) × IsPinned catalog tags images "bitcoind" "bitcoind"
        "bitcoin/bitcoin" "docker.io/" bitcoind
      × IsPinned catalog tags images "electrs" "electrs" "electrs" "ghcr.io/nully0x/" electrs
      × IsPinned catalog tags images "lnd" "lnd" "lightninglabs/lnd" "docker.io/" lnd
      × IsPinned catalog tags images "explorer" "explorer" "mempool/backend" "docker.io/" explorer
      × IsPinned catalog tags images "explorer" "explorer-web" "mempool/frontend" "docker.io/"
          explorer
      × (lookup "signer" images ≡ some (codes "signet-signer:dev"))
      × (lookup "faucet" images ≡ some (codes "signet-faucet:dev"))
resolve_images_sound catalog tags images h =
    let (out, resolved, same) = resolve_parts catalog tags images h in
    let (t1, c1, w1, r1) = resolve_step catalog tags _ _ _ _ _ out resolved in
    let (t2, c2, w2, r2) = resolve_step catalog tags _ _ _ _ _ out r1 in
    let (t3, c3, w3, r3) = resolve_step catalog tags _ _ _ _ _ out r2 in
    let (t4, c4, w4, r4) = resolve_step catalog tags _ _ _ _ _ out r3 in
    let same' = same ∙ ap with_frontend (resolve_end catalog tags _ out r4) in
    let (l1, l2, l3, l4, l5, l6, l7) = four_lookups t1 t2 t3 t4 in
    (
      t1,
      t2,
      t3,
      t4,
      record {
        chosen = tag_for-IsTag catalog tags _ t1 c1;
        well_formed = w1;
        image = ap (lookup "bitcoind") same' ∙ l1;
      },
      record {
        chosen = tag_for-IsTag catalog tags _ t2 c2;
        well_formed = w2;
        image = ap (lookup "electrs") same' ∙ l2;
      },
      record {
        chosen = tag_for-IsTag catalog tags _ t3 c3;
        well_formed = w3;
        image = ap (lookup "lnd") same' ∙ l3;
      },
      record {
        chosen = tag_for-IsTag catalog tags _ t4 c4;
        well_formed = w4;
        image = ap (lookup "explorer") same' ∙ l4;
      },
      record {
        chosen = tag_for-IsTag catalog tags _ t4 c4;
        well_formed = w4;
        image = ap (lookup "explorer-web") same' ∙ l5;
      },
      ap (lookup "signer") same' ∙ l6,
      ap (lookup "faucet") same' ∙ l7,
    )
