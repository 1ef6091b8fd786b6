-- ===== src/Versions/Selection.antt =====
-- What an accepted selection of versions satisfies.
use signet_sandbox.Prelude.{
  String, ◌≡◌, ◌↔◌, refl, true, [], ◌∷◌, some, ok, All, Option-cases, inl, inr, arith,
}
use signet_sandbox.Maps.{Map, lookup}
use signet_sandbox.Versions.{
  VersionCatalog, VersionEntry, has, effective, satisfies, check_known, check_requires,
  check_component, check_components, validate_selection,
}

module _ (catalog : VersionCatalog) (tags : Map String) where
  -- The constraint holds for the version of the dependency that is in effect, if there is one.
  abbrev pub IsMet : String × String → Type 0
  IsMet r = (v : String) → effective catalog tags r.0 ≡ some v → satisfies v r.1 ≡ true

  -- Every constraint of the entry in effect holds.
  abbrev pub IsConsistent : String × Map VersionEntry → Type 0
  IsConsistent c =
      (v : String) (entry : VersionEntry)
      → effective catalog tags c.0 ≡ some v
      → lookup v c.1 ≡ some entry
      → All IsMet entry.requires

  abbrev pub IsKnown : String × String → Type 0
  IsKnown t = has catalog t.0 t.1 ≡ true

  IsKnown-iff : (ts : Map String) → (check_known catalog ts ≡ ok tt) ↔ All IsKnown ts
  unfolding check_known
  IsKnown-iff [] = (λ _. tt, λ _. refl)
  IsKnown-iff ((c, v) ∷ ts) = ground (arith, IsKnown-iff ts)

  requires_step :
      (c v : String) (d k : String) (rs : Map String)
      → (check_requires catalog tags c v ((d, k) ∷ rs) ≡ ok tt)
        ↔ (IsMet (d, k) × (check_requires catalog tags c v rs ≡ ok tt))
  unfolding check_requires
  requires_step c v d k rs = elim (Option-cases (effective catalog tags d)) [
    | inl e ↦ (λ h. (λ w f. cc, ground (arith, e)), λ h. ground (arith, e))
    | inr (w, e) ↦
        (λ h. (λ w' f. ground (arith, e), ground (arith, e)), λ h. ground (arith, e, h.0 w e))
  ]

  requires_iff :
      (c v : String) (rs : Map String) → (check_requires catalog tags c v rs ≡ ok tt) ↔ All IsMet rs
  requires_iff c v [] = (λ _. tt, λ _. unfold check_requires in refl)
  requires_iff c v ((d, k) ∷ rs) = (
    λ h. let (met, rest) = (requires_step c v d k rs).0 h in (met, (requires_iff c v rs).0 rest),
    λ h. (requires_step c v d k rs).1 (h.0, (requires_iff c v rs).1 h.1),
  )

  component_sound :
      (c : String) (versions : Map VersionEntry)
      → check_component catalog tags c versions ≡ ok tt
      → IsConsistent (c, versions)
  unfolding check_component
  component_sound c versions h v entry f g =
      (requires_iff c v entry.requires).0 (ground (arith, f, g, h))

  component_complete :
      (c : String) (versions : Map VersionEntry)
      → IsConsistent (c, versions)
      → check_component catalog tags c versions ≡ ok tt
  unfolding check_component
  component_complete c versions h = elim (Option-cases (effective catalog tags c)) [
    | inl e ↦ ground (arith, e)
    | inr (v, e) ↦ elim (Option-cases (lookup v versions)) [
      | inl absent ↦ ground (arith, e, absent)
      | inr (entry, found) ↦
          ground (arith, e, found, (requires_iff c v entry.requires).1 (h v entry e found))
    ]
  ]

  components_iff :
      (cs : Map (Map VersionEntry))
      → (check_components catalog tags cs ≡ ok tt) ↔ All IsConsistent cs
  unfolding check_components
  components_iff [] = (λ _. tt, λ _. refl)
  components_iff ((c, versions) ∷ cs) = (
    λ h.
        (component_sound c versions (ground (arith, h)), (components_iff cs).0 (ground (arith, h))),
    λ h. ground (arith, component_complete c versions h.0, (components_iff cs).1 h.1),
  )

  -- A selection is accepted exactly when every pinned version is in the catalog and, for every
  -- component of the catalog, the entry in effect (the pin, or the default) has all its constraints
  -- met by the versions in effect of the components that it depends on.
  pub validate_selection_exact :
      (validate_selection catalog tags ≡ ok tt)
      ↔ (All IsKnown tags × All IsConsistent catalog.entries)
  unfolding validate_selection
  validate_selection_exact = (
    λ h. (
      (IsKnown-iff tags).0 (ground (arith, h)),
      (components_iff catalog.entries).0 (ground (arith, h)),
    ),
    λ h. ground (arith, (IsKnown-iff tags).1 h.0, (components_iff catalog.entries).1 h.1),
  )
