-- ===== src/Orchestrator/Reaping.antt =====
-- The reaper takes exactly the namespaces that are provably expired.
use signet_sandbox.Prelude.{
  ℕ, ◌<◌, ◌≡◌, ◌↔◌, ◌⊎◌, String, true, List, [], ◌∷◌, Option, some, TextIn, arith,
}
use signet_sandbox.Platform.{Namespace}
use signet_sandbox.Orchestrator.Reaper.{labelled, timestamp, expired_namespace_names}

-- A namespace of that name that has the label and a time stamp that parses and has passed.
abbrev pub ProvablyExpired : (String → Option ℕ) → ℕ → String → Namespace → Type 0
ProvablyExpired parse now name ns =
    (ns.name ≡ some name)
    × (labelled ns ≡ true)
    × ((t : ℕ) × (timestamp parse ns ≡ some t) × (t < now))

-- One of the namespaces is.
abbrev pub SomeExpired : (String → Option ℕ) → ℕ → String → List Namespace → Type 0
SomeExpired parse now name [] = ⊥
SomeExpired parse now name (ns ∷ nss) =
    ProvablyExpired parse now name ns ⊎ SomeExpired parse now name nss

-- A name is selected exactly when one of the namespaces has it, carries the environment label,
-- and has an expiry annotation that parses to a time before `now`.
pub expired_namespace_names_exact :
    (parse : String → Option ℕ) (now : ℕ) (name : String) (nss : List Namespace)
    → TextIn name (expired_namespace_names parse now nss) ↔ SomeExpired parse now name nss
unfolding expired_namespace_names
expired_namespace_names_exact parse now name nss = (to nss, from nss)
  where
    to :
        (nss : List Namespace)
        → TextIn name (expired_namespace_names parse now nss)
        → SomeExpired parse now name nss
    to [] h = h
    to (ns ∷ nss) h = ground (arith, to nss)

    from :
        (nss : List Namespace)
        → SomeExpired parse now name nss
        → TextIn name (expired_namespace_names parse now nss)
    from [] h = h
    from (ns ∷ nss) h = ground (arith, from nss)
