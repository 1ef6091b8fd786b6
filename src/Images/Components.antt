-- ===== src/Images/Components.antt =====
-- The registry of optional components, and `selected_specs`.
use text.Mathlib.Text.{◌==◌ as str_eq}
use signet_sandbox.Prelude.{
  ℕ, zero, suc, ◌+◌, String, ◌≡◌, refl, Bool, true, false, ◌||◌, List, [], ◌∷◌, ◌++◌, Option, none,
  some, get_elem?, if◌then◌else◌,
}

-- `EnvComponents`, less the Lightning instances, which no component asks for.
pub record EnvComponents : Type 0 where
  pub indexer : Bool
  pub faucet : Bool
  pub explorer : Bool

-- The manifest's text is not modelled; the key names it.
pub record ComponentSpec : Type 0 where
  pub key : String
  pub repo : String
  pub default_tag : String
  pub deps : List String
  pub versionable : Bool
  pub containers : List (String × String)
  pub requested : EnvComponents → Bool

abbrev pub electrs : ComponentSpec
electrs = record {
  key = "electrs";
  repo = "electrs";
  default_tag = "dev";
  deps = [];
  versionable = true;
  containers = ("electrs", "electrs") ∷ [];
  requested = λ c. c.indexer;
}

abbrev pub faucet : ComponentSpec
faucet = record {
  key = "faucet";
  repo = "signet-faucet";
  default_tag = "dev";
  deps = [];
  versionable = false;
  containers = ("faucet", "signet-faucet") ∷ [];
  requested = λ c. c.faucet;
}

abbrev pub explorer : ComponentSpec
explorer = record {
  key = "explorer";
  repo = "mempool/backend";
  default_tag = "v3.3.1";
  deps = "electrs" ∷ [];
  versionable = true;
  containers = ("explorer", "mempool/backend") ∷ ("explorer-web", "mempool/frontend") ∷ [];
  requested = λ c. c.explorer;
}

abbrev pub components : List ComponentSpec
components = electrs ∷ faucet ∷ explorer ∷ []

has_key : List String → String → Bool
has_key [] k = false
has_key (x ∷ xs) k = str_eq x k || has_key xs k

requested_keys : EnvComponents → List ComponentSpec → List String
requested_keys c [] = []
requested_keys c (s ∷ specs) =
    let rest = requested_keys c specs in if s.requested c then s.key ∷ rest else rest

deps_of : String → List ComponentSpec → Option (List String)
deps_of key [] = none
deps_of key (s ∷ specs) = if str_eq s.key key then some s.deps else deps_of key specs

push_new : List String → List String → List String
unfolding has_key
push_new wanted [] = wanted
push_new wanted (dep ∷ deps) =
    push_new (if has_key wanted dep then wanted else wanted ++ dep ∷ []) deps

-- The worklist loop. `none` stands for the panic of `expect`, and for fuel that ran out.
close : ℕ → ℕ → List String → Option (List String)
unfolding deps_of push_new
close zero i wanted = none
close (suc fuel) i wanted = elim (get_elem? wanted i) [
  | none ↦ some wanted
  | some key ↦ elim (deps_of key components) [
    | none ↦ none
    | some deps ↦ close fuel (i + 1) (push_new wanted deps)
  ]
]

keep_wanted : List String → List ComponentSpec → List ComponentSpec
unfolding has_key
keep_wanted wanted [] = []
keep_wanted wanted (s ∷ specs) =
    let rest = keep_wanted wanted specs in if has_key wanted s.key then s ∷ rest else rest

-- `wanted` never holds a key twice, so it holds three at most and four rounds end the loop.
unfoldable pub selected_specs : EnvComponents → Option (List ComponentSpec)
unfolding close requested_keys keep_wanted
selected_specs c = elim (close 4 0 (requested_keys c components)) [
  | none ↦ none
  | some wanted ↦ some (keep_wanted wanted components)
]

abbrev pub when : Bool → ComponentSpec → List ComponentSpec
when true s = s ∷ []
when false s = []

select :
    (indexer faucet' explorer' : Bool)
    → selected_specs (record { indexer = indexer; faucet = faucet'; explorer = explorer' })
      ≡ some
          (when (indexer || explorer') electrs ++ (when faucet' faucet ++ when explorer' explorer))
unfolding selected_specs
select true true true = refl
select true true false = refl
select true false true = refl
select true false false = refl
select false true true = refl
select false true false = refl
select false false true = refl
select false false false = refl

-- The selection never panics, and consists of the requested components and of electrs where the
-- explorer needs it, each once and every dependency before its dependent.
pub selected_specs_exact :
    (c : EnvComponents)
    → selected_specs c
      ≡ some (
          when (c.indexer || c.explorer) electrs
          ++ (when c.faucet faucet ++ when c.explorer explorer))
selected_specs_exact c = select c.indexer c.faucet c.explorer
