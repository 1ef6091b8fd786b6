-- ===== src/Cli/Params.antt =====
-- What `up` sends for its flags and its configuration.
use mathlib.Core.Path.{subst}
use signet_sandbox.Prelude.{
  ℕ, ◌-◌, ◌^◌, ◌<◌, ◌≤◌, ◌≡◌, refl, ap, ◌∙◌, String, Option, none, some, Result, ok, err, arith,
  bind_ok, ◌>>=◌,
}
use signet_sandbox.Integers.{ℤ, pos, negsuc}
use signet_sandbox.Texts.{codes}
use signet_sandbox.Core.{CreateParams}
use signet_sandbox.Duration.{DurationError, parse_duration_secs}
use signet_sandbox.Cli.{
  CliError, SandboxConfig, of_config, as_i64, ttl_of, ttl_secs, name_of, or_default,
  build_create_params,
}

-- The flag, or else what the configuration says.
abbrev pub first_of : {A : Type 0} → Option A → Option A → Option A
first_of (some flag) config = some flag
first_of none config = config

-- What is sent for a text: the duration it denotes, or a negative number from 2^63 seconds on.
abbrev pub IsTtl : Option String → Option ℤ → Type 0
IsTtl none ttl = ttl ≡ none
IsTtl (some text) ttl =
    (secs : ℕ) × (parse_duration_secs (codes text) ≡ ok secs)
    × (secs < 2 ^ 63 → ttl ≡ some (pos secs))
    × (2 ^ 63 ≤ secs → ttl ≡ some (negsuc (2 ^ 64 - 1 - secs)))

ok-inj : {E A : Type 0} (a b : A) → ◌≡◌ {A = Result E A} (ok a) (ok b) → a ≡ b
ok-inj a b h = cc

IsTtl-text :
    (text : String) (ttl : Option ℤ) → ttl_secs (some text) none ≡ ok ttl → IsTtl (some text) ttl
unfolding ttl_secs as_i64
IsTtl-text text ttl h = go (parse_duration_secs (codes text)) h
  where
    go :
        (r : Result DurationError ℕ)
        → ttl_of r ≡ ok ttl
        → (secs : ℕ) × (r ≡ ok secs)
          × (secs < 2 ^ 63 → ttl ≡ some (pos secs))
          × (2 ^ 63 ≤ secs → ttl ≡ some (negsuc (2 ^ 64 - 1 - secs)))
    go (ok secs) k =
        (secs, refl, λ below. ground (arith, k, below), λ past. ground (arith, k, past))
    go (err e) k = cc

IsTtl-is :
    (flag config : Option String) (ttl : Option ℤ)
    → ttl_secs flag config ≡ ok ttl
    → IsTtl (first_of flag config) ttl
unfolding ttl_secs
IsTtl-is (some flag) config ttl h = IsTtl-text flag ttl h
IsTtl-is none (some config) ttl h = IsTtl-text config ttl h
IsTtl-is none none ttl h = cc

name_is :
    (flag config : Option String) (name : String)
    → name_of flag config ≡ ok name
    → first_of flag config ≡ some name
unfolding name_of
name_is (some flag) config name h = cc
name_is none (some config) name h = cc
name_is none none name h = cc

-- Parameters that are built have the name of the flag or else of the configuration, and the TTL
-- that the flag's text denotes or else the configuration's, in seconds, as long as it is below 2^63;
-- a longer one is sent as a negative number.
pub build_create_params_sound :
    (config : Option SandboxConfig) (name_flag ttl_flag : Option String) (params : CreateParams)
    → build_create_params config name_flag ttl_flag ≡ ok params
    → (first_of name_flag (of_config (λ c. c.name) config) ≡ some params.name)
      × IsTtl (first_of ttl_flag (of_config (λ c. c.ttl) config)) params.ttl_secs
unfolding build_create_params
build_create_params_sound config name_flag ttl_flag params h =
    let made : Option ℤ → String → Result CliError CreateParams = λ ttl name. ok (record {
      name = name;
      block_policy = of_config (λ c. c.block_policy) config;
      components = or_default (of_config (λ c. c.components) config);
      versions = of_config (λ c. c.versions) config;
      ttl_secs = ttl;
    }) in
    let naming : Option ℤ → Result CliError CreateParams =
      λ ttl. name_of name_flag (of_config (λ c. c.name) config) >>= made ttl in
    let (ttl, e, f) = bind_ok (ttl_secs ttl_flag (of_config (λ c. c.ttl) config)) naming params h in
    let (name, g, k) =
      bind_ok (name_of name_flag (of_config (λ c. c.name) config)) (made ttl) params f in
    (
      name_is name_flag (of_config (λ c. c.name) config) params.name
          (g ∙ ap ok (ap (λ (p : CreateParams). p.name) (ok-inj _ params k))),
      subst (IsTtl (first_of ttl_flag (of_config (λ c. c.ttl) config)))
          (ap (λ (p : CreateParams). p.ttl_secs) (ok-inj _ params k))
          (IsTtl-is ttl_flag (of_config (λ c. c.ttl) config) ttl e),
    )
