-- ===== src/Cli/Profiles.antt =====
-- The profile of crates/signet-cli/src/profile.rs and the tokens that crates/signet-cli/src/main.rs
-- mints with its identity.
pub mod Identity
use text.Mathlib.Text.{◌==◌ as str_eq}
use signet_sandbox.Prelude.{
  String, Bool, true, false, ◌||◌, [], ◌∷◌, Option, none, some, Result, ok, err, if◌then◌else◌,
}
use signet_sandbox.Actions.{Action, pure, fail, lift, map_err, attempt, ◌>>=◌}
use signet_sandbox.Rpc.{format, ErrorCode, unauthenticated}
use signet_sandbox.Bitcoind.{Json, string, get}
use signet_sandbox.Cli.{Auth, bearer, nip98, Common, Profile, CallError, rpc}

-- The machine: the profile's file, the nostr crate's keys, and the API over HTTP. `said` is the
-- text of an error.
pub record Desk (H C : Type 0) : Type 0 where
  pub load : H → Result String Profile
  pub save : Profile → Action H String (Unit {0})
  pub generate : Action H String String
  pub parse_key : String → Result String String
  pub new_client : String → Auth → Action H String C
  pub call : C → String → Action H CallError Json
  pub said : CallError → String

abbrev pub is_set : Option String → Bool
is_set none = false
is_set (some text) = true

abbrev pub is_unauthenticated : ErrorCode → Bool
is_unauthenticated unauthenticated = true
is_unauthenticated _ = false

abbrev pub parsed : Result String String → Result String String
parsed (ok key) = ok key
parsed (err e) = err (format ("invalid Nostr secret key: " ∷ e ∷ []))

abbrev pub token_in : Option Json → Result String String
token_in (some (string token)) = ok token
token_in _ = err "token.create returned no token"

module _ {H C : Type 0} (desk : Desk H C) where
  unfoldable pub mint_token : String → String → Action H String String
  mint_token api key = do
    keys ← lift (parsed (desk.parse_key key))
    client ← desk.new_client api (nip98 keys)
    result ← map_err desk.said (desk.call client "token.create")
    lift (token_in (get "token" result))

  abbrev pub identity : Result String Profile → Action H String String
  identity (ok existing) = pure existing.nsec
  identity (err e) = desk.generate

  -- `ensure_with`, with the minting that the bootstrap gives it.
  unfoldable pub ensure_with : String → Action H String Profile
  unfolding mint_token
  ensure_with api s =
      (do
        nsec ← identity (desk.load s)
        token ← mint_token api nsec
        let profile : Profile = record { api_url = api; nsec = nsec; token = token }
        saved ← desk.save profile
        pure profile)
        s

  abbrev pub with_token : String → Result String Profile → Action H String (Unit {0})
  with_token token (err e) = fail e
  with_token token (ok profile) =
      desk.save (record { api_url = profile.api_url; nsec = profile.nsec; token = token })

  unfoldable pub refresh_token : String → Action H String (Unit {0})
  refresh_token token s = with_token token (desk.load s) s

  unfoldable pub remint : Common → Profile → Action H String (Option C)
  unfolding mint_token refresh_token
  remint common profile = do
    token ← mint_token common.api profile.nsec
    refreshed ← attempt (refresh_token token)
    client ← desk.new_client common.api (bearer token)
    pure (some client)

  -- The answer to the probe.
  abbrev pub judged : Common → Profile → Result CallError Json → Action H String (Option C)
  unfolding remint
  judged common profile (err (rpc e)) =
      if is_unauthenticated e.code then remint common profile else pure none
  judged common profile _ = pure none

  unfoldable pub probed : Common → Profile → Action H String (Option C)
  unfolding judged remint
  probed common profile = do
    probe ← desk.new_client common.api (bearer profile.token)
    outcome ← attempt (desk.call probe "environment.list")
    judged common profile outcome

  abbrev pub with_profile : Common → Result String Profile → Action H String (Option C)
  unfolding probed
  with_profile common (err e) = pure none
  with_profile common (ok profile) =
      if str_eq profile.nsec "" then pure none else probed common profile

  unfoldable pub heal_stale_token : Common → Action H String (Option C)
  unfolding with_profile probed
  heal_stale_token common s =
      if is_set common.token || is_set common.nsec
      then (ok none, s)
      else with_profile common (desk.load s) s

  abbrev nsec_of : Option String → Result String Profile → Result String String
  nsec_of (some key) loaded = ok key
  nsec_of none (ok profile) = ok profile.nsec
  nsec_of none (err e) = err "no credentials to hand to the dashboard"

  abbrev minted : Common → Result String Profile → Action H String String
  unfolding mint_token
  minted common loaded = do key ← lift (nsec_of common.nsec loaded); mint_token common.api key

  abbrev stored : Common → Result String Profile → Action H String String
  unfolding minted
  stored common (ok profile) =
      if str_eq profile.token "" then minted common (ok profile) else pure profile.token
  stored common (err e) = minted common (err e)

  -- The token that the dashboard is opened with.
  unfoldable pub dashboard_token : Common → Option String → Action H String String
  unfolding stored minted
  dashboard_token common (some token) = pure token
  dashboard_token common none = λ s. stored common (desk.load s) s
