-- ===== src/Cli/Profiles/Identity.antt =====
-- The identity of the profile.
use text.Mathlib.Text.{◌==◌ as str_eq}
use signet_sandbox.Prelude.{
  ◌≡◌, String, Bool, true, false, ◌||◌, Option, none, some, Result, ok, err, if◌then◌else◌,
}
use signet_sandbox.Actions.{Action, continue, pure, lift, attempt, map_err, ◌>>=◌}
use signet_sandbox.Actions.Keeping.{Keeps, Keeps-then, Keeps-map_err}
use signet_sandbox.Bitcoind.{Json, get}
use signet_sandbox.Cli.{
  Auth, bearer, nip98, Common, Profile, CallError, rpc, transport, protocol, other,
}
use signet_sandbox.Cli.Profiles.{
  Desk, is_set, is_unauthenticated, parsed, token_in, mint_token, identity, ensure_with, with_token,
  refresh_token, remint, judged, probed, with_profile, heal_stale_token,
}

lift-Keeps : {H E A : Type 0} (P : H → Type 0) (r : Result E A) → Keeps P (lift r)
lift-Keeps P r s h = h

attempt-Keeps :
    {H E A : Type 0} (F : Type 0) (P : H → Type 0) (m : Action H E A)
    → Keeps P m
    → Keeps {E = F} P (attempt m)
attempt-Keeps F P m keeps s h = keeps s h

module _ {H C : Type 0} (desk : Desk H C) (nsec : String) (P : H → Type 0) where
  -- While `P` holds the profile's file reads with the key `nsec`; requests keep `P`, and so does
  -- writing a profile with that key.
  pub record HasIdentity : Type 0 where
    pub reads :
        (s : H) → P s → (profile : Profile) × (desk.load s ≡ ok profile) × (profile.nsec ≡ nsec)
    pub saves : (profile : Profile) → profile.nsec ≡ nsec → Keeps P (desk.save profile)
    pub connects : (api : String) (auth : Auth) → Keeps P (desk.new_client api auth)
    pub calls : (client : C) (method : String) → Keeps P (desk.call client method)

  module _ (has : HasIdentity) where
    mint-Keeps : (api key : String) → Keeps P (mint_token desk api key)
    unfolding mint_token
    mint-Keeps api key =
        Keeps-then P (lift (parsed (desk.parse_key key))) with_keys
          (lift-Keeps P (parsed (desk.parse_key key)))
          λ keys.
            Keeps-then P (desk.new_client api (nip98 keys)) asked (has.connects api (nip98 keys))
              λ client.
                Keeps-then P (map_err desk.said (desk.call client "token.create")) read
                  (Keeps-map_err P desk.said (desk.call client "token.create")
                    (has.calls client "token.create"))
                  λ result. lift-Keeps P (token_in (get "token" result))
      where
        read : Json → Action H String String
        read result = lift (token_in (get "token" result))

        asked : C → Action H String String
        asked client = map_err desk.said (desk.call client "token.create") >>= read

        with_keys : String → Action H String String
        with_keys keys = desk.new_client api (nip98 keys) >>= asked

    refresh-Keeps : (token : String) → Keeps P (refresh_token desk token)
    unfolding refresh_token
    refresh-Keeps token s h = go (has.reads s h)
      where
        go :
            ((profile : Profile) × (desk.load s ≡ ok profile) × (profile.nsec ≡ nsec))
            → P (with_token desk token (desk.load s) s).1
        go (profile, loaded, same) = rw loaded (
            has.saves (record { api_url = profile.api_url; nsec = profile.nsec; token = token })
              same s h)

    remint-Keeps : (common : Common) (profile : Profile) → Keeps P (remint desk common profile)
    unfolding remint
    remint-Keeps common profile =
        Keeps-then P (mint_token desk common.api profile.nsec) refreshed
          (mint-Keeps common.api profile.nsec)
          λ token.
            Keeps-then P (attempt (refresh_token desk token)) (λ r. connected token)
              (attempt-Keeps String P (refresh_token desk token) (refresh-Keeps token))
              λ r.
                Keeps-then P (desk.new_client common.api (bearer token))
                  (λ client. pure (some client)) (has.connects common.api (bearer token))
                  λ client s h. h
      where
        connected : String → Action H String (Option C)
        connected token = desk.new_client common.api (bearer token) >>= λ client. pure (some client)

        refreshed : String → Action H String (Option C)
        refreshed token = attempt {F = String} (refresh_token desk token) >>= λ r. connected token

    judged-Keeps :
        (common : Common) (profile : Profile) (outcome : Result CallError Json)
        → Keeps P (judged desk common profile outcome)
    unfolding judged
    judged-Keeps common profile (ok answer) = λ s h. h
    judged-Keeps common profile (err (transport e)) = λ s h. h
    judged-Keeps common profile (err (protocol e)) = λ s h. h
    judged-Keeps common profile (err (other e)) = λ s h. h
    judged-Keeps common profile (err (rpc e)) = go (is_unauthenticated e.code)
      where
        go :
            (b : Bool)
            → Keeps {E = String} {A = Option C} P
                (if b then remint desk common profile else pure none)
        go true = remint-Keeps common profile
        go false = λ s h. h

    probed-Keeps : (common : Common) (profile : Profile) → Keeps P (probed desk common profile)
    unfolding probed
    probed-Keeps common profile =
        Keeps-then P (desk.new_client common.api (bearer profile.token)) probe
          (has.connects common.api (bearer profile.token))
          λ client.
            Keeps-then P (attempt (desk.call client "environment.list"))
              (judged desk common profile)
              (attempt-Keeps String P (desk.call client "environment.list")
                (has.calls client "environment.list"))
              (judged-Keeps common profile)
      where
        probe : C → Action H String (Option C)
        probe client = attempt (desk.call client "environment.list") >>= judged desk common profile

    with_profile-Keeps :
        (common : Common) (loaded : Result String Profile)
        → Keeps P (with_profile desk common loaded)
    unfolding with_profile
    with_profile-Keeps common (err e) = λ s h. h
    with_profile-Keeps common (ok profile) = go (str_eq profile.nsec "")
      where
        go :
            (b : Bool)
            → Keeps {E = String} {A = Option C} P
                (if b then pure none else probed desk common profile)
        go true = λ s h. h
        go false = probed-Keeps common profile

    -- Healing a stale token leaves the identity of the profile as it is, whatever the API answers
    -- and whichever step fails.
    pub heal_stale_token-Keeps : (common : Common) → Keeps P (heal_stale_token desk common)
    unfolding heal_stale_token
    heal_stale_token-Keeps common = λ s h. go (is_set common.token || is_set common.nsec) s h
      where
        go :
            (b : Bool) (s : H)
            → P s
            → P (if b then (ok none, s) else with_profile desk common (desk.load s) s).1
        go true s h = h
        go false s h = with_profile-Keeps common (desk.load s) s h

    -- A set-up of the profile that exists mints a token and leaves its identity as it is.
    pub ensure_with-Keeps : (api : String) → Keeps P (ensure_with desk api)
    unfolding ensure_with
    ensure_with-Keeps api s h = go (has.reads s h)
      where
        written : String → String → Action H String Profile
        written key token =
            let profile : Profile = record { api_url = api; nsec = key; token = token } in
            desk.save profile >>= λ saved. pure profile

        kept : (key : String) → key ≡ nsec → Keeps P (mint_token desk api key >>= written key)
        kept key same =
            Keeps-then P (mint_token desk api key) (written key) (mint-Keeps api key) λ token.
              Keeps-then P (desk.save (record { api_url = api; nsec = key; token = token }))
                (λ saved. pure (record { api_url = api; nsec = key; token = token }))
                (has.saves (record { api_url = api; nsec = key; token = token }) same)
                λ saved t k. k

        go :
            ((profile : Profile) × (desk.load s ≡ ok profile) × (profile.nsec ≡ nsec))
            → P
                (continue
                  (λ key. mint_token desk api key >>= written key)
                  (identity desk (desk.load s) s)).1
        go (profile, loaded, same) = rw loaded (kept profile.nsec same s h)
