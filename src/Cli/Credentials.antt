-- ===== src/Cli/Credentials.antt =====
-- Which credentials a command uses.
use text.Mathlib.Text.{◌==◌ as str_eq}
use signet_sandbox.Prelude.{
  ◌≡◌, refl, sym, ap, ◌∙◌, ◌↔◌, ◌⊎◌, inl, inr, Bool-cases, String, Bool, true, false, ◌&&◌, Option,
  none, some, Result, ok, err,
}
use signet_sandbox.Cli.{
  CliError, Auth, bearer, nip98, Common, Profile, non_empty, is_unset, key_auth, choose,
  profile_auth, or_profile, client_auth,
}

-- The token of the options alone, or, with neither, that of the profile.
abbrev pub UsesToken : Common → Result String Profile → String → Type 0
UsesToken common load t =
    ((non_empty common.token ≡ some t) × (non_empty common.nsec ≡ none))
    ⊎ ((non_empty common.token ≡ none)
        × (non_empty common.nsec ≡ none)
        × ((p : Profile) × (load ≡ ok p) × (p.token ≡ t)))

-- The key of the options alone.
abbrev pub UsesKey : (String → Result String String) → Common → String → Type 0
UsesKey parse_key common key =
    (raw : String) × (non_empty common.token ≡ none)
    × (non_empty common.nsec ≡ some raw)
    × (parse_key raw ≡ ok key)

missing : Option String → Bool
missing none = true
missing (some text) = false

unset_lem : (o : Option String) → is_unset o ≡ missing (non_empty o)
unfolding missing
unset_lem none = refl
unset_lem (some text) = elim (Bool-cases (str_eq text "")) [ inl e ↦ rw e refl | inr e ↦ rw e refl ]

module _ (parse_key : String → Result String String) (load : Result String Profile) where
  settle : Option String → Option String → Result CliError Auth
  settle a b = or_profile (missing a && missing b) load (choose parse_key a b)

  client_auth_lem :
      (common : Common)
      → client_auth parse_key common load ≡ settle (non_empty common.token) (non_empty common.nsec)
  unfolding client_auth settle
  client_auth_lem common =
      ap
        (λ b.
          or_profile (b && is_unset common.nsec) load
            (choose parse_key (non_empty common.token) (non_empty common.nsec)))
        (unset_lem common.token)
      ∙ ap
          (λ b.
            or_profile (missing (non_empty common.token) && b) load
              (choose parse_key (non_empty common.token) (non_empty common.nsec)))
          (unset_lem common.nsec)

  settle_token :
      (a b : Option String) (t : String)
      → (settle a b ≡ ok (bearer t)) ↔ (
          ((a ≡ some t) × (b ≡ none))
          ⊎ ((a ≡ none) × (b ≡ none) × ((p : Profile) × (load ≡ ok p) × (p.token ≡ t))))
  unfolding settle missing
  settle_token (some x) (some y) t =
      (λ h. cc, λ h. elim h [ inl (e, f) ↦ cc | inr (e, f, (p, g, k)) ↦ cc ])
  settle_token (some x) none t =
      (λ h. inl (cc, refl), λ h. elim h [ inl (e, f) ↦ cc | inr (e, f, (p, g, k)) ↦ cc ])
  settle_token none (some y) t = (
    λ h. absurd (key_no_token (parse_key y) h),
    λ h. elim h [ inl (e, f) ↦ cc | inr (e, f, (p, g, k)) ↦ cc ],
  )
    where
      key_no_token :
          (r : Result String String) → ¬ (or_profile false load (key_auth r) ≡ ok (bearer t))
      key_no_token (ok key) h = cc
      key_no_token (err e) h = cc
  settle_token none none t = go load
    where
      go :
          (r : Result String Profile)
          → (profile_auth r ≡ ok (bearer t)) ↔ (
              ((◌≡◌ {A = Option String} none (some t)) × (◌≡◌ {A = Option String} none none))
              ⊎ ((◌≡◌ {A = Option String} none none)
                  × (◌≡◌ {A = Option String} none none)
                  × ((p : Profile) × (r ≡ ok p) × (p.token ≡ t))))
      go (ok p) = (
        λ h. inr (refl, refl, (p, refl, cc)),
        λ h. elim h [ inl (e, f) ↦ cc | inr (e, f, (q, g, k)) ↦ cc ],
      )
      go (err e) = (λ h. cc, λ h. elim h [ inl (e, f) ↦ cc | inr (e, f, (q, g, k)) ↦ cc ])

  settle_key :
      (a b : Option String) (key : String)
      → (settle a b ≡ ok (nip98 key))
        ↔ ((raw : String) × (a ≡ none) × (b ≡ some raw) × (parse_key raw ≡ ok key))
  unfolding settle missing
  settle_key (some x) (some y) key = (λ h. cc, λ (raw, e, f, g). cc)
  settle_key (some x) none key = (λ h. cc, λ (raw, e, f, g). cc)
  settle_key none none key = go load
    where
      go :
          (r : Result String Profile)
          → (profile_auth r ≡ ok (nip98 key)) ↔ (
              (raw : String) × (◌≡◌ {A = Option String} none none)
              × (none ≡ some raw)
              × (parse_key raw ≡ ok key))
      go (ok p) = (λ h. cc, λ (raw, e, f, g). cc)
      go (err e) = (λ h. cc, λ (raw, e, f, g). cc)
  settle_key none (some y) key = (
    λ h. (y, refl, refl, parsed (parse_key y) h),
    λ (raw, e, f, g).
        let same : y ≡ raw = cc in
        ap (λ r. or_profile false load (key_auth r)) (ap parse_key same ∙ g),
  )
    where
      parsed :
          (r : Result String String)
          → or_profile false load (key_auth r) ≡ ok (nip98 key)
          → r ≡ ok key
      parsed (ok k) h = cc
      parsed (err e) h = cc

  -- A command signs with a bearer token exactly when its options give a token that is not empty
  -- and no key, or neither, and then the profile is there and the token is the profile's; and it
  -- signs with a key exactly when its options give that key and no token.
  pub client_auth_exact :
      (common : Common)
      → ((t : String)
          → (client_auth parse_key common load ≡ ok (bearer t)) ↔ UsesToken common load t)
        × ((key : String)
            → (client_auth parse_key common load ≡ ok (nip98 key)) ↔ UsesKey parse_key common key)
  client_auth_exact common =
      let same = client_auth_lem common in
      (
        λ t.
            let (f, g) = settle_token (non_empty common.token) (non_empty common.nsec) t in
            (λ h. f (sym same ∙ h), λ h. same ∙ g h),
        λ key.
            let (f, g) = settle_key (non_empty common.token) (non_empty common.nsec) key in
            (λ h. f (sym same ∙ h), λ h. same ∙ g h),
      )
