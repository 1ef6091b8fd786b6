-- ===== src/Nostr/Minted.antt =====
-- Tokens read back.
use signet_sandbox.Prelude.{ℕ, ◌≡◌, refl, ap, sym, ◌∙◌, String, List, length, Option, none, some}
use signet_sandbox.Nostr.Tokens.{
  Crates, token_prefix, strip_text, strip_both, before, raw_of, generate, parse, token_of,
  token_of_hex,
}

-- The hex crate reads its own output back, and gives 32 bytes.
pub record IsHex (c : Crates) : Type 0 where
  pub reads :
      (secret : List ℕ) → length secret ≡ 32 → c.bytes32_of_hex (c.as_hex secret) ≡ some secret
  pub sized :
      (hex : String) (secret : List ℕ) → c.bytes32_of_hex hex ≡ some secret → length secret ≡ 32

module _ (c : Crates) where
  strip-raw_of :
      (secret : List ℕ) → strip_both token_prefix "_" (raw_of c secret) ≡ some (c.as_hex secret)
  unfolding raw_of strip_both strip_text before
  strip-raw_of secret = refl

  parse-raw_of :
      (secret : List ℕ)
      → c.bytes32_of_hex (c.as_hex secret) ≡ some secret
      → parse c (raw_of c secret) ≡ some (raw_of c secret)
  unfolding parse token_of_hex token_of
  parse-raw_of secret h = ap (token_of_hex c) (strip-raw_of secret) ∙ ap (token_of c) h

  pub parse-generated :
      (secret : List ℕ)
      → c.bytes32_of_hex (c.as_hex secret) ≡ some secret
      → parse c (generate c secret) ≡ some (generate c secret)
  unfolding generate
  parse-generated secret h = parse-raw_of secret h

  token_of_inv :
      (o : Option (List ℕ)) (t : String)
      → token_of c o ≡ some t
      → (secret : List ℕ) × (o ≡ some secret) × (t ≡ raw_of c secret)
  unfolding token_of
  token_of_inv none t h = cc
  token_of_inv (some secret) t h = (secret, refl, cc)

  token_of_hex_inv :
      (o : Option String) (t : String)
      → token_of_hex c o ≡ some t
      → (hex : String) × (secret : List ℕ) × (c.bytes32_of_hex hex ≡ some secret)
        × (t ≡ raw_of c secret)
  unfolding token_of_hex
  token_of_hex_inv none t h = cc
  token_of_hex_inv (some hex) t h =
      let (secret, e, same) = token_of_inv (c.bytes32_of_hex hex) t h in (hex, secret, e, same)

  parse_inv :
      (raw t : String)
      → parse c raw ≡ some t
      → (hex : String) × (secret : List ℕ) × (c.bytes32_of_hex hex ≡ some secret)
        × (t ≡ raw_of c secret)
  unfolding parse
  parse_inv raw t h = token_of_hex_inv (strip_both token_prefix "_" raw) t h

  -- A token from 32 secret bytes parses to itself, and whatever text a token is parsed from, the
  -- parsed token parses to itself, if the hex crate reads its own output back and gives 32 bytes.
  pub parse-generate :
      IsHex c
      → ((secret : List ℕ)
          → length secret ≡ 32
          → parse c (generate c secret) ≡ some (generate c secret))
        × ((raw t : String) → parse c raw ≡ some t → parse c t ≡ some t)
  unfolding generate
  parse-generate hex = (
    λ secret size. parse-raw_of secret (hex.reads secret size),
    λ raw t h.
        let (text, secret, e, same) = parse_inv raw t h in
        ap (parse c) same
        ∙ parse-raw_of secret (hex.reads secret (hex.sized text secret e))
        ∙ ap some (sym same),
  )
