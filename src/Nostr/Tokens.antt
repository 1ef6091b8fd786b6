-- ===== src/Nostr/Tokens.antt =====
-- crates/signet-nostr/src/lib.rs: the `Authorization` header of NIP-98 and the API tokens. Base64,
-- JSON, hex, bech32 and SHA-256 are the crates', in `Crates`.
use signet_sandbox.Prelude.{
  ℕ, String, code, Bool, List, Option, none, some, Result, ok, ok_or, ◌>>=◌, ◌==◌, if◌then◌else◌,
}
use signet_sandbox.Nostr.{Event, Nip98Error, bad_header, verify_http_auth}

pub record Crates : Type 0 where
  pub decode_base64 : String → Option (List ℕ)
  pub event_of_json : List ℕ → Option Event
  pub verify : Event → Bool
  pub to_bech32 : String → String
  pub as_hex : List ℕ → String
  pub bytes32_of_hex : String → Option (List ℕ)
  pub sha256_hex : String → String

abbrev pub token_prefix : String
token_prefix = "sgn"

-- `strip_prefix` on texts.
unfoldable pub strip_text : String → String → Option String
strip_text String.[] s = some s
strip_text (String.◌∷◌ p ps) String.[] = none
strip_text (String.◌∷◌ p ps) (String.◌∷◌ c s) =
    let rest = strip_text ps s in if code p == code c then rest else none

-- A prefix and then one more.
unfoldable pub strip_both : String → String → String → Option String
unfolding strip_text
strip_both first second s = elim (strip_text first s) [
  | none ↦ none
  | some rest ↦ strip_text second rest
]

-- A text before another.
unfoldable pub before : String → String → String
before String.[] s = s
before (String.◌∷◌ p ps) s = String.◌∷◌ p (before ps s)

module _ (c : Crates) where
  unfoldable pub parse_nip98_header : String → Result Nip98Error Event
  unfolding strip_both
  parse_nip98_header header = do
    payload ← ok_or (strip_both "Nostr" " " header) bad_header
    bytes ← ok_or (c.decode_base64 payload) bad_header
    ok_or (c.event_of_json bytes) bad_header

  unfoldable pub verify_nip98_header :
      String → String → String → ℕ → Option ℕ → Result Nip98Error String
  unfolding parse_nip98_header verify_http_auth
  verify_nip98_header header url method now max_age = do
    event ← parse_nip98_header header
    pubkey ← verify_http_auth c.verify event url method now max_age
    ok (c.to_bech32 pubkey)

  -- The text of a token with these secret bytes.
  unfoldable pub raw_of : List ℕ → String
  unfolding before
  raw_of secret = before token_prefix (before "_" (c.as_hex secret))

  -- `ApiToken::generate`; `secret` is what the generator gives.
  unfoldable pub generate : List ℕ → String
  unfolding raw_of
  generate secret = raw_of secret

  unfoldable pub token_of : Option (List ℕ) → Option String
  unfolding raw_of
  token_of none = none
  token_of (some secret) = some (raw_of secret)

  unfoldable pub token_of_hex : Option String → Option String
  unfolding token_of
  token_of_hex none = none
  token_of_hex (some hex) = token_of (c.bytes32_of_hex hex)

  -- `ApiToken::parse`: the token as `as_str` gives it, with its hex in the crate's form.
  unfoldable pub parse : String → Option String
  unfolding strip_both token_of_hex
  parse raw = token_of_hex (strip_both token_prefix "_" raw)

  -- `token.hash().as_hex()`.
  unfoldable pub token_hash : String → String
  token_hash raw = c.sha256_hex raw
