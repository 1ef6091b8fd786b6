-- ===== src/Nostr/Accepted.antt =====
-- Which NIP-98 events are accepted.
use text.Mathlib.TextEquality.{eq_iff}
use signet_sandbox.Prelude.{
  ℕ, ◌+◌, ◌≤◌, ◌≡◌, refl, ◌↔◌, String, Bool, true, Option, none, some, ok, Result, arith,
}
use signet_sandbox.Nostr.{
  Event, Nip98Error, check_url, check_method, nip98_kind, max_future_skew, tag_value,
  eq_ignore_ascii_case, verify_http_auth,
}

-- Not more than a minute in the future and, in the past, not older than the limit.
abbrev pub IsFresh : Event → ℕ → Option ℕ → Type 0
IsFresh event now none = Unit
IsFresh event now (some max_age) =
    (event.created_at ≤ now + max_future_skew) × (now ≤ event.created_at + max_age)

check_url_iff :
    (event : Event) (url key : String) (u : Option String) (next : Result Nip98Error String)
    → (check_url event url u next ≡ ok key) ↔ ((u ≡ some url) × (next ≡ ok key))
check_url_iff event url key none next = ground arith
check_url_iff event url key (some u) next = ground (arith, eq_iff u url)

check_method_iff :
    (event : Event) (method key : String) (found : Option String)
    → (check_method event method found ≡ ok key) ↔ (
        ((m : String) × (found ≡ some m) × (eq_ignore_ascii_case m method ≡ true))
        × (key ≡ event.pubkey))
unfolding eq_ignore_ascii_case
check_method_iff event method key none = ground arith
check_method_iff event method key (some m) =
    (λ h. ((m, refl, ground (arith, h)), ground (arith, h)), λ h. ground (arith, h.0.1, h.0.2, h.1))

-- An event authenticates `key` exactly when the crate verifies it, its kind is NIP-98's, it is
-- fresh or no age is set, its first `u` tag with a value has the URL, its first `method` tag with a value has the method up to
-- the case of ASCII letters, and `key` is its public key.
pub verify_http_auth_exact :
    (verify : Event → Bool) (event : Event) (url method key : String) (now : ℕ) (max_age : Option ℕ)
    → (verify_http_auth verify event url method now max_age ≡ ok key) ↔ (
        (verify event ≡ true)
        × (event.kind ≡ nip98_kind)
        × IsFresh event now max_age
        × (tag_value event "u" ≡ some url)
        × ((m : String) × (tag_value event "method" ≡ some m)
            × (eq_ignore_ascii_case m method ≡ true))
        × (key ≡ event.pubkey))
unfolding verify_http_auth
verify_http_auth_exact verify event url method key now none =
    let u =
      check_url_iff event url key (tag_value event "u")
        (check_method event method (tag_value event "method")) in
    let m = check_method_iff event method key (tag_value event "method") in
    (ground (arith, u, m), ground (arith, u, m))
verify_http_auth_exact verify event url method key now (some a) =
    let u =
      check_url_iff event url key (tag_value event "u")
        (check_method event method (tag_value event "method")) in
    let m = check_method_iff event method key (tag_value event "method") in
    (ground (arith, u, m), ground (arith, u, m))
