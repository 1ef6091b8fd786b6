-- ===== src/Api/Validation.antt =====
-- `validate_lightning`, `resolve_expires_at` and `short_id` of crates/signet-api/src/rpc.rs.
use text.Mathlib.Text.{◌==◌ as str_eq}
use signet_sandbox.Prelude.{
  ℕ, zero, suc, String, Bool, true, false, ◌&&◌, ◌||◌, not, List, [], ◌∷◌, Option, none, some,
  Result, ok, err, leb, ◌==◌, if◌then◌else◌,
}
use signet_sandbox.Integers.{ℤ, pos, negsuc}
use signet_sandbox.Rpc.{format}
use signet_sandbox.Texts.{codes, utf8_len}
use signet_sandbox.Words.{is_digit, is_lower}
use signet_sandbox.Images.{all_chars}
use signet_sandbox.Core.{LightningInstance, LightningImplementation, lnd, as_str}

abbrev pub starts_label : ℕ → Bool
starts_label c = is_lower c || is_digit c

abbrev pub in_label : ℕ → Bool
in_label c = is_lower c || is_digit c || c == b'-'

unfoldable pub dns_safe : List ℕ → Bool
unfolding utf8_len
dns_safe [] = false
dns_safe (c ∷ s) = leb (utf8_len (c ∷ s)) 63 && starts_label c && all_chars in_label (c ∷ s)

unfoldable pub member : String → List String → Bool
member name [] = false
member name (s ∷ seen) = str_eq name s || member name seen

abbrev pub is_lnd : LightningImplementation → Bool
is_lnd lnd = true
is_lnd _ = false

unfoldable pub check_instances : List String → List LightningInstance → Result String (Unit {0})
unfolding dns_safe member as_str
check_instances seen [] = ok tt
check_instances seen (i ∷ instances) =
    let rest = check_instances (i.name ∷ seen) instances in
    if not (dns_safe (codes i.name))
    then err (
        format (
          "lightning instance name `" ∷ i.name
          ∷ "` must be a dns label (lowercase alphanumerics and '-', max 63)" ∷ []))
    else if member i.name seen
    then err (format ("duplicate lightning instance name `" ∷ i.name ∷ "`" ∷ []))
    else if not (is_lnd i.implementation)
    then err (
        format (
          "lightning implementation `"
          ∷ as_str i.implementation
          ∷ "` is not available (only lnd is supported)"
          ∷ []))
    else rest

unfoldable pub validate_lightning : List LightningInstance → Result String (Unit {0})
unfolding check_instances
validate_lightning instances = check_instances [] instances

abbrev in_range : Option ℕ → Result String (Option ℕ)
in_range none = err "ttl_secs out of range"
in_range (some t) = ok (some t)

-- `add_seconds` is the checked addition of a time and a positive number of seconds.
unfoldable pub resolve_expires_at : (ℕ → ℕ → Option ℕ) → Option ℤ → ℕ → Result String (Option ℕ)
resolve_expires_at add_seconds none now = ok none
resolve_expires_at add_seconds (some (negsuc n)) now = err "ttl_secs must be positive"
resolve_expires_at add_seconds (some (pos zero)) now = err "ttl_secs must be positive"
resolve_expires_at add_seconds (some (pos (suc n))) now = in_range (add_seconds now (suc n))

prefix : ℕ → String → String
prefix zero s = String.[]
prefix (suc n) String.[] = String.[]
prefix (suc n) (String.◌∷◌ c s) = String.◌∷◌ c (prefix n s)

-- The first twelve characters of the simple form of the id.
unfoldable pub short_id : (ℕ → String) → ℕ → String
unfolding prefix
short_id simple env_id = prefix 12 (simple env_id)
