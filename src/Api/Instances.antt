-- ===== src/Api/Instances.antt =====
-- What the validation of Lightning instances accepts.
use text.Mathlib.TextEquality.{eq_iff}
use signet_sandbox.Prelude.{
  ℕ, ◌⊎◌, ◌≤◌, ◌≢◌, refl, length, All, ◌≡◌, ◌↔◌, String, true, List, [], ◌∷◌, ok, TextIn, arith,
}
use signet_sandbox.Texts.{codes, utf8_len}
use signet_sandbox.Images.{all_chars}
use signet_sandbox.Core.{LightningInstance, lnd}
use signet_sandbox.Api.Validation.{in_label, dns_safe, member, check_instances, validate_lightning}

-- A lowercase letter, a digit or a dash.
abbrev pub IsLabelChar : ℕ → Type 0
IsLabelChar c = ((b'a' ≤ c) × (c ≤ b'z')) ⊎ (((b'0' ≤ c) × (c ≤ b'9')) ⊎ (c ≡ b'-'))

-- From 1 to 63 such characters that do not start with a dash.
abbrev pub IsLabel : List ℕ → Type 0
IsLabel [] = ⊥
IsLabel (c ∷ s) = (c ≢ b'-') × (length (c ∷ s) ≤ 63) × All IsLabelChar (c ∷ s)

-- Every name is a label and none is one of `seen` or of an earlier instance; every node is an lnd.
abbrev pub IsValid : List String → List LightningInstance → Type 0
IsValid seen [] = Unit
IsValid seen (i ∷ instances) =
    IsLabel (codes i.name)
    × (¬ TextIn i.name seen)
    × (i.implementation ≡ lnd)
    × IsValid (i.name ∷ seen) instances

chars_iff : (s : List ℕ) → (all_chars in_label s ≡ true) ↔ All IsLabelChar s
chars_iff [] = ground arith
chars_iff (c ∷ s) = ground (arith, chars_iff s)

one_byte : (s : List ℕ) → All IsLabelChar s → utf8_len s ≡ length s
unfolding utf8_len
one_byte [] h = refl
one_byte (c ∷ s) h = ground (arith, one_byte s h.1)

dns_safe_iff : (s : List ℕ) → (dns_safe s ≡ true) ↔ IsLabel s
unfolding dns_safe
dns_safe_iff [] = ground arith
dns_safe_iff (c ∷ s) = ground (arith, chars_iff (c ∷ s), one_byte (c ∷ s))

member_iff : (name : String) (seen : List String) → (member name seen ≡ true) ↔ TextIn name seen
unfolding member
member_iff name [] = ground arith
member_iff name (s ∷ seen) = ground (arith, eq_iff name s, member_iff name seen)

check_iff :
    (seen : List String) (instances : List LightningInstance)
    → (check_instances seen instances ≡ ok tt) ↔ IsValid seen instances
unfolding check_instances
check_iff seen [] = ground arith
check_iff seen (i ∷ instances) = ground (
  arith,
  dns_safe_iff (codes i.name),
  member_iff i.name seen,
  check_iff (i.name ∷ seen) instances,
)

-- A list of instances is accepted exactly when every name has 1 to 63 bytes, all of them lowercase
-- letters, digits and dashes, and does not start with a dash (it may end in one), the names differ
-- from each other, and every implementation is lnd.
pub validate_lightning_exact :
    (instances : List LightningInstance)
    → (validate_lightning instances ≡ ok tt) ↔ IsValid [] instances
unfolding validate_lightning
validate_lightning_exact instances = check_iff [] instances
