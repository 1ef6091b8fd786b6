-- ===== src/Nostr.antt =====
-- crates/signet-nostr/src/lib.rs: the verification of NIP-98 events. Signatures are the nostr
-- crate's, an argument here; its time stamps are seconds whose difference stops at 0.
pub mod Accepted
pub mod Tokens
pub mod Minted
use text.Mathlib.Text.{◌==◌ as str_eq}
use signet_sandbox.Prelude.{
  ℕ, ◌+◌, ◌-◌, String, Bool, true, false, ◌&&◌, ◌||◌, not, List, [], ◌∷◌, Option, none, some,
  Result, ok, err, ltb, ◌==◌, if◌then◌else◌,
}
use signet_sandbox.Words.{is_upper}
use signet_sandbox.Texts.{codes}

pub data Nip98Error : Type 0 where
  bad_event bad_header wrong_kind : Nip98Error
  missing_tag : String → Nip98Error
  url_mismatch method_mismatch stale : Nip98Error

pub record Event : Type 0 where
  pub pubkey : String
  pub created_at : ℕ
  pub kind : ℕ
  pub tags : List (List String)

abbrev pub nip98_kind : ℕ
nip98_kind = 27235

-- Seconds.
abbrev pub max_future_skew : ℕ
max_future_skew = 60

-- The second entry of a tag, if the first is the name.
abbrev entry_of : String → List String → Option String
entry_of name (first ∷ value ∷ rest) = if str_eq first name then some value else none
entry_of name _ = none

find_entry : String → List (List String) → Option String
find_entry name [] = none
find_entry name (tag ∷ tags) =
    let later = find_entry name tags in
    elim (entry_of name tag) [ some value ↦ some value | none ↦ later ]

unfoldable pub tag_value : Event → String → Option String
unfolding find_entry
tag_value event name = find_entry name event.tags

abbrev to_lower : ℕ → ℕ
to_lower c = if is_upper c then c + 32 else c

same_ignoring_case : List ℕ → List ℕ → Bool
same_ignoring_case [] [] = true
same_ignoring_case (a ∷ s) (b ∷ t) = to_lower a == to_lower b && same_ignoring_case s t
same_ignoring_case _ _ = false

unfoldable pub eq_ignore_ascii_case : String → String → Bool
unfolding same_ignoring_case
eq_ignore_ascii_case a b = same_ignoring_case (codes a) (codes b)

abbrev pub is_stale : Event → ℕ → Option ℕ → Bool
is_stale event now none = false
is_stale event now (some max_age) =
    ltb (now + max_future_skew) event.created_at || ltb max_age (now - event.created_at)

abbrev pub check_method : Event → String → Option String → Result Nip98Error String
unfolding eq_ignore_ascii_case
check_method event method none = err (missing_tag "method")
check_method event method (some m) =
    if eq_ignore_ascii_case m method then ok event.pubkey else err method_mismatch

abbrev pub check_url :
    Event → String → Option String → Result Nip98Error String → Result Nip98Error String
check_url event url none next = err (missing_tag "u")
check_url event url (some u) next = if str_eq u url then next else err url_mismatch

unfoldable pub verify_http_auth :
    (Event → Bool) → Event → String → String → ℕ → Option ℕ → Result Nip98Error String
unfolding tag_value eq_ignore_ascii_case
verify_http_auth verify event url method now max_age =
    let tags_checked =
      check_url event url (tag_value event "u")
        (check_method event method (tag_value event "method")) in
    if verify event
    then (if event.kind == nip98_kind
        then (if is_stale event now max_age then err stale else tags_checked)
        else err wrong_kind)
    else err bad_event
