-- ===== src/Maps.antt =====
-- `BTreeMap<String, V>`: an association list in the order of its keys.
use Prim.Native.String
use text.Mathlib.Text.{◌==◌}
use signet_sandbox.Prelude.{
  String, Bool, Option, none, some, List, [], ◌∷◌, Ordering, if◌then◌else◌,
}

abbrev pub Map {ℓ} : Type ℓ → Type ℓ
Map V = List (String × V)

module _ {ℓ} {V : Type ℓ} where
  -- `get`.
  unfoldable pub lookup : String → Map V → Option V
  lookup key [] = none
  lookup key ((first, value) ∷ entries) =
      let later = lookup key entries in if first == key then some value else later

  -- `insert`: a key that is there takes the new value, another one stands in its place.
  unfoldable pub insert : String → V → Map V → Map V
  insert key value [] = (key, value) ∷ []
  insert key value ((first, old) ∷ entries) =
      let later = insert key value entries in
      elim (String.compare key first) [
        | Ordering.lt ↦ (key, value) ∷ (first, old) ∷ entries
        | Ordering.eq ↦ (key, value) ∷ entries
        | Ordering.gt ↦ (first, old) ∷ later
      ]

  unfoldable pub contains_key : String → Map V → Bool
  contains_key key [] = Bool.false
  contains_key key ((first, value) ∷ entries) =
      let later = contains_key key entries in if first == key then Bool.true else later

module _ {ℓ} {V : Type ℓ} where
  -- `BTreeMap::from` of a list of pairs, onto `m`: a later pair replaces an earlier one of its key.
  unfoldable pub insert_all : List (String × V) → Map V → Map V
  unfolding insert
  insert_all [] m = m
  insert_all ((k, v) ∷ rest) m = insert_all rest (insert k v m)
