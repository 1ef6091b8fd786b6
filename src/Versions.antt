-- ===== src/Versions.antt =====
-- crates/signet-core/src/versions.rs: the version catalog. The catalog's file is parsed by a TOML
-- library; a catalog is its maps. The messages of `validate_selection` are constructors.
pub mod Order
pub mod Selection
use signet_sandbox.Prelude.{
  ℕ, zero, suc, ◌+◌, max, compare, Ordering, String, Bool, true, false, not, List, [], ◌∷◌, Option,
  none, some, Result, ok, err, length, get_elem?, if◌then◌else◌, ◌==◌, ◌>>=◌,
}
use signet_sandbox.Words.{is_digit, parse_u64}
use signet_sandbox.Texts.{codes, trim, trim_start, strip_prefix, split_at}
use signet_sandbox.Maps.{Map, lookup, contains_key}

pub record VersionEntry : Type 0 where
  pub default : Bool
  pub requires : Map String

pub record VersionCatalog : Type 0 where
  pub entries : Map (Map VersionEntry)

-- `find(|(_, entry)| entry.default)` over the versions of one component.
unfoldable pub find_default : Map VersionEntry → Option String
find_default [] = none
find_default ((version, entry) ∷ versions) =
    if entry.default then some version else find_default versions

unfoldable pub default_version : VersionCatalog → String → Option String
unfolding lookup find_default
default_version catalog component = elim (lookup component catalog.entries) [
  | none ↦ none
  | some versions ↦ find_default versions
]

unfoldable pub has : VersionCatalog → String → String → Bool
unfolding lookup contains_key
has catalog component version = elim (lookup component catalog.entries) [
  | none ↦ false
  | some versions ↦ contains_key version versions
]

-- The parts that are not empty and parse as `u64`.
segments_of : List (List ℕ) → List ℕ
segments_of [] = []
segments_of ([] ∷ parts) = segments_of parts
segments_of ((c ∷ part) ∷ parts) = elim (parse_u64 (c ∷ part)) [
  | none ↦ segments_of parts
  | some n ↦ n ∷ segments_of parts
]

unfoldable pub version_segments : List ℕ → List ℕ
unfolding segments_of trim_start split_at parse_u64
version_segments version =
    segments_of (split_at (λ c. not (is_digit c)) [] (trim_start (λ c. c == b'v') version))

-- `get(i).copied().unwrap_or(0)`.
abbrev pub segment : List ℕ → ℕ → ℕ
segment a i = elim (get_elem? a i) [ none ↦ 0 | some n ↦ n ]

-- `Equal => continue, other => return other`.
abbrev pub or_next : Ordering → Ordering → Ordering
or_next Ordering.lt next = Ordering.lt
or_next Ordering.eq next = next
or_next Ordering.gt next = Ordering.gt

-- The loop `for i in i..i + rounds`.
compare_from : ℕ → ℕ → List ℕ → List ℕ → Ordering
compare_from zero i a b = Ordering.eq
compare_from (suc rounds) i a b =
    let rest = compare_from rounds (i + 1) a b in or_next (compare (segment a i) (segment b i)) rest

unfoldable pub compare_segments : List ℕ → List ℕ → Ordering
unfolding compare_from
compare_segments a b = compare_from (max (length a) (length b)) 0 a b

pub data Operator : Type 0 where
  at_least at_most above below equal : Operator

-- The chain of `strip_prefix` tests.
unfoldable pub split_constraint : List ℕ → Operator × List ℕ
unfolding strip_prefix
split_constraint constraint = elim (strip_prefix (codes ">=") constraint) [
  | some rest ↦ (at_least, rest)
  | none ↦ elim (strip_prefix (codes "<=") constraint) [
    | some rest ↦ (at_most, rest)
    | none ↦ elim (strip_prefix (codes ">") constraint) [
      | some rest ↦ (above, rest)
      | none ↦ elim (strip_prefix (codes "<") constraint) [
        | some rest ↦ (below, rest)
        | none ↦ elim (strip_prefix (codes "=") constraint) [
          | some rest ↦ (equal, rest)
          | none ↦ (equal, constraint)
        ]
      ]
    ]
  ]
]

abbrev pub holds : Operator → Ordering → Bool
holds at_least Ordering.lt = false
holds at_least _ = true
holds at_most Ordering.gt = false
holds at_most _ = true
holds above Ordering.gt = true
holds above _ = false
holds below Ordering.lt = true
holds below _ = false
holds equal Ordering.eq = true
holds equal _ = false

unfoldable pub satisfies : String → String → Bool
unfolding trim split_constraint compare_segments version_segments
satisfies version constraint =
    let (operator, target) = split_constraint (trim (codes constraint)) in
    holds operator
      (compare_segments (version_segments (codes version)) (version_segments (trim target)))

pub data SelectionError : Type 0 where
  unknown_version : String → String → SelectionError
  unmet : String → String → String → String → String → SelectionError

-- The pin of a component, or its default.
unfoldable pub effective : VersionCatalog → Map String → String → Option String
unfolding lookup default_version
effective catalog tags component = elim (lookup component tags) [
  | some v ↦ some v
  | none ↦ default_version catalog component
]

check_known : VersionCatalog → Map String → Result SelectionError (Unit {0})
unfolding has
check_known catalog [] = ok tt
check_known catalog ((component, version) ∷ tags) =
    let rest = check_known catalog tags in
    if has catalog component version then rest else err (unknown_version component version)

-- The inner loop, over the constraints of one selected entry.
check_requires :
    VersionCatalog → Map String → String → String → Map String → Result SelectionError (Unit {0})
unfolding effective satisfies
check_requires catalog tags component version [] = ok tt
check_requires catalog tags component version ((dependency, constraint) ∷ requires) =
    let rest = check_requires catalog tags component version requires in
    elim (effective catalog tags dependency) [
      | none ↦ rest
      | some dep_version ↦
          if satisfies dep_version constraint
          then rest
          else err (unmet component version dependency constraint dep_version)
    ]

-- One round of the outer loop; the two `continue`s are the `none` cases.
check_component :
    VersionCatalog → Map String → String → Map VersionEntry → Result SelectionError (Unit {0})
unfolding effective lookup check_requires
check_component catalog tags component versions = elim (effective catalog tags component) [
  | none ↦ ok tt
  | some version ↦ elim (lookup version versions) [
    | none ↦ ok tt
    | some entry ↦ check_requires catalog tags component version entry.requires
  ]
]

check_components :
    VersionCatalog → Map String → Map (Map VersionEntry) → Result SelectionError (Unit {0})
unfolding check_component
check_components catalog tags [] = ok tt
check_components catalog tags ((component, versions) ∷ rest) = do
  done ← check_component catalog tags component versions
  check_components catalog tags rest

unfoldable pub validate_selection : VersionCatalog → Map String → Result SelectionError (Unit {0})
unfolding check_known check_components
validate_selection catalog tags = do
  done ← check_known catalog tags
  check_components catalog tags catalog.entries
