-- ===== src/Texts.antt =====
-- What the program uses of Rust's `str`: texts as lists of code points.
use Prim.Native.String.{String}
use signet_sandbox.Prelude.{
  ℕ, code, Bool, true, ◌&&◌, ◌||◌, List, [], ◌∷◌, ◌++◌, Option, none, some, ◌+◌, leb, ltb, ◌==◌,
  if◌then◌else◌,
}

-- `str::chars`.
abbrev pub codes : String → List ℕ
codes String.[] = []
codes (String.◌∷◌ first rest) = code first ∷ codes rest

-- `char::is_whitespace`, the Unicode property White_Space.
unfoldable pub is_whitespace : ℕ → Bool
is_whitespace c =
    leb 9 c && leb c 13
    || c == 32
    || c == 133
    || c == 160
    || c == 5760
    || leb 8192 c && leb c 8202
    || c == 8232
    || c == 8233
    || c == 8239
    || c == 8287
    || c == 12288

-- `trim_start_matches` of a class of characters.
unfoldable pub trim_start : (ℕ → Bool) → List ℕ → List ℕ
trim_start p [] = []
trim_start p (c ∷ s) = let rest = trim_start p s in if p c then rest else c ∷ s

abbrev all_in : (ℕ → Bool) → List ℕ → Bool
all_in p [] = true
all_in p (c ∷ s) = p c && all_in p s

-- `trim_end_matches`: what is left before a tail of the class.
unfoldable pub trim_end : (ℕ → Bool) → List ℕ → List ℕ
trim_end p [] = []
trim_end p (c ∷ s) = let rest = trim_end p s in if p c && all_in p s then [] else c ∷ rest

unfoldable pub trim : List ℕ → List ℕ
unfolding is_whitespace trim_start trim_end
trim s = trim_end is_whitespace (trim_start is_whitespace s)

unfoldable pub strip_prefix : List ℕ → List ℕ → Option (List ℕ)
strip_prefix [] s = some s
strip_prefix (p ∷ ps) [] = none
strip_prefix (p ∷ ps) (c ∷ s) = if p == c then strip_prefix ps s else none

-- `split` at each character of a class; the second argument is the part being read.
unfoldable pub split_at : (ℕ → Bool) → List ℕ → List ℕ → List (List ℕ)
split_at p cur [] = cur ∷ []
split_at p cur (c ∷ s) =
    let cut = split_at p [] s in
    let grow = split_at p (cur ++ c ∷ []) s in if p c then cur ∷ cut else grow

-- `str::len`, the length in UTF-8.
unfoldable pub utf8_len : List ℕ → ℕ
utf8_len [] = 0
utf8_len (c ∷ s) =
    (if ltb c 128 then 1 else if ltb c 2048 then 2 else if ltb c 65536 then 3 else 4) + utf8_len s

-- `replacen(pattern, replacement, 1)`.
unfoldable pub replace_first : List ℕ → List ℕ → List ℕ → List ℕ
unfolding strip_prefix
replace_first pattern replacement [] = elim (strip_prefix pattern []) [
  | some rest ↦ replacement
  | none ↦ []
]
replace_first pattern replacement (c ∷ s) = elim (strip_prefix pattern (c ∷ s)) [
  | some rest ↦ replacement ++ rest
  | none ↦ c ∷ replace_first pattern replacement s
]
