-- ===== src/Prelude/Texts.antt =====
-- Membership of a text in a list, and lists without a repeated text.
use Prim.Native.String.{String}
use mathlib.Core.Path.{◌≡◌}
use mathlib.Core.Logic.{◌⊎◌}
use mathlib.Core.List.{List, [], ◌∷◌}

abbrev pub TextIn : String → List String → Type 0
TextIn a [] = ⊥
TextIn a (x ∷ xs) = (a ≡ x) ⊎ TextIn a xs
