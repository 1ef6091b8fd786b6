-- ===== src/Duration/Grammar.antt =====
-- What a duration text means, described without the parser.
use signet_sandbox.Prelude.{ℕ, ◌+◌, ◌*◌, ◌≡◌, ◌≢◌, refl, List, [], ◌∷◌, ◌++◌, some, All}
use signet_sandbox.Words.{IsDigit, value}
use signet_sandbox.Duration.Units.{unit_secs}

-- Parts of digits and a unit, and at the end perhaps digits alone, which count seconds.
pub data Denotes : List ℕ → ℕ → Type 0 where
  nothing : Denotes [] 0
  seconds : (ds : List ℕ) → ds ≢ [] → All IsDigit ds → Denotes ds (value 0 ds)
  part :
      (ds : List ℕ) (u : ℕ) {m : ℕ} {rest : List ℕ} {n : ℕ}
      → ds ≢ []
      → All IsDigit ds
      → unit_secs u ≡ some m
      → Denotes rest n
      → Denotes (ds ++ u ∷ rest) (value 0 ds * m + n)

pub Denotes-nil : {s : List ℕ} {n : ℕ} → Denotes s n → s ≡ [] → n ≡ 0
Denotes-nil nothing e = refl
Denotes-nil (seconds ds h a) e = absurd (h e)
Denotes-nil (part [] u h a m d) e = absurd (h refl)
Denotes-nil (part (c ∷ cs) u h a m d) e = cc
