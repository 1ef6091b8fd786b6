-- ===== src/Actions.antt =====
-- Code that reads and writes a state and may return early with an error: the state is kept beside
-- the error, since what was written before stays written.
pub mod Keeping
use signet_sandbox.Prelude.{Result, ok, err}

abbrev pub Action {ℓ} : Type ℓ → Type ℓ → Type ℓ → Type ℓ
Action S E A = S → Result E A × S

module _ {S E A : Type 0} where
  abbrev pub pure : A → Action S E A
  pure a s = (ok a, s)

  abbrev pub fail : E → Action S E A
  fail e s = (err e, s)

  abbrev pub lift : Result E A → Action S E A
  lift r s = (r, s)

  abbrev pub gets : (S → A) → Action S E A
  gets f s = (ok (f s), s)

module _ {S E A B : Type 0} where
  abbrev pub continue : (A → Action S E B) → Result E A × S → Result E B × S
  continue f (ok a, s) = f a s
  continue f (err e, s) = (err e, s)

  infixl 5 ◌>>=◌
  abbrev pub ◌>>=◌ : Action S E A → (A → Action S E B) → Action S E B
  ◌>>=◌ m f s = continue f (m s)

module _ {S E B : Type 0} where
  infixl 5 ◌>>◌
  abbrev pub ◌>>◌ : Action S E (Unit {0}) → Action S E B → Action S E B
  m >> n = m >>= λ _. n

module _ {S E F A : Type 0} where
  abbrev pub map_result : (E → F) → Result E A × S → Result F A × S
  map_result f (ok a, s) = (ok a, s)
  map_result f (err e, s) = (err (f e), s)

  -- `map_err`.
  abbrev pub map_err : (E → F) → Action S E A → Action S F A
  map_err f m s = map_result f (m s)

  -- The result as a value, for code that matches on it.
  abbrev pub attempt : Action S E A → Action S F (Result E A)
  attempt m s = let (r, s') = m s in (ok r, s')
