-- ===== src/Actions/Keeping.antt =====
-- Actions that keep a property of the state, whether they succeed or fail.
use signet_sandbox.Prelude.{Result, ok, err}
use signet_sandbox.Actions.{Action, continue, map_result, map_err, ◌>>=◌}

abbrev pub Keeps : {S E A : Type 0} → (S → Type 0) → Action S E A → Type 0
Keeps P m = (s : _) → P s → P (m s).1

module _ {S E A B : Type 0} (P : S → Type 0) where
  keeps_continue :
      (f : A → Action S E B)
      → ((a : A) → Keeps P (f a))
      → (r : Result E A × S) → P r.1
      → P (continue f r).1
  keeps_continue f keeps (ok a, s) h = keeps a s h
  keeps_continue f keeps (err e, s) h = h

  pub Keeps-then :
      (m : Action S E A) (f : A → Action S E B)
      → Keeps P m
      → ((a : A) → Keeps P (f a))
      → Keeps P (m >>= f)
  Keeps-then m f first second s h = keeps_continue f second (m s) (first s h)

module _ {S E F A : Type 0} (P : S → Type 0) where
  keeps_result : (g : E → F) (r : Result E A × S) → P r.1 → P (map_result g r).1
  keeps_result g (ok a, s) h = h
  keeps_result g (err e, s) h = h

  pub Keeps-map_err : (g : E → F) (m : Action S E A) → Keeps P m → Keeps P (map_err g m)
  Keeps-map_err g m keeps s h = keeps_result g (m s) (keeps s h)
