-- ===== src/Duration.antt =====
-- crates/signet-cli/src/duration.rs: durations such as `90s`, `1h30m` or bare seconds, parsed from
-- their characters. The error messages are the constructors of `DurationError`.
pub mod Units
pub mod Grammar
pub mod Parsing
unfoldable pub use Units.{unit_secs}
use signet_sandbox.Prelude.{
  ℕ, ◌*◌, ◌+◌, Bool, List, [], ◌∷◌, ◌++◌, Result, ok, err, ok_or, ltb, if◌then◌else◌, ◌>>=◌,
}
use signet_sandbox.Words.{is_digit, parse_u64, checked}

pub data DurationError : Type 0 where
  empty invalid overflows not_positive : DurationError
  unknown_unit : ℕ → DurationError

unfoldable pub add : ℕ → List ℕ → ℕ → Result DurationError ℕ
add total digits multiple = do
  n ← ok_or (parse_u64 digits) invalid
  scaled ← ok_or (checked (n * multiple)) overflows
  ok_or (checked (total + scaled)) overflows

abbrev is_empty : List ℕ → Bool
is_empty [] = Bool.true
is_empty (x ∷ xs) = Bool.false

-- What follows the loop: the digits left over are seconds.
finish : ℕ → List ℕ → Result DurationError ℕ
finish total digits = do
  t ← if is_empty digits then ok total else add total digits 1
  if ltb 0 t then ok t else err not_positive

-- The loop over the characters, with `total` and `digits` as in the source.
scan_units : List ℕ → ℕ → List ℕ → Result DurationError ℕ
scan_units [] total digits = finish total digits
scan_units (ch ∷ rest) total digits =
    let more = scan_units rest total (digits ++ ch ∷ []) in
    let closed : Result DurationError ℕ = (do
      multiple ← ok_or (unit_secs ch) (unknown_unit ch)
      t ← add total digits multiple
      scan_units rest t []) in
    if is_digit ch then more else if is_empty digits then err invalid else closed

unfoldable pub parse_duration_secs : List ℕ → Result DurationError ℕ
unfolding scan_units finish add unit_secs parse_u64
parse_duration_secs input = if is_empty input then err empty else scan_units input 0 []
