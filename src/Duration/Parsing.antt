-- ===== src/Duration/Parsing.antt =====
-- `parse_duration_secs` accepts exactly the texts that denote a positive `u64`, with their meaning.
use mathlib.Core.Path.{subst}
use signet_sandbox.Prelude.{
  ℕ, ◌+◌, ◌*◌, ◌≤◌, ◌<◌, ◌≡◌, ◌≢◌, ◌↔◌, refl, sym, ap, ◌∙◌, inl, inr, true, false, List, [], ◌∷◌,
  ◌++◌, append_assoc, append-nil, some, ok, All, All-append, arith, Bool-cases, Option-cases,
}
use signet_sandbox.Words.{
  IsDigit, is_digit, value, u64_max, parse_u64, parse_u64_sound, parse_u64_complete,
}
use signet_sandbox.Duration.{add, scan_units, finish, parse_duration_secs}
use signet_sandbox.Duration.Units.{unit_secs}
use signet_sandbox.Duration.Grammar.{Denotes, nothing, seconds, part, Denotes-nil}

add_sound :
    (total : ℕ) (ds : List ℕ) (m t : ℕ)
    → add total ds m ≡ ok t
    → (t ≡ total + value 0 ds * m) × (t ≤ u64_max)
unfolding add
add_sound total ds m t h = elim (Option-cases (parse_u64 ds)) [
  | inl e ↦ ground (arith, e)
  | inr (v, e) ↦ let v_eq = (parse_u64_sound ds v e).0 in rw (← v_eq) (ground (arith, e))
]

add_complete :
    (total : ℕ) (ds : List ℕ) (m : ℕ)
    → ds ≢ []
    → 0 < m
    → total + value 0 ds * m ≤ u64_max
    → add total ds m ≡ ok (total + value 0 ds * m)
unfolding add
add_complete total ds m h pos fits = rw (parse_u64_complete ds h (grind arith)) (ground arith)

unit_pos : (u m : ℕ) → unit_secs u ≡ some m → (0 < m) × (is_digit u ≡ false)
unfolding unit_secs
unit_pos u m h = ground arith

IsDigit-of_test : (c : ℕ) → is_digit c ≡ true → IsDigit c
IsDigit-of_test c h = ground arith

test_of_digit : (c : ℕ) → IsDigit c → is_digit c ≡ true
test_of_digit c h = ground arith

snoc-IsDigit :
    (ds : List ℕ) (c : ℕ) → All IsDigit ds → is_digit c ≡ true → All IsDigit (ds ++ c ∷ [])
snoc-IsDigit ds c h e = All-append IsDigit ds (c ∷ []) h (IsDigit-of_test c e, tt)

finish_sound :
    (total : ℕ) (cur : List ℕ) (r : ℕ)
    → All IsDigit cur
    → total ≤ u64_max
    → finish total cur ≡ ok r
    → (n : ℕ) × Denotes cur n × (r ≡ total + n) × (0 < r) × (r ≤ u64_max)
unfolding finish
finish_sound total [] r h t e = (0, nothing, ground arith, ground arith, ground arith)
finish_sound total (c ∷ cs) r h t e = (
  value 0 (c ∷ cs),
  seconds (c ∷ cs) (λ p. cc) h,
  ground (arith, add_sound total (c ∷ cs) 1 r),
  ground (arith, add_sound total (c ∷ cs) 1 r),
  ground (arith, add_sound total (c ∷ cs) 1 r),
)

scan_digit :
    (ch : ℕ) (rest : List ℕ) (total : ℕ) (cur : List ℕ)
    → is_digit ch ≡ true
    → scan_units (ch ∷ rest) total cur ≡ scan_units rest total (cur ++ ch ∷ [])
unfolding scan_units
scan_digit ch rest total cur e = rw e

-- What must have happened where a unit was read.
scan_unit :
    (ch : ℕ) (rest : List ℕ) (total : ℕ) (cur : List ℕ) (r : ℕ)
    → is_digit ch ≡ false
    → scan_units (ch ∷ rest) total cur ≡ ok r
    → (m : ℕ) × (t : ℕ) × (cur ≢ [])
      × (unit_secs ch ≡ some m)
      × (add total cur m ≡ ok t)
      × (scan_units rest t [] ≡ ok r)
unfolding scan_units
scan_unit ch rest total [] r d e = absurd (ground (arith, d))
scan_unit ch rest total (c ∷ cs) r d e = ground (arith, d)

scan_units_sound :
    (s : List ℕ) (total : ℕ) (cur : List ℕ) (r : ℕ)
    → All IsDigit cur
    → total ≤ u64_max
    → scan_units s total cur ≡ ok r
    → (n : ℕ) × Denotes (cur ++ s) n × (r ≡ total + n) × (0 < r) × (r ≤ u64_max)
unfolding scan_units
scan_units_sound [] total cur r h t e = rw append-nil (finish_sound total cur r h t e)
scan_units_sound (ch ∷ rest) total cur r h t e = elim (Bool-cases (is_digit ch)) [
  | inl d ↦
      let ih =
        scan_units_sound rest total (cur ++ ch ∷ []) r (snoc-IsDigit cur ch h d) t
          (sym (scan_digit ch rest total cur d) ∙ e) in
      rw append_assoc at ih
  | inr d ↦
      let (m, t', ne, unit, added, more) = scan_unit ch rest total cur r d e in
      let (total_eq, fits) = add_sound total cur m t' added in
      let (n, den, r_eq, pos, bound) = scan_units_sound rest t' [] r tt fits more in
      (value 0 cur * m + n, part cur ch ne h unit den, omega arith, pos, bound)
]

-- A run of digits is collected.
scan_run :
    (ds rest : List ℕ) (total : ℕ) (cur : List ℕ)
    → All IsDigit ds
    → scan_units (ds ++ rest) total cur ≡ scan_units rest total (cur ++ ds)
scan_run [] rest total cur h = rw append-nil
scan_run (c ∷ ds) rest total cur h =
    scan_digit c (ds ++ rest) total cur (test_of_digit c h.0)
    ∙ (scan_run ds rest total (cur ++ c ∷ []) h.1 ∙ rw append_assoc)

finish_complete :
    (total : ℕ) (ds : List ℕ)
    → ds ≢ []
    → 0 < total + value 0 ds
    → total + value 0 ds ≤ u64_max
    → finish total ds ≡ ok (total + value 0 ds)
unfolding finish
finish_complete total [] ne pos fits = absurd (ne refl)
finish_complete total (c ∷ cs) ne pos fits =
    rw (add_complete total (c ∷ cs) 1 ne (omega arith) (omega arith)) (ground arith)

scan_unit_complete :
    (u : ℕ) (rest : List ℕ) (total : ℕ) (ds : List ℕ) (m : ℕ)
    → ds ≢ []
    → unit_secs u ≡ some m
    → total + value 0 ds * m ≤ u64_max
    → scan_units (u ∷ rest) total ds ≡ scan_units rest (total + value 0 ds * m) []
unfolding scan_units
scan_unit_complete u rest total [] m ne unit fits = absurd (ne refl)
scan_unit_complete u rest total (c ∷ cs) m ne unit fits =
    let (pos, other) = unit_pos u m unit in
    rw (other, unit, add_complete total (c ∷ cs) m ne pos fits)

scan_units_complete :
    {s : List ℕ} {n : ℕ} (total : ℕ)
    → Denotes s n
    → 0 < total + n
    → total + n ≤ u64_max
    → scan_units s total [] ≡ ok (total + n)
unfolding scan_units finish
scan_units_complete total nothing pos fits = ground arith
scan_units_complete total (seconds ds ne digits) pos fits =
    let run = scan_run ds [] total [] digits in
    (rw append-nil at run) ∙ finish_complete total ds ne pos fits
scan_units_complete total (part ds u {m} {rest} {n} ne digits unit den) pos fits =
    scan_run ds (u ∷ rest) total [] digits
    ∙ (scan_unit_complete u rest total ds m ne unit (omega arith)
        ∙ (scan_units_complete (total + value 0 ds * m) den (omega arith) (omega arith)
            ∙ ap ok (omega arith)))

parse_sound :
    (s : List ℕ) (n : ℕ) → parse_duration_secs s ≡ ok n → Denotes s n × (0 < n) × (n ≤ u64_max)
unfolding parse_duration_secs
parse_sound [] n e = cc
parse_sound (c ∷ cs) n e =
    let (k, den, eq, pos, fits) = scan_units_sound (c ∷ cs) 0 [] n tt (omega arith) e in
    let same : k ≡ n = omega arith in (subst (Denotes (c ∷ cs)) same den, pos, fits)

parse_complete :
    (s : List ℕ) (n : ℕ) → Denotes s n × (0 < n) × (n ≤ u64_max) → parse_duration_secs s ≡ ok n
unfolding parse_duration_secs
parse_complete [] n (den, pos, fits) = absurd (omega (arith, Denotes-nil den refl))
parse_complete (c ∷ cs) n (den, pos, fits) =
    scan_units_complete 0 den (omega arith) (omega arith) ∙ ap ok (omega arith)

-- The parser accepts a text with the result `n` exactly when `n` is a positive `u64` and the text
-- is a sequence of parts, each of digits and a unit, with perhaps bare seconds at the end, that
-- add up to `n`: a text of another shape, a sum of zero and a sum past `u64::MAX` are errors.
pub parse_duration_secs_exact :
    (s : List ℕ) (n : ℕ) → (parse_duration_secs s ≡ ok n) ↔ (Denotes s n × (0 < n) × (n ≤ u64_max))
parse_duration_secs_exact s n = (parse_sound s n, parse_complete s n)
