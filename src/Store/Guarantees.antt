-- ===== src/Store/Guarantees.antt =====
-- What the statements keep: live rows and ports.
use mathlib.Core.Path.{subst}
use signet_sandbox.Prelude.{
  ℕ, ◌≤◌, ◌≡◌, refl, ap, ◌∙◌, sym, ◌⊎◌, inl, inr, true, false, not, List, [], ◌∷◌, ◌++◌, Option,
  some, ok, In, arith,
}
use signet_sandbox.Ports.{lowest_free_port}
use signet_sandbox.Ports.Lowest.{lowest_free_port_exact}
use signet_sandbox.Store.Rows.{EnvironmentRow, Db, statement, is_live, is_dead, Status}
use signet_sandbox.Store.Statements.{
  select, held, NewEnvironment, new_row, purgeable, purge_environment, create_environment,
  next_electrum_port,
}

-- The tables, without what is still to fail.
abbrev pub SameTables : Db → Db → Type 0
SameTables a b =
    (a.environments ≡ b.environments) × (a.lightning ≡ b.lightning) × (a.api_tokens ≡ b.api_tokens)

abbrev pub RowIn : EnvironmentRow → List EnvironmentRow → Type 0
RowIn r [] = ⊥
RowIn r (x ∷ xs) = (r ≡ x) ⊎ RowIn r xs

dead_not_live : (s : Status) → is_live s ≡ true → is_dead s ≡ false
dead_not_live s h = ground arith

keep_live :
    (id : ℕ) (row : EnvironmentRow) (rows : List EnvironmentRow)
    → is_live row.status ≡ true
    → RowIn row rows
    → RowIn row (select (λ r. not (purgeable id r)) rows)
unfolding select
keep_live id row [] live h = absurd h
keep_live id row (x ∷ rows) live (inl same) =
    let dead = dead_not_live row.status live in ground arith
keep_live id row (x ∷ rows) live (inr h) = ground (arith, keep_live id row rows live h)

-- Purging an environment keeps every row with a live status, of every environment and whatever
-- fails.
pub purge_environment_keeps_live :
    (id : ℕ) (row : EnvironmentRow) (db : Db)
    → is_live row.status ≡ true
    → RowIn row db.environments
    → RowIn row (purge_environment id db).1.environments
unfolding purge_environment statement
purge_environment_keeps_live id row db live h =
    let kept = keep_live id row db.environments live h in ground arith

unfoldable pub Distinct : List ℕ → Type 0
Distinct [] = Unit
Distinct (x ∷ xs) = (¬ In x xs) × Distinct xs

In-snoc : (a p : ℕ) (xs : List ℕ) → In a (xs ++ p ∷ []) → (a ≡ p) ⊎ In a xs
In-snoc a p [] h = ground arith
In-snoc a p (x ∷ xs) h = ground (arith, In-snoc a p xs)

Distinct-snoc : (p : ℕ) (xs : List ℕ) → Distinct xs → ¬ In p xs → Distinct (xs ++ p ∷ [])
unfolding Distinct
Distinct-snoc p [] d new = ground arith
Distinct-snoc p (x ∷ xs) d new =
    let rest = Distinct-snoc p xs d.1 (λ h. new (inr h)) in
    ((λ h. elim (In-snoc x p xs h) [ inl same ↦ new (inl (sym same)) | inr old ↦ d.0 old ]), rest)

held_snoc :
    (port : EnvironmentRow → Option ℕ) (row : EnvironmentRow) (p : ℕ) (rows : List EnvironmentRow)
    → port row ≡ some p
    → is_live row.status ≡ true
    → held port (rows ++ row ∷ []) ≡ held port rows ++ p ∷ []
unfolding held
held_snoc port row p [] e live = rw (e, live)
held_snoc port row p (r ∷ rows) e live = ground (arith, held_snoc port row p rows e live)

-- The electrum ports of the live environments.
abbrev pub electrum_ports : Db → List ℕ
electrum_ports db = held (λ r. r.electrum_port) db.environments

port_found :
    (base max p : ℕ) (db db' : Db)
    → next_electrum_port base max db ≡ (ok (some p), db')
    → (lowest_free_port base max (electrum_ports db) ≡ some p)
      × (db'.environments ≡ db.environments)
unfolding next_electrum_port statement
port_found base max p db db' e = ground arith

row_added :
    (now : ℕ) (env : NewEnvironment) (db db' : Db) (row : EnvironmentRow)
    → create_environment now env db ≡ (ok row, db')
    → db'.environments ≡ db.environments ++ new_row now env ∷ []
unfolding create_environment statement
row_added now env db db' row e = ground arith

-- Where the electrum ports of the live environments differ from each other, they still do after a
-- port is allocated and an environment with that port is inserted, and the port was in the range.
pub electrum_ports-Distinct :
    (base max p now : ℕ) (env : NewEnvironment) (row : EnvironmentRow) (db allocated after : Db)
    → Distinct (electrum_ports db)
    → next_electrum_port base max db ≡ (ok (some p), allocated)
    → env.electrum_port ≡ some p
    → create_environment now env allocated ≡ (ok row, after)
    → Distinct (electrum_ports after) × (base ≤ p) × (p ≤ max)
unfolding new_row held
electrum_ports-Distinct base max p now env row db allocated after d found mine created =
    let (lowest, kept) = port_found base max p db allocated found in
    let (ge, le, free, low) = (lowest_free_port_exact base max (electrum_ports db) p).0 lowest in
    let added = row_added now env allocated after row created in
    let rows : after.environments ≡ db.environments ++ new_row now env ∷ [] =
      added ∙ ap (λ rs. rs ++ new_row now env ∷ []) kept in
    (
      subst Distinct
          (sym (
            ap (held (λ r. r.electrum_port)) rows
            ∙ held_snoc (λ r. r.electrum_port) (new_row now env) p db.environments mine refl))
          (Distinct-snoc p (electrum_ports db) d free),
      ge,
      le,
    )
