-- ===== src/Store/Lightning.antt =====
-- The statements on Lightning instances and their ports.
use Prim.Native.String
use text.Mathlib.Text.{◌==◌ as str_eq}
use signet_sandbox.Prelude.{
  ℕ, ◌+◌, String, Bool, true, false, ◌&&◌, not, List, [], ◌∷◌, ◌++◌, none, some, Result, ok, err,
  ◌==◌, Ordering, if◌then◌else◌,
}
use signet_sandbox.Actions.{pure, lift, ◌>>=◌, ◌>>◌}
use signet_sandbox.Core.{LightningInstance, as_str}
use signet_sandbox.Ports.{allocate, PoolError}
use signet_sandbox.Store.Rows.{
  is_live, EnvironmentRow, LightningRow, Db, DbError, sql, unique_violation, pool_exhausted, Sql,
  statement,
}
use signet_sandbox.Store.Statements.{find, select, is_id}

abbrev done : Sql (Unit {0})
done = statement λ db. (ok tt, db)

unfoldable pub delete_instances : ℕ → Sql (Unit {0})
unfolding statement select
delete_instances env_id = statement λ db.
    (ok tt, record db { lightning = select (λ l. not (l.environment_id == env_id)) db.lightning })

abbrev pub is_instance : ℕ → String → LightningRow → Bool
is_instance env_id name l = l.environment_id == env_id && str_eq l.name name

-- The foreign key wants the environment, the primary key a new name.
unfoldable pub insert_instance : ℕ → LightningInstance → ℕ → Sql (Unit {0})
unfolding statement find as_str
insert_instance env_id instance' port = statement λ db. elim (find (is_id env_id) db.environments) [
  | none ↦ (err sql, db)
  | some row ↦ elim (find (is_instance env_id instance'.name) db.lightning) [
    | some l ↦ (err unique_violation, db)
    | none ↦ (
      ok tt,
      record db {
        lightning =
            db.lightning
            ++ record {
              environment_id = env_id;
              name = instance'.name;
              implementation = as_str instance'.implementation;
              port = some port;
            }
              ∷ [];
      },
    )
  ]
]

unfoldable pub insert_instances : ℕ → List (LightningInstance × ℕ) → Sql (Unit {0})
unfolding insert_instance
insert_instances env_id [] = pure tt
insert_instances env_id ((instance', port) ∷ rest) = do
  insert_instance env_id instance' port
  insert_instances env_id rest

abbrev pub roll_back : Db → DbError → Db → Result DbError (Unit {0}) × Db
roll_back before e after = (err e, record before { faults = after.faults })

-- `commit`. Where it fails the answer was lost, and the next entry says whether the server committed
-- all the same.
abbrev pub commit : Db → Db → List Bool → Result DbError (Unit {0}) × Db
commit before after [] = (ok tt, after)
commit before after (false ∷ faults) = (ok tt, record after { faults = faults })
commit before after (true ∷ true ∷ faults) = (err sql, record after { faults = faults })
commit before after (true ∷ false ∷ faults) = (err sql, record before { faults = faults })
commit before after (true ∷ []) = (err sql, record before { faults = [] })

abbrev pub committed : Db → Result DbError (Unit {0}) × Db → Result DbError (Unit {0}) × Db
committed before (ok u, after) = commit before after after.faults
committed before (err e, after) = roll_back before e after

abbrev pub begun : Sql (Unit {0}) → Result DbError (Unit {0}) × Db → Result DbError (Unit {0}) × Db
begun body (ok u, before) = committed before (body before)
begun body (err e, before) = (err e, before)

-- `begin`, the statements, and `commit` if none of them failed: a transaction that is dropped
-- without a commit changes no table.
unfoldable pub transaction : Sql (Unit {0}) → Sql (Unit {0})
unfolding statement
transaction body db = begun body (done db)

-- Replace the instances of one environment.
unfoldable pub set_lightning_instances : ℕ → List (LightningInstance × ℕ) → Sql (Unit {0})
unfolding transaction delete_instances insert_instances
set_lightning_instances env_id instances =
    transaction (do delete_instances env_id; insert_instances env_id instances)

insert_named : LightningRow → List LightningRow → List LightningRow
insert_named l [] = l ∷ []
insert_named l (x ∷ xs) =
    let rest = insert_named l xs in
    elim (String.compare x.name l.name) [
      | Ordering.lt ↦ x ∷ rest
      | Ordering.eq ↦ x ∷ rest
      | Ordering.gt ↦ l ∷ x ∷ xs
    ]

-- `order by name`.
unfoldable pub by_name : List LightningRow → List LightningRow
unfolding insert_named
by_name [] = []
by_name (l ∷ ls) = insert_named l (by_name ls)

unfoldable pub get_lightning_instances : ℕ → Sql (List LightningRow)
unfolding statement select by_name
get_lightning_instances env_id =
    statement λ db. (ok (by_name (select (λ l. l.environment_id == env_id) db.lightning)), db)

abbrev live_with_id : ℕ → EnvironmentRow → Bool
live_with_id id row = is_id id row && is_live row.status

has_live : ℕ → List EnvironmentRow → Bool
unfolding find
has_live id rows = elim (find (live_with_id id) rows) [ none ↦ false | some row ↦ true ]

-- The join on the environment, and the three ports of each instance.
unfoldable pub held_lightning : List EnvironmentRow → List LightningRow → List ℕ
unfolding has_live
held_lightning rows [] = []
held_lightning rows (l ∷ ls) =
    let rest = held_lightning rows ls in
    elim l.port [
      | none ↦ rest
      | some p ↦ if has_live l.environment_id rows then p ∷ (p + 1) ∷ (p + 2) ∷ rest else rest
    ]

unfoldable pub held_lightning_ports : Sql (List ℕ)
unfolding statement held_lightning
held_lightning_ports = statement λ db. (ok (held_lightning db.environments db.lightning), db)

abbrev pool_error : Result PoolError (List ℕ) → Result DbError (List ℕ)
pool_error (ok ps) = ok ps
pool_error (err e) = err pool_exhausted

unfoldable pub next_lightning_ports : ℕ → ℕ → ℕ → Sql (List ℕ)
unfolding held_lightning_ports allocate
next_lightning_ports base max triples = do
  held ← held_lightning_ports
  lift (pool_error (allocate triples base max held))
