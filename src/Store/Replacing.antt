-- ===== src/Store/Replacing.antt =====
-- What replacing the Lightning instances of an environment does to the tables.
use signet_sandbox.Prelude.{
  ℕ, ◌≡◌, refl, ap, sym, ◌∙◌, ◌⊎◌, inl, inr, Bool, true, false, not, List, [], ◌∷◌, ◌++◌, ◌==◌,
  append_assoc, append-nil, some, Result, ok, err, arith,
}
use signet_sandbox.Actions.{continue}
use signet_sandbox.Core.{LightningInstance, as_str}
use signet_sandbox.Store.Rows.{LightningRow, Db, DbError, sql, statement, run_with}
use signet_sandbox.Store.Statements.{select}
use signet_sandbox.Store.Guarantees.{SameTables}
use signet_sandbox.Store.Lightning.{
  insert_instance, insert_instances, delete_instances, commit, committed, begun, transaction,
  set_lightning_instances,
}

-- One row for each instance, with its port.
abbrev pub rows_of : ℕ → List (LightningInstance × ℕ) → List LightningRow
rows_of env_id [] = []
rows_of env_id ((wanted, port) ∷ rest) =
    record {
      environment_id = env_id;
      name = wanted.name;
      implementation = as_str wanted.implementation;
      port = some port;
    }
    ∷ rows_of env_id rest

-- The rows of that environment are exactly those of the instances, and nothing else changed.
abbrev pub IsReplaced : ℕ → List (LightningInstance × ℕ) → Db → Db → Type 0
IsReplaced env_id instances before after =
    (after.environments ≡ before.environments)
    × (after.lightning
        ≡ select (λ l. not (l.environment_id == env_id)) before.lightning
          ++ rows_of env_id instances)
    × (after.api_tokens ≡ before.api_tokens)

-- Rows were added at the end.
abbrev IsExtended : List LightningRow → Db → Db → Type 0
IsExtended rows before after =
    (after.environments ≡ before.environments)
    × (after.lightning ≡ before.lightning ++ rows)
    × (after.api_tokens ≡ before.api_tokens)

insert-IsExtended :
    (env_id port : ℕ) (wanted : LightningInstance) (before : Db)
    → ((insert_instance env_id wanted port before).0 ≡ ok tt)
    → IsExtended
        (rows_of env_id ((wanted, port) ∷ []))
        before
        (insert_instance env_id wanted port before).1
unfolding insert_instance statement
insert-IsExtended env_id port wanted before h = ground (arith, h)

extend-IsExtended :
    (env_id : ℕ) (instances : List (LightningInstance × ℕ)) (before : Db)
    → (insert_instances env_id instances before).0 ≡ ok tt
    → IsExtended (rows_of env_id instances) before (insert_instances env_id instances before).1
unfolding insert_instances
extend-IsExtended env_id [] before h = (refl, sym (append-nil before.lightning), refl)
extend-IsExtended env_id ((wanted, port) ∷ rest) before h =
    go (insert_instance env_id wanted port before) (insert-IsExtended env_id port wanted before)
      (extend-IsExtended env_id rest) h
  where
    go :
        (r : Result DbError (Unit {0}) × Db)
        → (r.0 ≡ ok tt → IsExtended (rows_of env_id ((wanted, port) ∷ [])) before r.1)
        → ((db : Db)
            → (insert_instances env_id rest db).0 ≡ ok tt
            → IsExtended (rows_of env_id rest) db (insert_instances env_id rest db).1)
        → (continue (λ u. insert_instances env_id rest) r).0 ≡ ok tt
        → IsExtended
            (rows_of env_id ((wanted, port) ∷ rest))
            before
            (continue (λ u. insert_instances env_id rest) r).1
    go (err e, db) first more k = cc
    go (ok u, db) first more k =
        let (envs, added, tokens) = first refl in
        let (envs', added', tokens') = more db k in
        (
          envs' ∙ envs,
          added'
              ∙ ap (λ rows. rows ++ rows_of env_id rest) added
              ∙ append_assoc before.lightning (rows_of env_id ((wanted, port) ∷ []))
                  (rows_of env_id rest),
          tokens' ∙ tokens,
        )

abbrev IsDeleted : ℕ → Db → Db → Type 0
IsDeleted env_id before after =
    (after.environments ≡ before.environments)
    × (after.lightning ≡ select (λ l. not (l.environment_id == env_id)) before.lightning)
    × (after.api_tokens ≡ before.api_tokens)

delete-IsDeleted :
    (env_id : ℕ) (before : Db)
    → (delete_instances env_id before).0 ≡ ok tt
    → IsDeleted env_id before (delete_instances env_id before).1
unfolding delete_instances statement
delete-IsDeleted env_id before h = ground (arith, h)

-- The body of the transaction.
abbrev body : ℕ → List (LightningInstance × ℕ) → Db → Result DbError (Unit {0}) × Db
body env_id instances before =
    continue (λ u. insert_instances env_id instances) (delete_instances env_id before)

body-IsReplaced :
    (env_id : ℕ) (instances : List (LightningInstance × ℕ)) (before : Db)
    → (body env_id instances before).0 ≡ ok tt
    → IsReplaced env_id instances before (body env_id instances before).1
body-IsReplaced env_id instances before h =
    go (delete_instances env_id before) (delete-IsDeleted env_id before) h
  where
    go :
        (r : Result DbError (Unit {0}) × Db)
        → (r.0 ≡ ok tt → IsDeleted env_id before r.1)
        → (continue (λ u. insert_instances env_id instances) r).0 ≡ ok tt
        → IsReplaced env_id instances before (continue (λ u. insert_instances env_id instances) r).1
    go (err e, db) first k = cc
    go (ok u, db) first k =
        let (envs, left, tokens) = first refl in
        let (envs', added, tokens') = extend-IsExtended env_id instances db k in
        (envs' ∙ envs, added ∙ ap (λ rows. rows ++ rows_of env_id instances) left, tokens' ∙ tokens)

-- The rows were replaced and that is reported, or an error is and the rows were replaced or nothing
-- was changed.
abbrev pub IsAtomic :
    ℕ → List (LightningInstance × ℕ) → Db → Result DbError (Unit {0}) × Db → Type 0
IsAtomic env_id instances before r =
    ((r.0 ≡ ok tt) × IsReplaced env_id instances before r.1)
    ⊎ ((e : DbError) × (r.0 ≡ err e)
        × (SameTables before r.1 ⊎ IsReplaced env_id instances before r.1))

commit-IsAtomic :
    (env_id : ℕ) (instances : List (LightningInstance × ℕ)) (before after : Db) (faults : List Bool)
    → IsReplaced env_id instances before after
    → IsAtomic env_id instances before (commit before after faults)
commit-IsAtomic env_id instances before after [] h = inl (refl, h)
commit-IsAtomic env_id instances before after (false ∷ faults) h = inl (refl, h)
commit-IsAtomic env_id instances before after (true ∷ true ∷ faults) h = inr (sql, refl, inr h)
commit-IsAtomic env_id instances before after (true ∷ false ∷ faults) h =
    inr (sql, refl, inl (refl, refl, refl))
commit-IsAtomic env_id instances before after (true ∷ []) h =
    inr (sql, refl, inl (refl, refl, refl))

begun-IsAtomic :
    (env_id : ℕ) (instances : List (LightningInstance × ℕ)) (before : Db)
    → IsAtomic env_id instances before (committed before (body env_id instances before))
begun-IsAtomic env_id instances before =
    go (body env_id instances before) (body-IsReplaced env_id instances before)
  where
    go :
        (r : Result DbError (Unit {0}) × Db)
        → (r.0 ≡ ok tt → IsReplaced env_id instances before r.1)
        → IsAtomic env_id instances before (committed before r)
    go (ok u, after) h = commit-IsAtomic env_id instances before after after.faults (h refl)
    go (err e, after) h = inr (e, refl, inl (refl, refl, refl))

-- Replacing the Lightning instances of an environment is atomic, whichever statement fails. Where
-- it succeeds, the rows of that environment are exactly those of the instances with their ports,
-- behind the rows of the other environments as they were, and the other tables are as before. Where
-- it fails, every table is as before, or, as after a commit whose answer was lost, all of that was
-- done: never a part of it.
pub set_lightning_instances-IsAtomic :
    (env_id : ℕ) (instances : List (LightningInstance × ℕ)) (db : Db)
    → IsAtomic env_id instances db (set_lightning_instances env_id instances db)
unfolding set_lightning_instances transaction statement
set_lightning_instances-IsAtomic env_id instances db = go db.faults
  where
    start : List Bool → Result DbError (Unit {0}) × Db
    start faults = run_with faults (λ (db : Db). (ok tt, db)) db

    go :
        (faults : List Bool)
        → IsAtomic env_id instances db (begun (body env_id instances) (start faults))
    go [] = begun-IsAtomic env_id instances db
    go (true ∷ faults) = inr (sql, refl, inl (refl, refl, refl))
    go (false ∷ faults) = begun-IsAtomic env_id instances (record db { faults = faults })
