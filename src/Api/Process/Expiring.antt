-- ===== src/Api/Process/Expiring.antt =====
-- What a pass of the reaper does to the rows.
use mathlib.Core.Path.{subst}
use signet_sandbox.Prelude.{
  ℕ, ◌≡◌, refl, ap, ◌∙◌, ◌⊎◌, inl, inr, String, Bool, true, false, Bool-cases, ◌&&◌, not, List, [],
  ◌∷◌, Result, ok, err, arith,
}
use text.Mathlib.Text.{◌==◌ as str_eq}
use signet_sandbox.Actions.{Action, pure, attempt, map_err, ◌>>=◌}
use signet_sandbox.Store.Rows.{EnvironmentRow, Db, statement, run_with, expired, is_destroyed}
use signet_sandbox.Store.Statements.{expire_short, mark_expired_by_short_id}
use signet_sandbox.Platform.{Platform, World, list_namespaces}
use signet_sandbox.Platform.Calls.{request}
use signet_sandbox.Orchestrator.Naming.{OrchestrateError, kube, env_label}
use signet_sandbox.Orchestrator.Reaper.{
  reap, keep_reaped, reap_expired, delete_env_namespace, expired_namespace_names,
}
use signet_sandbox.Orchestrator.Keeping.{KeepsDb, keeps_bind, keeps_request}
use signet_sandbox.Api.Validation.{short_id}
use signet_sandbox.Api.Process.{short_of, mark_reaped, marking, reaper_pass}

-- The row is as it was, or it was not destroyed and is now expired.
abbrev pub RowAged : EnvironmentRow → EnvironmentRow → Type 0
RowAged x y = (y ≡ x) ⊎ ((is_destroyed x.status ≡ false) × (y ≡ record x { status = expired }))

-- Row by row, in order.
abbrev pub Aged : List EnvironmentRow → List EnvironmentRow → Type 0
Aged [] [] = Unit
Aged (x ∷ xs) (y ∷ ys) = RowAged x y × Aged xs ys
Aged _ _ = ⊥

-- The other tables stay.
abbrev pub AgedTables : Db → Db → Type 0
AgedTables a b =
    Aged a.environments b.environments × (a.lightning ≡ b.lightning) × (a.api_tokens ≡ b.api_tokens)

Aged-refl : (xs : List EnvironmentRow) → Aged xs xs
Aged-refl [] = tt
Aged-refl (x ∷ xs) = (inl refl, Aged-refl xs)

RowAged-trans : (x y z : EnvironmentRow) → RowAged x y → RowAged y z → RowAged x z
RowAged-trans x y z (inl e) h = subst (λ r. RowAged r z) e h
RowAged-trans x y z (inr (live, e)) (inl f) = inr (live, f ∙ e)
RowAged-trans x y z (inr (live, e)) (inr (live', f)) =
    inr (live, f ∙ ap (λ (r : EnvironmentRow). record r { status = expired }) e)

Aged-trans : (xs ys zs : List EnvironmentRow) → Aged xs ys → Aged ys zs → Aged xs zs
Aged-trans [] [] zs h k = k
Aged-trans [] (y ∷ ys) zs h k = absurd h
Aged-trans (x ∷ xs) [] zs h k = absurd h
Aged-trans (x ∷ xs) (y ∷ ys) [] h k = absurd k
Aged-trans (x ∷ xs) (y ∷ ys) (z ∷ zs) (h, hs) (k, ks) =
    (RowAged-trans x y z h k, Aged-trans xs ys zs hs ks)

expire_short-Aged :
    (short_id : ℕ → String) (short : String) (rows : List EnvironmentRow)
    → Aged rows (expire_short short_id short rows).0
unfolding expire_short
expire_short-Aged short_id short [] = tt
expire_short-Aged short_id short (row ∷ rows) =
    elim (Bool-cases (str_eq (short_id row.id) short && not (is_destroyed row.status))) [
      | inl e ↦ rw e (inr (ground (arith, e), refl), expire_short-Aged short_id short rows)
      | inr e ↦ rw e (inl refl, expire_short-Aged short_id short rows)
    ]

mark-Aged :
    (short_id : ℕ → String) (short : String) (db : Db)
    → AgedTables db (mark_expired_by_short_id short_id short db).1
unfolding mark_expired_by_short_id statement
mark-Aged short_id short db = go db.faults
  where
    go :
        (faults : List Bool)
        → AgedTables db
            (run_with faults
              (λ (d : Db).
                let (rows, n) = expire_short short_id short d.environments in
                (ok n, record d { environments = rows }))
              db).1
    go [] = (expire_short-Aged short_id short db.environments, refl, refl)
    go (true ∷ faults) = (Aged-refl db.environments, refl, refl)
    go (false ∷ faults) = (expire_short-Aged short_id short db.environments, refl, refl)

AgedTables-trans : (a b c : Db) → AgedTables a b → AgedTables b c → AgedTables a c
AgedTables-trans a b c (h, i, j) (k, l, m) =
    (Aged-trans a.environments b.environments c.environments h k, i ∙ l, j ∙ m)

module _ {C : Type 0} (platform : Platform C) where
  mark_reaped-Aged :
      (namespaces : List String) (w : World C)
      → AgedTables w.db (mark_reaped platform namespaces w).1.db
  unfolding mark_reaped
  mark_reaped-Aged [] w = (Aged-refl w.db.environments, refl, refl)
  mark_reaped-Aged (ns ∷ namespaces) w =
      let db = (mark_expired_by_short_id (short_id platform.simple) (short_of ns) w.db).1 in
      AgedTables-trans w.db db (mark_reaped platform namespaces (record w { db = db })).1.db
        (mark-Aged (short_id platform.simple) (short_of ns) w.db)
        (mark_reaped-Aged namespaces (record w { db = db }))

  keeps_delete : (ns : String) → KeepsDb (delete_env_namespace platform ns)
  unfolding delete_env_namespace request
  keeps_delete ns w = ground arith

  keeps_reap : (names : List String) → KeepsDb (reap platform names)
  unfolding reap
  keeps_reap [] = λ w. refl
  keeps_reap (name ∷ names) =
      let after : Result OrchestrateError (Unit {0})
          → Action (World C) OrchestrateError (List String) =
        λ outcome. reap platform names >>= λ rest. pure (keep_reaped platform outcome name rest) in
      keeps_bind (attempt (delete_env_namespace platform name)) after (keeps_delete name) λ outcome.
        keeps_bind (reap platform names) (λ rest. pure (keep_reaped platform outcome name rest))
          (keeps_reap names) (λ rest w. refl)

  keeps_reap_expired : (now : ℕ) → KeepsDb (reap_expired platform now)
  unfolding reap_expired request
  keeps_reap_expired now =
      keeps_bind (map_err kube (request platform (list_namespaces env_label)))
        (λ nss. reap platform (expired_namespace_names platform.parse_rfc3339 now nss))
        (keeps_request platform (list_namespaces env_label))
        (λ nss. keeps_reap (expired_namespace_names platform.parse_rfc3339 now nss))

  -- A pass of the reaper over the cluster, whatever it answers and whatever fails, leaves the rows
  -- of the environments in their order and changes at most the status of rows that are not
  -- destroyed, to `expired`; the other tables stay.
  pub reaper_pass-AgedTables :
      (now : ℕ) (w : World C) → AgedTables w.db (reaper_pass platform now w).1.db
  unfolding reaper_pass
  reaper_pass-AgedTables now w =
      let (r, v) = reap_expired platform now w in
      subst (λ (db : Db). AgedTables db (marking platform r v).1.db) (keeps_reap_expired now w)
        (go r v)
    where
      go :
          (r : Result OrchestrateError (List String)) (v : World C)
          → AgedTables v.db (marking platform r v).1.db
      go (ok namespaces) v = mark_reaped-Aged namespaces v
      go (err e) v = (Aged-refl v.db.environments, refl, refl)
