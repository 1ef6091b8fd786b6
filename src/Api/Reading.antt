-- ===== src/Api/Reading.antt =====
-- The handlers that answer with a bundle or fund an address change no other row either.
use signet_sandbox.Prelude.{
  ℕ, ◌≡◌, refl, ap, ◌∙◌, inl, String, List, [], ◌∷◌, Option, none, some, Result, ok, err, arith,
}
use signet_sandbox.Actions.{continue, ◌>>=◌}
use signet_sandbox.Rpc.{RpcError}
use signet_sandbox.Maps.{Map}
use signet_sandbox.Core.{EnvStatus, LightningConnection}
use signet_sandbox.Store.Rows.{EnvironmentRow, LightningRow, Db, DbError, statement, ready}
use signet_sandbox.Store.Lightning.{get_lightning_instances}
use signet_sandbox.Platform.{Platform, World}
use signet_sandbox.Orchestrator.Naming.{Orchestrator}
use signet_sandbox.Orchestrator.Keeping.{
  KeepsDb, keeps_core_ready, keeps_rpc_credentials, keeps_faucet_fund,
  keeps_lightning_admin_macaroon, keeps_lightning_tls_ca, keeps_lightning_node_id,
}
use signet_sandbox.Orchestrator.Workloads.{core_ready, rpc_credentials}
use signet_sandbox.Orchestrator.Pods.{lightning_admin_macaroon, lightning_tls_ca}
use signet_sandbox.Api.State.{AppState, Caller, Handler}
use signet_sandbox.Api.Validation.{short_id}
use signet_sandbox.Api.Access.{reconcile_reaped}
use signet_sandbox.Api.Isolation.{
  others, OwnOnly, Elsewhere, status_update, own_bind, reconcile_lem,
}
use signet_sandbox.Api.Lifecycle.{FaucetParams, fund_row, environment_faucet}
use signet_sandbox.Api.Bundles.{
  connection, connect_all, add_connection, connect_listed, lightning_connections, bundle_response,
  observed_status, environment_get,
}

read_instances :
    (id : ℕ) (db : Db) → (get_lightning_instances id db).1.environments ≡ db.environments
unfolding get_lightning_instances statement
read_instances id db = ground arith

module _ {C : Type 0} (platform : Platform C) where
  keeps_connection :
      (o : Orchestrator) (short : String) (i : LightningRow) (port : ℕ)
      → KeepsDb (connection platform o short i port)
  unfolding connection
  keeps_connection o short i port w =
      let a = keeps_lightning_admin_macaroon platform short i.name in
      let first = lightning_admin_macaroon platform short i.name w in
      let b = keeps_lightning_tls_ca platform short i.name first.1 in
      let second = lightning_tls_ca platform short i.name first.1 in
      let c = keeps_lightning_node_id platform short i.name second.1 in ground (arith, a w, b, c)

  keeps_connect_all :
      (o : Orchestrator) (short : String) (instances : List LightningRow)
      (connections : Map LightningConnection) (w : World C)
      → (connect_all platform o short instances connections w).1.db ≡ w.db
  unfolding connect_all
  keeps_connect_all o short [] connections w = refl
  keeps_connect_all o short (i ∷ instances) connections w =
      next i.port refl (keeps_connect_all o short instances)
    where
      next :
          (port : Option ℕ)
          → i.port ≡ port
          → ((cs : Map LightningConnection) (w' : World C)
              → (connect_all platform o short instances cs w').1.db ≡ w'.db)
          → (connect_all platform o short (i ∷ instances) connections w).1.db ≡ w.db
      next none e later = ground (arith, e)
      next (some port) e later =
          let outcome = connection platform o short i port w in
          let rest = later (add_connection platform i.name outcome.0 connections) outcome.1 in
          ground (arith, e, rest, keeps_connection o short i port w)

  listed_rows :
      (o : Orchestrator) (short : String) (r : Result DbError (List LightningRow)) (w : World C)
      → (connect_listed platform o short r w).1.db ≡ w.db
  unfolding connect_all
  listed_rows o short (err e) w = refl
  listed_rows o short (ok instances) w = keeps_connect_all o short instances [] w

  connections_rows :
      (o : Orchestrator) (id : ℕ) (status : EnvStatus) (w : World C)
      → (lightning_connections platform o id status w).1.db.environments ≡ w.db.environments
  unfolding lightning_connections
  connections_rows o id status w =
      let read = get_lightning_instances id w.db in
      let listed = listed_rows o (short_id platform.simple id) read.0 (record w { db = read.1 }) in
      ground (arith, listed, read_instances id w.db)

  bundle_rows :
      (state : AppState) (row : EnvironmentRow) (status : EnvStatus) (w : World C)
      → (bundle_response platform state row status w).1.db.environments ≡ w.db.environments
  unfolding bundle_response
  bundle_rows state row status w =
      let credentials = rpc_credentials platform (short_id platform.simple row.id) w in
      let kept = keeps_rpc_credentials platform (short_id platform.simple row.id) w in
      let connected = connections_rows state.orchestrator row.id status credentials.1 in
      ground (arith, kept, connected)

  observed-Elsewhere :
      (row : EnvironmentRow) (id : ℕ)
      → row.id ≡ id
      → Elsewhere platform id (observed_status platform row)
  unfolding observed_status
  observed-Elsewhere row id same w =
      let core = core_ready platform (short_id platform.simple row.id) w in
      let kept = keeps_core_ready platform (short_id platform.simple row.id) w in
      let updated = status_update id ready core.1.db in ground (arith, same, kept, updated)

  -- The handler's body after the reconciliation.
  abbrev answer_row : AppState → EnvironmentRow → Handler C
  unfolding observed_status bundle_response
  answer_row state row = do
    status ← observed_status platform row
    bundle_response platform state row status

  answer_rows :
      (state : AppState) (row : EnvironmentRow) (r : Result RpcError EnvStatus × World C)
      → (continue (bundle_response platform state row) r).1.db.environments ≡ r.1.db.environments
  answer_rows state row (ok status, w) = bundle_rows state row status w
  answer_rows state row (err e, w) = refl

  get_step :
      (state : AppState) (id : ℕ) (w : World C) (r : Result RpcError EnvironmentRow × World C)
      → (others id r.1.db.environments ≡ others id w.db.environments)
      → ((row' : EnvironmentRow) → r.0 ≡ ok row' → row'.id ≡ id)
      → others id (continue (answer_row state) r).1.db.environments ≡ others id w.db.environments
  unfolding observed_status bundle_response
  get_step state id w (err e, w') same ids = same
  get_step state id w (ok row', w') same ids =
      ap (others id) (answer_rows state row' (observed_status platform row' w'))
      ∙ observed-Elsewhere row' id (ids row' refl) w'
      ∙ same

  fund_rows :
      (params : FaucetParams) (row : EnvironmentRow) (w : World C)
      → (fund_row platform params row w).1.db.environments ≡ w.db.environments
  unfolding fund_row
  fund_rows params row w =
      let kept =
        keeps_faucet_fund platform (short_id platform.simple row.id) params.address
          params.amount_sat w in
      ground (arith, kept)

  -- Reading a bundle changes no row, or at most the rows with the id of one row of the table, which
  -- the caller owns; so does funding an address. Parameters, failures and answers are arbitrary.
  pub reading_rows_only :
      (state : AppState) (caller : Caller) (params : Result String String)
      (funding : Result String FaucetParams) (w : World C)
      → OwnOnly caller w.db.environments
          (environment_get platform state caller params w).1.db.environments
        × OwnOnly caller w.db.environments
            (environment_faucet platform caller funding w).1.db.environments
  unfolding environment_get environment_faucet
  reading_rows_only state caller params funding w = (get params, fund funding)
    where
      get :
          (p : Result String String)
          → OwnOnly caller w.db.environments
              (environment_get platform state caller p w).1.db.environments
      get (err message) = inl refl
      get (ok raw) =
          own_bind platform caller raw (λ row. reconcile_reaped platform row >>= answer_row state)
            (λ row w'.
              let (same, ids) = reconcile_lem platform row w' in
              get_step state row.id w' (reconcile_reaped platform row w') same ids)
            w

      fund :
          (p : Result String FaucetParams)
          → OwnOnly caller w.db.environments
              (environment_faucet platform caller p w).1.db.environments
      fund (err message) = inl refl
      fund (ok f) =
          own_bind platform caller f.id (fund_row platform f)
            (λ row w'. ap (others row.id) (fund_rows f row w')) w
