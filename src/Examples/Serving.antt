-- ===== src/Examples/Serving.antt =====
-- The handlers and the statements on the two environments.
use signet_sandbox.Prelude.{ℕ, List, ◌≡◌, ◌≢◌, refl, inl, ◌≤◌, [], ◌∷◌, ◌++◌, some, ok}
use signet_sandbox.Examples.Fixtures.{
  quiet_platform, alices, tables, world, alice, bob, server, node, new,
}
use signet_sandbox.Store.Rows.{EnvironmentRow, statement, Db}
use signet_sandbox.Store.Statements.{
  find, is_id, new_row, next_electrum_port, create_environment, purge_environment, held,
}
use signet_sandbox.Store.Lightning.{set_lightning_instances, insert_instance}
use signet_sandbox.Store.Guarantees.{
  RowIn, Distinct, electrum_ports, electrum_ports-Distinct, purge_environment_keeps_live,
}
use signet_sandbox.Ports.{lowest_free_port}
use signet_sandbox.Api.Access.{owned_environment}
use signet_sandbox.Api.Isolation.{OwnOnly, own_rows_only}
use signet_sandbox.Api.Reading.{reading_rows_only}
use signet_sandbox.Api.Ownership.{refused, foreign_environment_refused}
use signet_sandbox.Api.Reach.{owned_environment_own}
use signet_sandbox.Api.Moves.{IsMoved, lifecycle_transition-IsMoved}
use signet_sandbox.Store.Replacing.{IsAtomic, set_lightning_instances-IsAtomic}
use signet_sandbox.Core.{LightningInstance}
use signet_sandbox.Api.Bundles.{environment_get}
use signet_sandbox.Api.Update.{UpdateParams, environment_update}
use signet_sandbox.Api.Lifecycle.{
  FaucetParams, stop, start, lifecycle_transition, environment_destroy, environment_delete,
  environment_faucet,
}

own_rows_only_example :
    OwnOnly alice world.db.environments
      (lifecycle_transition quiet_platform alice (ok "u1") stop world).1.db.environments
    × OwnOnly alice world.db.environments
        (environment_destroy quiet_platform alice (ok "u1") world).1.db.environments
    × OwnOnly alice world.db.environments
        (environment_delete quiet_platform alice (ok "u1") world).1.db.environments
own_rows_only_example = own_rows_only quiet_platform alice (ok "u1") stop world

abbrev update_params : UpdateParams
update_params = record { id = "u1"; lightning = node ∷ [] }

abbrev faucet_params : FaucetParams
faucet_params = record { id = "u1"; address = "tb1q"; amount_sat = 1000 }

alices_found : find (is_id 1) world.db.environments ≡ some alices
unfolding find
alices_found = refl

alice_is_not_bob : alices.npub_owner ≢ bob.npub
alice_is_not_bob = λ e. cc e

foreign_environment_refused_example :
    (environment_get quiet_platform server bob (ok "u1") world ≡ refused world)
    × (lifecycle_transition quiet_platform bob (ok "u1") start world ≡ refused world)
    × (environment_destroy quiet_platform bob (ok "u1") world ≡ refused world)
    × (environment_delete quiet_platform bob (ok "u1") world ≡ refused world)
    × (environment_update quiet_platform server bob "pw" (ok update_params) world ≡ refused world)
    × (environment_faucet quiet_platform bob (ok faucet_params) world ≡ refused world)
foreign_environment_refused_example =
    foreign_environment_refused quiet_platform server bob "u1" 1 alices world start "pw"
      update_params faucet_params refl refl refl refl alices_found alice_is_not_bob

lifecycle_transition-IsMoved_example :
    IsMoved stop alice world.db.environments
      (lifecycle_transition quiet_platform alice (ok "u1") stop world).1.db.environments
lifecycle_transition-IsMoved_example =
    lifecycle_transition-IsMoved quiet_platform stop alice (ok "u1") world

owned_environment_own_example :
    ((owned_environment quiet_platform alice "u1" world).1.db.environments ≡ world.db.environments)
    × ((row : EnvironmentRow)
        → (owned_environment quiet_platform alice "u1" world).0 ≡ ok row
        → RowIn row world.db.environments × (row.npub_owner ≡ "alice"))
owned_environment_own_example = owned_environment_own quiet_platform alice "u1" world

abbrev grown : Db
unfolding new_row
grown = record tables { environments = tables.environments ++ new_row 7 new ∷ [] }

port_20001 : next_electrum_port 20000 20099 tables ≡ (ok (some 20001), tables)
unfolding next_electrum_port statement held lowest_free_port
port_20001 = refl

grown_created : create_environment 7 new tables ≡ (ok (new_row 7 new), grown)
unfolding create_environment statement find new_row grown
grown_created = refl

tables-Distinct : Distinct (electrum_ports tables)
unfolding Distinct held
tables-Distinct = ((λ h. h), tt)

electrum_ports-Distinct_example :
    Distinct (electrum_ports grown) × (20000 ≤ 20001) × (20001 ≤ 20099)
electrum_ports-Distinct_example =
    electrum_ports-Distinct 20000 20099 20001 7 new (new_row 7 new) tables tables grown
      tables-Distinct port_20001 refl grown_created

purge_environment_keeps_live_example : RowIn alices (purge_environment 2 tables).1.environments
purge_environment_keeps_live_example = purge_environment_keeps_live 2 alices tables refl (inl refl)

abbrev pairs : List (LightningInstance × ℕ)
pairs = (node, 20200) ∷ []

set_lightning_instances-IsAtomic_example :
    IsAtomic 1 pairs tables (set_lightning_instances 1 pairs tables)
set_lightning_instances-IsAtomic_example = set_lightning_instances-IsAtomic 1 pairs tables

replaced : (set_lightning_instances 1 pairs tables).0 ≡ ok tt
unfolding set_lightning_instances statement insert_instance
replaced = refl

reading_rows_only_example :
    OwnOnly alice world.db.environments
      (environment_get quiet_platform server alice (ok "u1") world).1.db.environments
    × OwnOnly alice world.db.environments
        (environment_faucet quiet_platform alice (ok faucet_params) world).1.db.environments
reading_rows_only_example =
    reading_rows_only quiet_platform server alice (ok "u1") (ok faucet_params) world
