-- ===== src/Store/Rows.antt =====
-- The rows and the state of the database.
use signet_sandbox.Prelude.{ℕ, String, Bool, true, false, List, Option, Result, err, [], ◌∷◌}
use signet_sandbox.Actions.{Action}
use signet_sandbox.Integers.{ℤ}
use signet_sandbox.Maps.{Map}

-- The column `status`; its CHECK constraint admits these five texts.
pub data Status : Type 0 where
  provisioning ready stopped expired destroyed : Status

-- `status in ('provisioning', 'ready', 'stopped')`.
abbrev pub is_live : Status → Bool
is_live provisioning = true
is_live ready = true
is_live stopped = true
is_live expired = false
is_live destroyed = false

-- `status in ('destroyed', 'expired')`.
abbrev pub is_dead : Status → Bool
is_dead expired = true
is_dead destroyed = true
is_dead _ = false

abbrev pub is_destroyed : Status → Bool
is_destroyed destroyed = true
is_destroyed _ = false

-- The column `versions`: the image map as JSON. `none` is a value that is no map of texts.
abbrev pub StoredVersions : Type 0
StoredVersions = Option (Map (List ℕ))

pub record EnvironmentRow : Type 0 where
  pub id : ℕ
  pub name : String
  pub npub_owner : String
  pub status : Status
  pub block_policy : String
  pub signet_challenge : String
  pub component_explorer : Bool
  pub component_indexer : Bool
  pub component_faucet : Bool
  pub rpc_endpoint : String
  pub electrum_port : Option ℕ
  pub explorer_port : Option ℕ
  pub faucet_endpoint : Option String
  pub ttl_secs : Option ℤ
  pub created_at : ℕ
  pub expires_at : Option ℕ
  pub versions : Option StoredVersions

pub record LightningRow : Type 0 where
  pub environment_id : ℕ
  pub name : String
  pub implementation : String
  pub port : Option ℕ

pub record TokenRow : Type 0 where
  pub npub_owner : String
  pub token_hash : String
  pub revoked : Bool

-- The tables, and for each statement to come whether the server or the connection fails it; where
-- the list has ended no statement fails. After a commit that fails stands whether it was done.
pub record Db : Type 0 where
  pub environments : List EnvironmentRow
  pub lightning : List LightningRow
  pub api_tokens : List TokenRow
  pub faults : List Bool

pub data DbError : Type 0 where
  sql unique_violation pool_exhausted : DbError

abbrev pub Sql : Type 0 → Type 0
Sql A = Action Db DbError A

abbrev pub run_with : {A : Type 0} → List Bool → (Db → Result DbError A × Db) → Sql A
run_with [] run db = run db
run_with (true ∷ faults) run db = (err sql, record db { faults = faults })
run_with (false ∷ faults) run db = run (record db { faults = faults })

-- One statement: a fault leaves the tables as they are.
unfoldable pub statement : {A : Type 0} → (Db → Result DbError A × Db) → Sql A
statement run db = run_with db.faults run db
