-- ===== src/Store/Statements.antt =====
-- The statements on environments and tokens.
use text.Mathlib.Text.{◌==◌ as str_eq}
use signet_sandbox.Prelude.{
  ℕ, ◌+◌, String, Bool, true, false, ◌&&◌, ◌||◌, not, List, [], ◌∷◌, ◌++◌, Option, none, some, ok,
  err, leb, ◌==◌, if◌then◌else◌,
}
use signet_sandbox.Integers.{ℤ}
use signet_sandbox.Ports.{lowest_free_port}
use signet_sandbox.Store.Rows.{
  Status, provisioning, expired, is_live, is_dead, is_destroyed, EnvironmentRow, TokenRow,
  unique_violation, Sql, statement, StoredVersions,
}

module _ {A : Type 0} where
  -- `fetch_optional`: the first row that the condition selects.
  unfoldable pub find : (A → Bool) → List A → Option A
  find p [] = none
  find p (x ∷ xs) = if p x then some x else find p xs

  unfoldable pub select : (A → Bool) → List A → List A
  select p [] = []
  select p (x ∷ xs) = let rest = select p xs in if p x then x ∷ rest else rest

pub record NewEnvironment : Type 0 where
  pub id : ℕ
  pub name : String
  pub npub_owner : String
  pub block_policy : String
  pub signet_challenge : String
  pub component_explorer : Bool
  pub component_indexer : Bool
  pub component_faucet : Bool
  pub rpc_endpoint : String
  pub explorer_port : Option ℕ
  pub electrum_port : Option ℕ
  pub ttl_secs : Option ℤ
  pub expires_at : Option ℕ
  pub versions : Option StoredVersions

-- The row that the insert returns; `now` is the default of `created_at`.
unfoldable pub new_row : ℕ → NewEnvironment → EnvironmentRow
new_row now env = record {
  id = env.id;
  name = env.name;
  npub_owner = env.npub_owner;
  status = provisioning;
  block_policy = env.block_policy;
  signet_challenge = env.signet_challenge;
  component_explorer = env.component_explorer;
  component_indexer = env.component_indexer;
  component_faucet = env.component_faucet;
  rpc_endpoint = env.rpc_endpoint;
  electrum_port = env.electrum_port;
  explorer_port = env.explorer_port;
  faucet_endpoint = none;
  ttl_secs = env.ttl_secs;
  created_at = now;
  expires_at = env.expires_at;
  versions = env.versions;
}

abbrev pub is_id : ℕ → EnvironmentRow → Bool
is_id id row = row.id == id

abbrev pub is_named : String → String → EnvironmentRow → Bool
is_named owner name row = str_eq row.npub_owner owner && str_eq row.name name

-- The primary key, and the unique index on owner and name.
abbrev pub clashes : NewEnvironment → EnvironmentRow → Bool
clashes env row = is_id env.id row || is_named env.npub_owner env.name row

unfoldable pub create_environment : ℕ → NewEnvironment → Sql EnvironmentRow
unfolding statement find new_row
create_environment now env = statement λ db. elim (find (clashes env) db.environments) [
  | some row ↦ (err unique_violation, db)
  | none ↦
      (ok (new_row now env), record db { environments = db.environments ++ new_row now env ∷ [] })
]

unfoldable pub get_environment : ℕ → Sql (Option EnvironmentRow)
unfolding statement find
get_environment id = statement λ db. (ok (find (is_id id) db.environments), db)

unfoldable pub get_environment_by_name : String → String → Sql (Option EnvironmentRow)
unfolding statement find
get_environment_by_name owner name =
    statement λ db. (ok (find (is_named owner name) db.environments), db)

-- `order by created_at desc`.
insert_newest : EnvironmentRow → List EnvironmentRow → List EnvironmentRow
insert_newest row [] = row ∷ []
insert_newest row (r ∷ rows) =
    let rest = insert_newest row rows in
    if leb r.created_at row.created_at then row ∷ r ∷ rows else r ∷ rest

newest_first : List EnvironmentRow → List EnvironmentRow
unfolding insert_newest
newest_first [] = []
newest_first (r ∷ rows) = insert_newest r (newest_first rows)

unfoldable pub list_environments : String → Sql (List EnvironmentRow)
unfolding statement select newest_first
list_environments owner =
    statement
      λ db. (ok (newest_first (select (λ row. str_eq row.npub_owner owner) db.environments)), db)

-- `update environments set status = … where id = …`.
unfoldable pub set_status : ℕ → Status → List EnvironmentRow → List EnvironmentRow
set_status id status [] = []
set_status id status (row ∷ rows) =
    (if is_id id row then record row { status = status } else row) ∷ set_status id status rows

unfoldable pub set_environment_status : ℕ → Status → Sql (Unit {0})
unfolding statement set_status
set_environment_status id status =
    statement λ db. (ok tt, record db { environments = set_status id status db.environments })

-- `mark_expired_by_short_id`; the first argument gives the short id of a row's id.
unfoldable pub expire_short : (ℕ → String) → String → List EnvironmentRow → List EnvironmentRow × ℕ
expire_short short_id short [] = ([], 0)
expire_short short_id short (row ∷ rows) =
    let (rest, n) = expire_short short_id short rows in
    if str_eq (short_id row.id) short && not (is_destroyed row.status)
    then (record row { status = expired } ∷ rest, n + 1)
    else (row ∷ rest, n)

unfoldable pub mark_expired_by_short_id : (ℕ → String) → String → Sql ℕ
unfolding statement expire_short
mark_expired_by_short_id short_id short = statement λ db.
    let (rows, n) = expire_short short_id short db.environments in
    (ok n, record db { environments = rows })

abbrev pub purgeable : ℕ → EnvironmentRow → Bool
purgeable id row = is_id id row && is_dead row.status

-- The rows of `environment_lightning` go with their environment.
unfoldable pub purge_environment : ℕ → Sql Bool
unfolding statement select find
purge_environment id = statement λ db. elim (find (purgeable id) db.environments) [
  | none ↦ (ok false, db)
  | some row ↦ (
    ok true,
    record db {
      environments = select (λ r. not (purgeable id r)) db.environments;
      lightning = select (λ l. not (l.environment_id == id)) db.lightning;
    },
  )
]

unfoldable pub held : (EnvironmentRow → Option ℕ) → List EnvironmentRow → List ℕ
held port [] = []
held port (row ∷ rows) = elim (port row) [
  | none ↦ held port rows
  | some p ↦ if is_live row.status then p ∷ held port rows else held port rows
]

unfoldable pub next_electrum_port : ℕ → ℕ → Sql (Option ℕ)
unfolding statement held lowest_free_port
next_electrum_port base max =
    statement
      λ db. (ok (lowest_free_port base max (held (λ r. r.electrum_port) db.environments)), db)

unfoldable pub next_explorer_port : ℕ → ℕ → Sql (Option ℕ)
unfolding statement held lowest_free_port
next_explorer_port base max =
    statement
      λ db. (ok (lowest_free_port base max (held (λ r. r.explorer_port) db.environments)), db)

-- The hash is unique in `api_tokens`.
unfoldable pub insert_api_token : String → String → Sql (Unit {0})
unfolding statement find
insert_api_token token_hash owner = statement λ db.
    elim (find (λ (t : TokenRow). str_eq t.token_hash token_hash) db.api_tokens) [
      | some t ↦ (err unique_violation, db)
      | none ↦ (
        ok tt,
        record db {
          api_tokens =
              db.api_tokens
              ++ record { npub_owner = owner; token_hash = token_hash; revoked = false } ∷ [];
        },
      )
    ]

unfoldable pub find_api_token : String → Sql (Option TokenRow)
unfolding statement find
find_api_token token_hash =
    statement λ db. (ok (find (λ (t : TokenRow). str_eq t.token_hash token_hash) db.api_tokens), db)
