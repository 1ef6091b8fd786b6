-- ===== src/Platform/Calls.antt =====
-- Requests and statements as actions on the world.
use signet_sandbox.Prelude.{Result}
use signet_sandbox.Actions.{Action, attempt}
use signet_sandbox.Store.Rows.{Db, Sql, DbError}
use signet_sandbox.Platform.{Platform, Request, Answer, KubeError, World}

module _ {C A : Type 0} where
  abbrev put_db : Result DbError A × Db → World C → Result DbError A × World C
  put_db (r, db) w = (r, record w { db = db })

  abbrev put_cluster : Result KubeError A × C → World C → Result KubeError A × World C
  put_cluster (r, c) w = (r, record w { cluster = c })

  -- A sequence of statements on the world's database.
  abbrev pub run_sql : Sql A → Action (World C) DbError A
  run_sql m w = put_db (m w.db) w

-- The same, with the outcome as a value.
abbrev pub try_sql : {C E A : Type 0} → Sql A → Action (World C) E (Result DbError A)
try_sql m = attempt (run_sql m)

-- One request.
unfoldable pub request :
    {C : Type 0} → Platform C → (r : Request) → Action (World C) KubeError (Answer r)
request platform r w = put_cluster (platform.answer r w.cluster) w
