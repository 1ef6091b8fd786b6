-- ===== src/Api/Reach.antt =====
-- A caller reaches only rows of its own.
use text.Mathlib.TextEquality.{eq_iff}
use signet_sandbox.Prelude.{
  ℕ, ◌≡◌, refl, String, Bool, List, [], ◌∷◌, Option, none, some, ok, arith,
}
use signet_sandbox.Store.Rows.{EnvironmentRow, Db, statement}
use signet_sandbox.Store.Statements.{
  find, is_id, is_named, get_environment, get_environment_by_name,
}
use signet_sandbox.Store.Guarantees.{RowIn}
use signet_sandbox.Platform.{Platform, World}
use signet_sandbox.Api.State.{Caller}
use signet_sandbox.Api.Access.{resolve_environment, owned_environment}

find_in :
    (p : EnvironmentRow → Bool) (rows : List EnvironmentRow) (row : EnvironmentRow)
    → find p rows ≡ some row
    → RowIn row rows
unfolding find
find_in p [] row e = ground arith
find_in p (r ∷ rows) row e = ground (arith, find_in p rows row)

read_by_id :
    (id : ℕ) (db : Db)
    → ((get_environment id db).1.environments ≡ db.environments)
      × ((row : EnvironmentRow)
          → (get_environment id db).0 ≡ ok (some row)
          → RowIn row db.environments)
unfolding get_environment statement
read_by_id id db = (ground arith, λ row e. find_in (is_id id) db.environments row (ground arith))

read_by_name :
    (owner name : String) (db : Db)
    → ((get_environment_by_name owner name db).1.environments ≡ db.environments)
      × ((row : EnvironmentRow)
          → (get_environment_by_name owner name db).0 ≡ ok (some row)
          → RowIn row db.environments)
unfolding get_environment_by_name statement
read_by_name owner name db =
    (ground arith, λ row e. find_in (is_named owner name) db.environments row (ground arith))

module _ {C : Type 0} (platform : Platform C) where
  own_by_name :
      (caller : Caller) (raw : String) (w : World C)
      → platform.parse_uuid raw ≡ none
      → ((owned_environment platform caller raw w).1.db.environments ≡ w.db.environments)
        × ((row : EnvironmentRow)
            → (owned_environment platform caller raw w).0 ≡ ok row
            → RowIn row w.db.environments × (row.npub_owner ≡ caller.npub))
  unfolding owned_environment resolve_environment
  own_by_name caller raw w e =
      let read = read_by_name caller.npub raw w.db in
      (
        ground (arith, e, read.0),
        λ row given. ground (arith, e, given, read.1 row, eq_iff row.npub_owner caller.npub),
      )

  own_by_id :
      (caller : Caller) (raw : String) (id : ℕ) (w : World C)
      → platform.parse_uuid raw ≡ some id
      → ((owned_environment platform caller raw w).1.db.environments ≡ w.db.environments)
        × ((row : EnvironmentRow)
            → (owned_environment platform caller raw w).0 ≡ ok row
            → RowIn row w.db.environments × (row.npub_owner ≡ caller.npub))
  unfolding owned_environment resolve_environment
  own_by_id caller raw id w e =
      let read = read_by_id id w.db in
      (
        ground (arith, e, read.0),
        λ row given. ground (arith, e, given, read.1 row, eq_iff row.npub_owner caller.npub),
      )

  -- Whatever the text of the id and whichever statement fails, the lookup changes no row, and a row
  -- that it gives stands in the table and belongs to the caller.
  pub owned_environment_own :
      (caller : Caller) (raw : String) (w : World C)
      → ((owned_environment platform caller raw w).1.db.environments ≡ w.db.environments)
        × ((row : EnvironmentRow)
            → (owned_environment platform caller raw w).0 ≡ ok row
            → RowIn row w.db.environments × (row.npub_owner ≡ caller.npub))
  owned_environment_own caller raw w = own (platform.parse_uuid raw) refl
    where
      own :
          (parsed : Option ℕ)
          → platform.parse_uuid raw ≡ parsed
          → ((owned_environment platform caller raw w).1.db.environments ≡ w.db.environments)
            × ((row : EnvironmentRow)
                → (owned_environment platform caller raw w).0 ≡ ok row
                → RowIn row w.db.environments × (row.npub_owner ≡ caller.npub))
      own none e = own_by_name caller raw w e
      own (some id) e = own_by_id caller raw id w e
