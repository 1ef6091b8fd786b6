-- ===== src/Api/Server/Callers.antt =====
-- Whom a bearer token authenticates.
use mathlib.Core.Path.{subst}
use text.Mathlib.Text.{◌==◌ as str_eq}
use text.Mathlib.TextEquality.{eq_iff}
use signet_sandbox.Prelude.{
  ℕ, ◌≡◌, refl, ap, ◌∙◌, ◌↔◌, String, Bool, true, false, List, [], ◌∷◌, ◌++◌, Option, none, some,
  Result, ok, err, arith,
}
use signet_sandbox.Store.Rows.{TokenRow, Db, DbError, unique_violation, statement, run_with}
use signet_sandbox.Store.Statements.{find, insert_api_token, find_api_token}
use signet_sandbox.Platform.{Platform, World}
use signet_sandbox.Nostr.Tokens.{Crates, parse, generate, token_hash}
use signet_sandbox.Nostr.Minted.{parse-generated}
use signet_sandbox.Api.State.{Caller, Payload, token}
use signet_sandbox.Api.Server.{token_caller, bearer_of, verify_bearer, token_create, inserted}

token_caller_iff :
    (r : Result DbError (Option TokenRow)) (caller : Caller)
    → (token_caller r ≡ ok caller) ↔ (
        (row : TokenRow) × (r ≡ ok (some row))
        × (row.revoked ≡ false)
        × (caller ≡ record { npub = row.npub_owner }))
unfolding token_caller
token_caller_iff (err e) caller = (λ h. cc, λ (row, e, a, b). cc)
token_caller_iff (ok none) caller = (λ h. cc, λ (row, e, a, b). cc)
token_caller_iff (ok (some row)) caller = (
  λ h. (row, refl, ground (arith, h), ground (arith, h)),
  λ (r, e, a, b). ground (arith, e, a, b),
)

find-append :
    {A : Type 0} (p : A → Bool) (xs : List A) (x : A)
    → find p xs ≡ none
    → p x ≡ true
    → find p (xs ++ x ∷ []) ≡ some x
unfolding find
find-append p [] x h k = rw k refl
find-append p (y ∷ xs) x h k = ground (arith, find-append p xs x, h, k)

-- What the insert gives and what a lookup gives after it.
insert_found :
    (hash owner : String) (u : Unit {0}) (db : Db)
    → (insert_api_token hash owner db).0 ≡ ok u
    → (insert_api_token hash owner db).1.faults ≡ []
    → (find_api_token hash (insert_api_token hash owner db).1).0
      ≡ ok (some (record { npub_owner = owner; token_hash = hash; revoked = false }))
unfolding insert_api_token find_api_token statement
insert_found hash owner u db made calm = go db.faults made calm
  where
    new : TokenRow
    new = record { npub_owner = owner; token_hash = hash; revoked = false }

    same : TokenRow → Bool
    same t = str_eq t.token_hash hash

    insert : Option TokenRow → Db → Result DbError (Unit {0}) × Db
    insert found db = elim found [
      | some t ↦ (err unique_violation, db)
      | none ↦ (ok tt, record db { api_tokens = db.api_tokens ++ new ∷ [] })
    ]

    stored :
        (o : Option TokenRow) (d : Db)
        → find same d.api_tokens ≡ o
        → (insert o d).0 ≡ ok u
        → (insert o d).1.faults ≡ []
        → (run_with
            (insert o d).1.faults
            (λ (e : Db). (ok (find same e.api_tokens), e))
            (insert o d).1).0
          ≡ ok (some new)
    stored (some t) d f m c = cc
    stored none d f m c =
        rw c (ap ok (find-append same d.api_tokens new f ((eq_iff hash hash).1 refl)))

    go :
        (faults : List Bool)
        → (run_with faults (λ (d : Db). insert (find same d.api_tokens) d) db).0 ≡ ok u
        → (run_with faults (λ (d : Db). insert (find same d.api_tokens) d) db).1.faults ≡ []
        → (find_api_token hash
            (run_with faults (λ (d : Db). insert (find same d.api_tokens) d) db).1).0
          ≡ ok (some new)
    go [] m c = stored (find same db.api_tokens) db refl m c
    go (true ∷ faults) m c = cc
    go (false ∷ faults) m c =
        stored (find same db.api_tokens) (record db { faults = faults }) refl m c

module _ {C : Type 0} (platform : Platform C) (crates : Crates) where
  -- A bearer text authenticates a caller exactly when it is a token whose hash is found in the
  -- table, in a row that is not revoked and has that caller as its owner.
  pub verify_bearer_exact :
      (raw : String) (caller : Caller) (w : World C)
      → ((verify_bearer platform crates raw w).0 ≡ ok caller) ↔ (
          (t : String) × (row : TokenRow) × (parse crates raw ≡ some t)
          × ((find_api_token (token_hash crates t) w.db).0 ≡ ok (some row))
          × (row.revoked ≡ false)
          × (caller ≡ record { npub = row.npub_owner }))
  unfolding verify_bearer
  verify_bearer_exact raw caller w = go (parse crates raw)
    where
      go :
          (o : Option String)
          → ((bearer_of platform crates o w).0 ≡ ok caller) ↔ (
              (t : String) × (row : TokenRow) × (o ≡ some t)
              × ((find_api_token (token_hash crates t) w.db).0 ≡ ok (some row))
              × (row.revoked ≡ false)
              × (caller ≡ record { npub = row.npub_owner }))
      go none = (λ h. cc, λ (t, row, e, a, b, c). cc)
      go (some t) =
          let (f, g) = token_caller_iff (find_api_token (token_hash crates t) w.db).0 caller in
          (
            λ h. let (row, a, b, c) = f h in (t, row, refl, a, b, c),
            λ (x, row, e, a, b, c).
                let same : t ≡ x = cc in
                g (row, ap (λ u. (find_api_token (token_hash crates u) w.db).0) same ∙ a, b, c),
          )

  -- After a token is created, the bearer of its text is authenticated as the caller that created
  -- it, unless the lookup fails, if the hex crate reads the secret back from its hex.
  pub token_create_authenticates :
      (secret : List ℕ) (caller : Caller) (payload : Payload) (w : World C)
      → crates.bytes32_of_hex (crates.as_hex secret) ≡ some secret
      → (token_create platform crates secret caller w).0 ≡ ok payload
      → (token_create platform crates secret caller w).1.db.faults ≡ []
      → (payload ≡ token (generate crates secret))
        × ((verify_bearer platform crates
              (generate crates secret)
              (token_create platform crates secret caller w).1).0
            ≡ ok caller)
  unfolding token_create
  token_create_authenticates secret caller payload w hex made calm =
      go (insert_api_token hash caller.npub w.db) refl made calm
    where
      raw : String
      raw = generate crates secret

      hash : String
      hash = token_hash crates raw

      go :
          (r : Result DbError (Unit {0}) × Db)
          → insert_api_token hash caller.npub w.db ≡ r
          → (inserted platform crates raw r.0 (record w { db = r.1 })).0 ≡ ok payload
          → (inserted platform crates raw r.0 (record w { db = r.1 })).1.db.faults ≡ []
          → (payload ≡ token raw)
            × ((verify_bearer platform crates raw
                  (inserted platform crates raw r.0 (record w { db = r.1 })).1).0
                ≡ ok caller)
      go (err e, db) same m c = cc
      go (ok u, db) same m c = (
        cc,
        (verify_bearer_exact raw caller (record w { db = db })).1 (
          raw,
          record { npub_owner = caller.npub; token_hash = hash; revoked = false },
          parse-generated crates secret hex,
          subst
              (λ (r : Result DbError (Unit {0}) × Db).
                (find_api_token hash r.1).0
                ≡ ok (
                    some (record { npub_owner = caller.npub; token_hash = hash; revoked = false })))
              same
              (insert_found hash caller.npub u w.db
                (ap (λ (r : Result DbError (Unit {0}) × Db). r.0) same)
                (ap (λ (r : Result DbError (Unit {0}) × Db). r.1.faults) same ∙ c)),
          refl,
          refl,
        ),
      )
