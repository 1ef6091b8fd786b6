-- ===== src/Api/Server/Gate.antt =====
-- Which requests reach a handler, and what the others leave behind.
use signet_sandbox.Prelude.{
  ℕ, ◌⊎◌, inl, inr, if◌then◌else◌, ◌≡◌, refl, ap, String, Bool, true, false, List, [], ◌∷◌, Option,
  none, some, Result, ok, err,
}
use signet_sandbox.Actions.{continue, pure}
use signet_sandbox.Rpc.{format, RpcError, unauthenticated, internal_error}
use signet_sandbox.Store.Rows.{TokenRow, Db, DbError, statement, run_with}
use signet_sandbox.Store.Statements.{find_api_token}
use signet_sandbox.Store.Guarantees.{SameTables}
use signet_sandbox.Platform.{Platform, World}
use signet_sandbox.Nostr.{Nip98Error}
use signet_sandbox.Nostr.Tokens.{Crates, verify_nip98_header, strip_text, parse, token_hash}
use signet_sandbox.Api.State.{AppState, Caller, Handler, Payload}
use signet_sandbox.Api.Create.{Draws}
use signet_sandbox.Api.Server.{
  Headers, Request, Decoders, refused, nip98_caller, request_url, verify_nip98, token_caller,
  bearer_of, verify_bearer, by_scheme, authenticate, handle, dispatch,
}

-- A statement that only reads leaves the tables.
read_same :
    {A : Type 0} (faults : List Bool) (f : Db → A) (db : Db)
    → SameTables db (run_with faults (λ (db : Db). (ok (f db), db)) db).1
read_same [] f db = (refl, refl, refl)
read_same (true ∷ faults) f db = (refl, refl, refl)
read_same (false ∷ faults) f db = (refl, refl, refl)

module _ {C : Type 0} (platform : Platform C) (crates : Crates) where
  -- Whatever it returns, the tables, the cluster and the spawned tasks are left as they were.
  abbrev pub Untouched : World C → World C → Type 0
  Untouched w w' = SameTables w.db w'.db × (w'.cluster ≡ w.cluster) × (w'.meshes ≡ w.meshes)

  lookup-Untouched :
      (hash : String) (w : World C) → Untouched w (record w { db = (find_api_token hash w.db).1 })
  unfolding find_api_token statement
  lookup-Untouched hash w = (read_same w.db.faults _ w.db, refl, refl)

  lift-Untouched :
      {A B : Type 0} (r : Result RpcError A) (f : A → B) (w v : World C)
      → Untouched w v
      → Untouched w (continue {S = World C} (λ a. pure (f a)) (r, v)).1
  lift-Untouched (ok a) f w v h = h
  lift-Untouched (err e) f w v h = h

  bearer-Untouched :
      (raw : Option String) (w : World C) → Untouched w (bearer_of platform crates raw w).1
  unfolding bearer_of
  bearer-Untouched none w = ((refl, refl, refl), refl, refl)
  bearer-Untouched (some raw) w = lookup-Untouched (token_hash crates raw) w

  scheme-Untouched :
      (payload bearer : Option String) (url method : String) (now : ℕ) (max_age : Option ℕ)
      (w : World C)
      → Untouched w (by_scheme platform crates payload bearer url method now max_age w).1
  unfolding by_scheme verify_bearer
  scheme-Untouched (some payload) bearer url method now max_age w =
      lift-Untouched (verify_nip98 crates payload url method now max_age) (λ caller. (caller, true))
        w w ((refl, refl, refl), refl, refl)
  scheme-Untouched none (some raw) url method now max_age w =
      let (r, v) = bearer_of platform crates (parse crates raw) w in
      lift-Untouched r (λ caller. (caller, false)) w v (bearer-Untouched (parse crates raw) w)
  scheme-Untouched none none url method now max_age w = ((refl, refl, refl), refl, refl)

  authenticate-Untouched :
      (header : Option String) (url method : String) (now : ℕ) (max_age : Option ℕ) (w : World C)
      → Untouched w (authenticate platform crates header url method now max_age w).1
  unfolding authenticate
  authenticate-Untouched none url method now max_age w = ((refl, refl, refl), refl, refl)
  authenticate-Untouched (some header) url method now max_age w =
      scheme-Untouched (strip_text "Nostr " header) (strip_text "Bearer " header) url method now
        max_age w

  -- The token's hash is in the table, in a row that is not revoked and whose owner is the caller.
  abbrev pub IsBearer : World C → Option String → Caller → Type 0
  IsBearer w none caller = ⊥
  IsBearer w (some t) caller =
      (row : TokenRow) × ((find_api_token (token_hash crates t) w.db).0 ≡ ok (some row))
      × (row.revoked ≡ false)
      × (row.npub_owner ≡ caller.npub)

  -- What shows who the caller is, and whether it was a NIP-98 event: the header without `Nostr `, if
  -- it starts so, and else without `Bearer `.
  abbrev pub ShowsBy :
      World C
      → String
      → String
      → ℕ
      → Option ℕ
      → Option String
      → Option String
      → Caller
      → Bool
      → Type 0
  ShowsBy w url method now max_age (some payload) bearer caller via_nip98 =
      (via_nip98 ≡ true)
      × (verify_nip98_header crates (format ("Nostr " ∷ payload ∷ [])) url method now max_age
          ≡ ok caller.npub)
  ShowsBy w url method now max_age none (some text) caller via_nip98 =
      (via_nip98 ≡ false) × IsBearer w (parse crates text) caller
  ShowsBy w url method now max_age none none caller via_nip98 = ⊥

  -- The `Authorization` header shows who the caller is.
  abbrev pub Shows :
      World C → String → String → ℕ → Option ℕ → Option String → Caller → Bool → Type 0
  Shows w url method now max_age none caller via_nip98 = ⊥
  Shows w url method now max_age (some header) caller via_nip98 =
      ShowsBy w url method now max_age (strip_text "Nostr " header) (strip_text "Bearer " header)
        caller via_nip98

  -- Nobody is shown and the error is that or a failed lookup; or a caller is.
  abbrev Decides : (Caller → Bool → Type 0) → Result RpcError (Caller × Bool) → Type 0
  Decides shows r =
      ((e : RpcError) × (r ≡ err e)
        × ((e.code ≡ unauthenticated) ⊎ (e.code ≡ internal_error))
        × ((caller : Caller) (via_nip98 : Bool) → ¬ shows caller via_nip98))
      ⊎ ((caller : Caller) × (via_nip98 : Bool) × (r ≡ ok (caller, via_nip98))
          × shows caller via_nip98)

  nostr-Decides :
      (r : Result Nip98Error String) (w : World C)
      → Decides
          (λ caller via_nip98. (via_nip98 ≡ true) × (r ≡ ok caller.npub))
          (continue {S = World C} (λ caller. pure (caller, true)) (nip98_caller r, w)).0
  unfolding nip98_caller
  nostr-Decides (ok npub) w = inr (record { npub = npub }, true, refl, (refl, refl))
  nostr-Decides (err e) w = inl (_, refl, inl refl, λ caller via_nip98 (v, h). cc)

  found-Decides :
      (r : Result DbError (Option TokenRow)) (w : World C)
      → Decides
          (λ caller via_nip98.
            (via_nip98 ≡ false)
            × ((row : TokenRow) × (r ≡ ok (some row))
                × (row.revoked ≡ false)
                × (row.npub_owner ≡ caller.npub)))
          (continue {S = World C} (λ caller. pure (caller, false)) (token_caller r, w)).0
  unfolding token_caller
  found-Decides (err e) w = inl (_, refl, inr refl, λ caller via_nip98 (v, (row, h, a, b)). cc)
  found-Decides (ok none) w = inl (_, refl, inl refl, λ caller via_nip98 (v, (row, h, a, b)). cc)
  found-Decides (ok (some row)) w = go row.revoked refl
    where
      stored : Result DbError (Option TokenRow)
      stored = ok (some row)

      go :
          (b : Bool)
          → row.revoked ≡ b
          → Decides
              (λ caller via_nip98.
                (via_nip98 ≡ false)
                × ((x : TokenRow) × (stored ≡ ok (some x))
                    × (x.revoked ≡ false)
                    × (x.npub_owner ≡ caller.npub)))
              (continue {S = World C}
                (λ caller. pure (caller, false))
                (
                  (if b
                      then err (refused "api token revoked")
                      else ok (record { npub = row.npub_owner })),
                  w,
                )).0
      go true e = inl (_, refl, inl refl, λ caller via_nip98 (v, (x, h, a, b)). cc)
      go false e = inr (record { npub = row.npub_owner }, false, refl, (refl, (row, refl, e, refl)))

  IsBearer-Decides :
      (o : Option String) (w : World C)
      → Decides
          (λ caller via_nip98. (via_nip98 ≡ false) × IsBearer w o caller)
          (continue (λ caller. pure (caller, false)) (bearer_of platform crates o w)).0
  unfolding bearer_of
  IsBearer-Decides none w = inl (_, refl, inl refl, λ caller via_nip98 (v, h). h)
  IsBearer-Decides (some t) w = found-Decides (find_api_token (token_hash crates t) w.db).0 _

  scheme-Decides :
      (payload bearer : Option String) (url method : String) (now : ℕ) (max_age : Option ℕ)
      (w : World C)
      → Decides
          (ShowsBy w url method now max_age payload bearer)
          (by_scheme platform crates payload bearer url method now max_age w).0
  unfolding by_scheme verify_bearer verify_nip98
  scheme-Decides (some payload) bearer url method now max_age w =
      nostr-Decides
        (verify_nip98_header crates (format ("Nostr " ∷ payload ∷ [])) url method now max_age) w
  scheme-Decides none (some text) url method now max_age w = IsBearer-Decides (parse crates text) w
  scheme-Decides none none url method now max_age w =
      inl (_, refl, inl refl, λ caller via_nip98 h. h)

  authenticate-Decides :
      (header : Option String) (url method : String) (now : ℕ) (max_age : Option ℕ) (w : World C)
      → Decides
          (Shows w url method now max_age header)
          (authenticate platform crates header url method now max_age w).0
  unfolding authenticate
  authenticate-Decides none url method now max_age w =
      inl (_, refl, inl refl, λ caller via_nip98 h. h)
  authenticate-Decides (some header) url method now max_age w =
      scheme-Decides (strip_text "Nostr " header) (strip_text "Bearer " header) url method now
        max_age w

  -- The answer is an error of the authentication, and nothing was touched.
  abbrev pub IsTurnedAway : World C → Result RpcError Payload × World C → Type 0
  IsTurnedAway w answer =
      (e : RpcError) × (answer.0 ≡ err e)
      × ((e.code ≡ unauthenticated) ⊎ (e.code ≡ internal_error))
      × Untouched w answer.1

  -- A request is handled exactly for the caller whom its `Authorization` header shows: by a NIP-98
  -- event that is accepted for the URL and the HTTP method, or by a bearer token whose hash is found
  -- in the table in a row that is not revoked. Where the header shows nobody, a missing header and
  -- any other scheme included, the answer is an error of the authentication, and the tables, the
  -- cluster and the mesh tasks stay as they were.
  pub dispatch_outcome :
      {V : Type 0} (state : AppState) (serde : Decoders V) (draws : Draws) (secret : List ℕ)
      (max_age : Option ℕ) (headers : Headers) (path http_method : String) (request : Request V)
      (w : World C)
      → let shows =
          Shows w (request_url headers path) http_method draws.now max_age headers.authorization in
        let answer =
          dispatch platform crates state serde draws secret max_age headers path http_method
            (ok request)
            w in
        (((caller : Caller) (via_nip98 : Bool) → ¬ shows caller via_nip98) × IsTurnedAway w answer)
        ⊎ ((caller : Caller) × (via_nip98 : Bool) × (v : World C) × shows caller via_nip98
            × Untouched w v
            × (answer ≡ handle platform crates state serde draws secret caller via_nip98 request v))
  unfolding dispatch
  dispatch_outcome state serde draws secret max_age headers path http_method request w =
      go
        (authenticate platform crates headers.authorization (request_url headers path) http_method
          draws.now max_age w)
        (authenticate-Decides headers.authorization (request_url headers path) http_method draws.now
          max_age w)
        (authenticate-Untouched headers.authorization (request_url headers path) http_method
          draws.now max_age w)
    where
      shows : Caller → Bool → Type 0
      shows = Shows w (request_url headers path) http_method draws.now max_age headers.authorization

      handled : Caller × Bool → Handler C
      handled who = handle platform crates state serde draws secret who.0 who.1 request

      go :
          (r : Result RpcError (Caller × Bool) × World C)
          → Decides shows r.0
          → Untouched w r.1
          → (((caller : Caller) (via_nip98 : Bool) → ¬ shows caller via_nip98)
              × IsTurnedAway w (continue handled r))
            ⊎ ((caller : Caller) × (via_nip98 : Bool) × (v : World C) × shows caller via_nip98
                × Untouched w v
                × (continue handled r
                    ≡ handle platform crates state serde draws secret caller via_nip98 request v))
      go (err f, v) (inl (e, same, kind, nobody)) u = inl (nobody, (e, cc, kind, u))
      go (ok who, v) (inl (e, same, kind, nobody)) u = cc
      go (err f, v) (inr (caller, via, same, shown)) u = cc
      go (ok (c, n), v) (inr (caller, via, same, shown)) u =
          let pair : (c, n) ≡ (caller, via) = cc in
          inr (caller, via, v, shown, u, ap (λ who. handled who v) pair)
