-- ===== src/Examples/Running.antt =====
-- The authentication, the background passes, the faucet and the command line at concrete inputs.
use signet_sandbox.Prelude.{
  ℕ, ◌+◌, ◌*◌, ◌≤◌, ◌≡◌, refl, ◌↔◌, ◌⊎◌, String, Bool, ◌==◌, true, false, List, [], ◌∷◌, none, some,
  Result, ok, err, arith, ltb, if◌then◌else◌,
}
use signet_sandbox.Rpc.{RpcError, format}
use signet_sandbox.Integers.{pos}
use signet_sandbox.Core.{CreateParams, ConnectionBundle, ready, provisioning, on_demand}
use signet_sandbox.Bitcoind.{Json, Wire, no_fields, object, field, array, no_items, string}
use signet_sandbox.Platform.{Platform, World, decimal, exec, Request, Answer, KubeError, api}
use signet_sandbox.Nostr.Tokens.{Crates, generate}
use signet_sandbox.Api.State.{Caller, Payload, token}
use signet_sandbox.Api.Create.{Draws}
use signet_sandbox.Api.Server.{
  Headers, Request as Call, Decoders, request_url, handle, verify_bearer, token_create, dispatch,
}
use signet_sandbox.Api.Server.Callers.{token_create_authenticates}
use signet_sandbox.Api.Server.Gate.{Untouched, Shows, IsTurnedAway, dispatch_outcome}
use signet_sandbox.Api.Process.{reaper_pass}
use signet_sandbox.Api.Process.Expiring.{AgedTables, reaper_pass-AgedTables}
use signet_sandbox.Orchestrator.Mesh.{mesh_lightning_peers}
use signet_sandbox.Orchestrator.Mesh.Pairs.{mesh_lightning_peers_bound}
use signet_sandbox.Faucet.{FundRequest, FaucetState, Addresses, fund}
use signet_sandbox.Faucet.Spending.{IsRefused, IsPaid, fund_outcome}
use signet_sandbox.Cli.{Common, Profile, bearer, nip98, client_auth, build_create_params}
use signet_sandbox.Cli.Credentials.{UsesToken, UsesKey, client_auth_exact}
use signet_sandbox.Cli.Params.{first_of, IsTtl, build_create_params_sound}
use signet_sandbox.Cli.Waiting.{Outside, ready_loop}
use signet_sandbox.Cli.Deadlines.{IsClock, IsVerdict, ready_loop-IsVerdict}
use signet_sandbox.Examples.Fixtures.{quiet_platform, world, alice, server}

abbrev crates : Crates
crates = record {
  decode_base64 = λ s. none;
  event_of_json = λ s. none;
  verify = λ e. true;
  to_bech32 = λ s. s;
  as_hex = λ s. "07";
  bytes32_of_hex = λ s. some (7 ∷ []);
  sha256_hex = λ s. s;
}

abbrev decoders : Decoders String
decoders = record {
  create = λ v. err "no parameters";
  id = λ v. ok v;
  update = λ v. err "no parameters";
  faucet = λ v. err "no parameters";
}

abbrev draws : Draws
draws = record {
  now = 0;
  env_id = 1;
  wif = "";
  pubkey = "";
  challenge = "51";
  rpc_password = "";
  lnd_wallet_password = "";
}

abbrev anonymous : Headers
anonymous = record {
  forwarded_proto = none;
  host = some "localhost";
  authorization = some "Basic dXNlcg==";
}

abbrev destroy : Call String
destroy = record { method = "environment.destroy"; params = "u1" }

abbrev Nobodys : Caller → Bool → Type 0
Nobodys =
    Shows quiet_platform crates world (request_url anonymous "/api/rpc") "POST" draws.now none
      anonymous.authorization

abbrev turned : Result RpcError Payload × World (Unit {0})
turned =
    dispatch quiet_platform crates server decoders draws [] none anonymous "/api/rpc" "POST"
      (ok destroy) world

dispatch_outcome_example :
    (((caller : Caller) (via_nip98 : Bool) → ¬ Nobodys caller via_nip98)
      × IsTurnedAway quiet_platform crates world turned)
    ⊎ ((caller : Caller) × (via_nip98 : Bool) × (v : World (Unit {0})) × Nobodys caller via_nip98
        × Untouched quiet_platform crates world v
        × (turned
            ≡ handle quiet_platform crates server decoders draws [] caller via_nip98 destroy v))
dispatch_outcome_example =
    dispatch_outcome quiet_platform crates server decoders draws [] none anonymous "/api/rpc" "POST"
      destroy world

token_create_authenticates_example :
    (token (generate crates (7 ∷ [])) ≡ token (generate crates (7 ∷ [])))
    × ((verify_bearer quiet_platform crates
          (generate crates (7 ∷ []))
          (token_create quiet_platform crates (7 ∷ []) alice world).1).0
        ≡ ok alice)
unfolding token_create
token_create_authenticates_example =
    token_create_authenticates quiet_platform crates (7 ∷ []) alice
      (token (generate crates (7 ∷ []))) world refl refl refl

reaper_pass-AgedTables_example : AgedTables world.db (reaper_pass quiet_platform 20 world).1.db
reaper_pass-AgedTables_example = reaper_pass-AgedTables quiet_platform 20 world

-- Each command in a pod succeeds; each node has the key `k`, and no peers.
abbrev pod_answers : (r : Request) → Unit {0} → Result KubeError (Answer r) × Unit {0}
pod_answers (exec ns pod args) c =
    (ok (record { stdout = some (ok []); status = some (some "Success") }), c)
pod_answers r c = (err (api 404), c)

abbrev pods : Platform (Unit {0})
pods = record quiet_platform { answer = pod_answers; json_text_field = λ f s. some (some "k") }

abbrev no_peers : List ℕ → Result String Json
no_peers s = ok (object (field "peers" (array no_items) no_fields))

abbrev three : List String
three = "a" ∷ "b" ∷ "c" ∷ []

mesh_count : (mesh_lightning_peers pods no_peers "0123456789ab" three world).0 ≡ ok 3
unfolding mesh_lightning_peers
mesh_count = refl

mesh_lightning_peers_bound_example : 2 * 3 + 3 ≤ 3 * 3
mesh_lightning_peers_bound_example =
    mesh_lightning_peers_bound pods no_peers "0123456789ab" three 3 world mesh_count

abbrev bank : Wire (List String)
bank = record {
  send = λ client body asked.
      (ok (object (field "result" (string "txid") no_fields)), client.url ∷ asked);
  to_string = λ j. "";
  template_of = λ j. err "";
  optional_text_of = λ j. err "";
  text_of = λ j. ok "txid";
  info_of = λ j. err "";
  address_of = λ j. err "";
}

abbrev addresses : Addresses
addresses = record {
  parse = λ s. ok s;
  require_signet = λ s. ok s;
  quotient_text =
      λ n d. if d == 100000000 then format (decimal n ∷ "e-8" ∷ []) else format (decimal n ∷ []);
  error_text = λ e. "";
}

abbrev faucet : FaucetState
faucet = record {
  client = record { url = "http://node"; user = "signet"; password = "signet" };
  wallet_name = "faucet";
  max_sats = 1000;
}

abbrev thousand : FundRequest
thousand = record { address = "tb1q"; amount_sat = 1000 }

fund_pays : fund bank addresses faucet thousand [] ≡ (ok "txid", "http://node/wallet/faucet" ∷ [])
unfolding fund
fund_pays = refl

fund_outcome_example :
    IsRefused bank addresses faucet thousand [] (fund bank addresses faucet thousand [])
    ⊎ IsPaid bank addresses faucet thousand [] (fund bank addresses faucet thousand [])
fund_outcome_example = fund_outcome bank addresses faucet thousand []

abbrev no_flags : Common
no_flags = record { api = "http://localhost:8081"; token = some ""; nsec = none }

abbrev stored : Result String Profile
stored = ok (record { api_url = "http://localhost:8081"; nsec = "nsec1"; token = "sgn_00" })

client_auth_exact_example :
    ((t : String) → (client_auth ok no_flags stored ≡ ok (bearer t)) ↔ UsesToken no_flags stored t)
    × ((key : String) → (client_auth ok no_flags stored ≡ ok (nip98 key)) ↔ UsesKey ok no_flags key)
client_auth_exact_example = client_auth_exact ok stored no_flags

empty_token : client_auth ok no_flags stored ≡ ok (bearer "sgn_00")
unfolding client_auth
empty_token = refl

abbrev built : CreateParams
built = record {
  name = "ci";
  block_policy = none;
  components = record { explorer = false; indexer = false; faucet = false; lightning = [] };
  versions = none;
  ttl_secs = some (pos 1200);
}

build_create_params_sound_example :
    (first_of (some "ci") none ≡ some built.name) × IsTtl (some "20m") (some (pos 1200))
unfolding build_create_params
build_create_params_sound_example =
    build_create_params_sound none (some "ci") (some "20m") built refl

-- A clock that counts the seconds of the sleeps; the environment is ready from second 3 on.
abbrev bundle_at : ℕ → ConnectionBundle
bundle_at t = record {
  environment_id = "e";
  status = if ltb t 3 then provisioning else ready;
  rpc_url = "";
  rpc_auth = none;
  zmq_url = none;
  indexer_endpoint = none;
  explorer_url = none;
  faucet_url = none;
  lightning = [];
  signet_challenge = "51";
  block_policy = on_demand;
  versions = none;
  expires_at = none;
}

abbrev clock : Outside ℕ
clock = record { now = λ s. s; sleep = λ secs s. s + secs; poll = λ id s. (ok (bundle_at s), s) }

clock-IsClock : IsClock clock
clock-IsClock = record { sleeps = λ secs s. omega arith; polls = λ id s. omega arith }

ready_loop-IsVerdict_example : IsVerdict clock 10 (ready_loop clock 2 10 11 "e" 0)
ready_loop-IsVerdict_example =
    ready_loop-IsVerdict clock 2 10 clock-IsClock (omega arith) 11 "e" 0 (omega arith) (omega arith)
