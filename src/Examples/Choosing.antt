-- ===== src/Examples/Choosing.antt =====
-- Ports, durations, versions, images, instances, namespaces and encodings at concrete inputs.
use signet_sandbox.Prelude.{
  ℕ, ◌≡◌, refl, ◌↔◌, ◌<◌, ◌≤◌, ◌+◌, ◌%◌, String, true, false, List, [], ◌∷◌, ◌++◌, none, some, ok,
  err, length, In, All, TextIn, arith, Ordering, ◌||◌,
}
use signet_sandbox.Examples.Fixtures.{node}
use signet_sandbox.Words.{u64_max}
use signet_sandbox.Texts.{codes}
use signet_sandbox.Duration.{parse_duration_secs}
use signet_sandbox.Duration.Grammar.{Denotes}
use signet_sandbox.Duration.Parsing.{parse_duration_secs_exact}
use signet_sandbox.Ports.{lowest_free_port, free_port_triple, allocate, exhausted}
use signet_sandbox.Ports.Lowest.{IsLowestFree, lowest_free_port_exact, lowest_free_port_exhausted}
use signet_sandbox.Ports.Triples.{
  IsFree, IsLowestTriple, free_port_triple_exact, free_port_triple_exhausted,
}
use signet_sandbox.Ports.Batches.{IsBatch, allocate_disjoint, allocate-exhausted}
use signet_sandbox.Maps.{Map, lookup}
use signet_sandbox.Images.{resolve_images}
use signet_sandbox.Images.Resolved.{IsPinned, resolve_images_sound}
use signet_sandbox.Versions.{VersionCatalog, VersionEntry, compare_segments, validate_selection}
use signet_sandbox.Versions.Order.{IsBelow, IsSame, compare_segments_exact}
use signet_sandbox.Versions.Selection.{IsKnown, IsConsistent, validate_selection_exact}
use signet_sandbox.Images.Components.{
  EnvComponents, electrs, faucet, explorer, selected_specs, when, selected_specs_exact,
}
use signet_sandbox.Platform.{Namespace}
use signet_sandbox.Orchestrator.Reaper.{expired_namespace_names}
use signet_sandbox.Orchestrator.Reaping.{SomeExpired, expired_namespace_names_exact}
use signet_sandbox.Api.Validation.{validate_lightning}
use signet_sandbox.Api.Instances.{IsValid, validate_lightning_exact}
use signet_sandbox.Encoding.{
  encode_hex, decode_hex, compact_size, write_compact_size, append_push, bip34_height_bytes,
}
use signet_sandbox.Nostr.{Event, nip98_kind, tag_value, eq_ignore_ascii_case, verify_http_auth}
use signet_sandbox.Nostr.Accepted.{IsFresh, verify_http_auth_exact}
use signet_sandbox.Encoding.Hex.{decode_hex-encode_hex}
use signet_sandbox.Encoding.Sizes.{
  read_compact_size, read_push, read-compact_size, write_compact_size-append, append_push_reads,
}
use signet_sandbox.Encoding.Heights.{le_value, IsMinimal, bip34_height_bytes-IsMinimal}

parse_duration_secs_exact_example :
    (parse_duration_secs (codes "1h30m") ≡ ok 5400)
    ↔ (Denotes (codes "1h30m") 5400 × (0 < 5400) × (5400 ≤ u64_max))
parse_duration_secs_exact_example = parse_duration_secs_exact (codes "1h30m") 5400

lowest_free_port_exact_example :
    (lowest_free_port 20000 20099 (20001 ∷ 20000 ∷ []) ≡ some 20002)
    ↔ IsLowestFree 20000 20099 (20001 ∷ 20000 ∷ []) 20002
lowest_free_port_exact_example = lowest_free_port_exact 20000 20099 (20001 ∷ 20000 ∷ []) 20002

lowest_free_port_exhausted_example :
    (lowest_free_port 20000 20001 (20001 ∷ 20000 ∷ []) ≡ none)
    ↔ ((q : ℕ) → 20000 ≤ q → q ≤ 20001 → In q (20001 ∷ 20000 ∷ []))
lowest_free_port_exhausted_example = lowest_free_port_exhausted 20000 20001 (20001 ∷ 20000 ∷ [])

free_port_triple_exact_example :
    (free_port_triple 20200 20399 (20202 ∷ []) ≡ some 20205)
    ↔ IsLowestTriple 20200 20399 (20202 ∷ []) 20205
free_port_triple_exact_example = free_port_triple_exact 20200 20399 (20202 ∷ []) 20205

free_port_triple_exhausted_example :
    (free_port_triple 20200 20205 (20203 ∷ []) ≡ none)
    ↔ ((q : ℕ) → 20200 ≤ q → q + 2 ≤ 20205 → q % 3 ≡ 0 → ¬ IsFree (20203 ∷ []) q)
free_port_triple_exhausted_example = free_port_triple_exhausted 20200 20205 (20203 ∷ [])

abbrev two : List ℕ
two = 20205 ∷ 20208 ∷ []

two_triples : allocate 2 20200 20399 (20202 ∷ []) ≡ ok two
unfolding allocate free_port_triple
two_triples = refl

allocate_disjoint_example : (length two ≡ 2) × IsBatch 20399 (20202 ∷ []) 20200 two
allocate_disjoint_example = allocate_disjoint 2 20200 20399 (20202 ∷ []) two two_triples

allocate-exhausted_example :
    (allocate 2 20200 20206 [] ≡ err exhausted)
    ↔ ((qs : List ℕ) → length qs ≡ 2 → ¬ IsBatch 20206 [] 20200 qs)
allocate-exhausted_example = allocate-exhausted 2 20200 20206 []

compare_segments_exact_example :
    (compare_segments (0 ∷ 20 ∷ []) (0 ∷ 20 ∷ 1 ∷ []) ≡ Ordering.lt
      ↔ IsBelow (0 ∷ 20 ∷ []) (0 ∷ 20 ∷ 1 ∷ []))
    × (compare_segments (0 ∷ 20 ∷ []) (0 ∷ 20 ∷ 1 ∷ []) ≡ Ordering.eq
        ↔ IsSame (0 ∷ 20 ∷ []) (0 ∷ 20 ∷ 1 ∷ []))
    × (compare_segments (0 ∷ 20 ∷ []) (0 ∷ 20 ∷ 1 ∷ []) ≡ Ordering.gt
        ↔ IsBelow (0 ∷ 20 ∷ 1 ∷ []) (0 ∷ 20 ∷ []))
compare_segments_exact_example = compare_segments_exact (0 ∷ 20 ∷ []) (0 ∷ 20 ∷ 1 ∷ [])

abbrev catalog : VersionCatalog
catalog = record {
  entries =
      ("bitcoind", ("30.0", record { default = true; requires = [] }) ∷ [])
      ∷ ("lnd", ("v0.20", record { default = true; requires = ("bitcoind", ">=29") ∷ [] }) ∷ [])
      ∷ [];
}

abbrev pins : List (String × String)
pins = ("lnd", "v0.20") ∷ []

validate_selection_exact_example :
    (validate_selection catalog pins ≡ ok tt)
    ↔ (All (IsKnown catalog pins) pins × All (IsConsistent catalog pins) catalog.entries)
validate_selection_exact_example = validate_selection_exact catalog pins

abbrev with_explorer : EnvComponents
with_explorer = record { indexer = false; faucet = true; explorer = true }

selected_specs_exact_example :
    selected_specs with_explorer
    ≡ some (when (false || true) electrs ++ (when true faucet ++ when true explorer))
selected_specs_exact_example = selected_specs_exact with_explorer

abbrev expired_namespace : Namespace
expired_namespace = record {
  name = some "env-1";
  labels = some (("signet.sandbox/environment", "1") ∷ []);
  annotations = some (("signet.sandbox/expires-at", "t") ∷ []);
}

expired_namespace_names_exact_example :
    TextIn "env-1" (expired_namespace_names (λ t. some 10) 11 (expired_namespace ∷ []))
    ↔ SomeExpired (λ t. some 10) 11 "env-1" (expired_namespace ∷ [])
expired_namespace_names_exact_example =
    expired_namespace_names_exact (λ t. some 10) 11 "env-1" (expired_namespace ∷ [])

validate_lightning_exact_example :
    (validate_lightning (node ∷ node ∷ []) ≡ ok tt) ↔ IsValid [] (node ∷ node ∷ [])
validate_lightning_exact_example = validate_lightning_exact (node ∷ node ∷ [])

decode_hex-encode_hex_example : decode_hex (encode_hex (81 ∷ 255 ∷ [])) ≡ some (81 ∷ 255 ∷ [])
decode_hex-encode_hex_example =
    decode_hex-encode_hex (81 ∷ 255 ∷ []) (omega arith, (omega arith, tt))

read-compact_size_example : read_compact_size (compact_size 70000 ++ 7 ∷ []) ≡ some (70000, 7 ∷ [])
read-compact_size_example = read-compact_size 70000 (7 ∷ []) (omega arith)

write_compact_size-append_example : write_compact_size (1 ∷ []) 300 ≡ (1 ∷ []) ++ compact_size 300
write_compact_size-append_example = write_compact_size-append (1 ∷ []) 300

append_push_reads_example :
    (pushed : List ℕ) × (append_push (81 ∷ []) (7 ∷ 8 ∷ []) ≡ (81 ∷ []) ++ pushed)
    × (read_push (pushed ++ 9 ∷ []) ≡ some (7 ∷ 8 ∷ [], 9 ∷ []))
append_push_reads_example = append_push_reads (81 ∷ []) (7 ∷ 8 ∷ []) (9 ∷ []) (omega arith)

bip34_height_bytes-IsMinimal_example :
    (le_value (bip34_height_bytes 128) ≡ 128)
    × IsMinimal (bip34_height_bytes 128)
    × (length (bip34_height_bytes 128) ≤ 5)
bip34_height_bytes-IsMinimal_example = bip34_height_bytes-IsMinimal 128 (omega arith) (omega arith)

abbrev one_default : String → Map VersionEntry
one_default version = (version, record { default = true; requires = [] }) ∷ []

abbrev not_default : VersionEntry
not_default = record { default = false; requires = [] }

abbrev full_catalog : VersionCatalog
full_catalog = record {
  entries =
      ("bitcoind", one_default "30.0")
      ∷ ("electrs", one_default "v0.10")
      ∷ ("explorer", one_default "v3.3.1")
      ∷ ("lnd", ("v0.19", not_default) ∷ one_default "v0.20")
      ∷ [];
}

abbrev lnd_pin : Map String
lnd_pin = ("lnd", "v0.19") ∷ []

abbrev pinned_images : Map (List ℕ)
pinned_images =
    ("bitcoind", codes "docker.io/bitcoin/bitcoin:30.0")
    ∷ ("electrs", codes "ghcr.io/nully0x/electrs:v0.10")
    ∷ ("explorer", codes "docker.io/mempool/backend:v3.3.1")
    ∷ ("explorer-web", codes "docker.io/mempool/frontend:v3.3.1")
    ∷ ("faucet", codes "signet-faucet:dev")
    ∷ ("lnd", codes "docker.io/lightninglabs/lnd:v0.19")
    ∷ ("signer", codes "signet-signer:dev")
    ∷ []

pins_resolved : resolve_images full_catalog (some lnd_pin) ≡ ok pinned_images
unfolding resolve_images
pins_resolved = refl

resolve_images_sound_example :
    (bitcoind electrs lnd explorer : String) × IsPinned full_catalog
      (some lnd_pin)
      pinned_images
      "bitcoind"
      "bitcoind"
      "bitcoin/bitcoin"
      "docker.io/"
      bitcoind
    × IsPinned full_catalog
        (some lnd_pin)
        pinned_images
        "electrs"
        "electrs"
        "electrs"
        "ghcr.io/nully0x/"
        electrs
    × IsPinned full_catalog
        (some lnd_pin)
        pinned_images
        "lnd"
        "lnd"
        "lightninglabs/lnd"
        "docker.io/"
        lnd
    × IsPinned full_catalog
        (some lnd_pin)
        pinned_images
        "explorer"
        "explorer"
        "mempool/backend"
        "docker.io/"
        explorer
    × IsPinned full_catalog
        (some lnd_pin)
        pinned_images
        "explorer"
        "explorer-web"
        "mempool/frontend"
        "docker.io/"
        explorer
    × (lookup "signer" pinned_images ≡ some (codes "signet-signer:dev"))
    × (lookup "faucet" pinned_images ≡ some (codes "signet-faucet:dev"))
resolve_images_sound_example =
    resolve_images_sound full_catalog (some lnd_pin) pinned_images pins_resolved

abbrev login : Event
login = record {
  pubkey = "npub1";
  created_at = 100;
  kind = 27235;
  tags = ("u" ∷ "http://localhost/rpc" ∷ []) ∷ ("method" ∷ "post" ∷ []) ∷ [];
}

verify_http_auth_exact_example :
    (verify_http_auth (λ e. true) login "http://localhost/rpc" "POST" 150 (some 300) ≡ ok "npub1")
    ↔ ((true ≡ true)
        × (login.kind ≡ nip98_kind)
        × IsFresh login 150 (some 300)
        × (tag_value login "u" ≡ some "http://localhost/rpc")
        × ((m : String) × (tag_value login "method" ≡ some m)
            × (eq_ignore_ascii_case m "POST" ≡ true))
        × ("npub1" ≡ login.pubkey))
verify_http_auth_exact_example =
    verify_http_auth_exact (λ e. true) login "http://localhost/rpc" "POST" "npub1" 150 (some 300)
