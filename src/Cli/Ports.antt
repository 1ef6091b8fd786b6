-- ===== src/Cli/Ports.antt =====
-- The ports that the local cluster must publish and those that it does, in
-- crates/signet-cli/src/local.rs.
use signet_sandbox.Prelude.{
  ℕ, zero, suc, ◌+◌, ◌-◌, ◌^◌, String, Bool, true, false, ◌&&◌, List, [], ◌∷◌, Option, none, some,
  Result, ok, err, ◌==◌, ltb, if◌then◌else◌,
}
use signet_sandbox.Texts.{codes}
use signet_sandbox.Words.{parse_u64}
use signet_sandbox.Bitcoind.{
  Json, Jsons, Fields, no_items, item, no_fields, field, string, array, get,
}

abbrev pub k3s_api_port : ℕ
k3s_api_port = 34611

abbrev pub single_ports : List ℕ
single_ports = 80 ∷ 8081 ∷ []

-- The window of the environments' ports, first and last.
abbrev pub window_start : ℕ
window_start = 20000

abbrev pub window_end : ℕ
window_end = 20399

-- `BTreeSet::insert`.
unfoldable pub insert_port : ℕ → List ℕ → List ℕ
insert_port p [] = p ∷ []
insert_port p (q ∷ ports) =
    let later = insert_port p ports in
    if p == q then q ∷ ports else if ltb p q then p ∷ q ∷ ports else q ∷ later

-- `count` ports from `start` on.
unfoldable pub insert_range : ℕ → ℕ → List ℕ → List ℕ
unfolding insert_port
insert_range start zero ports = ports
insert_range start (suc count) ports = insert_range (start + 1) count (insert_port start ports)

unfoldable pub insert_all : List ℕ → List ℕ → List ℕ
unfolding insert_port
insert_all [] ports = ports
insert_all (p ∷ more) ports = insert_all more (insert_port p ports)

unfoldable pub expected_host_ports : List ℕ
unfolding insert_all insert_port insert_range
expected_host_ports =
    insert_range window_start (window_end + 1 - window_start)
      (insert_port k3s_api_port (insert_all single_ports []))

abbrev in_u32 : Option ℕ → Option ℕ
in_u32 none = none
in_u32 (some n) = if ltb n (2 ^ 32) then some n else none

-- `str::parse::<u32>`, which accepts a leading `+`.
unfoldable pub parse_u32 : List ℕ → Option ℕ
unfolding parse_u64
parse_u32 [] = none
parse_u32 (c ∷ s) = if c == b'+' then in_u32 (parse_u64 s) else in_u32 (parse_u64 (c ∷ s))

-- What is before the first dash, and what is behind it where there is one.
unfoldable pub split_dash : List ℕ → List ℕ × Option (List ℕ)
split_dash [] = ([], none)
split_dash (c ∷ s) =
    let (before, after) = split_dash s in if c == b'-' then ([], some s) else (c ∷ before, after)

abbrev range_of : List ℕ → Option ℕ → Option ℕ → Result String (List ℕ)
unfolding insert_range
range_of ports (some start) (some end) = ok (insert_range start (end + 1 - start) ports)
range_of ports _ _ = err "bad port binding"

unfoldable pub push_host_port : List ℕ → List ℕ → Result String (List ℕ)
unfolding split_dash parse_u32 range_of insert_range
push_host_port ports value = elim (split_dash value).1 [
  | none ↦ range_of ports (parse_u32 value) (parse_u32 value)
  | some end ↦ range_of ports (parse_u32 (split_dash value).0) (parse_u32 end)
]

-- `split('/').next()`.
unfoldable pub before_slash : List ℕ → List ℕ
before_slash [] = []
before_slash (c ∷ s) = let rest = before_slash s in if c == b'/' then [] else c ∷ rest

-- The host's side of a binding, or else the key's port.
unfoldable pub port_text : List ℕ → Option Json → List ℕ
port_text key_port (some (string String.[])) = key_port
port_text key_port (some (string host_port)) = codes host_port
port_text key_port _ = key_port

unfoldable pub push_entries : List ℕ → Jsons → List ℕ → Result String (List ℕ)
unfolding push_host_port port_text get
push_entries key_port no_items ports = ok ports
push_entries key_port (item entry entries) ports =
    elim (push_host_port ports (port_text key_port (get "HostPort" entry))) [
      | err e ↦ err e
      | ok more ↦ push_entries key_port entries more
    ]

abbrev entries_of : Json → Jsons
entries_of (array entries) = entries
entries_of _ = no_items

-- A port that is null or has no binding is not published. The fields come in the order of their
-- keys.
unfoldable pub bound_ports : Fields → List ℕ → Result String (List ℕ)
unfolding push_entries before_slash
bound_ports no_fields ports = ok ports
bound_ports (field key value rest) ports =
    elim (push_entries (before_slash (codes key)) (entries_of value) ports) [
      | err e ↦ err e
      | ok more ↦ bound_ports rest more
    ]

unfoldable pub same_ports : List ℕ → List ℕ → Bool
same_ports [] [] = true
same_ports (p ∷ ports) (q ∷ others) = p == q && same_ports ports others
same_ports _ _ = false

abbrev parsed_ports : Result String Fields → Result String (List ℕ)
unfolding bound_ports
parsed_ports (err e) = err e
parsed_ports (ok fields) = bound_ports fields []

unfoldable pub parse_host_port_bindings :
    (String → Result String Fields) → String → Result String (List ℕ)
unfolding parsed_ports bound_ports
parse_host_port_bindings bindings_of json = parsed_ports (bindings_of json)
