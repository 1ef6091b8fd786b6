-- ===== src/Platform.antt =====
-- What the API server stands on: the Kubernetes client, as requests and their answers, and the
-- crates for UUIDs, times and certificates; the database and the cluster as one state.
pub mod Calls
use signet_sandbox.Prelude.{
  ℕ, zero, suc, ◌+◌, ◌/◌, ◌%◌, String, Bool, List, [], ◌∷◌, Option, Result, ok, err, if◌then◌else◌,
  ◌==◌,
}
use signet_sandbox.Maps.{Map}
use signet_sandbox.Rpc.{format}
use signet_sandbox.Store.Rows.{Db}

pub record Namespace : Type 0 where
  pub name : Option String
  pub labels : Option (Map String)
  pub annotations : Option (Map String)

pub record Secret : Type 0 where
  pub name : String
  pub string_data : Map String

pub record ServicePort : Type 0 where
  pub name : Option String
  pub port : ℕ
  pub target_port : ℕ

-- A LoadBalancer service on TCP.
pub record Service : Type 0 where
  pub name : String
  pub selector : Map String
  pub ports : List ServicePort

pub record Container : Type 0 where
  pub name : String
  pub image : Option (List ℕ)

-- A document of a manifest that its kind's type accepts: what the program changes in it, the
-- containers of the pod template where it has one, and the rest.
pub record Object : Type 0 where
  pub containers : Option (List Container)
  pub rest : String

-- `typed` is the outcome of `serde_yaml::from_value`; `preview` the document's first 40 characters.
pub record Document : Type 0 where
  pub kind : Option String
  pub typed : Option Object
  pub preview : String

-- The templates, by name.
pub data Manifest : Type 0 where
  bitcoind signer : Manifest
  component lnd : String → Manifest

pub data WorkloadKind : Type 0 where
  stateful_set deployment : WorkloadKind

-- What `exec` gives: the bytes of stdout, if it is attached and can be read, and the status that
-- the server reported.
pub record Execution : Type 0 where
  pub stdout : Option (Result String (List ℕ))
  pub status : Option (Option String)

-- The requests. The first text of a namespaced one is its namespace.
pub data Request : Type 0 where
  create_namespace : Namespace → Request
  find_namespace delete_namespace : String → Request
  list_namespaces : String → Request
  create_secret : String → Secret → Request
  get_secret : String → String → Request
  patch_secret : String → String → Map String → Request
  create_service : String → Service → Request
  create_object : String → String → Object → Request
  find_gateway create_gateway : Request
  find_grant create_grant delete_grant : String → Request
  create_route : String → String → Request
  list_workloads : WorkloadKind → String → Request
  scale : WorkloadKind → String → String → ℕ → Request
  get_stateful_set : String → String → Request
  exec : String → String → List String → Request
  fund : String → String → ℕ → Request

abbrev pub Answer : Request → Type 0
Answer (create_namespace n) = Unit
Answer (find_namespace n) = Bool
Answer (delete_namespace n) = Unit
Answer (list_namespaces l) = List Namespace
Answer (create_secret n s) = Unit
Answer (get_secret n s) = Option (Map (List ℕ))
Answer (patch_secret n s m) = Unit
Answer (create_service n s) = Unit
Answer (create_object n k o) = Unit
Answer find_gateway = Bool
Answer create_gateway = Unit
Answer (find_grant n) = Bool
Answer (create_grant n) = Unit
Answer (delete_grant n) = Unit
Answer (create_route n h) = Unit
Answer (list_workloads k n) = List (Option String)
Answer (scale k n w r) = Unit
Answer (get_stateful_set n s) = Option ℕ
Answer (exec n p args) = Execution
Answer (fund n a s) = String

-- `kube::Error`: a status of the API server with its code, or anything else.
pub data KubeError : Type 0 where
  api : ℕ → KubeError
  transport : KubeError

pub record InstanceTls : Type 0 where
  pub ca_pem : String
  pub chain_pem : String
  pub key_pem : String

-- The code outside the repository. A cluster of type `C` answers each request and may change.
pub record Platform (C : Type 0) : Type 0 where
  pub answer : (r : Request) → C → Result KubeError (Answer r) × C
  pub parse_docs : Manifest → Option (List Document)
  pub parse_uuid : String → Option ℕ
  pub hyphenated : ℕ → String
  pub simple : ℕ → String
  pub to_rfc3339 : ℕ → String
  pub parse_rfc3339 : String → Option ℕ
  pub add_seconds : ℕ → ℕ → Option ℕ
  pub sha256 : List ℕ → List ℕ
  pub from_utf8_lossy : List ℕ → String
  pub json_text_field : String → List ℕ → Option (Option String)
  pub response_txid : String → Option (Option String)
  pub signet_address : String → Result String (Unit {0})
  pub is_ip_address : String → Bool
  pub instance_tls : String → String → String → Option InstanceTls

-- The database, the cluster, and the mesh tasks that were spawned: environment and instances.
pub record World (C : Type 0) : Type 0 where
  pub db : Db
  pub cluster : C
  pub meshes : List (String × List String)

digit_text : ℕ → String
digit_text n =
    if n == 0
    then "0"
    else if n == 1
    then "1"
    else if n == 2
    then "2"
    else if n == 3
    then "3"
    else if n == 4
    then "4"
    else if n == 5
    then "5"
    else if n == 6
    then "6"
    else if n == 7
    then "7"
    else if n == 8
    then "8"
    else "9"

-- The digits, on fuel; twenty are enough for 64 bits.
digits : ℕ → ℕ → List String → List String
unfolding digit_text
digits zero n acc = acc
digits (suc fuel) n acc =
    let rest = digits fuel (n / 10) (digit_text (n % 10) ∷ acc) in
    if n / 10 == 0 then digit_text (n % 10) ∷ acc else rest

-- `{}` of a number of at most 64 bits.
unfoldable pub decimal : ℕ → String
unfolding digits
decimal n = format (digits 20 n [])
