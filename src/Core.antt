-- ===== src/Core.antt =====
-- crates/signet-core/src/env.rs and bundle.rs: the types that the parts of the program exchange.
use signet_sandbox.Prelude.{ℕ, String, Bool, false, List, [], Option}
use signet_sandbox.Integers.{ℤ}
use signet_sandbox.Maps.{Map}

pub data LightningImplementation : Type 0 where
  lnd cln eclair ldk_node : LightningImplementation

unfoldable pub as_str : LightningImplementation → String
as_str lnd = "lnd"
as_str cln = "cln"
as_str eclair = "eclair"
as_str ldk_node = "ldk_node"

pub record LightningInstance : Type 0 where
  pub name : String
  pub implementation : LightningImplementation

pub data BlockPolicy : Type 0 where
  interval_30s on_demand : BlockPolicy

pub data EnvStatus : Type 0 where
  provisioning ready stopped expired destroyed : EnvStatus

pub record Components : Type 0 where
  pub explorer : Bool
  pub indexer : Bool
  pub faucet : Bool
  pub lightning : List LightningInstance

pub record CreateParams : Type 0 where
  pub name : String
  pub block_policy : Option BlockPolicy
  pub components : Components
  pub versions : Option (Map String)
  pub ttl_secs : Option ℤ

-- `Components::default()`.
abbrev pub no_components : Components
no_components = record { explorer = false; indexer = false; faucet = false; lightning = [] }

pub record BundleAuth : Type 0 where
  pub kind : String
  pub value : String

pub record LightningConnection : Type 0 where
  pub implementation : String
  pub node_id : String
  pub node_uri : String
  pub rest_url : String
  pub grpc_url : String
  pub tls_cert : String
  pub auth : BundleAuth

pub record ConnectionBundle : Type 0 where
  pub environment_id : String
  pub status : EnvStatus
  pub rpc_url : String
  pub rpc_auth : Option String
  pub zmq_url : Option String
  pub indexer_endpoint : Option String
  pub explorer_url : Option String
  pub faucet_url : Option String
  pub lightning : Map LightningConnection
  pub signet_challenge : String
  pub block_policy : BlockPolicy
  pub versions : Option (Map (List ℕ))
  pub expires_at : Option ℕ
