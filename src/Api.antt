-- ===== src/Api.antt =====
-- crates/signet-api/src/rpc.rs: the handlers of the server's JSON-RPC methods, on the world of the
-- database and the cluster. The parameters of a request come as `serde_json::from_value` gives
-- them: a value, or the message of the error.
pub mod State
pub mod Messages
pub mod Validation
pub mod Instances
pub mod Ownership
pub mod Reach
pub mod Transitions
pub mod Moves
pub mod Isolation
pub mod Reading
pub mod Access
pub mod Lifecycle
pub mod Bundles
pub mod Create
pub mod Update
pub mod Server
pub mod Process
