-- ===== src/Signer.antt =====
-- crates/signet-signer/src: the Merkle tree, the signed block, the search for a nonce and the
-- mining loop.
pub mod Merkle
pub mod Blocks
pub mod Rule
pub mod Signed
pub mod Mining
pub mod Submitting
pub mod Search
pub mod Tree
