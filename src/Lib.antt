-- ===== src/Lib.antt =====
-- Signet sandbox: a server that gives each user private Bitcoin signet networks on Kubernetes, with
-- a command line, a signer of blocks, a faucet and a database of environments.
--
-- The parts that are modelled, with their files here and the code:
-- - Duration: crates/signet-cli's durations. `parse_duration_secs` reads `1h30m`.
-- - Versions, Images: the catalog of versions (crates/signet-core/src/versions.rs) and the resolution
--   of images and components (crates/signet-orchestrator/src/lib.rs).
-- - Ports: the searches for free ports and port triples of crates/signet-db/src/lib.rs.
-- - Store: the tables of crates/signet-db/src/lib.rs. A statement is a function on the tables; the
--   state says for each statement to come whether it fails, so every error path runs, and after a
--   commit that fails whether it was done.
-- - Encoding: hex, compact sizes, script pushes and heights of crates/signet-orchestrator/src/lib.rs
--   and crates/signet-signer/src/signet.rs.
-- - Platform: the Kubernetes client as requests, each with the type of its answer, and the other
--   crates that the server calls. Every theorem on a handler holds for any platform. `World` is the
--   database, the cluster and the mesh tasks that were spawned.
-- - Orchestrator: names and URLs, provisioning, manifests, Lightning pods, scaling and the reaper of
--   crates/signet-orchestrator/src.
-- - Api: the handlers of crates/signet-api/src/rpc.rs, one function each, composed as the code does:
--   parameters, lookup and owner check, reconciliation with the cluster, the work, the update of the
--   row. They call Store and Orchestrator as the server calls the crates.
-- - Api.Server: the URL, the authentication and the choice of the method of a request. Api.Process: one
--   pass of the reaper and one of the mesh of Lightning peers, which crates/signet-api/src/main.rs
--   repeats.
-- - Nostr: the header and the verification of NIP-98 events, and the API tokens, of
--   crates/signet-nostr/src/lib.rs.
-- - Bitcoind: the client of a bitcoin node of crates/signet-bitcoind/src, over HTTP as a parameter.
-- - Signer: the Merkle root, the signed block, the threads that search a nonce and a round of the
--   mining loop, of crates/signet-signer/src. The threads are a step relation: any thread that has not
--   returned makes its next access to what they share. `assemble_block` takes the outcome of a search,
--   and its theorem asks that it be the outcome of some run of the threads.
-- - Faucet: the service of crates/signet-faucet/src/lib.rs, over the client of the node.
-- - Cli: the choice of credentials, the parameters and the waiting loops of `up`, the split of an
--   answer, the names of images, the profile and the healing of its token, and the local cluster with
--   its ports and images, of crates/signet-cli/src.
-- - Core, Rpc: the types that the parts exchange, and the JSON-RPC errors.
-- - Prelude, Actions, Words, Maps, Texts, Integers: what the parts share. Actions is code with a state
--   and early returns; the state written before an error stays.
-- - Examples: runs on concrete inputs.
--
-- A number of the program is a natural number; the parsers check their bounds, casts write out the
-- remainder, and ports stay far below 2^31. A UUID, a time and a byte are numbers, and a `BTreeMap` is
-- a list in the order of its keys. `free_port_triple` runs on fuel of `max + 1` rounds, each of which
-- goes up by 3 from a port that is not negative; `bip34_height_bytes` takes five rounds for at most
-- four bytes; the Merkle root takes at most as many rounds as there are leaves. The waiting loops of
-- `up` run on any fuel, and their theorem asks for more rounds than seconds left to the deadline. All
-- other loops recurse on a list or a text.
--
-- Not modelled: HTTP and serde (a handler takes the outcome of the decoding), logging and printing,
-- certificates (an operation of the platform), and the signatures and hashes of Bitcoin and Nostr,
-- which are parameters, as are the arithmetic and the printing of floats. Of the command line: the
-- gateway and the stack that are put on the local cluster, the downloads, and the commands that
-- make one request and print its answer. The loops of the API process and of the signer are one
-- round each; what comes between rounds is sleep. What a call draws at random and the time are
-- arguments. A panic that the registry of components rules out is an empty list.
pub mod Prelude
pub mod Words
pub mod Duration
pub mod Ports
pub mod Maps
pub mod Texts
pub mod Versions
pub mod Images
pub mod Encoding
pub mod Faucet
pub mod Actions
pub mod Bitcoind
pub mod Integers
pub mod Rpc
pub mod Cli
pub mod Core
pub mod Store
pub mod Platform
pub mod Orchestrator
pub mod Signer
pub mod Nostr
pub mod Api
pub mod Examples
