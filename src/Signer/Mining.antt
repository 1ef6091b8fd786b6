-- ===== src/Signer/Mining.antt =====
-- crates/signet-signer/src/main.rs: the wallet, one mining attempt and one round of the loop of `run`;
-- `generate_key` of lib.rs.
use signet_sandbox.Prelude.{
  ℕ, ◌+◌, ◌%◌, ◌^◌, String, Bool, true, false, List, Option, none, some, Result, ok, err, is_ok,
  ltb, if◌then◌else◌,
}
use signet_sandbox.Actions.{Action, pure, fail, attempt, map_err, ◌>>=◌}
use signet_sandbox.Bitcoind.{
  RpcError, BlockchainInfo, Client, Wire, wallet, get_block_template, submit_block,
  get_blockchain_info, create_wallet, get_new_address, get_address_info, get_wallet_info,
}
use signet_sandbox.Signer.Blocks.{
  Bitcoin, Header, Block, SignetError, assemble_block, challenge_for_pubkey,
}

pub data MiningError : Type 0 where
  node : RpcError → MiningError
  creating_wallet : String → RpcError → MiningError
  bad_script rejected : String → MiningError
  signet : SignetError → MiningError

-- The crate's keys and texts.
pub record Keys : Type 0 where
  pub public_key : List ℕ → List ℕ
  pub wif : List ℕ → String
  pub key_text : List ℕ → String
  pub serialize_hex : Block → String

pub record SignerKey : Type 0 where
  pub wif : String
  pub pubkey : String
  pub challenge : String

-- `secret` is what the generator gives.
unfoldable pub generate_key : Bitcoin → Keys → List ℕ → SignerKey
unfolding challenge_for_pubkey
generate_key b keys secret =
    let pubkey = keys.public_key secret in
    record {
      wif = keys.wif secret;
      pubkey = keys.key_text pubkey;
      challenge = b.hex_of_script (challenge_for_pubkey b pubkey);
    }

-- When the next round comes: at the interval's next tick or a quarter of a second later.
pub data Pause : Type 0 where
  tick soon : Pause

module _ {N : Type 0} (w : Wire N) (b : Bitcoin) (keys : Keys) (grind : Header → Option ℕ) where
  abbrev pub lift_script : Result String (List ℕ) → Action N MiningError (List ℕ)
  lift_script (ok spk) = pure spk
  lift_script (err e) = fail (bad_script e)

  abbrev pub lift_block : Result SignetError Block → Action N MiningError Block
  lift_block (ok block) = pure block
  lift_block (err e) = fail (signet e)

  unfoldable pub create_missing : Client → String → Bool → Action N MiningError (Unit {0})
  unfolding create_wallet
  create_missing client name true = pure tt
  create_missing client name false = do
    made ← map_err (creating_wallet name) (create_wallet w client name)
    pure tt

  unfoldable pub ensure_wallet : Client → String → Action N MiningError (List ℕ)
  unfolding create_missing wallet get_wallet_info get_new_address get_address_info
  ensure_wallet client name = do
    let wallet_client = wallet client name
    info ← attempt (get_wallet_info w wallet_client)
    made ← create_missing client name (is_ok info)
    address ← map_err node (get_new_address w wallet_client "coinbase")
    info ← map_err node (get_address_info w wallet_client address)
    lift_script (b.script_of_hex info.script_pub_key)

  abbrev pub accepted : Block → Option String → Action N MiningError (List ℕ)
  accepted block none = pure (b.block_hash block.header)
  accepted block (some reason) = fail (rejected reason)

  unfoldable pub mine_once : Client → List ℕ → List ℕ → List ℕ → Action N MiningError (List ℕ)
  unfolding get_block_template submit_block assemble_block
  mine_once client reward_spk key expected_challenge = do
    tmpl ← map_err node (get_block_template w client)
    block ← lift_block (assemble_block b grind key tmpl reward_spk (some expected_challenge))
    answer ← map_err node (submit_block w client (keys.serialize_hex block))
    accepted block answer

  module _ (client : Client) (key : List ℕ) (name : String) (premine_blocks : ℕ) where
    -- `expected_challenge` of `run`.
    unfoldable pub own_challenge : List ℕ
    unfolding challenge_for_pubkey
    own_challenge = challenge_for_pubkey b (keys.public_key key)

    -- The end of a round; `blocks` is a `u32`.
    unfoldable pub after_mining :
        ℕ → List ℕ → Result MiningError (List ℕ) × N → (Option (List ℕ) × Pause) × N
    after_mining blocks spk (ok hash, t) =
        ((some spk, if ltb ((blocks + 1) % 2 ^ 32) premine_blocks then soon else tick), t)
    after_mining blocks spk (err e, t) = ((some spk, tick), t)

    unfoldable pub mine_round : ℕ → List ℕ → N → (Option (List ℕ) × Pause) × N
    unfolding mine_once own_challenge after_mining
    mine_round blocks spk s = after_mining blocks spk (mine_once client spk key own_challenge s)

    unfoldable pub after_wallet :
        ℕ → Result MiningError (List ℕ) × N → (Option (List ℕ) × Pause) × N
    unfolding mine_round
    after_wallet blocks (ok spk, t) = mine_round blocks spk t
    after_wallet blocks (err e, t) = ((none, tick), t)

    unfoldable pub wallet_round : ℕ → Option (List ℕ) → N → (Option (List ℕ) × Pause) × N
    unfolding mine_round ensure_wallet after_wallet
    wallet_round blocks (some spk) s = mine_round blocks spk s
    wallet_round blocks none s = after_wallet blocks (ensure_wallet client name s)

    unfoldable pub after_info :
        Option (List ℕ) → Result RpcError BlockchainInfo × N → (Option (List ℕ) × Pause) × N
    unfolding wallet_round
    after_info reward_spk (ok info, t) = wallet_round info.blocks reward_spk t
    after_info reward_spk (err e, t) = ((reward_spk, tick), t)

    -- One round of the loop, with the script for the reward where it is known; a round that fails
    -- leaves the rest to the next one.
    unfoldable pub run_round : Option (List ℕ) → N → (Option (List ℕ) × Pause) × N
    unfolding after_info get_blockchain_info
    run_round reward_spk s = after_info reward_spk (get_blockchain_info w client s)
