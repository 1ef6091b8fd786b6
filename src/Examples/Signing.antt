-- ===== src/Examples/Signing.antt =====
-- Runs of the signer and the client of the node on concrete inputs.
use signet_sandbox.Prelude.{
  ℕ, zero, suc, ◌+◌, ◌*◌, ◌^◌, ◌≤◌, ◌≡◌, refl, String, Bool, true, List, [], ◌∷◌, ◌++◌, Option,
  none, some, Result, ok, ◌==◌, arith, ◌↔◌, ◌⊎◌, inl, inr, All, TextIn,
}
use signet_sandbox.Integers.{pos}
use signet_sandbox.Bitcoind.{
  Json, null, integer, string, object, no_fields, field, BlockTemplate, Client, Wire, request_body,
  call_raw, get,
}
use signet_sandbox.Bitcoind.Answers.{IsCalm, call_raw_exact}
use signet_sandbox.Signer.Merkle.{merkle_root}
use signet_sandbox.Signer.Tree.{node, height, merkle_root_is_tree}
use signet_sandbox.Signer.Search.{
  Search, start, act, advance, update, after, Step, Run, begin, next, IsJoined,
}
use signet_sandbox.Signer.Search.Complete.{search_outcome}
use signet_sandbox.Signer.Search.Sound.{IsHit}
use signet_sandbox.Signer.Search.Ends.{search_ends}
use signet_sandbox.Signer.Blocks.{
  Bitcoin, Transaction, Header, Block, SignetError, signet_header, zeros, with_push, build_coinbase,
  witness_commitment_script, meets_target, assemble_block,
}
use signet_sandbox.Signer.Signed.{IsGrind, IsAssembled, assemble_block_sound}
use signet_sandbox.Signer.Mining.{Keys, run_round}
use signet_sandbox.Signer.Submitting.{other_methods, run_round_keeps}

merkle_root_is_tree_example :
    merkle_root (λ (x y : ℕ). 10 * x + y) 0 (1 ∷ 2 ∷ 3 ∷ [])
    ≡ node (λ (x y : ℕ). 10 * x + y) 0 (1 ∷ 2 ∷ 3 ∷ []) (height 3 3) 0
merkle_root_is_tree_example =
    merkle_root_is_tree (λ x y. 10 * x + y) 0 (1 ∷ 2 ∷ 3 ∷ []) (omega arith)

three_leaves : merkle_root (λ (x y : ℕ). 10 * x + y) 0 (1 ∷ 2 ∷ 3 ∷ []) ≡ 153
unfolding merkle_root
three_leaves = refl

-- Two threads; nonce 1 alone hits, and thread 1 goes first.
abbrev one_hits : ℕ → Bool
one_hits nonce = nonce == 1

abbrev two_done : Search
two_done =
    after 2 one_hits
      (after 2 one_hits (after 2 one_hits (after 2 one_hits (after 2 one_hits start 1) 1) 1) 1) 0

two-Run : Run 2 one_hits 5 two_done
unfolding act update advance
two-Run =
    next
      (next
        (next
          (next (next begin (Step.pick 1 (omega arith) (λ e. cc)))
            (Step.pick 1 (omega arith) (λ e. cc)))
          (Step.pick 1 (omega arith) (λ e. cc)))
        (Step.pick 1 (omega arith) (λ e. cc)))
      (Step.pick 0 (omega arith) (λ e. cc))

two-IsJoined : IsJoined 2 two_done
unfolding act update advance
two-IsJoined zero h = refl
two-IsJoined (suc zero) h = refl
two-IsJoined (suc (suc t)) h = absurd (omega (arith, h))

search_outcome_example : IsHit one_hits 1
unfolding act update advance
search_outcome_example =
    search_outcome 2 one_hits 5 two_done (omega arith) (omega arith) two-Run two-IsJoined

search_ends_example :
    (5 ≤ 2 * (2 ^ 33 + 4)) × (IsJoined 2 two_done ⊎ ((r : Search) × Step 2 one_hits two_done r))
search_ends_example = search_ends 2 one_hits 5 two_done (omega arith) two-Run

-- A node whose answers hold what `template` and `info` say, and that remembers the submissions.
abbrev toy_transaction : Transaction
toy_transaction = record { version = 0; lock_time = 0; input = []; output = [] }

abbrev own_script : List ℕ
own_script = 0x51 ∷ 3 ∷ 0x51 ∷ 0xae ∷ []

abbrev toy : Bitcoin
toy = record {
  sha256d = λ s. s;
  compute_txid = λ tx. tx.version ∷ [];
  compute_wtxid = λ tx. tx.version ∷ [];
  deserialize_hex = λ s. ok toy_transaction;
  script_of_hex = λ s. ok own_script;
  hex_of_script = λ s. "51";
  parse_block_hash = λ s. ok (7 ∷ []);
  push_opcode = λ op s. s ++ op ∷ [];
  push_slice = λ bytes s. s ++ bytes;
  legacy_signature_hash = λ tx i s flag. some (9 ∷ []);
  sign_ecdsa = λ digest key. key ++ digest;
  serialize_pubkey = λ key. key;
  from_compact = λ bits. bits;
  block_hash = λ h. h.nonce ∷ [];
  is_met_by = λ target hash. true;
}

abbrev grind_toy : Header → Option ℕ
grind_toy h = some 0

abbrev one_done : Header → Search
one_done h =
    let m = meets_target toy h in after 1 m (after 1 m (after 1 m (after 1 m start 0) 0) 0) 0

grind_toy-IsGrind : IsGrind toy 1 grind_toy
unfolding act update advance
grind_toy-IsGrind h = (
  4,
  one_done h,
  next
      (next
        (next (next begin (Step.pick 0 (omega arith) (λ e. cc)))
          (Step.pick 0 (omega arith) (λ e. cc)))
        (Step.pick 0 (omega arith) (λ e. cc)))
      (Step.pick 0 (omega arith) (λ e. cc)),
  joined,
  refl,
)
  where
    joined : IsJoined 1 (one_done h)
    joined zero below = refl
    joined (suc t) below = absurd (omega (arith, below))

abbrev template : BlockTemplate
template = record {
  version = 2 ^ 29;
  previousblockhash = "07";
  transactions = [];
  coinbasevalue = 5000000000;
  height = 1;
  bits = "1e0377ae";
  curtime = 1598918402;
  mintime = 1598918401;
  signet_challenge = "51";
}

abbrev toy_outcome : Result SignetError Block
toy_outcome = assemble_block toy grind_toy (3 ∷ []) template (0x52 ∷ []) (some own_script)

abbrev signed_block : Block
signed_block = record {
  header = record {
    version = 2 ^ 29;
    prev_blockhash = 7 ∷ [];
    merkle_root = 2 ∷ [];
    time = 1598918402;
    bits = 0x1e0377ae;
    nonce = 0;
  };
  txdata =
      with_push (signet_header ++ 4 ∷ 0 ∷ 3 ∷ 9 ∷ 1 ∷ 0 ∷ []) (
        build_coinbase 1 5000000000 (0x52 ∷ [])
          (witness_commitment_script toy (zeros 32 ∷ []) (zeros 32)))
      ∷ [];
}

assemble_block_sound_example :
    IsAssembled toy (3 ∷ []) template (0x52 ∷ []) (some own_script) signed_block
unfolding assemble_block merkle_root
assemble_block_sound_example =
    assemble_block_sound toy (3 ∷ []) 1 grind_toy template (0x52 ∷ []) (some own_script)
      signed_block (omega arith) (omega arith) grind_toy-IsGrind refl

-- A node that remembers the methods it was asked for, and answers each request.
abbrev method_of : Option Json → String
method_of (some (string method)) = method
method_of _ = ""

abbrev answer : Json
answer = object (field "error" null (field "result" (integer (pos 7)) no_fields))

abbrev toy_wire : Wire (List String)
toy_wire = record {
  send = λ client body asked. (ok answer, method_of (get "method" body) ∷ asked);
  to_string = λ j. "";
  template_of = λ j. ok template;
  optional_text_of = λ j. ok none;
  text_of = λ j. ok "address";
  info_of = λ j. ok (record {
    chain = "signet";
    blocks = 5;
    headers = 5;
    bestblockhash = "07";
    signet_challenge = none;
  });
  address_of = λ j. ok (record { address = "address"; script_pub_key = "52" });
}

abbrev local_node : Client
local_node = record { url = "http://127.0.0.1:38332"; user = "signet"; password = "signet" }

abbrev toy_keys : Keys
toy_keys = record {
  public_key = λ key. key;
  wif = λ key. "key";
  key_text = λ key. "key";
  serialize_hex = λ block. "00";
}

call_of_toy_wire :
    (call_raw toy_wire local_node "getbestblockhash" null []
      ≡ (ok (integer (pos 7)), "getbestblockhash" ∷ []))
    ↔ ((envelope : Json) × (toy_wire.send local_node (request_body "getbestblockhash" null) []
          ≡ (ok envelope, "getbestblockhash" ∷ []))
        × IsCalm (get "error" envelope)
        × (get "result" envelope ≡ some (integer (pos 7))))
call_of_toy_wire =
    call_raw_exact toy_wire local_node "getbestblockhash" null (integer (pos 7)) []
      ("getbestblockhash" ∷ [])

call_raw_result : (call_raw toy_wire local_node "getbestblockhash" null []).0 ≡ ok (integer (pos 7))
unfolding call_raw
call_raw_result = refl

abbrev AreKnown : List String → Type 0
AreKnown = All (λ m. TextIn m ("submitblock" ∷ other_methods))

run_round_keeps_example :
    AreKnown (run_round toy_wire toy toy_keys grind_toy local_node (3 ∷ []) "faucet" 101 none []).1
unfolding get request_body
run_round_keeps_example =
    run_round_keeps toy_wire AreKnown toy toy_keys grind_toy 1 local_node (3 ∷ []) "faucet" 101 none
      [] (omega arith) (omega arith) grind_toy-IsGrind
      (λ client method params known asked h. (inr known, h))
      (λ tmpl spk block assembled asked h. (inl refl, h)) _

-- A round without a script for the reward asks the wallet, which is there, and submits a block.
round_asks :
    (run_round toy_wire toy toy_keys grind_toy local_node (3 ∷ []) "faucet" 101 none []).1
    ≡ "submitblock" ∷ "getblocktemplate" ∷ "getaddressinfo" ∷ "getnewaddress" ∷ "getwalletinfo"
      ∷ "getblockchaininfo" ∷ []
unfolding run_round merkle_root
round_asks = refl
