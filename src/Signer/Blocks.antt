-- ===== src/Signer/Blocks.antt =====
-- crates/signet-signer/src/signet.rs: the coinbase, the transactions that a signet solution signs,
-- and `assemble_block`. The bitcoin crate is `Bitcoin`; hashes and scripts are lists of bytes.
use signet_sandbox.Prelude.{
  ℕ, zero, suc, true, false, ◌&&◌, ◌==◌, ◌^◌, ◌-◌, max, String, Bool, List, [], ◌∷◌, ◌++◌, map,
  length, Option, none, some, Result, ok, err, ◌>>=◌, ok_or, if◌then◌else◌,
}
use signet_sandbox.Encoding.{le_bytes, compact_size, append_push, bip34_coinbase_scriptsig}
use signet_sandbox.Texts.{codes}
use signet_sandbox.Bitcoind.{TemplateTx, BlockTemplate}
use signet_sandbox.Bitcoind.Radix.{u32_from_hex}
use signet_sandbox.Signer.Merkle.{merkle_root}

pub data SignetError : Type 0 where
  decode : String → SignetError
  challenge_mismatch : String → String → SignetError
  sighash no_nonce : SignetError

pub record OutPoint : Type 0 where
  pub txid : List ℕ
  pub vout : ℕ

pub record TxIn : Type 0 where
  pub previous_output : OutPoint
  pub script_sig : List ℕ
  pub sequence : ℕ
  pub witness : List (List ℕ)

pub record TxOut : Type 0 where
  pub value : ℕ
  pub script_pubkey : List ℕ

-- `version` is the 32 bits of an `i32`, here and in a header.
pub record Transaction : Type 0 where
  pub version : ℕ
  pub lock_time : ℕ
  pub input : List TxIn
  pub output : List TxOut

pub record Header : Type 0 where
  pub version : ℕ
  pub prev_blockhash : List ℕ
  pub merkle_root : List ℕ
  pub time : ℕ
  pub bits : ℕ
  pub nonce : ℕ

pub record Block : Type 0 where
  pub header : Header
  pub txdata : List Transaction

-- The bitcoin crate. `sign_ecdsa` gives the DER form of the signature; the errors of the decoders
-- are their texts.
pub record Bitcoin : Type 0 where
  pub sha256d : List ℕ → List ℕ
  pub compute_txid : Transaction → List ℕ
  pub compute_wtxid : Transaction → List ℕ
  pub deserialize_hex : String → Result String Transaction
  pub script_of_hex : String → Result String (List ℕ)
  pub hex_of_script : List ℕ → String
  pub parse_block_hash : String → Result String (List ℕ)
  pub push_opcode : ℕ → List ℕ → List ℕ
  pub push_slice : List ℕ → List ℕ → List ℕ
  pub legacy_signature_hash : Transaction → ℕ → List ℕ → ℕ → Option (List ℕ)
  pub sign_ecdsa : List ℕ → List ℕ → List ℕ
  pub serialize_pubkey : List ℕ → List ℕ
  pub from_compact : ℕ → ℕ
  pub block_hash : Header → List ℕ
  pub is_met_by : ℕ → List ℕ → Bool

abbrev pub signet_header : List ℕ
signet_header = 0xec ∷ 0xc7 ∷ 0xda ∷ 0xa2 ∷ []

abbrev pub witness_commitment_prefix : List ℕ
witness_commitment_prefix = 0xaa ∷ 0x21 ∷ 0xa9 ∷ 0xed ∷ []

abbrev pub zeros : ℕ → List ℕ
zeros zero = []
zeros (suc k) = 0 ∷ zeros k

-- `OutPoint::null`.
abbrev pub null_outpoint : OutPoint
null_outpoint = record { txid = zeros 32; vout = 2 ^ 32 - 1 }

-- `==` of two scripts.
unfoldable pub script_eq : List ℕ → List ℕ → Bool
script_eq [] [] = true
script_eq (b ∷ s) (c ∷ t) = b == c && script_eq s t
script_eq _ _ = false

unfoldable pub decode_error : {A : Type 0} → Result String A → Result SignetError A
decode_error (ok a) = ok a
decode_error (err e) = err (decode e)

module _ (b : Bitcoin) where
  -- OP_1, the key, OP_1 and OP_CHECKMULTISIG.
  unfoldable pub challenge_for_pubkey : List ℕ → List ℕ
  challenge_for_pubkey pubkey =
      b.push_opcode 0xae
        (b.push_opcode 0x51 (b.push_slice (b.serialize_pubkey pubkey) (b.push_opcode 0x51 [])))

  abbrev pub root_of : List (List ℕ) → List ℕ
  root_of = merkle_root (λ x y. b.sha256d (x ++ y)) (zeros 32)

  unfoldable pub witness_commitment_script : List (List ℕ) → List ℕ → List ℕ
  witness_commitment_script wtxids reserved_value =
      let commitment = b.sha256d (root_of wtxids ++ reserved_value) in
      b.push_slice (witness_commitment_prefix ++ commitment) (b.push_opcode 0x6a [])

  -- What a signature covers: the header without bits and nonce.
  unfoldable pub signet_txs : ℕ → List ℕ → ℕ → List ℕ → List ℕ → Transaction × Transaction
  unfolding le_bytes
  signet_txs version prev_blockhash time signet_merkle_root challenge =
      let block_data =
        le_bytes 4 version ++ prev_blockhash ++ signet_merkle_root ++ le_bytes 4 time in
      let to_spend : Transaction = record {
        version = 0;
        lock_time = 0;
        input =
            record {
              previous_output = null_outpoint;
              script_sig = b.push_slice block_data (b.push_opcode 0 []);
              sequence = 0;
              witness = [];
            }
            ∷ [];
        output = record { value = 0; script_pubkey = challenge } ∷ [];
      } in
      (
        to_spend,
        record {
          version = 0;
          lock_time = 0;
          input =
              record {
                previous_output = record { txid = b.compute_txid to_spend; vout = 0 };
                script_sig = [];
                sequence = 0;
                witness = [];
              }
              ∷ [];
          output = record { value = 0; script_pubkey = b.push_opcode 0x6a [] } ∷ [];
        },
      )

  unfoldable pub solution_scriptsig : List ℕ → List ℕ
  solution_scriptsig sig = b.push_slice (sig ++ 0x01 ∷ []) (b.push_opcode 0 [])

unfoldable pub build_coinbase : ℕ → ℕ → List ℕ → List ℕ → Transaction
unfolding bip34_coinbase_scriptsig
build_coinbase height value reward_spk commitment = record {
  version = 2;
  lock_time = 0;
  input =
      record {
        previous_output = null_outpoint;
        script_sig = bip34_coinbase_scriptsig height;
        sequence = 2 ^ 32 - 1;
        witness = zeros 32 ∷ [];
      }
      ∷ [];
  output =
      record { value = value; script_pubkey = reward_spk }
      ∷ record { value = 0; script_pubkey = commitment }
      ∷ [];
}

-- `expected` is the challenge that the caller wants.
unfoldable pub check_challenge :
    Bitcoin → String → List ℕ → Option (List ℕ) → Result SignetError (Unit {0})
unfolding script_eq
check_challenge b text challenge none = ok _
check_challenge b text challenge (some expected) =
    if script_eq challenge expected
    then ok _
    else err (challenge_mismatch text (b.hex_of_script expected))

unfoldable pub decode_txs : Bitcoin → List TemplateTx → Result SignetError (List Transaction)
unfolding decode_error
decode_txs b [] = ok []
decode_txs b (t ∷ rest) = do
  tx ← decode_error (b.deserialize_hex t.data_hex)
  txs ← decode_txs b rest
  ok (tx ∷ txs)

-- One more push in the script of the last output. (A coinbase has outputs.)
unfoldable pub push_last : List ℕ → List TxOut → List TxOut
unfolding append_push
push_last bytes [] = []
push_last bytes (o ∷ []) =
    record { value = o.value; script_pubkey = append_push o.script_pubkey bytes } ∷ []
push_last bytes (o ∷ p ∷ rest) = o ∷ push_last bytes (p ∷ rest)

unfoldable pub with_push : List ℕ → Transaction → Transaction
unfolding push_last
with_push bytes tx = record {
  version = tx.version;
  lock_time = tx.lock_time;
  input = tx.input;
  output = push_last bytes tx.output;
}

-- `compact_size`, the script that solves the challenge and an empty witness.
unfoldable pub solution_of : List ℕ → List ℕ
unfolding compact_size
solution_of solution_sig = compact_size (length solution_sig) ++ solution_sig ++ 0x00 ∷ []

abbrev pub with_nonce : Header → ℕ → Header
with_nonce h nonce = record {
  version = h.version;
  prev_blockhash = h.prev_blockhash;
  merkle_root = h.merkle_root;
  time = h.time;
  bits = h.bits;
  nonce = nonce;
}

-- Does the header with a nonce meet the target.
abbrev pub meets_target : Bitcoin → Header → ℕ → Bool
meets_target b h nonce = b.is_met_by (b.from_compact h.bits) (b.block_hash (with_nonce h nonce))

-- `grind` is the outcome of `grind_nonce` on a header.
module _ (b : Bitcoin) (grind : Header → Option ℕ) (key : List ℕ) where
  -- The signature over the merkle root of the block whose coinbase has the header alone.
  unfoldable pub solve :
      BlockTemplate
      → List ℕ
      → ℕ
      → List ℕ
      → Transaction
      → List Transaction
      → Result SignetError (List ℕ)
  unfolding signet_txs with_push solution_scriptsig
  solve tmpl prev_blockhash time challenge coinbase txs =
      let modified_cb = with_push signet_header coinbase in
      let leaves = b.compute_txid modified_cb ∷ map b.compute_txid txs in
      let (to_spend, to_sign) =
        signet_txs b tmpl.version prev_blockhash time (root_of b leaves) challenge in
      do
        digest ← ok_or (b.legacy_signature_hash to_sign 0 challenge 1) sighash
        ok (solution_scriptsig b (b.sign_ecdsa digest key))

  unfoldable pub seal :
      BlockTemplate → List ℕ → ℕ → Transaction → List Transaction → Result SignetError Block
  unfolding u32_from_hex decode_error
  seal tmpl prev_blockhash time final_cb txs = do
    bits ← decode_error (u32_from_hex (codes tmpl.bits))
    let header : Header = record {
      version = tmpl.version;
      prev_blockhash = prev_blockhash;
      merkle_root = root_of b (map b.compute_txid (final_cb ∷ txs));
      time = time;
      bits = bits;
      nonce = 0;
    }
    nonce ← ok_or (grind header) no_nonce
    ok (record { header = with_nonce header nonce; txdata = final_cb ∷ txs })

  unfoldable pub assemble_block :
      BlockTemplate → List ℕ → Option (List ℕ) → Result SignetError Block
  unfolding decode_error check_challenge decode_txs witness_commitment_script build_coinbase solve
      solution_of seal with_push
  assemble_block tmpl reward_spk expected_challenge = do
    challenge ← decode_error (b.script_of_hex tmpl.signet_challenge)
    checked ← check_challenge b tmpl.signet_challenge challenge expected_challenge
    txs ← decode_txs b tmpl.transactions
    let wtxids = zeros 32 ∷ map b.compute_wtxid txs
    let commitment = witness_commitment_script b wtxids (zeros 32)
    let coinbase = build_coinbase tmpl.height tmpl.coinbasevalue reward_spk commitment
    prev_blockhash ← decode_error (b.parse_block_hash tmpl.previousblockhash)
    let time = max tmpl.curtime tmpl.mintime
    solution_sig ← solve tmpl prev_blockhash time challenge coinbase txs
    seal tmpl prev_blockhash time (with_push (signet_header ++ solution_of solution_sig) coinbase)
        txs
