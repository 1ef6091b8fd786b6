-- ===== src/Signer/Rule.antt =====
-- The rule of signet blocks (BIP 325), written out: what a block's signature covers, and where the
-- block carries it.
use signet_sandbox.Prelude.{ℕ, ◌%◌, ◌/◌, ◌≡◌, length, List, [], ◌∷◌, ◌++◌, map, some}
use signet_sandbox.Encoding.{compact_size, append_push, bip34_coinbase_scriptsig}
use signet_sandbox.Bitcoind.{BlockTemplate}
use signet_sandbox.Signer.Blocks.{Transaction, Header, Block, Bitcoin, zeros, root_of}

-- Four bytes, the low one first.
abbrev pub four_bytes : ℕ → List ℕ
four_bytes n = n % 256 ∷ n / 256 % 256 ∷ n / 256 / 256 % 256 ∷ n / 256 / 256 / 256 % 256 ∷ []

-- The coinbase: the reward first, then the output with the commitment.
abbrev pub coinbase_of : BlockTemplate → List ℕ → List ℕ → Transaction
coinbase_of tmpl reward_spk commitment = record {
  version = 2;
  lock_time = 0;
  input =
      record {
        previous_output = record { txid = zeros 32; vout = 0xffffffff };
        script_sig = bip34_coinbase_scriptsig tmpl.height;
        sequence = 0xffffffff;
        witness = zeros 32 ∷ [];
      }
      ∷ [];
  output =
      record { value = tmpl.coinbasevalue; script_pubkey = reward_spk }
      ∷ record { value = 0; script_pubkey = commitment }
      ∷ [];
}

module _ (b : Bitcoin) where
  -- The transaction with the challenge to be spent, whose input commits to the version, the parent,
  -- the root and the time.
  abbrev pub virtual_to_spend : Header → List ℕ → List ℕ → Transaction
  virtual_to_spend header signed_root challenge = record {
    version = 0;
    lock_time = 0;
    input =
        record {
          previous_output = record { txid = zeros 32; vout = 0xffffffff };
          script_sig =
              b.push_slice
                (four_bytes header.version
                  ++ header.prev_blockhash
                  ++ signed_root
                  ++ four_bytes header.time)
                (b.push_opcode 0 []);
          sequence = 0;
          witness = [];
        }
        ∷ [];
    output = record { value = 0; script_pubkey = challenge } ∷ [];
  }

  -- The transaction that spends its only output.
  abbrev pub virtual_to_sign : Header → List ℕ → List ℕ → Transaction
  virtual_to_sign header signed_root challenge = record {
    version = 0;
    lock_time = 0;
    input =
        record {
          previous_output = record {
            txid = b.compute_txid (virtual_to_spend header signed_root challenge);
            vout = 0;
          };
          script_sig = [];
          sequence = 0;
          witness = [];
        }
        ∷ [];
    output = record { value = 0; script_pubkey = b.push_opcode 0x6a [] } ∷ [];
  }

  -- OP_RETURN and the push of the commitment to the witnesses of the transactions.
  abbrev pub commitment_of : List Transaction → List ℕ
  commitment_of txs =
      b.push_slice
        (0xaa
          ∷ 0x21
          ∷ 0xa9
          ∷ 0xed
          ∷ b.sha256d (root_of b (zeros 32 ∷ map b.compute_wtxid txs) ++ zeros 32))
        (b.push_opcode 0x6a [])

  -- OP_0 and the push of a signature with SIGHASH_ALL.
  abbrev pub multisig : List ℕ → List ℕ
  multisig signature = b.push_slice (signature ++ 0x01 ∷ []) (b.push_opcode 0 [])

  -- The block carries, in one more push of the output with the commitment, the signet header, the
  -- script with the signature and an empty witness; the signature is that of the transaction for
  -- the block which has the signet header alone in that push.
  pub record IsSigned (key : List ℕ) (tmpl : BlockTemplate) (reward_spk challenge : List ℕ)
      (txs : List Transaction) (block : Block) : Type 0 where
    pub digest : List ℕ
    pub signs :
        b.legacy_signature_hash
          (virtual_to_sign block.header
            (root_of b (
              b.compute_txid (
                coinbase_of tmpl reward_spk
                  (append_push (commitment_of txs) (0xec ∷ 0xc7 ∷ 0xda ∷ 0xa2 ∷ [])))
              ∷ map b.compute_txid txs))
            challenge)
          0
          challenge
          1
        ≡ some digest
    pub carries :
        let script = multisig (b.sign_ecdsa digest key) in
        block.txdata
        ≡ coinbase_of tmpl reward_spk (
            append_push
              (commitment_of txs)
              (0xec ∷ 0xc7 ∷ 0xda ∷ 0xa2 ∷ (compact_size (length script) ++ script ++ 0x00 ∷ [])))
          ∷ txs
