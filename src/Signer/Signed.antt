-- ===== src/Signer/Signed.antt =====
-- What `assemble_block` returns where it succeeds.
use mathlib.Core.Path.{subst}
use signet_sandbox.Prelude.{
  ℕ, ◌^◌, ◌<◌, ◌≤◌, ◌≡◌, refl, sym, ap, ◌∙◌, max, String, true, Bool-cases, inl, inr, List, [], ◌∷◌,
  ◌++◌, map, Option, none, some, Result, ok, err, ◌>>=◌, ok_or, bind_ok, ok_or_ok, arith,
}
use signet_sandbox.Texts.{codes}
use signet_sandbox.Encoding.{le_bytes}
use signet_sandbox.Bitcoind.{BlockTemplate}
use signet_sandbox.Bitcoind.Radix.{u32_from_hex}
use signet_sandbox.Signer.Blocks.{
  SignetError, sighash, no_nonce, Transaction, Header, Block, Bitcoin, signet_header, zeros,
  script_eq, decode_error, root_of, witness_commitment_script, signet_txs, solution_scriptsig,
  build_coinbase, check_challenge, decode_txs, with_push, push_last, solution_of, with_nonce,
  meets_target, solve, seal, assemble_block,
}
use signet_sandbox.Signer.Rule.{IsSigned}
use signet_sandbox.Signer.Search.{Search, Run, IsJoined}
use signet_sandbox.Signer.Search.Sound.{IsHit}
use signet_sandbox.Signer.Search.Complete.{IsOutcome, search_outcome}

script_eq→≡ : (s t : List ℕ) → script_eq s t ≡ true → s ≡ t
unfolding script_eq
script_eq→≡ [] [] h = refl
script_eq→≡ [] (c ∷ t) h = cc
script_eq→≡ (b ∷ s) [] h = cc
script_eq→≡ (b ∷ s) (c ∷ t) h = ground (arith, h, script_eq→≡ s t)

-- The challenge is the expected one, where one is expected.
abbrev pub IsExpected : List ℕ → Option (List ℕ) → Type 0
IsExpected challenge none = Unit
IsExpected challenge (some expected) = challenge ≡ expected

decode_ok : {A : Type 0} (r : Result String A) (a : A) → decode_error r ≡ ok a → r ≡ ok a
unfolding decode_error
decode_ok (ok b) a h = cc
decode_ok (err e) a h = cc

challenge_ok :
    (b : Bitcoin) (text : String) (challenge : List ℕ) (expected : Option (List ℕ)) (u : Unit {0})
    → check_challenge b text challenge expected ≡ ok u
    → IsExpected challenge expected
unfolding check_challenge
challenge_ok b text challenge none u h = _
challenge_ok b text challenge (some expected) u h =
    elim (Bool-cases (script_eq challenge expected)) [
      | inl e ↦ script_eq→≡ challenge expected e
      | inr e ↦ absurd (ground (arith, h, e))
    ]

-- `grind` gives what some search of `threads` threads has in its cell when all have returned.
abbrev pub IsGrind : Bitcoin → ℕ → (Header → Option ℕ) → Type 0
IsGrind b threads grind =
    (h : Header)
    → (n : ℕ) × (s : Search) × Run threads (meets_target b h) n s
      × IsJoined threads s
      × (s.shared.found ≡ grind h)

module _ (b : Bitcoin) (key : List ℕ) where
  pub record IsAssembled (tmpl : BlockTemplate) (reward_spk : List ℕ) (expected : Option (List ℕ))
      (block : Block) : Type 0 where
    pub challenge : List ℕ
    pub txs : List Transaction
    pub given : b.script_of_hex tmpl.signet_challenge ≡ ok challenge
    pub wanted : IsExpected challenge expected
    pub decoded : decode_txs b tmpl.transactions ≡ ok txs
    pub signed : IsSigned b key tmpl reward_spk challenge txs block
    pub version : block.header.version ≡ tmpl.version
    pub parent : b.parse_block_hash tmpl.previousblockhash ≡ ok block.header.prev_blockhash
    pub time : block.header.time ≡ max tmpl.curtime tmpl.mintime
    pub root : block.header.merkle_root ≡ root_of b (map b.compute_txid block.txdata)
    pub work : IsHit (meets_target b block.header) block.header.nonce

  module _ (threads : ℕ) (grind : Header → Option ℕ) where
    hit :
        (h : Header) (nonce : ℕ)
        → 0 < threads
        → threads ≤ 2 ^ 32
        → IsGrind b threads grind
        → grind h ≡ some nonce
        → IsHit (meets_target b h) nonce
    hit h nonce some_thread few outcome e =
        let (n, s, run, joined, found) = outcome h in
        subst (IsOutcome threads (meets_target b h)) (found ∙ e)
          (search_outcome threads (meets_target b h) n s some_thread few run joined)

    solve_ok :
        (tmpl : BlockTemplate) (prev : List ℕ) (time : ℕ) (challenge : List ℕ) (base : Transaction)
        (txs : List Transaction) (solution : List ℕ)
        → solve b grind key tmpl prev time challenge base txs ≡ ok solution
        → (digest : List ℕ) × (b.legacy_signature_hash
              (signet_txs b tmpl.version prev time
                (root_of b (b.compute_txid (with_push signet_header base) ∷ map b.compute_txid txs))
                challenge).1
              0
              challenge
              1
            ≡ some digest)
          × (solution ≡ solution_scriptsig b (b.sign_ecdsa digest key))
    unfolding solve
    solve_ok tmpl prev time challenge base txs solution h =
        let (digest, e, f) = bind_ok _ _ solution h in (digest, ok_or_ok _ sighash digest e, cc)

    seal_ok :
        (tmpl : BlockTemplate) (prev : List ℕ) (time : ℕ) (final : Transaction)
        (txs : List Transaction) (block : Block)
        → seal b grind key tmpl prev time final txs ≡ ok block
        → (header : Header) × (nonce : ℕ) × (grind header ≡ some nonce)
          × (header.version ≡ tmpl.version)
          × (header.prev_blockhash ≡ prev)
          × (header.time ≡ time)
          × (header.merkle_root ≡ root_of b (map b.compute_txid (final ∷ txs)))
          × (block ≡ record { header = with_nonce header nonce; txdata = final ∷ txs })
    unfolding seal
    seal_ok tmpl prev time final txs block h =
        let header : ℕ → Header = λ bits. record {
          version = tmpl.version;
          prev_blockhash = prev;
          merkle_root = root_of b (map b.compute_txid (final ∷ txs));
          time = time;
          bits = bits;
          nonce = 0;
        } in
        let last : ℕ → ℕ → Result SignetError Block = λ bits nonce.
          ok (record { header = with_nonce (header bits) nonce; txdata = final ∷ txs }) in
        let (bits, e, f) =
          bind_ok (decode_error (u32_from_hex (codes tmpl.bits)))
            (λ bits. ok_or (grind (header bits)) no_nonce >>= last bits) block h in
        let (nonce, e', f') = bind_ok (ok_or (grind (header bits)) no_nonce) (last bits) block f in
        (header bits, nonce, ok_or_ok _ no_nonce nonce e', refl, refl, refl, refl, cc)

    assembled :
        (tmpl : BlockTemplate) (reward_spk : List ℕ) (expected : Option (List ℕ)) (block : Block)
        (challenge : List ℕ) (txs : List Transaction) (prev solution : List ℕ)
        → 0 < threads
        → threads ≤ 2 ^ 32
        → IsGrind b threads grind
        → b.script_of_hex tmpl.signet_challenge ≡ ok challenge
        → IsExpected challenge expected
        → decode_txs b tmpl.transactions ≡ ok txs
        → b.parse_block_hash tmpl.previousblockhash ≡ ok prev
        → (let base =
              build_coinbase tmpl.height tmpl.coinbasevalue reward_spk
                (witness_commitment_script b (zeros 32 ∷ map b.compute_wtxid txs) (zeros 32)) in
            let time = max tmpl.curtime tmpl.mintime in
            solve b grind key tmpl prev time challenge base txs ≡ ok solution
            → seal b grind key tmpl prev time
                (with_push (signet_header ++ solution_of solution) base)
                txs
              ≡ ok block
            → IsAssembled tmpl reward_spk expected block)
    unfolding signet_txs with_push push_last build_coinbase witness_commitment_script
        solution_scriptsig solution_of le_bytes
    assembled tmpl reward_spk expected block challenge txs prev solution some_thread few outcome c k
          d p s e =
        let base =
          build_coinbase tmpl.height tmpl.coinbasevalue reward_spk
            (witness_commitment_script b (zeros 32 ∷ map b.compute_wtxid txs) (zeros 32)) in
        let time = max tmpl.curtime tmpl.mintime in
        let (digest, signs, is) = solve_ok tmpl prev time challenge base txs solution s in
        let final = with_push (signet_header ++ solution_of solution) base in
        let (header, nonce, found, version, parent, at, root, same) =
          seal_ok tmpl prev time final txs block e in
        subst (IsAssembled tmpl reward_spk expected) (sym same) (record {
          challenge = challenge;
          txs = txs;
          given = c;
          wanted = k;
          decoded = d;
          signed = record {
            digest = digest;
            signs = rw (version, parent, at) signs;
            carries = ap (λ sol. with_push (signet_header ++ solution_of sol) base ∷ txs) is;
          };
          version = version;
          parent = rw parent p;
          time = at;
          root = root;
          work = hit header nonce some_thread few outcome found;
        })

    -- A block that `assemble_block` returns is for the template's challenge, which is the expected
    -- one if one is expected, carries the template's transactions behind the coinbase, is signed by
    -- the rule of signet blocks, has the merkle root of what it carries and the later of the two
    -- times, and a nonce of 32 bits that meets its target. There are between one and 2^32 threads,
    -- and the search may interleave them in any order.
    pub assemble_block_sound :
        (tmpl : BlockTemplate) (reward_spk : List ℕ) (expected : Option (List ℕ)) (block : Block)
        → 0 < threads
        → threads ≤ 2 ^ 32
        → IsGrind b threads grind
        → assemble_block b grind key tmpl reward_spk expected ≡ ok block
        → IsAssembled tmpl reward_spk expected block
    unfolding assemble_block
    assemble_block_sound tmpl reward_spk expected block some_thread few outcome h =
        let base : List Transaction → Transaction = λ txs.
          build_coinbase tmpl.height tmpl.coinbasevalue reward_spk
            (witness_commitment_script b (zeros 32 ∷ map b.compute_wtxid txs) (zeros 32)) in
        let time = max tmpl.curtime tmpl.mintime in
        let sealing : List Transaction → List ℕ → List ℕ → Result SignetError Block =
          λ txs prev solution.
            seal b grind key tmpl prev time
              (with_push (signet_header ++ solution_of solution) (base txs)) txs in
        let solving : List ℕ → List Transaction → List ℕ → Result SignetError Block =
          λ challenge txs prev.
            solve b grind key tmpl prev time challenge (base txs) txs >>= sealing txs prev in
        let parsing : List ℕ → List Transaction → Result SignetError Block = λ challenge txs.
          decode_error (b.parse_block_hash tmpl.previousblockhash) >>= solving challenge txs in
        let decoding : List ℕ → Unit {0} → Result SignetError Block =
          λ challenge u. decode_txs b tmpl.transactions >>= parsing challenge in
        let checking : List ℕ → Result SignetError Block = λ challenge.
          check_challenge b tmpl.signet_challenge challenge expected >>= decoding challenge in
        let (challenge, c, h1) =
          bind_ok (decode_error (b.script_of_hex tmpl.signet_challenge)) checking block h in
        let (u, k, h2) =
          bind_ok (check_challenge b tmpl.signet_challenge challenge expected) (decoding challenge)
            block h1 in
        let (txs, d, h3) = bind_ok (decode_txs b tmpl.transactions) (parsing challenge) block h2 in
        let (prev, p, h4) =
          bind_ok (decode_error (b.parse_block_hash tmpl.previousblockhash)) (solving challenge txs)
            block h3 in
        let (solution, s, h5) =
          bind_ok (solve b grind key tmpl prev time challenge (base txs) txs) (sealing txs prev)
            block h4 in
        assembled tmpl reward_spk expected block challenge txs prev solution some_thread few outcome
          (decode_ok _ _ c) (challenge_ok b _ challenge expected u k) d (decode_ok _ _ p) s h5
