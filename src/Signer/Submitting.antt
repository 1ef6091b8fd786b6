-- ===== src/Signer/Submitting.antt =====
-- What the mining loop sends to the node.
use signet_sandbox.Prelude.{
  ℕ, ◌^◌, ◌<◌, ◌≤◌, ◌≡◌, refl, String, TextIn, Bool, true, false, List, [], ◌∷◌, Option, none, some,
  Result, ok, err, is_ok, inl, inr,
}
use signet_sandbox.Actions.{Action, pure, attempt, map_err, lift, ◌>>=◌}
use signet_sandbox.Actions.Keeping.{Keeps, Keeps-then, Keeps-map_err}
use signet_sandbox.Bitcoind.{
  Json, RpcError, http, Client, Wire, BlockTemplate, BlockchainInfo, AddressInfo, wallet, get,
  result_of, rpc_error, request_body, texts, call_raw, call, decode_error, get_block_template,
  submit_block, get_blockchain_info, create_wallet, get_new_address, get_address_info,
  get_wallet_info,
}
use signet_sandbox.Signer.Blocks.{Bitcoin, Header, Block, SignetError, assemble_block}
use signet_sandbox.Signer.Signed.{IsGrind, IsAssembled, assemble_block_sound}
use signet_sandbox.Signer.Mining.{
  MiningError, node, creating_wallet, Keys, lift_script, lift_block, accepted, create_missing,
  ensure_wallet, mine_once, own_challenge, after_mining, mine_round, after_wallet, wallet_round,
  after_info, run_round,
}

-- The other requests of the loop.
abbrev pub other_methods : List String
other_methods =
    "getblockchaininfo" ∷ "getblocktemplate" ∷ "getwalletinfo" ∷ "createwallet" ∷ "getnewaddress"
    ∷ "getaddressinfo" ∷ []

module _ {N : Type 0} (w : Wire N) (P : N → Type 0) where
  -- Sending a request keeps `P`.
  abbrev pub Spares : Client → String → Json → Type 0
  Spares client method params = (s : N) → P s → P (w.send client (request_body method params) s).1

  Keeps-call_raw :
      (client : Client) (method : String) (params : Json)
      → Spares client method params
      → Keeps P (call_raw w client method params)
  unfolding call_raw
  Keeps-call_raw client method params spares =
      Keeps-then P (map_err http (w.send client (request_body method params)))
        (λ envelope. lift (result_of w.to_string envelope (rpc_error (get "error" envelope))))
        (Keeps-map_err P http _ spares) (λ envelope s h. h)

  Keeps-call :
      {A : Type 0} (decode : Json → Result String A) (client : Client) (method : String)
      (params : Json)
      → Spares client method params
      → Keeps P (call w decode client method params)
  unfolding call
  Keeps-call decode client method params spares =
      Keeps-then P (call_raw w client method params) (λ value. lift (decode_error (decode value)))
        (Keeps-call_raw client method params spares) (λ value s h. h)

  module _ (b : Bitcoin) (keys : Keys) (grind : Header → Option ℕ) where
    module _
        (spares : (client : Client) (method : String) (params : Json)
          → TextIn method other_methods
          → Spares client method params) where
      Keeps-create_missing :
          (client : Client) (name : String) (found : Bool)
          → Keeps P (create_missing w b keys grind client name found)
      unfolding create_missing create_wallet
      Keeps-create_missing client name true = λ s h. h
      Keeps-create_missing client name false =
          Keeps-then P (map_err (creating_wallet name) (create_wallet w client name))
            (λ made. pure tt)
            (Keeps-map_err P (creating_wallet name) (create_wallet w client name) (
              Keeps-call ok client "createwallet" (texts (name ∷ []))
                (spares client "createwallet" _ (inr (inr (inr (inl refl)))))))
            (λ made s h. h)

      Keeps-lift_script : (r : Result String (List ℕ)) → Keeps P (lift_script w b keys grind r)
      Keeps-lift_script (ok spk) = λ s h. h
      Keeps-lift_script (err e) = λ s h. h

      Keeps-ensure_wallet :
          (client : Client) (name : String) → Keeps P (ensure_wallet w b keys grind client name)
      unfolding ensure_wallet get_wallet_info get_new_address get_address_info
      Keeps-ensure_wallet client name =
          let own = wallet client name in
          let reading : AddressInfo → Action N MiningError (List ℕ) =
            λ info. lift_script w b keys grind (b.script_of_hex info.script_pub_key) in
          let asking : String → Action N MiningError (List ℕ) =
            λ address. map_err node (get_address_info w own address) >>= reading in
          let naming : Unit {0} → Action N MiningError (List ℕ) =
            λ made. map_err node (get_new_address w own "coinbase") >>= asking in
          let making : Result RpcError Json → Action N MiningError (List ℕ) =
            λ info. create_missing w b keys grind client name (is_ok info) >>= naming in
          Keeps-then P (attempt (get_wallet_info w own)) making
            (Keeps-call ok own "getwalletinfo" (texts [])
              (spares own "getwalletinfo" _ (inr (inr (inl refl)))))
            λ info.
              Keeps-then P (create_missing w b keys grind client name (is_ok info)) naming
                (Keeps-create_missing client name (is_ok info))
                λ made.
                  Keeps-then P (map_err node (get_new_address w own "coinbase")) asking
                    (Keeps-map_err P node (get_new_address w own "coinbase") (
                      Keeps-call w.text_of own "getnewaddress" _
                        (spares own "getnewaddress" _ (inr (inr (inr (inr (inl refl))))))))
                    λ address.
                      Keeps-then P (map_err node (get_address_info w own address)) reading
                        (Keeps-map_err P node (get_address_info w own address) (
                          Keeps-call w.address_of own "getaddressinfo" _ (
                            spares own "getaddressinfo" _
                              (inr (inr (inr (inr (inr (inl refl)))))))))
                        λ info. Keeps-lift_script (b.script_of_hex info.script_pub_key)

      Keeps-accepted :
          (block : Block) (answer : Option String) → Keeps P (accepted w b keys grind block answer)
      Keeps-accepted block none = λ s h. h
      Keeps-accepted block (some reason) = λ s h. h

      Keeps-lift_block :
          {A : Type 0} (r : Result SignetError Block) (f : Block → Action N MiningError A)
          → ((block : Block) → r ≡ ok block → Keeps P (f block))
          → Keeps P (lift_block w b keys grind r >>= f)
      Keeps-lift_block (ok block) f k = k block refl
      Keeps-lift_block (err e) f k = λ s h. h

      module _ (client : Client) (key : List ℕ) (challenge : List ℕ) where
        -- Submitting a block that is signed for the challenge keeps `P`.
        abbrev pub SparesSigned : Type 0
        SparesSigned =
            (tmpl : BlockTemplate) (reward_spk : List ℕ) (block : Block)
            → IsAssembled b key tmpl reward_spk (some challenge) block
            → Spares client "submitblock" (texts (keys.serialize_hex block ∷ []))

        Keeps-mine_once :
            (threads : ℕ) (reward_spk : List ℕ)
            → 0 < threads
            → threads ≤ 2 ^ 32
            → IsGrind b threads grind
            → SparesSigned
            → Keeps P (mine_once w b keys grind client reward_spk key challenge)
        unfolding mine_once get_block_template submit_block
        Keeps-mine_once threads reward_spk some_thread few outcome signed =
            let answering : Block → Option String → Action N MiningError (List ℕ) =
              accepted w b keys grind in
            let submitting : Block → Action N MiningError (List ℕ) = λ block.
              map_err node (submit_block w client (keys.serialize_hex block)) >>= answering block in
            let assembling : BlockTemplate → Action N MiningError (List ℕ) = λ tmpl.
              lift_block w b keys grind
                (assemble_block b grind key tmpl reward_spk (some challenge))
              >>= submitting in
            Keeps-then P (map_err node (get_block_template w client)) assembling
              (Keeps-map_err P node (get_block_template w client) (
                Keeps-call w.template_of client "getblocktemplate" _
                  (spares client "getblocktemplate" _ (inr (inl refl)))))
              λ tmpl.
                Keeps-lift_block (assemble_block b grind key tmpl reward_spk (some challenge))
                  submitting
                  λ block e.
                    Keeps-then P (map_err node (submit_block w client (keys.serialize_hex block)))
                      (answering block)
                      (Keeps-map_err P node (submit_block w client (keys.serialize_hex block)) (
                        Keeps-call w.optional_text_of client "submitblock" _ (
                          signed tmpl reward_spk block (
                            assemble_block_sound b key threads grind tmpl reward_spk
                              (some challenge) block some_thread few outcome e))))
                      (Keeps-accepted block)

  -- Whatever holds of the node and is kept by every request of the loop but `submitblock`, and by
  -- the submission of a block that is assembled and signed for the challenge of the loop's own
  -- key, is kept by a round. There are between one and 2^32 threads.
  pub run_round_keeps :
      (b : Bitcoin) (keys : Keys) (grind : Header → Option ℕ) (threads : ℕ) (client : Client)
      (key : List ℕ) (name : String) (premine_blocks : ℕ) (reward_spk : Option (List ℕ)) (s : N)
      → 0 < threads
      → threads ≤ 2 ^ 32
      → IsGrind b threads grind
      → ((client : Client) (method : String) (params : Json)
          → TextIn method other_methods
          → Spares client method params)
      → ((tmpl : BlockTemplate) (spk : List ℕ) (block : Block)
          → IsAssembled b key tmpl spk
              (some (own_challenge w b keys grind client key name premine_blocks))
              block
          → Spares client "submitblock" (texts (keys.serialize_hex block ∷ [])))
      → P s
      → P (run_round w b keys grind client key name premine_blocks reward_spk s).1
  unfolding run_round get_blockchain_info after_info wallet_round after_wallet mine_round
      after_mining
  run_round_keeps b keys grind threads client key name premine_blocks reward_spk s some_thread few
        outcome spares signed h =
      after_info_keeps reward_spk (get_blockchain_info w client s) (
        Keeps-call w.info_of client "getblockchaininfo" _
          (spares client "getblockchaininfo" _ (inl refl)) s h)
    where
      after_mining_keeps :
          (blocks : ℕ) (spk : List ℕ) (r : Result MiningError (List ℕ) × N)
          → P r.1
          → P (after_mining w b keys grind client key name premine_blocks blocks spk r).1
      after_mining_keeps blocks spk (ok hash, t) k = k
      after_mining_keeps blocks spk (err e, t) k = k

      mine_round_keeps :
          (blocks : ℕ) (spk : List ℕ) (t : N)
          → P t
          → P (mine_round w b keys grind client key name premine_blocks blocks spk t).1
      mine_round_keeps blocks spk t k =
          let challenge = own_challenge w b keys grind client key name premine_blocks in
          after_mining_keeps blocks spk (mine_once w b keys grind client spk key challenge t) (
            Keeps-mine_once b keys grind spares client key challenge threads spk some_thread few
              outcome signed t k)

      after_wallet_keeps :
          (blocks : ℕ) (r : Result MiningError (List ℕ) × N)
          → P r.1
          → P (after_wallet w b keys grind client key name premine_blocks blocks r).1
      after_wallet_keeps blocks (ok spk, t) k = mine_round_keeps blocks spk t k
      after_wallet_keeps blocks (err e, t) k = k

      wallet_round_keeps :
          (blocks : ℕ) (spk : Option (List ℕ)) (t : N)
          → P t
          → P (wallet_round w b keys grind client key name premine_blocks blocks spk t).1
      wallet_round_keeps blocks (some spk) t k = mine_round_keeps blocks spk t k
      wallet_round_keeps blocks none t k =
          after_wallet_keeps blocks (ensure_wallet w b keys grind client name t)
            (Keeps-ensure_wallet b keys grind spares client name t k)

      after_info_keeps :
          (spk : Option (List ℕ)) (r : Result RpcError BlockchainInfo × N)
          → P r.1
          → P (after_info w b keys grind client key name premine_blocks spk r).1
      after_info_keeps spk (ok info, t) k = wallet_round_keeps info.blocks spk t k
      after_info_keeps spk (err e, t) k = k
