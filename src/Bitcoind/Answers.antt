-- ===== src/Bitcoind/Answers.antt =====
-- What `call_raw` makes of an answer.
use signet_sandbox.Prelude.{
  ◌≡◌, refl, ◌↔◌, String, Option, none, some, Result, ok, err, ok_or, ap, sym, ◌∙◌,
}
use signet_sandbox.Actions.{continue, lift, map_result}
use signet_sandbox.Bitcoind.{
  Json, null, bool, integer, number, string, array, object, RpcError, http, unexpected, Client,
  Wire, get, rpc_error, result_of, request_body, call_raw,
}

-- No `error`, or a null one.
abbrev pub IsCalm : Option Json → Type 0
IsCalm none = Unit
IsCalm (some null) = Unit
IsCalm (some _) = ⊥

IsCalm-iff : (o : Option Json) → (rpc_error o ≡ none) ↔ IsCalm o
unfolding rpc_error
IsCalm-iff none = (λ e. _, λ h. refl)
IsCalm-iff (some null) = (λ e. _, λ h. refl)
IsCalm-iff (some (bool b)) = (λ e. cc, λ h. absurd h)
IsCalm-iff (some (integer n)) = (λ e. cc, λ h. absurd h)
IsCalm-iff (some (number n)) = (λ e. cc, λ h. absurd h)
IsCalm-iff (some (string s)) = (λ e. cc, λ h. absurd h)
IsCalm-iff (some (array a)) = (λ e. cc, λ h. absurd h)
IsCalm-iff (some (object o)) = (λ e. cc, λ h. absurd h)

result_exact :
    (to_string : Json → String) (envelope value : Json) (error : Option RpcError)
    → (result_of to_string envelope error ≡ ok value)
      ↔ ((error ≡ none) × (get "result" envelope ≡ some value))
unfolding result_of
result_exact to_string envelope value none = go (get "result" envelope)
  where
    go :
        (o : Option Json)
        → (ok_or o (unexpected (to_string envelope)) ≡ ok value)
          ↔ ((◌≡◌ {A = Option RpcError} none none) × (o ≡ some value))
    go none = (λ h. cc, λ h. cc)
    go (some v) = (λ h. (refl, cc), λ h. cc)
result_exact to_string envelope value (some e) = (λ h. cc, λ h. cc)

module _ {N : Type 0} (w : Wire N) where
  settle : Result String Json × N → Result RpcError Json × N
  settle (ok envelope, t) = (result_of w.to_string envelope (rpc_error (get "error" envelope)), t)
  settle (err e, t) = (err (http e), t)

  call_raw_lem :
      (client : Client) (method : String) (params : Json) (s : N)
      → call_raw w client method params s ≡ settle (w.send client (request_body method params) s)
  unfolding call_raw settle
  call_raw_lem client method params s = go (w.send client (request_body method params) s)
    where
      go :
          (a : Result String Json × N)
          → continue
              (λ (envelope : Json).
                lift {S = N} (result_of w.to_string envelope (rpc_error (get "error" envelope))))
              (map_result http a)
            ≡ settle a
      go (ok envelope, t) = refl
      go (err e, t) = refl

  settle_exact :
      (answer : Result String Json × N) (value : Json) (t : N)
      → (settle answer ≡ (ok value, t)) ↔ (
          (envelope : Json) × (answer ≡ (ok envelope, t))
          × IsCalm (get "error" envelope)
          × (get "result" envelope ≡ some value))
  unfolding settle
  settle_exact (err e, u) value t = (λ h. cc, λ h. cc)
  settle_exact (ok envelope, u) value t = (
    λ h.
        let r =
          (result_exact w.to_string envelope value (rpc_error (get "error" envelope))).0
            (ap (λ p. p.0) h) in
        (envelope, ap (λ p. (ok envelope, p.1)) h, (IsCalm-iff (get "error" envelope)).0 r.0, r.1),
    λ (given, e, calm, r).
        let x : result_of w.to_string given (rpc_error (get "error" given)) ≡ ok value =
          (result_exact w.to_string given value (rpc_error (get "error" given))).1
            ((IsCalm-iff (get "error" given)).1 calm, r) in
        let same : given ≡ envelope = cc in
        let last : u ≡ t = cc in
        rw last (
          ap (λ f. (result_of w.to_string f (rpc_error (get "error" f)), t)) (sym same)
          ∙ ap (λ v. (v, t)) x),
  )

  -- A call gives `value` exactly when the node answers with JSON whose `error` is missing or null
  -- and whose `result` is `value`, and it leaves the node as the one request does.
  pub call_raw_exact :
      (client : Client) (method : String) (params value : Json) (s t : N)
      → (call_raw w client method params s ≡ (ok value, t)) ↔ (
          (envelope : Json) × (w.send client (request_body method params) s ≡ (ok envelope, t))
          × IsCalm (get "error" envelope)
          × (get "result" envelope ≡ some value))
  call_raw_exact client method params value s t =
      let (f, g) = settle_exact (w.send client (request_body method params) s) value t in
      let e = call_raw_lem client method params s in (λ h. f (sym e ∙ h), λ h. e ∙ g h)
