-- ===== src/Orchestrator/Mesh/Pairs.antt =====
-- How many connections a pass over the mesh starts.
use mathlib.Core.Path.{subst}
use signet_sandbox.Prelude.{
  zero, suc, ℕ, ◌+◌, ◌*◌, ◌≤◌, ◌≡◌, refl, ap, String, Bool, true, false, Bool-cases, inl, inr, List,
  [], ◌∷◌, length, Result, ok, err, if◌then◌else◌, ltb, arith,
}
use signet_sandbox.Actions.{Action, pure, fail, continue, attempt, ◌>>=◌}
use signet_sandbox.Bitcoind.{Json}
use signet_sandbox.Platform.{Platform, World}
use signet_sandbox.Orchestrator.Naming.{OrchestrateError}
use signet_sandbox.Orchestrator.Pods.{lightning_node_id}
use signet_sandbox.Orchestrator.Mesh.{
  any_key, lightning_connect_peer, lightning_peer_keys, connected, connect_pair, connect_later,
  connect_each, with_node_ids, mesh_lightning_peers,
}

module _ {C : Type 0} where
  -- Whatever the state, a result of the action satisfies `Q`.
  abbrev Gives : {A : Type 0} → (A → Type 0) → Action (World C) OrchestrateError A → Type 0
  Gives Q m = (w : World C) → (a : _) → (m w).0 ≡ ok a → Q a

  Gives-bind :
      {A B : Type 0} (R : A → Type 0) (Q : B → Type 0) (m : Action (World C) OrchestrateError A)
      (f : A → Action (World C) OrchestrateError B)
      → Gives R m
      → ((a : A) → R a → Gives Q (f a))
      → Gives Q (m >>= f)
  Gives-bind R Q m f first second w b h = go (m w) refl h
    where
      go : (r : Result OrchestrateError _ × World C) → m w ≡ r → (continue f r).0 ≡ ok b → Q b
      go (ok a, v) e k = second a (first w a (ap (λ r. r.0) e)) v b k
      go (err e', v) e k = cc

square :
    (m i more : ℕ) → i ≤ m → 2 * more + m ≤ m * m → 2 * (i + more) + (m + 1) ≤ (m + 1) * (m + 1)
square m i more h k = omega (arith, h, k)

module _ {C : Type 0} (platform : Platform C) (json_of : List ℕ → Result String Json) where
  Gives-connected :
      (env_id a key : String) (r : Result OrchestrateError (Unit {0}))
      → Gives (λ k. k ≤ 1) (connected platform json_of env_id a key r)
  unfolding connected
  Gives-connected env_id a key (ok u) = λ w k h. ground (arith, h)
  Gives-connected env_id a key (err e) =
      Gives-bind (λ peers. Unit {0}) (λ k. k ≤ 1) (lightning_peer_keys platform json_of env_id a)
        (λ peers. if any_key key peers then pure 0 else fail e) (λ w peers h. tt)
        (λ peers u. last peers (any_key key peers))
    where
      last :
          (peers : List String) (found : Bool)
          → Gives {C = C} (λ (k : ℕ). k ≤ 1) (if found then pure 0 else fail e)
      last peers true w k h = ground (arith, h)
      last peers false w k h = cc

  Gives-connect_pair :
      (env_id a : String) (a_peers : List String) (b key : String)
      → Gives (λ k. k ≤ 1) (connect_pair platform json_of env_id a a_peers b key)
  unfolding connect_pair
  Gives-connect_pair env_id a a_peers b key = go (any_key key a_peers)
    where
      go :
          (found : Bool)
          → Gives {C = C}
              (λ (k : ℕ). k ≤ 1)
              (if found
                then pure 0
                else (attempt (lightning_connect_peer platform json_of env_id a key b)
                    >>= connected platform json_of env_id a key))
      go true = λ w k h. ground (arith, h)
      go false =
          Gives-bind (λ r. Unit {0}) (λ k. k ≤ 1)
            (attempt (lightning_connect_peer platform json_of env_id a key b))
            (connected platform json_of env_id a key) (λ w r h. tt)
            (λ r u. Gives-connected env_id a key r)

  Gives-connect_later :
      (env_id a : String) (a_peers : List String) (rest : List (String × String))
      → Gives (λ k. k ≤ length rest) (connect_later platform json_of env_id a a_peers rest)
  unfolding connect_later
  Gives-connect_later env_id a a_peers [] = λ w k h. ground (arith, h)
  Gives-connect_later env_id a a_peers ((b, key) ∷ rest) =
      Gives-bind (λ i. i ≤ 1) (λ k. k ≤ length ((b, key) ∷ rest))
        (connect_pair platform json_of env_id a a_peers b key)
        (λ i. connect_later platform json_of env_id a a_peers rest >>= λ more. pure (i + more))
        (Gives-connect_pair env_id a a_peers b key)
        λ i few.
          Gives-bind (λ more. more ≤ length rest) (λ k. k ≤ length ((b, key) ∷ rest))
            (connect_later platform json_of env_id a a_peers rest) (λ more. pure (i + more))
            (Gives-connect_later env_id a a_peers rest)
            (λ more fewer w k h. ground (arith, h, few, fewer))

  Gives-connect_each :
      (env_id : String) (nodes : List (String × String))
      → Gives
          (λ k. 2 * k + length nodes ≤ length nodes * length nodes)
          (connect_each platform json_of env_id nodes)
  unfolding connect_each
  Gives-connect_each env_id [] = λ w k h. ground (arith, h)
  Gives-connect_each env_id ((a, key) ∷ rest) =
      Gives-bind (λ peers. Unit {0}) Q (lightning_peer_keys platform json_of env_id a)
        (λ a_peers. connect_later platform json_of env_id a a_peers rest >>= counted)
        (λ w peers h. tt)
        λ a_peers u.
          Gives-bind (λ i. i ≤ length rest) Q (connect_later platform json_of env_id a a_peers rest)
            counted (Gives-connect_later env_id a a_peers rest)
            λ i few.
              Gives-bind (λ more. 2 * more + length rest ≤ length rest * length rest) Q
                (connect_each platform json_of env_id rest) (λ more. pure (i + more))
                (Gives-connect_each env_id rest)
                (λ more fewer w k h. ground (arith, h, square (length rest) i more few fewer))
    where
      Q : ℕ → Type 0
      Q k = 2 * k + length ((a, key) ∷ rest) ≤ length ((a, key) ∷ rest) * length ((a, key) ∷ rest)

      counted : ℕ → Action (World C) OrchestrateError ℕ
      counted i = connect_each platform json_of env_id rest >>= λ more. pure (i + more)

  Gives-with_node_ids :
      (env_id : String) (instances : List String)
      → Gives
          (λ nodes. length nodes ≡ length instances)
          (with_node_ids platform json_of env_id instances)
  unfolding with_node_ids
  Gives-with_node_ids env_id [] = λ w nodes h. ground (arith, h)
  Gives-with_node_ids env_id (i ∷ instances) =
      Gives-bind (λ key. Unit {0}) (λ nodes. length nodes ≡ length (i ∷ instances))
        (lightning_node_id platform env_id i)
        (λ key. with_node_ids platform json_of env_id instances >>= λ more. pure ((i, key) ∷ more))
        (λ w key h. tt)
        λ key u.
          Gives-bind (λ nodes. length nodes ≡ length instances)
            (λ nodes. length nodes ≡ length (i ∷ instances))
            (with_node_ids platform json_of env_id instances) (λ more. pure ((i, key) ∷ more))
            (Gives-with_node_ids env_id instances) (λ more same w nodes h. ground (arith, h, same))

  -- A pass over the mesh of `n` instances that succeeds reports at most `n (n - 1) / 2` new
  -- connections, one for each pair, whatever the pods answer.
  pub mesh_lightning_peers_bound :
      (env_id : String) (instances : List String) (initiated : ℕ) (w : World C)
      → (mesh_lightning_peers platform json_of env_id instances w).0 ≡ ok initiated
      → 2 * initiated + length instances ≤ length instances * length instances
  unfolding mesh_lightning_peers
  mesh_lightning_peers_bound env_id instances initiated w h =
      elim (Bool-cases (ltb (length instances) 2)) [
        | inl e ↦ few (length instances) e (count w initiated (with_test true e h))
        | inr e ↦ many w initiated (with_test false e h)
      ]
    where
      meshed : Action (World C) OrchestrateError ℕ
      meshed =
          with_node_ids platform json_of env_id instances >>= connect_each platform json_of env_id

      with_test :
          (b : Bool)
          → ltb (length instances) 2 ≡ b
          → ((if ltb (length instances) 2 then pure 0 else meshed) w).0 ≡ ok initiated
          → ((if b then pure 0 else meshed) w).0 ≡ ok initiated
      with_test b e k =
          subst (λ (c : Bool). ((if c then pure 0 else meshed) w).0 ≡ ok initiated) e k

      count : Gives {C = C} (λ (k : ℕ). k ≡ 0) (pure 0)
      count v k e = ground (arith, e)

      few : (n : ℕ) → ltb n 2 ≡ true → initiated ≡ 0 → 2 * initiated + n ≤ n * n
      few zero e z = omega (arith, z)
      few (suc zero) e z = omega (arith, z)
      few (suc (suc n)) e z = ground (arith, e)

      many :
          Gives {C = C}
            (λ (k : ℕ). 2 * k + length instances ≤ length instances * length instances)
            meshed
      many =
          Gives-bind (λ nodes. length nodes ≡ length instances)
            (λ k. 2 * k + length instances ≤ length instances * length instances)
            (with_node_ids platform json_of env_id instances) (connect_each platform json_of env_id)
            (Gives-with_node_ids env_id instances)
            λ nodes same v k e.
              subst (λ (n : ℕ). 2 * k + n ≤ n * n) same (Gives-connect_each env_id nodes v k e)
