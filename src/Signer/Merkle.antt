-- ===== src/Signer/Merkle.antt =====
-- `merkle_root` of crates/signet-signer/src/signet.rs, over the hash of two nodes and the root of no
-- leaves.
use signet_sandbox.Prelude.{ℕ, zero, suc, ◌%◌, List, [], ◌∷◌, ◌++◌, length, ◌==◌, if◌then◌else◌}

module _ {A : Type 0} where
  abbrev last_or : A → List A → A
  last_or d [] = d
  last_or d (x ∷ xs) = last_or x xs

  -- An odd level gets its last node twice.
  unfoldable pub pad : List A → List A
  pad [] = []
  pad (x ∷ xs) = if length (x ∷ xs) % 2 == 1 then (x ∷ xs) ++ last_or x xs ∷ [] else x ∷ xs

module _ {A : Type 0} (pair : A → A → A) (zero_hash : A) where
  -- `chunks(2)`, on a level of even length.
  unfoldable pub chunk_pairs : List A → List A
  chunk_pairs [] = []
  chunk_pairs (x ∷ []) = []
  chunk_pairs (x ∷ y ∷ rest) = pair x y ∷ chunk_pairs rest

  -- The loop `while leaves.len() > 1`, on fuel; `leaves[0]` where it ends.
  unfoldable pub merkle_loop : ℕ → List A → A
  unfolding pad chunk_pairs
  merkle_loop fuel [] = zero_hash
  merkle_loop fuel (x ∷ []) = x
  merkle_loop zero (x ∷ y ∷ rest) = zero_hash
  merkle_loop (suc fuel) (x ∷ y ∷ rest) = merkle_loop fuel (chunk_pairs (pad (x ∷ y ∷ rest)))

  unfoldable pub merkle_root : List A → A
  unfolding merkle_loop
  merkle_root leaves = merkle_loop (length leaves) leaves
