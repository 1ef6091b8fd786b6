-- ===== src/Signer/Tree.antt =====
-- The Merkle root is the root of the tree that Bitcoin's verifiers walk down from the top.
use signet_sandbox.Prelude.{
  ℕ, zero, suc, ◌+◌, ◌*◌, ◌/◌, ◌<◌, ◌≤◌, ◌≡◌, refl, sym, ap, ◌∙◌, List, [], ◌∷◌, length, arith, ltb,
  leb, if◌then◌else◌,
}
use signet_sandbox.Signer.Merkle.{pad, chunk_pairs, merkle_loop, merkle_root}

-- The number of nodes `h` levels above `n` leaves.
pub width : ℕ → ℕ → ℕ
width zero n = n
width (suc h) n = (width h n + 1) / 2

-- The height of the tree over `n` leaves; `n` rounds are enough.
pub height : ℕ → ℕ → ℕ
height zero n = 0
height (suc fuel) n = let above = height fuel ((n + 1) / 2) in if leb n 1 then 0 else suc above

width_shift : (h n : ℕ) → width h ((n + 1) / 2) ≡ width (suc h) n
unfolding width
width_shift zero n = refl
width_shift (suc h) n = ap (λ (w : ℕ). (w + 1) / 2) (width_shift h n)

height_one : (fuel : ℕ) → height (suc fuel) 1 ≡ 0
unfolding height
height_one fuel = refl

height_many : (fuel n : ℕ) → 1 < n → height (suc fuel) n ≡ suc (height fuel ((n + 1) / 2))
unfolding height
height_many fuel n h = ground (arith, h)

module _ {A : Type 0} (pair : A → A → A) (zero_hash : A) where
  pub get_or : List A → ℕ → A
  get_or [] i = zero_hash
  get_or (x ∷ xs) zero = x
  get_or (x ∷ xs) (suc i) = get_or xs i

  -- Node `i` of level `h`: a leaf, or the hash of its two children, where a child that is missing
  -- on the right is replaced by the left one.
  pub node : List A → ℕ → ℕ → A
  unfolding get_or width
  node leaves zero i = get_or leaves i
  node leaves (suc h) i = pair (node leaves h (2 * i)) (
      if ltb (2 * i + 1) (width h (length leaves))
      then node leaves h (2 * i + 1)
      else node leaves h (2 * i))

  -- One level up, in one pass.
  halve : List A → List A
  halve [] = []
  halve (x ∷ []) = pair x x ∷ []
  halve (x ∷ y ∷ rest) = pair x y ∷ halve rest

  pad_two : (x y : A) (rest : List A) → pad (x ∷ y ∷ rest) ≡ x ∷ y ∷ pad rest
  unfolding pad
  pad_two x y [] = refl
  pad_two x y (z ∷ rest) = ground arith

  chunk_pairs-pad : (xs : List A) → chunk_pairs pair zero_hash (pad xs) ≡ halve xs
  unfolding chunk_pairs halve pad
  chunk_pairs-pad [] = refl
  chunk_pairs-pad (x ∷ []) = refl
  chunk_pairs-pad (x ∷ y ∷ rest) =
      ap (chunk_pairs pair zero_hash) (pad_two x y rest)
      ∙ ap (λ r. pair x y ∷ r) (chunk_pairs-pad rest)

  length-halve : (xs : List A) → length (halve xs) ≡ (length xs + 1) / 2
  unfolding halve
  length-halve [] = omega arith
  length-halve (x ∷ []) = omega arith
  length-halve (x ∷ y ∷ rest) = omega (arith, length-halve rest)

  get_or_two :
      (x y : A) (rest : List A) (j k : ℕ)
      → j ≡ suc (suc k)
      → get_or (x ∷ y ∷ rest) j ≡ get_or rest k
  unfolding get_or
  get_or_two x y rest j k e = rw e refl

  node_two : (x y : A) (rest : List A) (i : ℕ) → node (x ∷ y ∷ rest) 1 (suc i) ≡ node rest 1 i
  unfolding node
  node_two x y rest i = ground (
    arith,
    get_or_two x y rest (2 * suc i) (2 * i),
    get_or_two x y rest (2 * suc i + 1) (2 * i + 1),
  )

  get_or-halve : (xs : List A) (i : ℕ) → i < (length xs + 1) / 2 → get_or (halve xs) i ≡ node xs 1 i
  unfolding halve node
  get_or-halve [] i h = absurd (omega (arith, h))
  get_or-halve (x ∷ []) zero h = refl
  get_or-halve (x ∷ []) (suc i) h = absurd (omega (arith, h))
  get_or-halve (x ∷ y ∷ rest) zero h = ground arith
  get_or-halve (x ∷ y ∷ rest) (suc i) h =
      get_or-halve rest i (omega (arith, h)) ∙ sym (node_two x y rest i)

  0_lt-width : (h n : ℕ) → 0 < n → 0 < width h n
  unfolding width
  0_lt-width zero n h0 = h0
  0_lt-width (suc h) n h0 = omega (arith, 0_lt-width h n h0)

  width-halve : (xs : List A) (h : ℕ) → width h (length (halve xs)) ≡ width (suc h) (length xs)
  width-halve xs h = ap (width h) (length-halve xs) ∙ width_shift h (length xs)

  -- The hash of the children of node `i` above a level of `w` nodes.
  abbrev parent : (ℕ → A) → ℕ → ℕ → A
  parent level w i =
      pair (level (2 * i)) (if ltb (2 * i + 1) w then level (2 * i + 1) else level (2 * i))

  parent_same :
      (f g : ℕ → A) (w i : ℕ)
      → ((j : ℕ) → j < w → f j ≡ g j)
      → i < (w + 1) / 2
      → parent f w i ≡ parent g w i
  parent_same f g w i same h = ground (arith, h, same (2 * i), same (2 * i + 1))

  node-halve :
      (xs : List A) (h i : ℕ)
      → i < width (suc h) (length xs)
      → node (halve xs) h i ≡ node xs (suc h) i
  unfolding node width
  node-halve xs zero i h = get_or-halve xs i h
  node-halve xs (suc h) i b =
      ap (λ (w : ℕ). parent (node (halve xs) h) w i) (width-halve xs h)
      ∙ parent_same (node (halve xs) h) (node xs (suc h)) (width (suc h) (length xs)) i
          (node-halve xs h) b

  merkle_loop_lem :
      (fuel : ℕ) (xs : List A)
      → 0 < length xs
      → length xs ≤ fuel
      → merkle_loop pair zero_hash fuel xs ≡ node xs (height fuel (length xs)) 0
  unfolding merkle_loop node get_or
  merkle_loop_lem zero xs h k = absurd (omega (arith, h, k))
  merkle_loop_lem (suc fuel) [] h k = absurd (omega (arith, h))
  merkle_loop_lem (suc fuel) (x ∷ []) h k =
      ap (λ (t : ℕ). node (x ∷ []) t 0) (sym (height_one fuel))
  merkle_loop_lem (suc fuel) (x ∷ y ∷ rest) h k =
      let n = length (x ∷ y ∷ rest) in
      let above = length (halve (x ∷ y ∷ rest)) in
      let half : above ≡ (n + 1) / 2 = length-halve (x ∷ y ∷ rest) in
      ap (merkle_loop pair zero_hash fuel) (chunk_pairs-pad (x ∷ y ∷ rest))
      ∙ merkle_loop_lem fuel (halve (x ∷ y ∷ rest)) (omega (arith, half)) (omega (arith, half, k))
      ∙ node-halve (x ∷ y ∷ rest) (height fuel above) 0
          (0_lt-width (suc (height fuel above)) n (omega arith))
      ∙ ap (λ (t : ℕ). node (x ∷ y ∷ rest) t 0)
          (ap (λ (w : ℕ). suc (height fuel w)) half ∙ sym (height_many fuel n (omega arith)))

  -- The root of one leaf or more is the root of the tree in which each node is the hash of its two
  -- children, a missing right child replaced by the left one; the number of leaves is enough fuel.
  pub merkle_root_is_tree :
      (leaves : List A)
      → 0 < length leaves
      → merkle_root pair zero_hash leaves ≡ node leaves (height (length leaves) (length leaves)) 0
  unfolding merkle_root
  merkle_root_is_tree leaves h = merkle_loop_lem (length leaves) leaves h (omega arith)
