-- ===== src/Encoding/Sizes.antt =====
-- Compact sizes and script pushes read back, and the two writers of compact sizes agree.
use signet_sandbox.Prelude.{
  ℕ, zero, suc, ◌+◌, ◌*◌, ◌/◌, ◌%◌, ◌^◌, ◌<◌, ◌≡◌, refl, List, [], ◌∷◌, ◌++◌, append_assoc, Option,
  none, some, arith, ltb, leb, ◌==◌, if◌then◌else◌, length, ◌⊎◌, inl, inr, true, false, Bool-cases,
  ◌∙◌,
}
use signet_sandbox.Encoding.{le_bytes, write_compact_size, compact_size, append_push}

-- A little-endian number of `n` bytes, with what follows it.
pub read_le : ℕ → List ℕ → Option (ℕ × List ℕ)
read_le zero s = some (0, s)
read_le (suc n) [] = none
read_le (suc n) (b ∷ s) = elim (read_le n s) [
  | none ↦ none
  | some (x, rest) ↦ some (b + 256 * x, rest)
]

-- Bitcoin's reader of a compact size of up to four bytes.
pub read_compact_size : List ℕ → Option (ℕ × List ℕ)
unfolding read_le
read_compact_size [] = none
read_compact_size (m ∷ s) =
    if ltb m 253
    then some (m, s)
    else if m == 253
    then read_le 2 s
    else if m == 254
    then read_le 4 s
    else none

read_two :
    (x : ℕ) (rest : List ℕ)
    → x < 2 ^ 16
    → read_le 2 (le_bytes 2 (x % 2 ^ 16) ++ rest) ≡ some (x, rest)
unfolding read_le le_bytes
read_two x rest h = ground arith

read_four :
    (x : ℕ) (rest : List ℕ)
    → x < 2 ^ 32
    → read_le 4 (le_bytes 4 (x % 2 ^ 32) ++ rest) ≡ some (x, rest)
unfolding read_le le_bytes
read_four x rest h = ground arith

-- A length below 2^32 is read back from its compact size, whatever follows it.
pub read-compact_size :
    (len : ℕ) (rest : List ℕ)
    → len < 2 ^ 32
    → read_compact_size (compact_size len ++ rest) ≡ some (len, rest)
unfolding read_compact_size compact_size
read-compact_size len rest h = ground arith

size_cases :
    (len : ℕ)
    → ((ltb len 253 ≡ true) × (leb len 252 ≡ true))
      ⊎ (((ltb len 253 ≡ false) × (leb len 252 ≡ false) × (leb len 65535 ≡ true))
          ⊎ ((ltb len 253 ≡ false) × (leb len 252 ≡ false) × (leb len 65535 ≡ false)))
size_cases len = ground arith

-- The orchestrator's writer appends, for every length, the bytes of the signer's compact size.
pub write_compact_size-append :
    (out : List ℕ) (len : ℕ) → write_compact_size out len ≡ out ++ compact_size len
unfolding write_compact_size compact_size
write_compact_size-append out len = elim (size_cases len) [
  | inl (s1, s2) ↦ rw (s1, s2)
  | inr (inl (s1, s2, s3)) ↦ rw (s1, s2, s3) (append_assoc out (253 ∷ []) _)
  | inr (inr (s1, s2, s3)) ↦ rw (s1, s2, s3) (append_assoc out (254 ∷ []) _)
]

-- The bytes of a push of `n` bytes, and what follows it.
take_bytes : ℕ → List ℕ → Option (List ℕ × List ℕ)
take_bytes zero s = some ([], s)
take_bytes (suc n) [] = none
take_bytes (suc n) (b ∷ s) = elim (take_bytes n s) [
  | none ↦ none
  | some (bytes, rest) ↦ some (b ∷ bytes, rest)
]

take_bytes_of : Option (ℕ × List ℕ) → Option (List ℕ × List ℕ)
take_bytes_of none = none
take_bytes_of (some (n, s)) = take_bytes n s

-- Bitcoin's reader of one push: a direct push, OP_PUSHDATA1 or OP_PUSHDATA2.
pub read_push : List ℕ → Option (List ℕ × List ℕ)
unfolding take_bytes take_bytes_of read_le
read_push [] = none
read_push (op ∷ s) =
    if leb op 0x4b
    then take_bytes op s
    else if op == 0x4c
    then take_bytes_of (read_le 1 s)
    else if op == 0x4d
    then take_bytes_of (read_le 2 s)
    else none

take_exact : (bytes rest : List ℕ) → take_bytes (length bytes) (bytes ++ rest) ≡ some (bytes, rest)
unfolding take_bytes
take_exact [] rest = refl
take_exact (b ∷ bytes) rest = ground (arith, take_exact bytes rest)

-- What `append_push` writes behind the script.
abbrev push : List ℕ → List ℕ
push bytes =
    if leb (length bytes) 0x4b
    then length bytes % 256 ∷ bytes
    else if leb (length bytes) 0xff
    then 0x4c ∷ (length bytes % 256) ∷ bytes
    else 0x4d ∷ (length bytes % 2 ^ 16 % 256) ∷ (length bytes % 2 ^ 16 / 256 % 256) ∷ bytes

append_push_lem : (script bytes : List ℕ) → append_push script bytes ≡ script ++ push bytes
unfolding append_push
append_push_lem script bytes = elim (Bool-cases (leb (length bytes) 75)) [
  | inl s1 ↦ rw s1 (append_assoc script (length bytes % 256 ∷ []) bytes)
  | inr s1 ↦ elim (Bool-cases (leb (length bytes) 255)) [
    | inl s2 ↦
        rw (s1, s2)
          (append_assoc (script ++ 76 ∷ []) (length bytes % 256 ∷ []) bytes
            ∙ append_assoc script (76 ∷ []) (length bytes % 256 ∷ bytes))
    | inr s2 ↦
        rw (s1, s2)
          (append_assoc (script ++ 77 ∷ []) (le_bytes 2 (length bytes % 2 ^ 16)) bytes
            ∙ append_assoc script (77 ∷ []) (le_bytes 2 (length bytes % 2 ^ 16) ++ bytes))
  ]
]

push_reads :
    (bytes rest : List ℕ)
    → length bytes < 2 ^ 16
    → read_push (push bytes ++ rest) ≡ some (bytes, rest)
unfolding read_push
push_reads bytes rest h = ground (arith, take_exact bytes rest)

-- The push of fewer than 2^16 bytes is written behind the script, which stays as it is, and
-- Bitcoin's reader gives those bytes back, whatever follows them.
pub append_push_reads :
    (script bytes rest : List ℕ)
    → length bytes < 2 ^ 16
    → (pushed : List ℕ) × (append_push script bytes ≡ script ++ pushed)
      × (read_push (pushed ++ rest) ≡ some (bytes, rest))
append_push_reads script bytes rest h =
    (push bytes, append_push_lem script bytes, push_reads bytes rest h)
