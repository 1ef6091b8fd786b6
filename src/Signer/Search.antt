-- ===== src/Signer/Search.antt =====
-- `grind_nonce` of crates/signet-signer/src/signet.rs: up to eight threads that share the flag
-- `stop` and the cell `found`, interleaved in any order.
pub mod Sound
pub mod Complete
pub mod Ends
use signet_sandbox.Prelude.{
  ℕ, ◌+◌, ◌^◌, ◌<◌, ◌≡◌, ◌≢◌, Bool, true, false, Option, none, some, ltb, ◌==◌, if◌then◌else◌,
}

-- `available_parallelism`, one where it fails, and eight at most.
unfoldable pub thread_count : Option ℕ → ℕ
thread_count none = 1
thread_count (some n) = if ltb n 8 then n else 8

pub record Shared : Type 0 where
  pub stop : Bool
  pub found : Option ℕ

-- Where a thread stands, with its `nonce`.
pub data Worker : Type 0 where
  loading : ℕ → Worker
  checking storing : ℕ → Worker
  stopping finished : Worker

-- `checked_add` on a `u32`, and the end of the loop where it gives nothing.
unfoldable pub advance : ℕ → ℕ → Worker
advance threads nonce =
    if ltb (nonce + threads) (2 ^ 32) then loading (nonce + threads) else finished

module _ (threads : ℕ) (meets : ℕ → Bool) where
  -- The next access of a thread: the load of `stop`, the test of a header, the store into `found`
  -- under its lock, the store into `stop`.
  unfoldable pub act : Worker → Shared → Worker × Shared
  unfolding advance
  act (loading nonce) s = (if s.stop then finished else checking nonce, s)
  act (checking nonce) s = (if meets nonce then storing nonce else advance threads nonce, s)
  act (storing nonce) s = (stopping, record { stop = s.stop; found = some nonce })
  act stopping s = (finished, record { stop = true; found = s.found })
  act finished s = (finished, s)

pub record Search : Type 0 where
  pub shared : Shared
  pub workers : ℕ → Worker

unfoldable pub update : (ℕ → Worker) → ℕ → Worker → ℕ → Worker
update workers t w i = if i == t then w else workers i

-- Thread `t` starts at nonce `t`.
abbrev pub start : Search
start = record { shared = record { stop = false; found = none }; workers = λ (t : ℕ). loading t }

module _ (threads : ℕ) (meets : ℕ → Bool) where
  abbrev pub after : Search → ℕ → Search
  after s t =
      let (w, shared) = act threads meets (s.workers t) s.shared in
      record { shared = shared; workers = update s.workers t w }

  -- Any thread that has not returned acts.
  pub data Step (s : Search) : Search → Type 0 where
    pick : (t : ℕ) → t < threads → s.workers t ≢ finished → Step s (after s t)

  -- The searches after `n` steps.
  pub data Run : ℕ → Search → Type 0 where
    begin : Run 0 start
    next : {n : ℕ} {s r : Search} → Run n s → Step s r → Run (n + 1) r

-- Every thread has returned, and so does the scope.
abbrev pub IsJoined : ℕ → Search → Type 0
IsJoined threads s = (t : ℕ) → t < threads → s.workers t ≡ finished
