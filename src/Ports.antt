-- ===== src/Ports.antt =====
-- Port allocation of crates/signet-db/src/lib.rs. Ports are `i32` there; the pools lie far below the
-- end of that range, and a port is a natural number here.
pub mod Sorting
pub mod Lowest
pub mod Triples
pub mod Batches
use signet_sandbox.Prelude.{
  ℕ, zero, suc, ◌+◌, ◌-◌, ◌%◌, Bool, ◌&&◌, not, List, [], ◌∷◌, ◌++◌, Option, none, some, Result, ok,
  err, contains, ltb, leb, ◌==◌, if◌then◌else◌, ◌>>=◌,
}
use Sorting.{sort, dedup}

-- The `for port in taken` loop over the sorted ports.
walk : List ℕ → ℕ → ℕ
walk [] candidate = candidate
walk (port ∷ taken) candidate =
    let skip = walk taken candidate in
    let next = walk taken (candidate + 1) in
    if ltb port candidate then skip else if ltb candidate port then candidate else next

-- The lowest port in `[base, max]` absent from `held`, if any.
unfoldable pub lowest_free_port : ℕ → ℕ → List ℕ → Option ℕ
unfolding walk sort dedup
lowest_free_port base max held =
    if ltb max base
    then none
    else (let candidate = walk (dedup (sort held)) base in
        if leb candidate max then some candidate else none)

unfoldable pub triple_free : List ℕ → ℕ → Bool
unfolding contains
triple_free held p =
    not (contains held p) && not (contains held (p + 1)) && not (contains held (p + 2))

-- The `while p + 2 <= max` loop; the fuel is a bound on its rounds.
triple_loop : ℕ → ℕ → ℕ → List ℕ → Option ℕ
triple_loop zero p max held = none
triple_loop (suc fuel) p max held =
    let rest = triple_loop fuel (p + 3) max held in
    if leb (p + 2) max then if triple_free held p then some p else rest else none

-- The lowest 3-aligned port whose triple is free.
unfoldable pub free_port_triple : ℕ → ℕ → List ℕ → Option ℕ
unfolding triple_loop triple_free
free_port_triple base max held = triple_loop (suc max) (base + (3 - base % 3) % 3) max held

pub data PoolError : Type 0 where
  exhausted : PoolError

-- The allocation loop of `next_lightning_ports`, given the ports that are held.
unfoldable pub allocate : ℕ → ℕ → ℕ → List ℕ → Result PoolError (List ℕ)
unfolding free_port_triple
allocate zero base max held = ok []
allocate (suc triples) base max held = elim (free_port_triple base max held) [
  | none ↦ err exhausted
  | some p ↦ (do
    rest ← allocate triples base max (held ++ p ∷ (p + 1) ∷ (p + 2) ∷ [])
    ok (p ∷ rest))
]
