-- ===== src/MockDocker/Deterministic/Bounds.antt =====
-- mock-docker/src/deterministic.ts: the range of the numbers drawn from a seed.
use native.Mathlib.Nat.{mod-lt}
use dockge.Prelude.{ℕ, ◌+◌, ◌-◌, ◌≤◌, ◌<◌, ◌%◌, String, arith}
use dockge.MockDocker.Runtime.{Runtime}
use dockge.MockDocker.Deterministic.{deterministic_int, read_uint32_be}

-- The number drawn for a seed lies between the bounds, both included, when they are in order.
pub deterministic_int-bounds :
    (rt : Runtime) (seed : String) (min max : ℕ)
    → min ≤ max
    → (min ≤ deterministic_int rt seed min max) × (deterministic_int rt seed min max ≤ max)
unfolding deterministic_int
deterministic_int-bounds rt seed min max h =
    let inside : read_uint32_be (rt.sha256 seed) % (max - min + 1) < max - min + 1 =
      mod-lt (read_uint32_be (rt.sha256 seed)) (omega arith) in
    (omega arith, omega arith)
