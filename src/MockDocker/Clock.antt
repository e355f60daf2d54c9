-- ===== src/MockDocker/Clock.antt =====
-- mock-docker/src/clock.ts. A `Date` is its milliseconds since the epoch, not before 1970.
use dockge.Prelude.{ℕ, ◌+◌, ◌*◌}

pub record FixedClock : Type 0 where
  pub base : ℕ
  pub tick : ℕ

abbrev pub tick_ms : ℕ
tick_ms = 1

-- The time, and the clock behind it: each reading is a tick later than the one before.
unfoldable pub now : FixedClock → ℕ × FixedClock
now c = (c.base + c.tick * tick_ms, record c { tick = c.tick + 1 })

unfoldable pub advance : ℕ → FixedClock → FixedClock
advance ms c = record c { base = c.base + ms }

unfoldable pub reset_tick : FixedClock → FixedClock
reset_tick c = record c { tick = 0 }
