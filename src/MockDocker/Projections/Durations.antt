-- ===== src/MockDocker/Projections/Durations.antt =====
-- mock-docker/src/projections.ts: `formatDuration`.
use dockge.Prelude.{
  ℕ, ◌+◌, ◌*◌, ◌/◌, ◌≤◌, ◌<◌, ◌≡◌, refl, inl, inr, String, false, ltb, arith, Bool-cases,
}
use dockge.MockDocker.Projections.{count_text, format_duration}

-- A unit of time, its length in seconds, and how many make up the next one, if there is one.
pub data TimeUnit : Type 0 where
  second minute hour day : TimeUnit

abbrev pub unit_text : TimeUnit → String
unit_text second = "second"
unit_text minute = "minute"
unit_text hour = "hour"
unit_text day = "day"

abbrev pub seconds_of : TimeUnit → ℕ
seconds_of second = 1
seconds_of minute = 60
seconds_of hour = 3600
seconds_of day = 86400

-- n units fit, and no more, and the next larger unit does not fit.
abbrev pub LargestFit : ℕ → TimeUnit → ℕ → Type 0
LargestFit s second n = (n ≡ s) × (s < 60)
LargestFit s minute n = (n * 60 ≤ s) × (s < (n + 1) * 60) × (60 ≤ s) × (s < 3600)
LargestFit s hour n = (n * 3600 ≤ s) × (s < (n + 1) * 3600) × (3600 ≤ s) × (s < 86400)
LargestFit s day n = (n * 86400 ≤ s) × (s < (n + 1) * 86400) × (86400 ≤ s)

-- A duration of a second at least is shown as a count of one unit, which is one at least: that many of
-- the unit fit in its whole seconds, one more does not, and not one of the next larger unit fits.
pub format_duration-LargestFit :
    (ms : ℕ)
    → 1000 ≤ ms
    → (unit : TimeUnit) × (n : ℕ) × (format_duration ms ≡ count_text n (unit_text unit))
      × (1 ≤ n)
      × LargestFit (ms / 1000) unit n
unfolding format_duration
format_duration-LargestFit ms h =
    let seconds = ms / 1000 in
    let minutes = seconds / 60 in
    let hours = minutes / 60 in
    let long : ltb seconds 1 ≡ false = ground arith in
    elim (Bool-cases (ltb seconds 60)) [
      | inl short ↦
          (second, seconds, rw (long, short) refl, ground arith, (ground arith, ground arith))
      | inr e₁ ↦ elim (Bool-cases (ltb minutes 60)) [
        | inl short ↦ (
          minute,
          minutes,
          rw (long, e₁, short) refl,
          ground arith,
          (ground arith, ground arith, ground arith, ground arith),
        )
        | inr e₂ ↦ elim (Bool-cases (ltb hours 24)) [
          | inl short ↦ (
            hour,
            hours,
            rw (long, e₁, e₂, short) refl,
            ground arith,
            (ground arith, ground arith, ground arith, ground arith),
          )
          | inr e₃ ↦ (
            day,
            hours / 24,
            rw (long, e₁, e₂, e₃) refl,
            ground arith,
            (ground arith, ground arith, ground arith),
          )
        ]
      ]
    ]
