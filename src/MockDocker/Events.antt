-- ===== src/MockDocker/Events.antt =====
-- mock-docker/src/events.ts. The listeners are called in the order of their subscription; what each
-- has received is recorded. `bind` ties the emitter to the one state of the daemon.
use dockge.Prelude.{
  ℕ, zero, suc, ◌+◌, ◌*◌, ◌/◌, ◌%◌, ◌^◌, String, Bool, true, false, List, [], ◌∷◌, ◌++◌, map, any,
  select, eqb, ltb, not, if◌then◌else◌,
}
use dockge.Prelude.Dict.{Dict}
use dockge.MockDocker.Types.{DockerEvent}
use dockge.MockDocker.State.{MockState}

pub record EventEmitter : Type 0 where
  pub listeners : List ℕ
  pub bound : Bool
  pub delivered : List (ℕ × DockerEvent)

unfoldable pub bind : EventEmitter → EventEmitter
bind e = record e { bound = true }

unfoldable pub subscribe : ℕ → EventEmitter → EventEmitter
subscribe l e =
    if any (eqb l) e.listeners then e else record e { listeners = e.listeners ++ l ∷ [] }

unfoldable pub unsubscribe : ℕ → EventEmitter → EventEmitter
unsubscribe l e = record e { listeners = select (λ k. not (eqb k l)) e.listeners }

record_event : Bool → DockerEvent → MockState → MockState
record_event true event s = record s { event_history = s.event_history ++ event ∷ [] }
record_event false event s = s

unfoldable pub emit : DockerEvent → EventEmitter → MockState → EventEmitter × MockState
unfolding record_event
emit event e s = (
  record e { delivered = e.delivered ++ map (λ l. (l, event)) e.listeners },
  record_event e.bound event s,
)

-- The gap between the numbers that a double represents near n; 1 below 2^53.
ulp : ℕ → ℕ → ℕ
ulp zero n = 1
ulp (suc fuel) n = let wider = 2 * ulp fuel (n / 2) in if ltb n (2 ^ 53) then 1 else wider

-- Rounds to a multiple of u, a tie to the even one.
round_to : ℕ → ℕ → ℕ
round_to u n =
    let below = n / u * u in
    if ltb (2 * (n % u)) u
    then below
    else if ltb u (2 * (n % u))
    then below + u
    else if eqb (n / u % 2) 0
    then below
    else below + u

-- The double that is nearest to the number n, for n < 2^117.
unfoldable pub to_double : ℕ → ℕ
unfolding ulp round_to
to_double n = round_to (ulp 64 n) n

-- `time` and `timeNano`; `epochMs * 1_000_000` is a product of doubles.
unfoldable pub make_event_at : ℕ → String → String → String → Dict String → DockerEvent
make_event_at epoch_ms kind action id attributes = record {
  kind = kind;
  action = action;
  actor_id = id;
  attributes = attributes;
  time = epoch_ms / 1000;
  time_nano = to_double (epoch_ms * 1000000);
}
