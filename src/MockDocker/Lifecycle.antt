-- ===== src/MockDocker/Lifecycle.antt =====
-- The life of a container as a state machine, and the operations of mock-docker/src/mutations.ts as its
-- steps. The machine is the specification of the operations. A phase is what the two flags say: the daemon
-- loads a paused container with Running false (mock-docker/src/generator.ts, init.ts), but an operation that
-- pauses one leaves Running true, so that there are two paused phases.
pub mod Tables
pub mod Steps
pub mod Refinement
pub mod Networks
use dockge.Prelude.{String, ◌≡◌, ◌≢◌, refl, Bool, true, false, Option, none, some}
use dockge.Prelude.Dict.{lookup, IsKeyed}
use dockge.MockDocker.Types.{ContainerState, ContainerInspect, MutationResult, ok, fail}
use dockge.MockDocker.World.{Env, World}
use dockge.MockDocker.Containers.{
  Outcome, container_start, container_stop, container_restart, container_pause, container_unpause,
}
use dockge.MockDocker.Disposal.{container_kill}

pub data Phase : Type 0 where
  halted running paused loaded_paused : Phase

abbrev pub is_running : Phase → Bool
is_running running = true
is_running paused = true
is_running _ = false

abbrev pub is_paused : Phase → Bool
is_paused paused = true
is_paused loaded_paused = true
is_paused _ = false

abbrev pub phase_of_flags : Bool → Bool → Phase
phase_of_flags false false = halted
phase_of_flags true false = running
phase_of_flags true true = paused
phase_of_flags false true = loaded_paused

-- Every state is in a phase, whatever its status.
abbrev pub phase_of : ContainerState → Phase
phase_of s = phase_of_flags s.running s.paused

pub record Represents (s : ContainerState) (p : Phase) : Type 0 where
  pub running : s.running ≡ is_running p
  pub paused : s.paused ≡ is_paused p

is_running-flags : (a b : Bool) → a ≡ is_running (phase_of_flags a b)
is_running-flags false false = refl
is_running-flags true false = refl
is_running-flags true true = refl
is_running-flags false true = refl

is_paused-flags : (a b : Bool) → b ≡ is_paused (phase_of_flags a b)
is_paused-flags false false = refl
is_paused-flags true false = refl
is_paused-flags true true = refl
is_paused-flags false true = refl

pub phase_of-Represents : (s : ContainerState) → Represents s (phase_of s)
phase_of-Represents s = record {
  running = is_running-flags s.running s.paused;
  paused = is_paused-flags s.running s.paused;
}

pub data Operation : Type 0 where
  start : Option Bool → Operation
  stop restart pause unpause : Operation
  kill : String → Operation

-- The phase and the status behind an operation, or `none` where it is refused.
abbrev pub step : Operation → Phase → Option (Phase × String)
step (start _) halted = some (running, "running")
step (start _) loaded_paused = some (running, "running")
step (start _) _ = none
step stop halted = none
step stop _ = some (halted, "exited")
step restart _ = some (running, "running")
step pause running = some (paused, "paused")
step pause _ = none
step unpause paused = some (running, "running")
step unpause loaded_paused = some (halted, "running")
step unpause _ = none
step (kill _) halted = none
step (kill _) _ = some (halted, "exited")

unfoldable pub perform : Env → Operation → String → World → Outcome Unit
perform env (start e2e_mode) id w = container_start env id e2e_mode w
perform env stop id w = container_stop env id w
perform env restart id w = container_restart env id w
perform env pause id w = container_pause id w
perform env unpause id w = container_unpause id w
perform env (kill signal) id w = container_kill env id signal w

abbrev pub IsFailure : {A : Type 0} → MutationResult A → Type 0
IsFailure (ok _) = ⊥
IsFailure (fail _ _) = Unit

-- The object under the key is in the phase, with the status; its identity and every other object stay, and keys stay
-- distinct.
pub record Moves (key : String) (c : ContainerInspect) (p : Phase × String) (w w' : World)
    : Type 0 where
  pub object : ContainerInspect
  pub held : lookup key w'.state.containers ≡ some object
  pub represents : Represents object.state p.0
  pub status : object.state.status ≡ p.1
  pub same_id : object.id ≡ c.id
  pub same_name : object.name ≡ c.name
  pub same_config : object.config ≡ c.config
  pub others : (j : String) → key ≢ j → lookup j w'.state.containers ≡ lookup j w.state.containers
  pub stays_keyed : IsKeyed w.state.containers → IsKeyed w'.state.containers

-- A refused operation fails and changes nothing at all.
abbrev pub Follows :
    Option (Phase × String) → String → ContainerInspect → World → Outcome Unit → Type 0
Follows none key c w (r, w') = IsFailure r × (w' ≡ w)
Follows (some p) key c w (r, w') = (r ≡ ok tt) × Moves key c p w w'
