-- ===== src/MockDocker/Initial.antt =====
-- mock-docker/src/generator.ts and init.ts: the state of a container that the daemon loads. A paused one does
-- not count as running.
use Prim.Native.String.{◌++◌ as append}
use dockge.Prelude.{ℕ, String, refl, Option, ◌==◌, ◌||◌, eq_iff, false, if◌then◌else◌}
use dockge.MockDocker.Types.{ContainerState, HealthState}
use dockge.MockDocker.Runtime.{Runtime}
use dockge.MockDocker.Deterministic.{deterministic_int}
use dockge.MockDocker.Containers.{zero_time}
use dockge.MockDocker.Script.Consistency.{FlagsAgree}

-- `timestamp` is deterministicTimestamp for the base time, and `health` what resolveHealth gives.
unfoldable pub build_container_state :
    Runtime → (String → String) → Option HealthState → String → ℕ → String → ContainerState
build_container_state rt timestamp health status code seed =
    let runs = status == "running" in
    let pauses = status == "paused" in
    record {
      status = status;
      running = runs;
      paused = pauses;
      restarting = false;
      oom_killed = false;
      dead = false;
      pid = if runs || pauses then deterministic_int rt (append seed "pid") 1000 65535 else 0;
      exit_code = code;
      error = "";
      started_at = timestamp (append seed "started");
      finished_at = if runs || pauses then zero_time else timestamp (append seed "finished");
      health = health;
    }

-- The flags of a state that is loaded agree with its status, whatever it is.
pub build_container_state-FlagsAgree :
    (rt : Runtime) (timestamp : String → String) (health : Option HealthState) (status : String)
    (code : ℕ) (seed : String)
    → FlagsAgree (build_container_state rt timestamp health status code seed)
unfolding build_container_state
build_container_state-FlagsAgree rt timestamp health status code seed =
    (refl, λ runs. rw ((eq_iff status "running").0 runs) refl)
