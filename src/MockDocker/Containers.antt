-- ===== src/MockDocker/Containers.antt =====
-- The operations of mock-docker/src/mutations.ts on the life of a container. Each resolves its
-- container first; the function named `…_found` is what it does with the one that it found.
use Prim.Native.String.{◌++◌ as append}
use dockge.Prelude.{
  ◌≡◌, refl, ◌⊎◌, inl, inr, ℕ, String, Bool, true, false, Option, none, some, List, [], ◌∷◌, ◌&&◌,
  ◌||◌, not, if◌then◌else◌, eqb,
}
use dockge.Prelude.Dict.{insert}
use dockge.MockDocker.Types.{ContainerInspect, HealthState, MutationResult, ok, fail}
use dockge.MockDocker.State.{set_interval}
use dockge.MockDocker.Deterministic.{deterministic_int}
use dockge.MockDocker.World.{
  Env, World, read_clock, publish, append_lines, put_container, current, clear_heartbeat,
  container_attrs,
}
use dockge.MockDocker.Membership.{
  resolve_container, add_container_to_networks, remove_container_from_networks,
}

abbrev pub zero_time : String
zero_time = "0001-01-01T00:00:00Z"

-- The result of an operation beside the world that it leaves.
abbrev pub Outcome : Type 0 → Type 0
Outcome A = MutationResult A × World

-- The object under the key that was resolved, or the error of the resolution.
abbrev pub with_found : {A B : Type 0} → MutationResult A → World → (A → Outcome B) → Outcome B
with_found (ok a) w body = body a
with_found (fail code message) w body = (fail code message, w)

pub MutationResult-cases :
    {A : Type 0} (r : MutationResult A)
    → ((a : A) × (r ≡ ok a)) ⊎ ((code : ℕ) × (message : String) × (r ≡ fail code message))
MutationResult-cases (ok a) = inl (a, refl)
MutationResult-cases (fail code message) = inr (code, message, refl)

unfoldable pub has_test : Option (List String) → Bool
has_test (some (t ∷ test)) = true
has_test _ = false

unfoldable pub health_at_start : ContainerInspect → Bool → Option HealthState
unfolding has_test
health_at_start c e2e =
    if has_test c.config.healthcheck_test
    then some
        (record { status = if e2e then "healthy" else "starting"; failing_streak = 0; log = [] })
    else none

-- opts?.e2eMode ?? true
unfoldable pub e2e_or_true : Option Bool → Bool
e2e_or_true none = true
e2e_or_true (some e2e) = e2e

unfoldable pub started : Env → Bool → String → ContainerInspect → ContainerInspect
unfolding health_at_start
started env e2e now c = record c {
  state = record c.state {
    status = "running";
    running = true;
    paused = false;
    pid = deterministic_int env.runtime (append c.id now) 1000 65535;
    started_at = now;
    finished_at = zero_time;
    exit_code = 0;
    error = "";
    health = health_at_start c e2e;
  };
}

-- A timer for the heartbeat, kept under the container's id.
unfoldable pub start_heartbeat : String → World → World
start_heartbeat id w =
    let (handle, timers) = set_interval w.timers in
    record w {
      state = record w.state { heartbeat_intervals = insert id handle w.state.heartbeat_intervals };
      timers = timers;
    }

unfoldable pub start_found : Env → Bool → String × ContainerInspect → World → Outcome Unit
unfolding started start_heartbeat
start_found env e2e (key, c) w =
    let (t, w₁) = read_clock w in
    let c' = started env e2e (env.runtime.to_iso t) c in
    let w₂ = put_container key c' w₁ in
    let w₃ = record w₂ { state = add_container_to_networks c' w₂.state } in
    let w₄ = publish "container" "start" c'.id (container_attrs c') w₃ in
    let lines =
      env.logs.startup c' (env.runtime.from_iso c'.state.started_at) w₄.state.log_templates in
    let w₅ = append_lines c'.id lines w₄ in (ok tt, if e2e then w₅ else start_heartbeat c'.id w₅)

unfoldable pub container_start : Env → String → Option Bool → World → Outcome Unit
unfolding e2e_or_true
container_start env id e2e_mode w = with_found (resolve_container w.state id) w λ found.
    if found.1.state.running
    then (fail 304 "container already started", w)
    else start_found env (e2e_or_true e2e_mode) found w

-- What `containerStop` and `containerKill` write to the state of a container.
unfoldable pub exited : String → ℕ → ContainerInspect → ContainerInspect
exited now exit_code c = record c {
  state = record c.state {
    status = "exited";
    running = false;
    paused = false;
    pid = 0;
    finished_at = now;
    exit_code = exit_code;
    health = none;
  };
}

unfoldable pub stop_found : Env → String × ContainerInspect → World → Outcome Unit
unfolding exited
stop_found env (key, c) w =
    let (t, w₁) = read_clock w in
    let attrs = container_attrs c in
    let c' = exited (env.runtime.to_iso t) 0 c in
    let w₂ = put_container key c' w₁ in
    let w₃ = record w₂ { state = remove_container_from_networks c' w₂.state } in
    let (lines, clock) = env.logs.shutdown c' w₃.clock w₃.state.log_templates in
    let w₄ = append_lines c'.id lines (record w₃ { clock = clock }) in
    let w₅ = clear_heartbeat c'.id w₄ in
    let w₆ = publish "container" "kill" c'.id (insert "signal" "SIGTERM" attrs) w₅ in
    let w₇ = publish "container" "die" c'.id (insert "exitCode" "0" attrs) w₆ in
    (ok tt, publish "container" "stop" c'.id attrs w₇)

unfoldable pub container_stop : Env → String → World → Outcome Unit
container_stop env id w = with_found (resolve_container w.state id) w λ found.
    if not found.1.state.running && not found.1.state.paused
    then (fail 304 "container already stopped", w)
    else stop_found env found w

-- The event behind a start that succeeded.
unfoldable pub announce_restart : String × ContainerInspect → Outcome Unit → Outcome Unit
announce_restart (key, c) (fail code message, w) = (fail code message, w)
announce_restart (key, c) (ok _, w) =
    (ok tt, publish "container" "restart" c.id (container_attrs (current key c w)) w)

unfoldable pub restart_rest : Env → String → String × ContainerInspect → World → Outcome Unit
unfolding announce_restart
restart_rest env id found w = announce_restart found (container_start env id none w)

-- After the stop, if there was one: only an error other than 304 ends the restart.
unfoldable pub after_stop : Env → String → String × ContainerInspect → Outcome Unit → Outcome Unit
after_stop env id found (ok _, w) = restart_rest env id found w
after_stop env id found (fail code message, w) =
    if eqb code 304 then restart_rest env id found w else (fail code message, w)

unfoldable pub container_restart : Env → String → World → Outcome Unit
container_restart env id w = with_found (resolve_container w.state id) w λ found.
    if found.1.state.running || found.1.state.paused
    then after_stop env id found (container_stop env id w)
    else restart_rest env id found w

abbrev pub set_state : ContainerInspect → String → Bool → ContainerInspect
set_state c status paused = record c { state = record c.state { status = status; paused = paused } }

-- The change of status and its event, of `containerPause` and `containerUnpause`.
unfoldable pub set_paused :
    Bool → String → String → String × ContainerInspect → World → Outcome Unit
set_paused paused status action (key, c) w =
    let c' = set_state c status paused in
    (ok tt, publish "container" action c'.id (container_attrs c') (put_container key c' w))

unfoldable pub container_pause : String → World → Outcome Unit
container_pause id w = with_found (resolve_container w.state id) w λ found.
    if not found.1.state.running
    then (fail 409 "container is not running", w)
    else if found.1.state.paused
    then (fail 409 "container is already paused", w)
    else set_paused true "paused" "pause" found w

unfoldable pub container_unpause : String → World → Outcome Unit
container_unpause id w = with_found (resolve_container w.state id) w λ found.
    if not found.1.state.paused
    then (fail 409 "container is not paused", w)
    else set_paused false "running" "unpause" found w
