-- ===== src/MockDocker/Lifecycle/Steps.antt =====
-- Each operation on a container that is resolved, against the state machine.
use dockge.Prelude.{
  String, ◌≡◌, refl, Bool, true, false, Option, some, arith, eq_iff, eq_refl, ◌||◌,
}
use dockge.Prelude.Dict.{insert, lookup-insert, IsKeyed-insert}
use dockge.MockDocker.Types.{ContainerInspect, ok}
use dockge.MockDocker.World.{Env, World}
use dockge.MockDocker.Membership.{resolve_container}
use dockge.MockDocker.Containers.{
  e2e_or_true, started, exited, start_found, stop_found, set_paused, container_start,
  container_stop, set_state, container_pause, container_unpause,
}
use dockge.MockDocker.Disposal.{kill_code, kill_found, container_kill}
use dockge.MockDocker.Lifecycle.{
  Phase, halted, running, paused, loaded_paused, Represents, start, stop, pause, unpause, kill,
  step, Moves, Follows,
}
use dockge.MockDocker.Lifecycle.Tables.{
  clock_text, containers-start_found, containers-stop_found, containers-kill_found,
  containers-set_paused,
}

-- The entry of one key is replaced by an object of the same identity.
pub Moves-of_insert :
    (key : String) (c c' : ContainerInspect) (p : Phase × String) (w w' : World)
    → w'.state.containers ≡ insert key c' w.state.containers
    → Represents c'.state p.0
    → c'.state.status ≡ p.1
    → (c'.id ≡ c.id) × (c'.name ≡ c.name) × (c'.config ≡ c.config)
    → Moves key c p w w'
Moves-of_insert key c c' p w w' e r now same = record {
  object = c';
  held = rw (e, lookup-insert, eq_refl);
  represents = r;
  status = now;
  same_id = same.0;
  same_name = same.1;
  same_config = same.2;
  others = λ j apart. rw (e, lookup-insert) (ground (arith, eq_iff key j));
  stays_keyed = λ keyed. rw e (IsKeyed-insert key c' w.state.containers keyed);
}

module _ (env : Env) (id key : String) (c : ContainerInspect) (w : World)
    (at : resolve_container w.state id ≡ ok (key, c)) where
  start_runs :
      (e2e_mode : Option Bool)
      → c.state.running ≡ false
      → container_start env id e2e_mode w ≡ start_found env (e2e_or_true e2e_mode) (key, c) w
  unfolding container_start
  start_runs e2e_mode idle = rw at (ground arith)

  -- The step of the object that is found, for the operations that go on.
  start_found_moves :
      (e2e : Bool) → Follows (some (running, "running")) key c w (start_found env e2e (key, c) w)
  start_found_moves e2e = (
    unfold start_found in refl,
    Moves-of_insert key c (started env e2e (clock_text env w) c) (running, "running") w _
        (containers-start_found env e2e key c w)
        (unfold started in record { running = refl; paused = refl }) (unfold started in refl)
        (unfold started in (refl, refl, refl)),
  )

  stop_found_moves : Follows (some (halted, "exited")) key c w (stop_found env (key, c) w)
  stop_found_moves = (
    unfold stop_found in refl,
    Moves-of_insert key c (exited (clock_text env w) 0 c) (halted, "exited") w _
        (containers-stop_found env key c w)
        (unfold exited in record { running = refl; paused = refl }) (unfold exited in refl)
        (unfold exited in (refl, refl, refl)),
  )

  kill_found_moves :
      (signal : String)
      → Follows (some (halted, "exited")) key c w (kill_found env signal (key, c) w)
  kill_found_moves signal = (
    unfold kill_found in refl,
    Moves-of_insert key c (exited (clock_text env w) (kill_code (env.runtime.to_upper signal)) c)
        (halted, "exited") w _ (containers-kill_found env key c w signal)
        (unfold exited in record { running = refl; paused = refl }) (unfold exited in refl)
        (unfold exited in (refl, refl, refl)),
  )

  set_paused_moves :
      (p : Phase) (status action : String) (b : Bool)
      → Represents (set_state c status b).state p
      → Follows (some (p, status)) key c w (set_paused b status action (key, c) w)
  set_paused_moves p status action b r = (
    unfold set_paused in refl,
    Moves-of_insert key c (set_state c status b) (p, status) w _
        (containers-set_paused b status action key c w) r refl (refl, refl, refl),
  )

  pub start_moves :
      (e2e_mode : Option Bool)
      → c.state.running ≡ false
      → Follows (some (running, "running")) key c w (container_start env id e2e_mode w)
  start_moves e2e_mode idle =
      rw (start_runs e2e_mode idle) (start_found_moves (e2e_or_true e2e_mode))

  pub start-Follows :
      (e2e_mode : Option Bool) (p : Phase)
      → Represents c.state p
      → Follows (step (start e2e_mode) p) key c w (container_start env id e2e_mode w)
  unfolding container_start
  start-Follows e2e_mode halted r = start_moves e2e_mode r.running
  start-Follows e2e_mode running r = rw at (ground arith)
  start-Follows e2e_mode paused r = rw at (ground arith)
  start-Follows e2e_mode loaded_paused r = start_moves e2e_mode r.running

  pub stop_runs :
      c.state.running || c.state.paused ≡ true → container_stop env id w ≡ stop_found env (key, c) w
  unfolding container_stop
  stop_runs busy = rw at (ground arith)

  pub stop-Follows :
      (p : Phase) → Represents c.state p → Follows (step stop p) key c w (container_stop env id w)
  unfolding container_stop
  stop-Follows halted r = rw at (ground arith)
  stop-Follows running r = rw (stop_runs (ground arith)) stop_found_moves
  stop-Follows paused r = rw (stop_runs (ground arith)) stop_found_moves
  stop-Follows loaded_paused r = rw (stop_runs (ground arith)) stop_found_moves

  kill_runs :
      (signal : String)
      → c.state.running || c.state.paused ≡ true
      → container_kill env id signal w ≡ kill_found env signal (key, c) w
  unfolding container_kill
  kill_runs signal busy = rw at (ground arith)

  pub kill-Follows :
      (signal : String) (p : Phase)
      → Represents c.state p
      → Follows (step (kill signal) p) key c w (container_kill env id signal w)
  unfolding container_kill
  kill-Follows signal halted r = rw at (ground arith)
  kill-Follows signal running r = rw (kill_runs signal (ground arith)) (kill_found_moves signal)
  kill-Follows signal paused r = rw (kill_runs signal (ground arith)) (kill_found_moves signal)
  kill-Follows signal loaded_paused r =
      rw (kill_runs signal (ground arith)) (kill_found_moves signal)

  pause_runs :
      c.state.running ≡ true
      → c.state.paused ≡ false
      → container_pause id w ≡ set_paused true "paused" "pause" (key, c) w
  unfolding container_pause
  pause_runs busy awake = rw at (ground arith)

  pub pause-Follows :
      (p : Phase) → Represents c.state p → Follows (step pause p) key c w (container_pause id w)
  unfolding container_pause
  pause-Follows halted r = rw at (ground arith)
  pause-Follows running r = rw (pause_runs r.running r.paused) (
      set_paused_moves paused "paused" "pause" true (record { running = r.running; paused = refl }))
  pause-Follows paused r = rw at (ground arith)
  pause-Follows loaded_paused r = rw at (ground arith)

  unpause_runs :
      c.state.paused ≡ true
      → container_unpause id w ≡ set_paused false "running" "unpause" (key, c) w
  unfolding container_unpause
  unpause_runs asleep = rw at (ground arith)

  pub unpause-Follows :
      (p : Phase) → Represents c.state p → Follows (step unpause p) key c w (container_unpause id w)
  unfolding container_unpause
  unpause-Follows halted r = rw at (ground arith)
  unpause-Follows running r = rw at (ground arith)
  unpause-Follows paused r = rw (unpause_runs r.paused) (
      set_paused_moves running "running" "unpause" false
        (record { running = r.running; paused = refl }))
  unpause-Follows loaded_paused r = rw (unpause_runs r.paused) (
      set_paused_moves halted "running" "unpause" false
        (record { running = r.running; paused = refl }))
