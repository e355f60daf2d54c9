-- ===== src/MockDocker/Lifecycle/Tables.antt =====
-- The table of containers behind each step: the one entry is replaced.
use dockge.Prelude.{String, ◌≡◌, Bool, true, false}
use dockge.Prelude.Dict.{insert}
use dockge.MockDocker.Types.{ContainerInspect}
use dockge.MockDocker.World.{Env, World, read_clock}
use dockge.MockDocker.World.Frame.{containers_frame}
use dockge.MockDocker.Membership.{add_container_to_networks, remove_container_from_networks}
use dockge.MockDocker.Containers.{
  started, start_found, start_heartbeat, exited, stop_found, set_state, set_paused,
}
use dockge.MockDocker.Disposal.{kill_code, kill_found}

-- The time that a world's clock shows next, as a text.
abbrev pub clock_text : Env → World → String
clock_text env w = env.runtime.to_iso (read_clock w).0

pub containers-start_found :
    (env : Env) (e2e : Bool) (key : String) (c : ContainerInspect) (w : World)
    → (start_found env e2e (key, c) w).1.state.containers
      ≡ insert key (started env e2e (clock_text env w) c) w.state.containers
unfolding start_found start_heartbeat add_container_to_networks read_clock
containers-start_found env true key c w = simp containers_frame
containers-start_found env false key c w = simp containers_frame

module _ (env : Env) (key : String) (c : ContainerInspect) (w : World) where
  pub containers-stop_found :
      (stop_found env (key, c) w).1.state.containers
      ≡ insert key (exited (clock_text env w) 0 c) w.state.containers
  unfolding stop_found remove_container_from_networks read_clock
  containers-stop_found = simp containers_frame

  pub containers-kill_found :
      (signal : String)
      → (kill_found env signal (key, c) w).1.state.containers
        ≡ insert key
            (exited (clock_text env w) (kill_code (env.runtime.to_upper signal)) c)
            w.state.containers
  unfolding kill_found remove_container_from_networks read_clock
  containers-kill_found signal = simp containers_frame

pub containers-set_paused :
    (paused : Bool) (status action key : String) (c : ContainerInspect) (w : World)
    → (set_paused paused status action (key, c) w).1.state.containers
      ≡ insert key (set_state c status paused) w.state.containers
unfolding set_paused
containers-set_paused paused status action key c w = simp containers_frame
