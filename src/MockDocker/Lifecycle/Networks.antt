-- ===== src/MockDocker/Lifecycle/Networks.antt =====
-- mock-docker/src/mutations.ts: what `containerStart`, `containerStop` and `containerKill` do to the
-- networks' tables of containers.
use dockge.Prelude.{String, ◌≡◌, Bool, true, false, Option, arith, not, ◌&&◌, ◌||◌, if◌then◌else◌}
use dockge.Prelude.Dict.{lookup}
use dockge.MockDocker.Types.{ContainerInspect, ok}
use dockge.MockDocker.World.{Env, World, read_clock}
use dockge.MockDocker.World.Frame.{networks_frame}
use dockge.MockDocker.Membership.{
  resolve_container, endpoints_of, add_container_to_networks, remove_container_from_networks,
}
use dockge.MockDocker.Membership.Attachment.{
  lists, keeps_members, is_connected, lists-add, lists-remove,
}
use dockge.MockDocker.Containers.{
  container_start, container_stop, start_found, start_heartbeat, stop_found, started, exited,
  e2e_or_true,
}
use dockge.MockDocker.Disposal.{container_kill, kill_found, kill_code}
use dockge.MockDocker.Lifecycle.Tables.{clock_text}

module _ (env : Env) (key : String) (c : ContainerInspect) (w : World) where
  networks-start_found :
      (e2e : Bool)
      → (start_found env e2e (key, c) w).1.state.networks
        ≡ (add_container_to_networks (started env e2e (clock_text env w) c) w.state).networks
  unfolding start_found start_heartbeat add_container_to_networks read_clock
  networks-start_found true = simp networks_frame
  networks-start_found false = simp networks_frame

  networks-stop_found :
      (stop_found env (key, c) w).1.state.networks
      ≡ (remove_container_from_networks (exited (clock_text env w) 0 c) w.state).networks
  unfolding stop_found remove_container_from_networks read_clock
  networks-stop_found = simp networks_frame

  networks-kill_found :
      (signal : String)
      → (kill_found env signal (key, c) w).1.state.networks
        ≡ (remove_container_from_networks
            (exited (clock_text env w) (kill_code (env.runtime.to_upper signal)) c)
            w.state).networks
  unfolding kill_found remove_container_from_networks read_clock
  networks-kill_found signal = simp networks_frame

module _ (env : Env) (id key net : String) (c : ContainerInspect) (w : World)
    (at : resolve_container w.state id ≡ ok (key, c)) where
  -- Starting a container that does not run enters it in each network to which it has an endpoint, where
  -- that network is there and keeps a table of containers; every other network lists it as before.
  pub container_start-lists :
      (e2e_mode : Option Bool)
      → c.state.running ≡ false
      → lists c.id (lookup net (container_start env id e2e_mode w).1.state.networks) ≡ (
          if is_connected net (endpoints_of c)
          then keeps_members (lookup net w.state.networks)
          else lists c.id (lookup net w.state.networks))
  unfolding container_start started
  container_start-lists e2e_mode idle =
      let e2e = e2e_or_true e2e_mode in
      let found : container_start env id e2e_mode w ≡ start_found env e2e (key, c) w =
        simp (at, idle) in
      rw (found, networks-start_found env key c w e2e)
        (lists-add (started env e2e (clock_text env w) c) w.state net)

  -- Stopping a container that runs or is paused takes it out of the table of each network to which it has an
  -- endpoint; every other network lists it as before.
  pub container_stop-lists :
      (c.state.running || c.state.paused) ≡ true
      → lists c.id (lookup net (container_stop env id w).1.state.networks)
        ≡ not (is_connected net (endpoints_of c)) && lists c.id (lookup net w.state.networks)
  unfolding container_stop exited
  container_stop-lists busy =
      let guard : (not c.state.running && not c.state.paused) ≡ false = ground arith in
      let found : container_stop env id w ≡ stop_found env (key, c) w = simp (at, guard) in
      rw (found, networks-stop_found env key c w)
        (lists-remove (exited (clock_text env w) 0 c) w.state net)

  -- Killing a container that runs or is paused takes it out of the table of each network to which it has an
  -- endpoint; every other network lists it as before.
  pub container_kill-lists :
      (signal : String)
      → (c.state.running || c.state.paused) ≡ true
      → lists c.id (lookup net (container_kill env id signal w).1.state.networks)
        ≡ not (is_connected net (endpoints_of c)) && lists c.id (lookup net w.state.networks)
  unfolding container_kill exited
  container_kill-lists signal busy =
      let guard : (not c.state.running && not c.state.paused) ≡ false = ground arith in
      let found : container_kill env id signal w ≡ kill_found env signal (key, c) w =
        simp (at, guard) in
      rw (found, networks-kill_found env key c w signal)
        (lists-remove (exited (clock_text env w) (kill_code (env.runtime.to_upper signal)) c)
          w.state net)
