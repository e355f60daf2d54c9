-- ===== src/MockDocker/Lifecycle/Refinement.antt =====
-- The restart, and all operations against the state machine.
use dockge.Prelude.{ℕ, String, ◌≡◌, refl, ◌∙◌, true, false, none, some, arith, eq_iff, ◌||◌}
use dockge.Prelude.Dict.{insert, lookup-insert, IsKeyed, IsKeyed-insert}
use dockge.MockDocker.Types.{ContainerInspect, ok, fail}
use dockge.MockDocker.World.{Env, World}
use dockge.MockDocker.World.Frame.{containers-publish}
use dockge.MockDocker.Membership.{resolve_container}
use dockge.MockDocker.Membership.Resolution.{resolve_container-insert}
use dockge.MockDocker.Containers.{
  Outcome, exited, stop_found, container_start, container_stop, container_restart, container_pause,
  container_unpause, restart_rest, announce_restart, after_stop,
}
use dockge.MockDocker.Disposal.{container_kill}
use dockge.MockDocker.Lifecycle.{
  Phase, halted, running, paused, loaded_paused, Represents, phase_of, phase_of-Represents,
  Operation, start, stop, restart, pause, unpause, kill, step, Moves, Follows, perform,
}
use dockge.MockDocker.Lifecycle.Tables.{clock_text, containers-stop_found}
use dockge.MockDocker.Lifecycle.Steps.{
  start_moves, start-Follows, stop_runs, stop-Follows, kill-Follows, pause-Follows, unpause-Follows,
}

announce_moves :
    (key : String) (c : ContainerInspect) (p : Phase × String) (w : World) (o : Outcome Unit)
    (found : String × ContainerInspect)
    → Follows (some p) key c w o
    → Follows (some p) key c w (announce_restart found o)
unfolding announce_restart
announce_moves key c p w (ok _, w') found (_, m) = (
  refl,
  record {
    object = m.object;
    held = rw containers-publish m.held;
    represents = m.represents;
    status = m.status;
    same_id = m.same_id;
    same_name = m.same_name;
    same_config = m.same_config;
    others = λ j apart. rw containers-publish (m.others j apart);
    stays_keyed = λ keyed. rw containers-publish (m.stays_keyed keyed);
  },
)
announce_moves key c p w (fail code message, w') found (e, _) = cc

after_stop-ok :
    (env : Env) (id : String) (found : String × ContainerInspect) (o : Outcome Unit)
    → o.0 ≡ ok tt
    → after_stop env id found o ≡ restart_rest env id found o.1
unfolding after_stop
after_stop-ok env id found (ok _, w) e = refl
after_stop-ok env id found (fail code message, w) e = cc

-- A move that begins where one entry was replaced is a move from before.
Moves-insert :
    (key : String) (c c' : ContainerInspect) (p : Phase × String) (w v w' : World)
    → v.state.containers ≡ insert key c' w.state.containers
    → (c'.id ≡ c.id) × (c'.name ≡ c.name) × (c'.config ≡ c.config)
    → Moves key c' p v w'
    → Moves key c p w w'
Moves-insert key c c' p w v w' e (i, n, g) m = record {
  object = m.object;
  held = m.held;
  represents = m.represents;
  status = m.status;
  same_id = m.same_id ∙ i;
  same_name = m.same_name ∙ n;
  same_config = m.same_config ∙ g;
  others = λ j apart. m.others j apart ∙ rw (e, lookup-insert) (ground (arith, eq_iff key j));
  stays_keyed = λ keyed. m.stays_keyed (rw e (IsKeyed-insert key c' w.state.containers keyed));
}

restart_rest_moves :
    (env : Env) (id key : String) (c : ContainerInspect) (w : World)
    (found : String × ContainerInspect)
    → resolve_container w.state id ≡ ok (key, c)
    → c.state.running ≡ false
    → Follows (some (running, "running")) key c w (restart_rest env id found w)
unfolding restart_rest
restart_rest_moves env id key c w found at idle =
    announce_moves key c (running, "running") w _ found (start_moves env id key c w at none idle)

module _ (env : Env) (id key : String) (c : ContainerInspect) (w : World)
    (at : resolve_container w.state id ≡ ok (key, c)) where
  -- The world behind the stop of a restart, and the container in it.
  abbrev stopped : World
  stopped = (stop_found env (key, c) w).1

  abbrev stopped_container : ContainerInspect
  stopped_container = exited (clock_text env w) 0 c

  resolve-stopped :
      IsKeyed w.state.containers → resolve_container stopped.state id ≡ ok (key, stopped_container)
  resolve-stopped keyed =
      resolve_container-insert w.state id key c at stopped.state stopped_container keyed
        (containers-stop_found env key c w) (unfold exited in refl) (unfold exited in refl)

  module _ (keyed : IsKeyed w.state.containers) where
    restart_stopped :
        Follows
          (some (running, "running"))
          key
          stopped_container
          stopped
          (restart_rest env id (key, c) stopped)
    restart_stopped =
        restart_rest_moves env id key stopped_container stopped (key, c) (resolve-stopped keyed)
          (unfold exited in refl)

    restart_moves :
        Follows
          (some (running, "running"))
          key
          c
          w
          (after_stop env id (key, c) (stop_found env (key, c) w))
    restart_moves =
        rw (after_stop-ok env id (key, c) (stop_found env (key, c) w) (unfold stop_found in refl)) (
          restart_stopped.0,
          Moves-insert key c stopped_container (running, "running") w stopped _
              (containers-stop_found env key c w) (unfold exited in (refl, refl, refl))
              restart_stopped.1,
        )

    restart_idle :
        c.state.running ≡ false
        → c.state.paused ≡ false
        → Follows (some (running, "running")) key c w (container_restart env id w)
    restart_idle idle awake =
        let runs : container_restart env id w ≡ restart_rest env id (key, c) w =
          unfold container_restart in rw at (ground arith) in
        rw runs (restart_rest_moves env id key c w (key, c) at idle)

    restart_busy :
        c.state.running || c.state.paused ≡ true
        → Follows (some (running, "running")) key c w (container_restart env id w)
    restart_busy busy =
        let runs : container_restart env id w
            ≡ after_stop env id (key, c) (container_stop env id w) =
          unfold container_restart in rw at (ground arith) in
        rw (runs, stop_runs env id key c w at busy) restart_moves

    restart-Follows :
        (p : Phase)
        → Represents c.state p
        → Follows (step restart p) key c w (container_restart env id w)
    restart-Follows halted r = restart_idle r.running r.paused
    restart-Follows running r = restart_busy (ground arith)
    restart-Follows paused r = restart_busy (ground arith)
    restart-Follows loaded_paused r = restart_busy (ground arith)

perform-step :
    (env : Env) (op : Operation) (id key : String) (c : ContainerInspect) (w : World) (p : Phase)
    → IsKeyed w.state.containers
    → resolve_container w.state id ≡ ok (key, c)
    → Represents c.state p
    → Follows (step op p) key c w (perform env op id w)
unfolding perform
perform-step env (start e2e_mode) id key c w p keyed at r =
    start-Follows env id key c w at e2e_mode p r
perform-step env stop id key c w p keyed at r = stop-Follows env id key c w at p r
perform-step env restart id key c w p keyed at r = restart-Follows env id key c w at keyed p r
perform-step env pause id key c w p keyed at r = pause-Follows env id key c w at p r
perform-step env unpause id key c w p keyed at r = unpause-Follows env id key c w at p r
perform-step env (kill signal) id key c w p keyed at r = kill-Follows env id key c w at signal p r

pub perform-Follows :
    (env : Env) (op : Operation) (id key : String) (c : ContainerInspect) (w : World)
    → IsKeyed w.state.containers
    → resolve_container w.state id ≡ ok (key, c)
    → Follows (step op (phase_of c.state)) key c w (perform env op id w)
perform-Follows env op id key c w keyed at =
    perform-step env op id key c w (phase_of c.state) keyed at (phase_of-Represents c.state)

-- A query that resolves to nothing fails with the error of the resolution, whatever the operation,
-- and the world is as before.
pub perform_unresolved :
    (env : Env) (op : Operation) (id : String) (w : World) (code : ℕ) (message : String)
    → resolve_container w.state id ≡ fail code message
    → perform env op id w ≡ (fail code message, w)
unfolding perform container_start container_stop container_restart container_pause container_unpause
    container_kill
perform_unresolved env (start e2e_mode) id w code message at = rw at
perform_unresolved env stop id w code message at = rw at
perform_unresolved env restart id w code message at = rw at
perform_unresolved env pause id w code message at = rw at
perform_unresolved env unpause id w code message at = rw at
perform_unresolved env (kill signal) id w code message at = rw at
