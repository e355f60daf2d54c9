-- ===== src/MockDocker/Api/Exec/Sessions.antt =====
-- mock-docker/src/api/exec.ts: what a command that is no shell leaves behind.
use dockge.Prelude.{
  String, false, some, List, [], ◌∷◌, ◌++◌, ◌≡◌, ◌≢◌, refl, arith, eq_refl, eq_iff, All, ap, ◌∙◌,
  join,
}
use dockge.Prelude.Dict.{lookup, lookup-insert}
use dockge.MockDocker.Types.{ContainerInspect, ExecInspect}
use dockge.MockDocker.Runtime.{Runtime}
use dockge.MockDocker.World.{World, put_container}
use dockge.MockDocker.Shell.{create_shell_session, process_command}
use dockge.MockDocker.Api.Exec.{
  run_one_shot, finish_one_shot, begin_exec, finish_exec, cleanup_exec, drop_exec_id, put_exec,
  drop_first, command_of,
}

-- The first place of a name is the one that is dropped.
pub drop_first-append :
    (s : String) (front back : List String)
    → All (λ t. t ≢ s) front
    → drop_first s (front ++ s ∷ back) ≡ front ++ back
unfolding drop_first
drop_first-append s [] back h = ground (arith, eq_refl s)
drop_first-append s (t ∷ front) back (apart, h) =
    ground (arith, drop_first-append s front back h, eq_iff t s)

drop_exec_id-listed :
    (exec_id key : String) (c : ContainerInspect) (ids : List String) (w : World)
    → c.exec_ids ≡ some ids
    → drop_exec_id exec_id key (some c) w
      ≡ put_container key (record c { exec_ids = some (drop_first exec_id ids) }) w
unfolding drop_exec_id
drop_exec_id-listed exec_id key c ids w listed = simp listed

finish_exec-finished :
    (key : String) (exec : ExecInspect) (c : ContainerInspect) (front back : List String)
    (v : World)
    → lookup exec.container_id v.state.containers ≡ some c
    → c.exec_ids ≡ some (front ++ exec.id ∷ back)
    → All (λ t. t ≢ exec.id) front
    → (lookup key (finish_exec key exec v).state.exec_sessions
        ≡ some (record exec { running = false; exit_code = 0; pid = 0 }))
      × (lookup exec.container_id (finish_exec key exec v).state.containers
          ≡ some (record c { exec_ids = some (front ++ back) }))
unfolding finish_exec cleanup_exec
finish_exec-finished key exec c front back v there listed fresh =
    let done = record exec { running = false; exit_code = 0; pid = 0 } in
    let c' = record c { exec_ids = some (front ++ back) } in
    let v' = put_exec key done v in
    let left : finish_exec key exec v ≡ put_container exec.container_id c' v' =
      rw
        (
          there,
          drop_exec_id-listed exec.id exec.container_id c (front ++ exec.id ∷ back) v' listed,
          drop_first-append exec.id front back fresh,
        )
        refl in
    (
      ap (λ (u : World). lookup key u.state.exec_sessions) left
          ∙ rw (lookup-insert key key done v.state.exec_sessions, eq_refl key) refl,
      ap (λ (u : World). lookup exec.container_id u.state.containers) left
          ∙ rw
              (
                lookup-insert exec.container_id exec.container_id c' v.state.containers,
                eq_refl exec.container_id,
              )
              refl,
    )

-- A command that runs at once, of a session that the list of its container holds, wherever it stands:
-- afterwards the session is there as one that does not run, with exit code 0 and no process, and the
-- container is as it was before but for the list, which has lost the session's first place and keeps
-- every other, in order.
pub run_one_shot-finished :
    (rt : Runtime) (key : String) (exec : ExecInspect) (c : ContainerInspect)
    (front back : List String) (w : World)
    → lookup exec.container_id w.state.containers ≡ some c
    → c.exec_ids ≡ some (front ++ exec.id ∷ back)
    → All (λ t. t ≢ exec.id) front
    → (lookup key (run_one_shot rt key exec c w).1.state.exec_sessions
        ≡ some (record exec { running = false; exit_code = 0; pid = 0 }))
      × (lookup exec.container_id (run_one_shot rt key exec c w).1.state.containers
          ≡ some (record c { exec_ids = some (front ++ back) }))
unfolding run_one_shot finish_one_shot begin_exec
run_one_shot-finished rt key exec c front back w there listed fresh =
    let begun = begin_exec key exec c w in
    let session = create_shell_session c in
    let after = process_command rt session begun.clock (join " " (command_of exec)) in
    finish_exec-finished key exec c front back (record begun { clock = after.2 }) there listed fresh
