-- ===== src/MockDocker/Resources/Sessions.antt =====
-- mock-docker/src/mutations.ts: `execCreate` and then `execInspect`.
use dockge.Prelude.{String, ◌≡◌, refl, true, eq_refl}
use dockge.Prelude.Dict.{lookup-insert}
use dockge.MockDocker.Types.{ContainerInspect, ok}
use dockge.MockDocker.World.{Env, World, read_clock}
use dockge.MockDocker.Membership.{resolve_container}
use dockge.MockDocker.Resources.{
  ExecCreateConfig, new_exec, exec_create, create_exec_found, exec_inspect, exec_found, exec_id_of,
}

session_of_found :
    (env : Env) (config : ExecCreateConfig) (found : String × ContainerInspect) (w : World)
    → (exec_id : String) × ((create_exec_found env config found w).0 ≡ ok exec_id)
      × (exec_inspect exec_id (create_exec_found env config found w).1
          ≡ ok (new_exec exec_id config found.1))
unfolding create_exec_found exec_inspect exec_found
session_of_found env config (key, c) w =
    let exec_id = exec_id_of env config c (read_clock w).0 in
    (
      exec_id,
      refl,
      rw
          (
            lookup-insert exec_id exec_id (new_exec exec_id config c)
                (read_clock w).1.state.exec_sessions,
            eq_refl exec_id,
          )
          refl,
    )

-- Where the query resolves to a running container, `execCreate` succeeds, and `execInspect` of the
-- identifier that it returns then finds the session of this container and configuration, which does
-- not run yet.
pub exec_inspect-create :
    (env : Env) (id : String) (config : ExecCreateConfig) (w : World) (key : String)
    (c : ContainerInspect)
    → resolve_container w.state id ≡ ok (key, c)
    → c.state.running ≡ true
    → (exec_id : String) × ((exec_create env id config w).0 ≡ ok exec_id)
      × (exec_inspect exec_id (exec_create env id config w).1 ≡ ok (new_exec exec_id config c))
unfolding exec_create
exec_inspect-create env id config w key c at runs =
    let found : exec_create env id config w ≡ create_exec_found env config (key, c) w =
      simp (at, runs) in
    rw found (session_of_found env config (key, c) w)
