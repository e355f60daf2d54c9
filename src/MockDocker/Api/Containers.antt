-- ===== src/MockDocker/Api/Containers.antt =====
-- mock-docker/src/api/containers.ts: the handlers, but for the logs (`LogStream`) and the statistics. The
-- body of a request is what `readJSON` gives: `none` for an empty one. `filters` is what parseFilters gives.
use Prim.Native.String.{◌++◌ as append}
use dockge.Prelude.{
  String, Bool, true, false, Option, none, some, List, [], ◌∷◌, select, truthy, or_default,
  or_empty, if◌then◌else◌,
}
use dockge.Prelude.Dict.{Dict, lookup, values}
use dockge.MockDocker.Types.{ContainerInspect}
use dockge.MockDocker.Runtime.{Runtime}
use dockge.MockDocker.World.{Env, World}
use dockge.MockDocker.Names.{ResolveResult, found, resolve_by_id_or_name}
use dockge.MockDocker.Containers.{
  container_start, container_stop, container_restart, container_pause, container_unpause,
}
use dockge.MockDocker.Disposal.{container_kill, container_remove, container_rename}
use dockge.MockDocker.Creation.{ContainerCreateConfig, container_create}
use dockge.MockDocker.Resources.{ExecCreateConfig, exec_create}
use dockge.MockDocker.Filters.{ParsedFilters, apply_container_filters}
use dockge.MockDocker.Projections.{project_containers, ContainerListEntry}
use dockge.MockDocker.Clock.{FixedClock}
use dockge.MockDocker.Top.{generate_top}
use dockge.MockDocker.Api.Router.{Response, json, message}
use dockge.MockDocker.Api.Reply.{Body, Reply, answer, answer_unit, answer_created, is_flag}

listed_containers : World → List ContainerListEntry × FixedClock → Reply
listed_containers w (entries, clock) =
    (json 200 (Body.containers entries), record w { clock = clock })

unfoldable pub list_containers : Runtime → Dict String → ParsedFilters → World → Reply
unfolding listed_containers is_flag project_containers apply_container_filters
list_containers rt query filters w =
    let every = values w.state.containers in
    let shown = if is_flag "all" query then every else select (λ c. c.state.running) every in
    listed_containers w
      (project_containers rt (is_flag "size" query) (apply_container_filters shown filters) w.clock)

-- query.name || body.name
named : Option String → ContainerCreateConfig → ContainerCreateConfig
named none config = config
named (some name) config = if truthy name then record config { name = some name } else config

unfoldable pub create_container : Env → Dict String → Option ContainerCreateConfig → World → Reply
unfolding named answer_created truthy
create_container env query none w = (message 400 "request body required", w)
create_container env query (some config) w =
    answer_created Body.created_container 201
      (container_create env (named (lookup "name" query) config) w)

-- The container that an id or a name means, or the error.
unfoldable pub with_container :
    String → ResolveResult ContainerInspect → (ContainerInspect → Response Body) → Response Body
with_container id (found key c) respond = respond c
with_container id _ respond = message 404 (append "No such container: " id)

resolved_here : World → String → ResolveResult ContainerInspect
resolved_here w id = resolve_by_id_or_name (λ c. c.name) (λ c. c.id) w.state.containers id

unfoldable pub inspect_container : String → World → Reply
unfolding resolved_here with_container
inspect_container id w =
    (with_container id (resolved_here w id) (λ c. json 200 (Body.container c)), w)

unfoldable pub remove_container : Env → String → Dict String → World → Reply
unfolding is_flag answer_unit
remove_container env id query w =
    answer_unit 204 (container_remove env id (is_flag "force" query) w)

unfoldable pub start_container : Env → Bool → String → World → Reply
unfolding answer_unit
start_container env e2e_mode id w = answer_unit 204 (container_start env id (some e2e_mode) w)

unfoldable pub stop_container : Env → String → World → Reply
unfolding answer_unit
stop_container env id w = answer_unit 204 (container_stop env id w)

unfoldable pub restart_container : Env → String → World → Reply
unfolding answer_unit
restart_container env id w = answer_unit 204 (container_restart env id w)

unfoldable pub kill_container : Env → String → Dict String → World → Reply
unfolding answer_unit or_default
kill_container env id query w =
    answer_unit 204 (container_kill env id (or_default (lookup "signal" query) "SIGKILL") w)

unfoldable pub pause_container : String → World → Reply
unfolding answer_unit
pause_container id w = answer_unit 204 (container_pause id w)

unfoldable pub unpause_container : String → World → Reply
unfolding answer_unit
unpause_container id w = answer_unit 204 (container_unpause id w)

unfoldable pub rename_container : String → Dict String → World → Reply
unfolding answer_unit or_empty truthy
rename_container id query w =
    let name = or_empty (lookup "name" query) in
    if truthy name
    then answer_unit 204 (container_rename id name w)
    else (message 400 "name is required", w)

unfoldable pub update_container : World → Reply
update_container w = (json 200 Body.no_warnings, w)

unfoldable pub container_top : Runtime → String → World → Reply
unfolding resolved_here with_container generate_top
container_top rt id w = (
  with_container id (resolved_here w id) (λ c.
      if c.state.running
      then json 200 (Body.processes (generate_top rt c))
      else message 500 (append "Container " (append id " is not running"))),
  w,
)

-- The body of the request for a session; each part may be missing.
pub record ExecRequest : Type 0 where
  pub cmd : Option (List String)
  pub attach_stdin : Option Bool
  pub attach_stdout : Option Bool
  pub attach_stderr : Option Bool
  pub tty : Option Bool
  pub user : Option String

or_else : {A : Type 0} → Option A → A → A
or_else none d = d
or_else (some a) d = a

unfoldable pub exec_config_of : Option ExecRequest → ExecCreateConfig
unfolding or_else
exec_config_of none = record {
  cmd = "/bin/sh" ∷ [];
  attach_stdin = false;
  attach_stdout = true;
  attach_stderr = true;
  tty = false;
  user = none;
}
exec_config_of (some r) = record {
  cmd = or_else r.cmd ("/bin/sh" ∷ []);
  attach_stdin = or_else r.attach_stdin false;
  attach_stdout = or_else r.attach_stdout true;
  attach_stderr = or_else r.attach_stderr true;
  tty = or_else r.tty false;
  user = r.user;
}

unfoldable pub create_exec : Env → String → Option ExecRequest → World → Reply
unfolding exec_config_of answer
create_exec env id body w =
    answer Body.created_exec 201 (exec_create env id (exec_config_of body) w)
