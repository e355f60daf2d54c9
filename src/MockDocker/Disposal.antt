-- ===== src/MockDocker/Disposal.antt =====
-- The operations of mock-docker/src/mutations.ts that kill, remove and rename a container.
use Prim.Native.String.{◌++◌ as append}
use dockge.Prelude.{
  ℕ, String, Bool, Option, none, some, ◌==◌, ◌&&◌, ◌||◌, not, drop_slash, starts_with,
  if◌then◌else◌, show_nat,
}
use dockge.Prelude.Dict.{Dict, lookup, insert, remove}
use dockge.MockDocker.Types.{ContainerInspect, NetworkContainer, ok, fail}
use dockge.MockDocker.World.{
  Env, World, read_clock, publish, put_container, current, clear_heartbeat, container_attrs,
}
use dockge.MockDocker.Membership.{
  resolve_container, remove_container_from_networks, for_endpoints, endpoints_of,
}
use dockge.MockDocker.Containers.{Outcome, with_found, exited, container_stop}

unfoldable pub kill_code : String → ℕ
kill_code sig = if sig == "SIGKILL" || sig == "9" then 137 else 143

unfoldable pub kill_found : Env → String → String × ContainerInspect → World → Outcome Unit
unfolding kill_code exited
kill_found env signal (key, c) w =
    let sig = env.runtime.to_upper signal in
    let exit_code = kill_code sig in
    let (t, w₁) = read_clock w in
    let attrs = container_attrs c in
    let c' = exited (env.runtime.to_iso t) exit_code c in
    let w₂ = put_container key c' w₁ in
    let w₃ = record w₂ { state = remove_container_from_networks c' w₂.state } in
    let w₄ = clear_heartbeat c'.id w₃ in
    let w₅ = publish "container" "kill" c'.id (insert "signal" sig attrs) w₄ in
    (ok tt, publish "container" "die" c'.id (insert "exitCode" (show_nat exit_code) attrs) w₅)

unfoldable pub container_kill : Env → String → String → World → Outcome Unit
container_kill env id signal w = with_found (resolve_container w.state id) w λ found.
    if not found.1.state.running && not found.1.state.paused
    then (fail 409 "container is not running", w)
    else kill_found env signal found w

-- The entries of the tables that go, and the event.
unfoldable pub remove_found : String × ContainerInspect → World → Outcome Unit
remove_found (key, c) w =
    let w₁ = record w {
      state = record w.state {
        containers = remove c.id w.state.containers;
        log_buffers = remove c.id w.state.log_buffers;
      };
    } in
    let w₂ = clear_heartbeat c.id w₁ in
    (ok tt, publish "container" "destroy" c.id (container_attrs c) w₂)

unfoldable pub running_message : String → String
running_message id =
    append "You cannot remove a running container "
      (append id ". Stop the container before attempting removal or force remove")

-- The forced stop's result is dropped.
unfoldable pub container_remove : Env → String → Bool → World → Outcome Unit
unfolding running_message
container_remove env id force w = with_found (resolve_container w.state id) w λ found.
    if found.1.state.running
    then if not force
      then (fail 409 (running_message found.1.id), w)
      else (let w' = (container_stop env found.1.id w).1 in
          remove_found (found.0, current found.0 found.1 w') w')
    else remove_found found w

-- network.Containers[c.Id].Name = newName, where the entry is there
unfoldable pub rename_member :
    String → String → Option NetworkContainer → Dict NetworkContainer → Dict NetworkContainer
rename_member id name none members = members
rename_member id name (some m) members = insert id (record m { name = name }) members

unfoldable pub with_slash : String → String
with_slash name = if starts_with name "/" then name else append "/" name

unfoldable pub rename_found : String → String × ContainerInspect → World → Outcome Unit
unfolding rename_member with_slash
rename_found new_name (key, c) w =
    let old_name = drop_slash c.name in
    let c' = record c { name = with_slash new_name } in
    let w₁ = put_container key c' w in
    let networks =
      for_endpoints
        (λ e members. rename_member c.id (drop_slash new_name) (lookup c.id members) members)
        (endpoints_of c') w₁.state.networks in
    let w₂ = record w₁ { state = record w₁.state { networks = networks } } in
    (ok tt, publish "container" "rename" c'.id (insert "oldName" old_name (container_attrs c')) w₂)

unfoldable pub container_rename : String → String → World → Outcome Unit
container_rename id new_name w =
    with_found (resolve_container w.state id) w λ found. rename_found new_name found w
