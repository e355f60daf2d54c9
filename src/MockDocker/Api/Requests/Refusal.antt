-- ===== src/MockDocker/Api/Requests/Refusal.antt =====
-- mock-docker/src/api with mock-docker/src/mutations.ts: the requests that are refused.
use dockge.Prelude.{
  ℕ, ◌≡◌, ◌≤◌, ◌<◌, refl, String, Bool, true, false, Option, none, some, not, truthy, arith,
  or_empty, ◌&&◌, if◌then◌else◌,
}
use dockge.Prelude.Dict.{lookup, values}
use dockge.MockDocker.Types.{
  ContainerInspect, VolumeInspect, ImageInspect, MutationResult, ok, fail,
}
use dockge.MockDocker.World.{Env, World}
use dockge.MockDocker.Membership.{resolve_container, resolve_network, resolve_image}
use dockge.MockDocker.Containers.{
  Outcome, with_found, container_start, start_found, container_stop, stop_found, container_pause,
  container_unpause, set_paused,
}
use dockge.MockDocker.Disposal.{
  container_kill, kill_found, container_remove, remove_found, container_rename, rename_found,
}
use dockge.MockDocker.Creation.{ContainerCreateConfig, container_create, create_named}
use dockge.MockDocker.Networks.{
  network_create, network_remove, remove_network_found, network_connect, connect_found,
  network_disconnect, disconnect_found,
}
use dockge.MockDocker.Resources.{
  ExecCreateConfig, exec_create, create_exec_found, volume_create, volume_remove, remove_volume,
  image_remove, remove_image_unless, user_of, image_prune,
}
use dockge.MockDocker.Api.Router.{status_of, handle_unit_result, handle_mutation_result}
use dockge.MockDocker.Api.Reply.{Body, Reply, answer_unit, answer, answer_created, map_result, sent}
use dockge.MockDocker.Api.Containers
use dockge.MockDocker.Api.Objects
use dockge.MockDocker.Api.Images
use dockge.MockDocker.Api.Requests.{Request, handle, is_restart}

-- A mutation that fails leaves the world as it was.
abbrev Kept : {A : Type 0} → World → Outcome A → Type 0
Kept w (ok a, w') = Unit
Kept w (fail code error, w') = w' ≡ w

module _ {A : Type 0} (w : World) where
  with_found-Kept :
      {B : Type 0} (r : MutationResult B) (body : B → Outcome A)
      → ((b : B) → Kept w (body b))
      → Kept w (with_found r w body)
  with_found-Kept (ok b) body kept = kept b
  with_found-Kept (fail code error) body kept = refl

  if-Kept : (t : Bool) (x y : Outcome A) → Kept w x → Kept w y → Kept w (if t then x else y)
  if-Kept true x y kx ky = kx
  if-Kept false x y kx ky = ky

-- An answer of 304 or more leaves the world as it was.
abbrev Refuses : World → Reply → Type 0
Refuses w (response, w') = 304 ≤ status_of response → w' ≡ w

answer_unit-Refuses :
    (success : ℕ) (w : World) (o : Outcome Unit)
    → success < 304
    → Kept w o
    → Refuses w (answer_unit success o)
unfolding answer_unit handle_unit_result status_of
answer_unit-Refuses success w (ok u, w') small kept = λ high. absurd (ground arith)
answer_unit-Refuses success w (fail code error, w') small kept = λ high. kept

answer-Refuses :
    {A : Type 0} (body : A → Body) (success : ℕ) (w : World) (o : Outcome A)
    → success < 304
    → Kept w o
    → Refuses w (answer body success o)
unfolding answer map_result handle_mutation_result status_of
answer-Refuses body success w (ok a, w') small kept = λ high. absurd (omega arith)
answer-Refuses body success w (fail code error, w') small kept = λ high. kept

answer_created-Refuses :
    {A : Type 0} (body : A → Body) (success : ℕ) (w : World) (o : Outcome A)
    → success < 304
    → Kept w o
    → Refuses w (answer_created body success o)
unfolding answer_created sent status_of
answer_created-Refuses body success w (ok a, w') small kept = λ high. absurd (omega arith)
answer_created-Refuses body success w (fail code error, w') small kept = λ high. kept

module _ (env : Env) (w : World) where
  container_start-Kept : (id : String) (e2e : Option Bool) → Kept w (container_start env id e2e w)
  unfolding container_start start_found
  container_start-Kept id e2e =
      with_found-Kept w (resolve_container w.state id) _
        λ found. if-Kept w found.1.state.running _ _ refl tt

  container_stop-Kept : (id : String) → Kept w (container_stop env id w)
  unfolding container_stop stop_found
  container_stop-Kept id =
      with_found-Kept w (resolve_container w.state id) _
        λ found. if-Kept w (not found.1.state.running && not found.1.state.paused) _ _ refl tt

  container_kill-Kept : (id signal : String) → Kept w (container_kill env id signal w)
  unfolding container_kill kill_found
  container_kill-Kept id signal =
      with_found-Kept w (resolve_container w.state id) _
        λ found. if-Kept w (not found.1.state.running && not found.1.state.paused) _ _ refl tt

  container_pause-Kept : (id : String) → Kept w (container_pause id w)
  unfolding container_pause set_paused
  container_pause-Kept id = with_found-Kept w (resolve_container w.state id) _ λ found.
      if-Kept w (not found.1.state.running) _ _ refl (if-Kept w found.1.state.paused _ _ refl tt)

  container_unpause-Kept : (id : String) → Kept w (container_unpause id w)
  unfolding container_unpause set_paused
  container_unpause-Kept id =
      with_found-Kept w (resolve_container w.state id) _
        λ found. if-Kept w (not found.1.state.paused) _ _ refl tt

  container_remove-Kept : (id : String) (force : Bool) → Kept w (container_remove env id force w)
  unfolding container_remove remove_found
  container_remove-Kept id force =
      with_found-Kept w (resolve_container w.state id) _
        λ found. if-Kept w found.1.state.running _ _ (if-Kept w (not force) _ _ refl tt) tt

  container_rename-Kept : (id name : String) → Kept w (container_rename id name w)
  unfolding container_rename rename_found
  container_rename-Kept id name = with_found-Kept w (resolve_container w.state id) _ λ found. tt

  container_create-Kept : (config : ContainerCreateConfig) → Kept w (container_create env config w)
  unfolding container_create create_named
  container_create-Kept config = if-Kept w (not (truthy config.image)) _ _ refl tt

  exec_create-Kept :
      (id : String) (config : ExecCreateConfig) → Kept w (exec_create env id config w)
  unfolding exec_create create_exec_found
  exec_create-Kept id config =
      with_found-Kept w (resolve_container w.state id) _
        λ found. if-Kept w (not found.1.state.running) _ _ refl tt

  network_remove-Kept : (id : String) → Kept w (network_remove id w)
  unfolding network_remove remove_network_found
  network_remove-Kept id = with_found-Kept w (resolve_network w.state id) _ λ found. tt

  network_connect-Kept :
      (net ctr : String) (address : Option String) → Kept w (network_connect env net ctr address w)
  unfolding network_connect connect_found
  network_connect-Kept net ctr address =
      with_found-Kept w (resolve_network w.state net) _
        λ found. with_found-Kept w (resolve_container w.state ctr) _ λ c. tt

  network_disconnect-Kept : (net ctr : String) → Kept w (network_disconnect net ctr w)
  unfolding network_disconnect disconnect_found
  network_disconnect-Kept net ctr =
      with_found-Kept w (resolve_network w.state net) _
        λ found. with_found-Kept w (resolve_container w.state ctr) _ λ c. tt

  remove_volume-Kept : (name : String) (o : Option VolumeInspect) → Kept w (remove_volume name o w)
  unfolding remove_volume
  remove_volume-Kept name none = refl
  remove_volume-Kept name (some vol) = tt

  remove_image_unless-Kept :
      (user : Option ContainerInspect) (force : Bool) (img : ImageInspect)
      → Kept w (remove_image_unless user force img w)
  unfolding remove_image_unless
  remove_image_unless-Kept none force img = tt
  remove_image_unless-Kept (some c) true img = tt
  remove_image_unless-Kept (some c) false img = refl

  image_remove-Kept : (query : String) (force : Bool) → Kept w (image_remove query force w)
  unfolding image_remove
  image_remove-Kept query force = with_found-Kept w (resolve_image w.state query) _ λ found.
      remove_image_unless-Kept (user_of found.1.id (values w.state.containers)) force found.1

if-Refuses :
    (w : World) (t : Bool) (x y : Reply)
    → Refuses w x
    → Refuses w y
    → Refuses w (if t then x else y)
if-Refuses w true x y rx ry = rx
if-Refuses w false x y rx ry = ry

-- A request to create, remove, kill, rename, start, stop, pause or unpause a container, to create an exec
-- session, to create, remove, connect or disconnect a network, to create or remove a volume, or to remove or
-- prune images, that is answered with a status of 304 or more leaves the whole world, its tables, its clock,
-- its events and its timers, as it was.
pub handle-Refuses :
    (env : Env) (e2e : Bool) (request : Request) (w : World)
    → is_restart request ≡ false
    → 304 ≤ status_of (handle env e2e request w).0
    → (handle env e2e request w).1 ≡ w
unfolding handle
handle-Refuses env e2e (Request.create_container query none) w once =
    unfold Containers.create_container in λ high. refl
handle-Refuses env e2e (Request.create_container query (some config)) w once =
    unfold Containers.create_container in
    answer_created-Refuses _ 201 w _ (omega arith) (container_create-Kept env w _)
handle-Refuses env e2e (Request.remove_container id query) w once =
    unfold Containers.remove_container in
    answer_unit-Refuses 204 w _ (omega arith) (container_remove-Kept env w id _)
handle-Refuses env e2e (Request.kill_container id query) w once =
    unfold Containers.kill_container in
    answer_unit-Refuses 204 w _ (omega arith) (container_kill-Kept env w id _)
handle-Refuses env e2e (Request.rename_container id query) w once =
    unfold Containers.rename_container in
    if-Refuses w (truthy (or_empty (lookup "name" query))) _ _
      (answer_unit-Refuses 204 w _ (omega arith) (container_rename-Kept env w id _)) (λ high. refl)
handle-Refuses env e2e (Request.start_container id) w once =
    unfold Containers.start_container in
    answer_unit-Refuses 204 w _ (omega arith) (container_start-Kept env w id _)
handle-Refuses env e2e (Request.stop_container id) w once =
    unfold Containers.stop_container in
    answer_unit-Refuses 204 w _ (omega arith) (container_stop-Kept env w id)
handle-Refuses env e2e (Request.restart_container id) w once = λ high. cc (once)
handle-Refuses env e2e (Request.pause_container id) w once =
    unfold Containers.pause_container in
    answer_unit-Refuses 204 w _ (omega arith) (container_pause-Kept env w id)
handle-Refuses env e2e (Request.unpause_container id) w once =
    unfold Containers.unpause_container in
    answer_unit-Refuses 204 w _ (omega arith) (container_unpause-Kept env w id)
handle-Refuses env e2e (Request.create_exec id body) w once =
    unfold Containers.create_exec in
    answer-Refuses _ 201 w _ (omega arith) (exec_create-Kept env w id _)
handle-Refuses env e2e (Request.create_network none) w once =
    unfold Objects.create_network in λ high. refl
handle-Refuses env e2e (Request.create_network (some config)) w once =
    unfold Objects.create_network in
    if-Refuses w (truthy config.name) _ _
      (answer_created-Refuses _ 201 w (network_create env config w) (omega arith)
        (unfold network_create in tt))
      (λ high. refl)
handle-Refuses env e2e (Request.remove_network id) w once =
    unfold Objects.remove_network in
    answer_unit-Refuses 204 w _ (omega arith) (network_remove-Kept env w id)
handle-Refuses env e2e (Request.connect_network id body) w once =
    unfold Objects.connect_network in
    if-Refuses w _ _ _
      (answer_unit-Refuses 200 w _ (omega arith) (network_connect-Kept env w id _ _)) (λ high. refl)
handle-Refuses env e2e (Request.disconnect_network id body) w once =
    unfold Objects.disconnect_network in
    if-Refuses w _ _ _
      (answer_unit-Refuses 200 w _ (omega arith) (network_disconnect-Kept env w id _))
      (λ high. refl)
handle-Refuses env e2e (Request.create_volume none) w once =
    unfold Objects.create_volume in λ high. refl
handle-Refuses env e2e (Request.create_volume (some config)) w once =
    unfold Objects.create_volume in
    if-Refuses w (truthy config.name) _ _
      (answer_created-Refuses _ 201 w (volume_create env config w) (omega arith)
        (unfold volume_create in tt))
      (λ high. refl)
handle-Refuses env e2e (Request.remove_volume name) w once =
    unfold Objects.remove_volume in
    answer_unit-Refuses 204 w (volume_remove name w) (omega arith)
      (unfold volume_remove in remove_volume-Kept env w name (lookup name w.state.volumes))
handle-Refuses env e2e (Request.remove_image rest query) w once =
    unfold Images.remove_image in
    answer-Refuses _ 200 w _ (omega arith) (image_remove-Kept env w _ _)
handle-Refuses env e2e (Request.prune_images filters) w once =
    unfold Images.prune_images in
    answer-Refuses (λ report. Body.pruned report.0 report.1) 200 w (image_prune _ w) (omega arith)
      (unfold image_prune in tt)
