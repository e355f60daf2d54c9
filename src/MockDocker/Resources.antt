-- ===== src/MockDocker/Resources.antt =====
-- The operations of mock-docker/src/mutations.ts on volumes, images and exec sessions.
pub mod Pruning
pub mod Sessions
use Prim.Native.String.{◌++◌ as append}
use dockge.Prelude.{
  ℕ, ◌+◌, String, Bool, true, false, Option, none, some, List, [], ◌∷◌, ◌++◌, map, any, ◌&&◌, ◌||◌,
  ◌==◌, not, or_default, drop, if◌then◌else◌,
}
use dockge.Prelude.Dict.{Dict, lookup, insert, remove, values}
use dockge.MockDocker.Types.{
  ContainerInspect, VolumeInspect, ImageInspect, ExecInspect, MutationResult, ok, fail,
}
use dockge.MockDocker.Deterministic.{deterministic_id}
use dockge.MockDocker.World.{Env, World, read_clock, publish, put_container}
use dockge.MockDocker.Membership.{resolve_container, resolve_image}
use dockge.MockDocker.Containers.{Outcome, with_found}
use dockge.MockDocker.Creation.{list_or_empty}

pub record VolumeCreateConfig : Type 0 where
  pub name : String
  pub driver : Option String
  pub labels : Option (Dict String)
  pub driver_opts : Option (Dict String)

unfoldable pub volume_create : Env → VolumeCreateConfig → World → Outcome VolumeInspect
unfolding or_default
volume_create env config w =
    let driver = or_default config.driver "local" in
    let (t, w₁) = read_clock w in
    let vol : VolumeInspect = record {
      name = config.name;
      driver = driver;
      mountpoint = append "/var/lib/docker/volumes/" (append config.name "/_data");
      created_at = env.runtime.to_iso t;
      labels = some (list_or_empty config.labels);
      scope = "local";
      options = list_or_empty config.driver_opts;
    } in
    let w₂ = record w₁ {
      state = record w₁.state { volumes = insert config.name vol w₁.state.volumes };
    } in
    (ok vol, publish "volume" "create" config.name (("driver", driver) ∷ []) w₂)

unfoldable pub remove_volume : String → Option VolumeInspect → World → Outcome Unit
remove_volume name none w = (fail 404 (append "get " (append name ": no such volume")), w)
remove_volume name (some vol) w =
    let w₁ = record w { state = record w.state { volumes = remove name w.state.volumes } } in
    (ok tt, publish "volume" "destroy" name (("driver", vol.driver) ∷ []) w₁)

unfoldable pub volume_remove : String → World → Outcome Unit
unfolding remove_volume
volume_remove name w = remove_volume name (lookup name w.state.volumes) w

-- An entry of the report on deleted images.
pub data Deletion : Type 0 where
  untagged deleted : String → Deletion

-- The first container that runs from the image.
unfoldable pub user_of : String → List ContainerInspect → Option ContainerInspect
user_of id [] = none
user_of id (c ∷ cs) =
    let rest = user_of id cs in if c.image == id && c.state.running then some c else rest

unfoldable pub untag_all : String → List String → World → World
untag_all id [] w = w
untag_all id (tag ∷ tags) w = untag_all id tags (publish "image" "untag" id (("name", tag) ∷ []) w)

-- The events and the deletion of one image, which `imageRemove` and `imagePrune` share.
unfoldable pub delete_image : ImageInspect → World → World
delete_image img w =
    let w₁ = untag_all img.id img.repo_tags w in
    let w₂ = record w₁ { state = record w₁.state { images = remove img.id w₁.state.images } } in
    publish "image" "delete" img.id (("name", img.id) ∷ []) w₂

unfoldable pub deletions_of : ImageInspect → List Deletion
deletions_of img = map untagged img.repo_tags ++ deleted img.id ∷ []

unfoldable pub remove_image_unless :
    Option ContainerInspect → Bool → ImageInspect → World → Outcome (List Deletion)
unfolding delete_image deletions_of
remove_image_unless none force img w = (ok (deletions_of img), delete_image img w)
remove_image_unless (some c) true img w = (ok (deletions_of img), delete_image img w)
remove_image_unless (some c) false img w = (
  fail 409 (
      append "unable to remove "
        (append img.id (append ": image is being used by running container " c.id))),
  w,
)

unfoldable pub image_remove : String → Bool → World → Outcome (List Deletion)
unfolding remove_image_unless user_of
image_remove query force w =
    with_found (resolve_image w.state query) w
      λ found. remove_image_unless (user_of found.1.id (values w.state.containers)) force found.1 w

-- An image has a tag that keeps it, unless all images go.
unfoldable pub is_tagged : ImageInspect → Bool
is_tagged img = elim img.repo_tags [ [] ↦ false | tag ∷ _ ↦ not (tag == "<none>:<none>") ]

unfoldable pub is_used : String → List ContainerInspect → Bool
is_used id cs = any (λ c. c.image == id) cs

-- `usedImageIds` is fixed before the loop; the containers do not change in it.
unfoldable pub prune_images :
    Bool → List ContainerInspect → List ImageInspect → World → (List Deletion × ℕ) × World
unfolding is_used is_tagged delete_image deletions_of
prune_images all used [] w = (([], 0), w)
prune_images all used (img ∷ imgs) w =
    let rest = prune_images all used imgs w in
    if is_used img.id used || (not all && is_tagged img)
    then rest
    else (let ((report, size), w') = prune_images all used imgs (delete_image img w) in
        ((deletions_of img ++ report, img.size + size), w'))

unfoldable pub image_prune : Bool → World → Outcome (List Deletion × ℕ)
unfolding prune_images
image_prune all w =
    let (report, w') = prune_images all (values w.state.containers) (values w.state.images) w in
    (ok report, w')

pub record ExecCreateConfig : Type 0 where
  pub cmd : List String
  pub attach_stdin : Bool
  pub attach_stdout : Bool
  pub attach_stderr : Bool
  pub tty : Bool
  pub user : Option String

unfoldable pub first_or_shell : List String → String
unfolding or_default
first_or_shell [] = "/bin/sh"
first_or_shell (cmd ∷ _) = or_default (some cmd) "/bin/sh"

unfoldable pub exec_id_of : Env → ExecCreateConfig → ContainerInspect → ℕ → String
exec_id_of env config c t =
    deterministic_id env.runtime
      (append c.id (append (env.runtime.stringify config.cmd) (env.runtime.to_iso t))) "exec-id"

-- c.ExecIDs.push(execId), on a list that is made where there is none
unfoldable pub track_exec : String → ContainerInspect → ContainerInspect
track_exec exec_id c = record c { exec_ids = some (list_or_empty c.exec_ids ++ exec_id ∷ []) }

unfoldable pub new_exec : String → ExecCreateConfig → ContainerInspect → ExecInspect
unfolding first_or_shell or_default
new_exec exec_id config c = record {
  id = exec_id;
  running = false;
  exit_code = 0;
  process_config = record {
    tty = config.tty;
    entrypoint = first_or_shell config.cmd;
    arguments = drop 1 config.cmd;
    user = or_default config.user (or_default c.config.user "root");
  };
  open_stdin = config.attach_stdin;
  open_stdout = config.attach_stdout;
  open_stderr = config.attach_stderr;
  container_id = c.id;
  pid = 0;
}

unfoldable pub create_exec_found :
    Env → ExecCreateConfig → String × ContainerInspect → World → Outcome String
create_exec_found env config (key, c) w =
    let (t, w₁) = read_clock w in
    let exec_id = exec_id_of env config c t in
    let w₂ = put_container key (track_exec exec_id c) w₁ in
    let sessions = insert exec_id (new_exec exec_id config c) w₂.state.exec_sessions in
    (ok exec_id, record w₂ { state = record w₂.state { exec_sessions = sessions } })

unfoldable pub exec_create : Env → String → ExecCreateConfig → World → Outcome String
exec_create env container_id config w =
    with_found (resolve_container w.state container_id) w λ found.
      if not found.1.state.running
      then (fail 409 (append "Container " (append found.1.id " is not running")), w)
      else create_exec_found env config found w

unfoldable pub exec_found : String → Option ExecInspect → MutationResult ExecInspect
exec_found exec_id none = fail 404 (append "No such exec instance: " exec_id)
exec_found exec_id (some exec) = ok exec

unfoldable pub exec_inspect : String → World → MutationResult ExecInspect
unfolding exec_found
exec_inspect exec_id w = exec_found exec_id (lookup exec_id w.state.exec_sessions)
