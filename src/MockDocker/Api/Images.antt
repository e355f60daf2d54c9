-- ===== src/MockDocker/Api/Images.antt =====
-- mock-docker/src/api/images.ts and mock-docker/src/api/distribution.ts. `regex_test` is the one of the
-- list filters.
use Prim.Native.String.{◌++◌ as append}
use dockge.Prelude.{
  ℕ, zero, suc, ◌+◌, ◌-◌, ◌/◌, String, Bool, false, Option, none, some, List, [], ◌∷◌, ◌++◌, map,
  any, leb, ◌==◌, ◌||◌, ◌&&◌, starts_with, has_char, before, after, split, last_part, ends_with,
  take_text, text_size, utf16_length, show_nat, if◌then◌else◌,
}
use dockge.Prelude.Dict.{Dict, lookup, values}
use dockge.MockDocker.Types.{ImageInspect}
use dockge.MockDocker.Runtime.{Runtime}
use dockge.MockDocker.State.{MockState}
use dockge.MockDocker.World.{World}
use dockge.MockDocker.Deterministic.{deterministic_id, deterministic_int, hex}
use dockge.MockDocker.Filters.{ParsedFilters, apply_image_filters}
use dockge.MockDocker.Resources.{image_remove, image_prune}
use dockge.MockDocker.Projections.{project_to_image_list_entry}
use dockge.MockDocker.Api.Router.{Response, json, message}
use dockge.MockDocker.Api.Reply.{Body, Reply, ImageHistoryItem, answer, is_flag}

-- The name is a tag or a digest, or the identifier begins with it.
unfoldable pub is_called : String → ImageInspect → Bool
unfolding utf16_length
is_called name img =
    any (λ t. t == name) img.repo_tags
    || any (λ d. d == name) img.repo_digests
    || (leb 3 (utf16_length name)
        && (starts_with img.id (append "sha256:" name) || starts_with img.id name))

-- The loop over the images.
unfoldable pub find_image : (ImageInspect → Bool) → List ImageInspect → Option ImageInspect
find_image test [] = none
find_image test (img ∷ imgs) =
    let rest = find_image test imgs in if test img then some img else rest

or_search : Option ImageInspect → Option ImageInspect → Option ImageInspect
or_search (some img) other = some img
or_search none other = other

unfoldable pub resolve_image_by_name : Dict ImageInspect → String → Option ImageInspect
unfolding or_search find_image is_called
resolve_image_by_name images name =
    or_search (lookup name images) (find_image (is_called name) (values images))

-- The part behind the last "/", up to the first ":".
unfoldable pub base_name : String → String
unfolding last_part split before
base_name ref = before b':' (last_part (split b'/' ref))

command_for : String → String
command_for name =
    if name == "nginx" || name == "httpd"
    then "CMD [\"nginx\", \"-g\", \"daemon off;\"]"
    else if name == "redis"
    then "CMD [\"redis-server\"]"
    else if name == "postgres"
    then "CMD [\"postgres\"]"
    else if name == "mysql" || name == "mariadb"
    then "CMD [\"mysqld\"]"
    else if name == "node"
    then "CMD [\"node\"]"
    else if name == "python"
    then "CMD [\"python3\"]"
    else if name == "grafana"
    then "ENTRYPOINT [\"/run.sh\"]"
    else if name == "wordpress"
    then "CMD [\"apache2-foreground\"]"
    else if name == "traefik"
    then "ENTRYPOINT [\"/entrypoint.sh\"]"
    else if name == "elasticsearch"
    then "ENTRYPOINT [\"/bin/tini\", \"--\", \"/usr/local/bin/docker-entrypoint.sh\"]"
    else if name == "rabbitmq"
    then "CMD [\"rabbitmq-server\"]"
    else "CMD [\"/bin/sh\"]"

unfoldable pub get_cmd_for_image : String → String
unfolding command_for base_name
get_cmd_for_image ref = command_for (base_name ref)

first_tag_or_id : ImageInspect → String
first_tag_or_id img = elim img.repo_tags [ [] ↦ img.id | tag ∷ _ ↦ tag ]

tags_or_null : List String → Option (List String)
tags_or_null [] = none
tags_or_null tags = some tags

module _ (rt : Runtime) where
  -- n layers from layer i on
  middle_layers : String → ℕ → ℕ → ℕ → List ImageHistoryItem
  unfolding show_nat
  middle_layers seed created i zero = []
  middle_layers seed created i (suc n) =
      record {
        id = "<missing>";
        created = created;
        created_by = "RUN /bin/sh -c set -x && install dependencies # buildkit";
        size =
            deterministic_int rt (append seed (append "layer-mid-" (show_nat i))) 1000000 200000000;
        tags = none;
      }
      ∷ middle_layers seed created (i + 1) n

  -- From one layer in front and one behind to two more.
  unfoldable pub generate_image_history : ImageInspect → List ImageHistoryItem
  unfolding middle_layers first_tag_or_id tags_or_null get_cmd_for_image
  generate_image_history img =
      let seed = img.id in
      let created = rt.from_iso img.created / 1000 in
      let num_layers = 2 + deterministic_int rt (append seed "layers") 0 2 in
      record {
        id = append "sha256:" (deterministic_id rt seed "layer-top");
        created = created;
        created_by = get_cmd_for_image (first_tag_or_id img);
        size = 0;
        tags = tags_or_null img.repo_tags;
      }
      ∷ (middle_layers seed created 1 (num_layers - 2)
          ++ record {
            id = "<missing>";
            created = created;
            created_by = "/bin/sh -c #(nop) ADD file:... in /";
            size = deterministic_int rt (append seed "layer-base") 5000000 500000000;
            tags = none;
          }
            ∷ [])

  unfoldable pub list_images : (String → String → Bool) → ParsedFilters → World → Reply
  unfolding project_to_image_list_entry
  list_images regex_test filters w =
      let shown = apply_image_filters regex_test (values w.state.images) filters in
      (json 200 (Body.images (map (project_to_image_list_entry rt w.state.containers) shown)), w)

  image_or_missing : String → Bool → Option ImageInspect → Response Body
  unfolding generate_image_history
  image_or_missing name is_history none = message 404 (append "No such image: " name)
  image_or_missing name is_history (some img) =
      if is_history
      then json 200 (Body.history (generate_image_history img))
      else json 200 (Body.image img)

  -- name.slice(0, -suffix.length), where the name ends with it
  without_suffix : String → String → String
  unfolding ends_with take_text text_size
  without_suffix suffix name =
      if ends_with name suffix then take_text (text_size name - text_size suffix) name else name

  unfoldable pub inspect_image : String → World → Reply
  unfolding without_suffix image_or_missing resolve_image_by_name ends_with
  inspect_image rest w =
      let is_history = ends_with rest "/history" in
      let name =
        if is_history then without_suffix "/history" rest else without_suffix "/json" rest in
      (image_or_missing name is_history (resolve_image_by_name w.state.images name), w)

  unfoldable pub remove_image : String → Dict String → World → Reply
  unfolding without_suffix answer is_flag
  remove_image rest query w =
      answer Body.deletions 200
        (image_remove (without_suffix "/json" rest) (is_flag "force" query) w)

  prunes_all : Option (List String) → Bool
  prunes_all none = false
  prunes_all (some flags) = any (λ v. v == "false") flags

  unfoldable pub prune_images : ParsedFilters → World → Reply
  unfolding prunes_all answer
  prune_images filters w =
      answer (λ report. Body.pruned report.0 report.1) 200
        (image_prune (prunes_all (lookup "dangling" filters)) w)

  -- The names of the registry: a tag, a tag without its version, or the part of a digest before "@".
  unfoldable pub is_registered : String → ImageInspect → Bool
  unfolding before
  is_registered name img =
      any (λ t. t == name || before b':' t == name) img.repo_tags
      || any (λ d. starts_with d (append name "@")) img.repo_digests

  unfoldable pub has_update_available : MockState → String → Bool
  unfolding before
  has_update_available s name =
      any (λ ref. ref == name) s.update_images
      || any (λ ref. before b':' ref == name) s.update_images

  unfoldable pub altered_digest : String → String
  altered_digest digest = append "sha256:" (hex (rt.sha256 (append digest "-updated")))

  -- The part of the first digest behind "@", or the identifier.
  unfoldable pub digest_of : ImageInspect → String
  unfolding has_char after
  digest_of img = elim img.repo_digests [
    | [] ↦ img.id
    | digest ∷ _ ↦ if has_char b'@' digest then after b'@' digest else img.id
  ]

  described : MockState → String → Option ImageInspect → Response Body
  unfolding digest_of altered_digest has_update_available
  described s name none = message 404 (append "No such image: " name)
  described s name (some img) =
      let digest =
        if has_update_available s name then altered_digest (digest_of img) else digest_of img in
      json 200 (Body.descriptor digest img.size)

  unfoldable pub distribution : String → World → Reply
  unfolding described find_image is_registered without_suffix
  distribution rest w =
      let name = without_suffix "/json" rest in
      (described w.state name (find_image (is_registered name) (values w.state.images)), w)
