-- ===== src/MockDocker/Filters.antt =====
-- mock-docker/src/filters.ts: the filters of the list endpoints, as a map from a key to its values.
-- `regex_test pattern s` is `new RegExp(pattern).test(s)`, of the JavaScript engine.
pub mod Laws
use dockge.Prelude.{
  ℕ, suc, String, Bool, true, false, Option, none, some, List, [], ◌∷◌, ◌++◌, any, select, not,
  ◌&&◌, ◌||◌, ◌==◌, starts_with, contains_text, before, after, second_part, drop_slash, truthy,
  or_empty, escape_pattern, anchored, if◌then◌else◌,
}
use dockge.Prelude.Dict.{Dict, lookup, has, values}
use dockge.MockDocker.Types.{
  ContainerInspect, NetworkInspect, VolumeInspect, ImageInspect, DockerEvent, MountPoint,
  EndpointSettings,
}

abbrev pub ParsedFilters : Type 0
ParsedFilters = Dict (List String)

-- o === s, for an option that may be undefined
is_value : Option String → String → Bool
is_value none s = false
is_value (some t) s = t == s

-- x ?? {}, and x ?? []
unfoldable pub or_nothing : {A : Type 0} → Option (List A) → List A
or_nothing none = []
or_nothing (some xs) = xs

is_given : {A : Type 0} → Option A → Bool
is_given none = false
is_given (some x) = true

unfoldable pub match_label : Dict String → String → Bool
unfolding is_value is_given
match_label labels filter =
    if is_given (second_part b'=' filter)
    then is_value (lookup (before b'=' filter) labels) (after b'=' filter)
    else has filter labels

unfoldable pub match_any : List String → (String → Bool) → Bool
match_any vs p = any p vs

unfoldable pub match_ancestor : ContainerInspect → String → Bool
match_ancestor c v =
    let config_image = or_empty c.config.image in
    let name = before b':' config_image in
    config_image == v || (c.image == v || (starts_with c.image v || (truthy name && name == v)))

is_attached : String → Dict EndpointSettings → Bool
is_attached v [] = false
is_attached v ((name, endpoint) ∷ nets) =
    name == v || (endpoint.network_id == v || is_attached v nets)

unfoldable pub has_mount : String → List MountPoint → Bool
unfolding is_value
has_mount v ms = any (λ m. is_value m.name v) ms

-- The switch of applyContainerFilters on one key.
unfoldable pub container_matches : ContainerInspect → String → List String → Bool
unfolding match_any is_attached
container_matches c key vs =
    if key == "id"
    then match_any vs (starts_with c.id)
    else if key == "name"
    then match_any vs (λ v. contains_text (drop_slash c.name) (drop_slash v))
    else if key == "label"
    then match_any vs (match_label (or_nothing c.config.labels))
    else if key == "status"
    then match_any vs (λ v. c.state.status == v)
    else if key == "ancestor"
    then match_any vs (match_ancestor c)
    else if key == "network"
    then match_any vs (λ v. is_attached v (or_nothing c.network_settings.networks))
    else if key == "volume"
    then match_any vs (λ v. has_mount v c.mounts)
    else true

-- n has one of the names of BUILTIN_NAMES
unfoldable pub is_builtin : NetworkInspect → Bool
is_builtin n = n.name == "bridge" || (n.name == "host" || n.name == "none")

unfoldable pub is_type : NetworkInspect → String → Bool
unfolding is_builtin
is_type n v =
    if v == "builtin" then is_builtin n else if v == "custom" then not (is_builtin n) else false

unfoldable pub network_matches : NetworkInspect → String → List String → Bool
unfolding match_any
network_matches n key vs =
    if key == "id"
    then match_any vs (starts_with n.id)
    else if key == "name"
    then match_any vs (λ v. n.name == v)
    else if key == "label"
    then match_any vs (match_label (or_nothing n.labels))
    else if key == "driver"
    then match_any vs (λ v. n.driver == v)
    else if key == "scope"
    then match_any vs (λ v. n.scope == v)
    else if key == "type"
    then match_any vs (is_type n)
    else true

unfoldable pub is_volume_in_use : String → List ContainerInspect → Bool
is_volume_in_use name cs = any (λ c. has_mount name c.mounts) cs

-- v === "true" ? dangling : !dangling
unfoldable pub agrees : String → Bool → Bool
agrees v dangling = if v == "true" then dangling else not dangling

is_dangling_volume : Option (Dict ContainerInspect) → VolumeInspect → String → Bool
unfolding agrees
is_dangling_volume none vol v = true
is_dangling_volume (some cs) vol v = agrees v (not (is_volume_in_use vol.name (values cs)))

unfoldable pub volume_matches :
    Option (Dict ContainerInspect) → VolumeInspect → String → List String → Bool
unfolding match_any is_dangling_volume
volume_matches cs vol key vs =
    if key == "name"
    then match_any vs (λ v. vol.name == v)
    else if key == "label"
    then match_any vs (match_label (or_nothing vol.labels))
    else if key == "driver"
    then match_any vs (λ v. vol.driver == v)
    else if key == "dangling"
    then match_any vs (is_dangling_volume cs vol)
    else true

unfoldable pub glob_match : (String → String → Bool) → String → String → Bool
glob_match regex_test s pattern = regex_test (anchored (escape_pattern pattern)) s

is_untagged : List String → Bool
is_untagged [] = true
is_untagged (t ∷ ts) = false

unfoldable pub image_matches : (String → String → Bool) → ImageInspect → String → List String → Bool
unfolding match_any is_untagged
image_matches regex_test img key vs =
    if key == "label"
    then match_any vs (match_label (or_nothing img.labels))
    else if key == "dangling"
    then match_any vs (λ v. agrees v (is_untagged img.repo_tags))
    else if key == "reference"
    then match_any vs (λ p. any (λ tag. glob_match regex_test tag p) img.repo_tags)
    else true

unfoldable pub event_matches : DockerEvent → String → List String → Bool
unfolding match_any
event_matches e key vs =
    if key == "type"
    then match_any vs (λ v. e.kind == v)
    else if key == "event"
    then match_any vs (λ v. e.action == v)
    else if key == "container" || (key == "image" || (key == "network" || key == "volume"))
    then match_any vs (λ v. e.actor_id == v || starts_with e.actor_id v)
    else if key == "label"
    then match_any vs (match_label e.attributes)
    else true

-- The loop over the keys, with its early return.
unfoldable pub passes : (String → List String → Bool) → ParsedFilters → Bool
passes matches [] = true
passes matches ((key, vs) ∷ filters) =
    let rest = passes matches filters in if matches key vs then rest else false

unfoldable pub apply_filters :
    {A : Type 0} → (A → String → List String → Bool) → List A → ParsedFilters → List A
unfolding passes
apply_filters matches xs [] = xs
apply_filters matches xs filters = select (λ x. passes (matches x) filters) xs

unfoldable pub apply_container_filters :
    List ContainerInspect → ParsedFilters → List ContainerInspect
unfolding apply_filters
apply_container_filters cs filters = apply_filters container_matches cs filters

unfoldable pub apply_network_filters : List NetworkInspect → ParsedFilters → List NetworkInspect
unfolding apply_filters
apply_network_filters ns filters = apply_filters network_matches ns filters

unfoldable pub apply_volume_filters :
    Option (Dict ContainerInspect) → List VolumeInspect → ParsedFilters → List VolumeInspect
unfolding apply_filters
apply_volume_filters cs vols filters = apply_filters (volume_matches cs) vols filters

unfoldable pub apply_image_filters :
    (String → String → Bool) → List ImageInspect → ParsedFilters → List ImageInspect
unfolding apply_filters
apply_image_filters regex_test imgs filters = apply_filters (image_matches regex_test) imgs filters

unfoldable pub apply_event_filters : DockerEvent → ParsedFilters → Bool
unfolding passes
apply_event_filters e filters = passes (event_matches e) filters
