-- ===== src/Web/Summaries.antt =====
-- web/src/stores/networkStore.ts, web/src/stores/imageStore.ts and web/src/stores/volumeStore.ts: the
-- summaries of the other resources, enriched with the containers that use them.
-- The server always sends a summary's name (an image's id); a missing one is read as the empty text.
use dockge.Prelude.{
  ℕ, String, Bool, false, Option, none, some, List, map, select, length, ltb, or_empty,
}
use dockge.Prelude.Dict.{Dict, lookup, values}
use dockge.Web.EventStore.{DockerResourceEvent}
use dockge.Web.Merging.{spread, merge_map, sort_by_text}
use dockge.Web.ContainerStore.{ContainerStore, by_network, by_image, by_volume}

pub record NetworkSummary : Type 0 where
  pub name : Option String
  pub id : Option String
  pub driver : Option String
  pub scope : Option String
  pub internal : Option Bool
  pub attachable : Option Bool
  pub ingress : Option Bool
  pub labels : Option (Dict String)

pub record ImageSummary : Type 0 where
  pub id : Option String
  pub repo_tags : Option (List String)
  pub size : Option String
  pub created : Option String
  pub dangling : Option Bool

pub record VolumeSummary : Type 0 where
  pub name : Option String
  pub driver : Option String
  pub mountpoint : Option String
  pub labels : Option (Dict String)

pub record NetworkStore : Type 0 where
  pub network_map : Dict NetworkSummary
  pub loading : Bool
  pub last_event : Option DockerResourceEvent

pub record ImageStore : Type 0 where
  pub image_map : Dict ImageSummary
  pub loading : Bool
  pub last_event : Option DockerResourceEvent

pub record VolumeStore : Type 0 where
  pub volume_map : Dict VolumeSummary
  pub loading : Bool
  pub last_event : Option DockerResourceEvent

unfoldable pub merge_network : NetworkSummary → NetworkSummary → NetworkSummary
unfolding spread
merge_network existing value = record {
  name = spread existing.name value.name;
  id = spread existing.id value.id;
  driver = spread existing.driver value.driver;
  scope = spread existing.scope value.scope;
  internal = spread existing.internal value.internal;
  attachable = spread existing.attachable value.attachable;
  ingress = spread existing.ingress value.ingress;
  labels = spread existing.labels value.labels;
}

unfoldable pub merge_networks : Dict (Option NetworkSummary) → NetworkStore → NetworkStore
unfolding merge_map
merge_networks changes s = record s {
  network_map = merge_map merge_network changes s.network_map;
  loading = false;
}

unfoldable pub merge_image : ImageSummary → ImageSummary → ImageSummary
unfolding spread
merge_image existing value = record {
  id = spread existing.id value.id;
  repo_tags = spread existing.repo_tags value.repo_tags;
  size = spread existing.size value.size;
  created = spread existing.created value.created;
  dangling = spread existing.dangling value.dangling;
}

unfoldable pub merge_images : Dict (Option ImageSummary) → ImageStore → ImageStore
unfolding merge_map
merge_images changes s = record s {
  image_map = merge_map merge_image changes s.image_map;
  loading = false;
}

unfoldable pub merge_volume : VolumeSummary → VolumeSummary → VolumeSummary
unfolding spread
merge_volume existing value = record {
  name = spread existing.name value.name;
  driver = spread existing.driver value.driver;
  mountpoint = spread existing.mountpoint value.mountpoint;
  labels = spread existing.labels value.labels;
}

unfoldable pub merge_volumes : Dict (Option VolumeSummary) → VolumeStore → VolumeStore
unfolding merge_map
merge_volumes changes s = record s {
  volume_map = merge_map merge_volume changes s.volume_map;
  loading = false;
}

-- labels?.["com.docker.compose.project"] || ""
unfoldable pub project_of : Option (Dict String) → String
project_of none = ""
project_of (some labels) = or_empty (lookup "com.docker.compose.project" labels)

-- What the enriched arrays add to a summary.
pub record Usage : Type 0 where
  pub in_use : Bool
  pub container_count : ℕ
  pub stack_name : String

unfoldable pub networks_with_status : ContainerStore → NetworkStore → List (NetworkSummary × Usage)
unfolding project_of
networks_with_status cs s =
    map
      (λ n.
        let using = by_network (or_empty n.name) cs in
        (
          n,
          record {
            in_use = ltb 0 (length using);
            container_count = length using;
            stack_name = project_of n.labels;
          },
        ))
      (sort_by_text (λ n. or_empty n.name) (values s.network_map))

unfoldable pub images_with_status : ContainerStore → ImageStore → List (ImageSummary × (ℕ × Bool))
images_with_status cs s =
    map
      (λ img.
        let using = by_image (or_empty img.id) cs in (img, (length using, ltb 0 (length using))))
      (sort_by_text (λ img. or_empty img.id) (values s.image_map))

is_dangling : Option Bool → Bool
is_dangling none = false
is_dangling (some b) = b

unfoldable pub dangling_images : ImageStore → List ImageSummary
unfolding is_dangling
dangling_images s =
    select (λ img. is_dangling img.dangling)
      (sort_by_text (λ img. or_empty img.id) (values s.image_map))

unfoldable pub volumes_with_status : ContainerStore → VolumeStore → List (VolumeSummary × Usage)
unfolding project_of
volumes_with_status cs s =
    map
      (λ v.
        let using = by_volume (or_empty v.name) cs in
        (
          v,
          record {
            in_use = ltb 0 (length using);
            container_count = length using;
            stack_name = project_of v.labels;
          },
        ))
      (sort_by_text (λ v. or_empty v.name) (values s.volume_map))
