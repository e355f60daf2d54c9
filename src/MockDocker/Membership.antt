-- ===== src/MockDocker/Membership.antt =====
-- The helpers of mock-docker/src/mutations.ts that resolve a container, a network or an image, and
-- those that enter a container in its networks and take it out again.
pub mod Resolution
pub mod Attachment
use Prim.Native.String.{◌++◌ as append}
use dockge.Prelude.{
  ℕ, String, Bool, true, false, Option, none, some, List, [], ◌∷◌, any, ◌==◌, starts_with, truthy,
  or_empty, drop_slash, if◌then◌else◌,
}
use dockge.Prelude.Numbers.{show_number}
use dockge.Prelude.Dict.{Dict, lookup, insert, remove}
use dockge.MockDocker.Types.{
  ContainerInspect, NetworkInspect, ImageInspect, NetworkContainer, EndpointSettings,
  MutationResult, ok, fail,
}
use dockge.MockDocker.State.{MockState}
use dockge.MockDocker.Names.{ResolveResult, found, ambiguous, missing, resolve_by_id_or_name}

resolved {ℓ} : {A : Type ℓ} → String → ResolveResult A → MutationResult (String × A)
resolved message (found key item) = ok (key, item)
resolved message _ = fail 404 message

unfoldable pub resolve_container : MockState → String → MutationResult (String × ContainerInspect)
unfolding resolved
resolve_container s id =
    resolved (append "No such container: " id)
      (resolve_by_id_or_name (λ c. c.name) (λ c. c.id) s.containers id)

unfoldable pub resolve_network : MockState → String → MutationResult (String × NetworkInspect)
unfolding resolved
resolve_network s id =
    resolved (append "network " (append id " not found"))
      (resolve_by_id_or_name (λ n. n.name) (λ n. n.id) s.networks id)

-- i.RepoTags[0] || ""
first_tag : ImageInspect → String
first_tag i = elim i.repo_tags [ [] ↦ "" | tag ∷ _ ↦ tag ]

-- The scan of the tags.
find_tag : String → Dict ImageInspect → ResolveResult ImageInspect
find_tag tag [] = missing
find_tag tag ((k, img) ∷ images) =
    if any (λ t. t == tag) img.repo_tags then found k img else find_tag tag images

or_try {ℓ} : {A : Type ℓ} → ResolveResult A → ResolveResult A → ResolveResult A
or_try (found k a) r = found k a
or_try _ r = r

unfoldable pub resolve_image : MockState → String → MutationResult (String × ImageInspect)
unfolding resolved first_tag find_tag or_try
resolve_image s query =
    let by = λ (q : String). resolve_by_id_or_name first_tag (λ i. i.id) s.images q in
    let with_prefix =
      if starts_with query "sha256:" then missing else by (append "sha256:" query) in
    resolved (append "No such image: " query)
      (or_try (by query) (or_try with_prefix (find_tag query s.images)))

-- `${IPAddress}/${IPPrefixLen}`, or "" without an address
unfoldable pub ipv4_entry : EndpointSettings → String
unfolding truthy show_number
ipv4_entry e =
    if truthy e.ip_address
    then append e.ip_address (append "/" (show_number e.ip_prefix_len))
    else ""

unfoldable pub member_of : ContainerInspect → EndpointSettings → NetworkContainer
unfolding ipv4_entry or_empty drop_slash
member_of c e = record {
  name = drop_slash c.name;
  endpoint_id = e.endpoint_id;
  mac_address = or_empty e.mac_address;
  ipv4_address = ipv4_entry e;
}

-- network.Containers, where the network is there and has such a table, changed by f.
unfoldable pub on_members :
    (Dict NetworkContainer → Dict NetworkContainer)
    → Option NetworkInspect
    → String
    → Dict NetworkInspect
    → Dict NetworkInspect
on_members f none key networks = networks
on_members f (some n) key networks = elim n.containers [
  | none ↦ networks
  | some members ↦ insert key (record n { containers = some (f members) }) networks
]

unfoldable pub update_members :
    (Dict NetworkContainer → Dict NetworkContainer)
    → String
    → Dict NetworkInspect
    → Dict NetworkInspect
unfolding on_members
update_members f key networks = on_members f (lookup key networks) key networks

-- The loop over the endpoints of a container.
unfoldable pub for_endpoints :
    (EndpointSettings → Dict NetworkContainer → Dict NetworkContainer)
    → Dict EndpointSettings
    → Dict NetworkInspect
    → Dict NetworkInspect
unfolding update_members
for_endpoints f [] networks = networks
for_endpoints f ((name, e) ∷ endpoints) networks =
    for_endpoints f endpoints (update_members (f e) e.network_id networks)

abbrev pub endpoints_of : ContainerInspect → Dict EndpointSettings
endpoints_of c = elim c.network_settings.networks [ none ↦ [] | some endpoints ↦ endpoints ]

unfoldable pub add_container_to_networks : ContainerInspect → MockState → MockState
unfolding for_endpoints member_of
add_container_to_networks c s = record s {
  networks = for_endpoints (λ e. insert c.id (member_of c e)) (endpoints_of c) s.networks;
}

unfoldable pub remove_container_from_networks : ContainerInspect → MockState → MockState
unfolding for_endpoints
remove_container_from_networks c s = record s {
  networks = for_endpoints (λ e. remove c.id) (endpoints_of c) s.networks;
}
