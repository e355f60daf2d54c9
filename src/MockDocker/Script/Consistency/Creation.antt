-- ===== src/MockDocker/Script/Consistency/Creation.antt =====
-- mock-docker/src/mutations.ts: the invariant behind `containerCreate`.
use dockge.Prelude.{
  String, refl, [], ◌∷◌, ◌==◌, Bool-cases, inl, inr, not, ◌&&◌, truthy, or_default,
}
use dockge.Prelude.Dict.{Dict}
use dockge.MockDocker.Types.{ContainerInspect, NetworkInspect}
use dockge.MockDocker.Runtime.{Runtime}
use dockge.MockDocker.Deterministic.{container_id_from_labels}
use dockge.MockDocker.World.{Env, World, read_clock, put_container}
use dockge.MockDocker.World.Frame.{containers_frame}
use dockge.MockDocker.Disposal.{with_slash}
use dockge.MockDocker.Creation.{
  list_or_empty, ContainerCreateConfig, new_container, join_network, connect_default, create_named,
  name_config, container_create,
}
use dockge.MockDocker.Script.Consistency.{
  IsConsistent, StandsWell, IsConsistent-same, IsConsistent-insert,
}

-- Joining a network keeps the identifier and the state of a container.
join_network-StandsWell :
    (rt : Runtime) (mode k : String) (c : ContainerInspect) (networks : Dict NetworkInspect)
    → StandsWell k c
    → StandsWell k (join_network rt mode c networks)
unfolding join_network
join_network-StandsWell rt mode k c [] p = p
join_network-StandsWell rt mode k c ((_, net) ∷ networks) p = elim (Bool-cases (net.name == mode)) [
  | inl same ↦ rw same p
  | inr other ↦ rw other (join_network-StandsWell rt mode k c networks p)
]

connect_default-StandsWell :
    (rt : Runtime) (k : String) (c : ContainerInspect) (networks : Dict NetworkInspect)
    → StandsWell k c
    → StandsWell k (connect_default rt c networks)
unfolding connect_default
connect_default-StandsWell rt k c networks p =
    let mode = or_default c.host_config.network_mode "default" in
    elim (Bool-cases (not (mode == "none") && not (mode == "host"))) [
      | inl joins ↦ rw joins (join_network-StandsWell rt mode k c networks p)
      | inr stays ↦ rw stays p
    ]

new_container-StandsWell :
    (rt : Runtime) (id name now : String) (config : ContainerCreateConfig)
    → StandsWell id (new_container rt id name now config)
unfolding new_container
new_container-StandsWell rt id name now config = (refl, (refl, λ e. absurd (cc (e))))

-- The container is entered twice, the second time with its endpoint.
create_named-IsConsistent :
    (env : Env) (now : String) (named : String × ContainerCreateConfig) (w : World)
    → IsConsistent w
    → IsConsistent (create_named env now named w).1
unfolding create_named
create_named-IsConsistent env now (name, config) w h =
    let rt = env.runtime in
    let id = container_id_from_labels rt (list_or_empty config.labels) (with_slash name) in
    let c = new_container rt id (with_slash name) now config in
    let fresh = new_container-StandsWell rt id (with_slash name) now config in
    let w₁ = put_container id c w in
    IsConsistent-insert w₁ _ (IsConsistent-insert w w₁ h id c refl fresh) id
      (connect_default rt c w₁.state.networks) (simp containers_frame)
      (connect_default-StandsWell rt id c w₁.state.networks fresh)

module _ (env : Env) (w : World) (h : IsConsistent w) where
  pub container_create-IsConsistent :
      (config : ContainerCreateConfig) → IsConsistent (container_create env config w).1
  unfolding container_create
  container_create-IsConsistent config =
      let (t, w₁) = read_clock w in
      let timed = IsConsistent-same w w₁ h (unfold read_clock in refl) in
      elim (Bool-cases (not (truthy config.image))) [
        | inl none_given ↦ rw none_given h
        | inr given ↦ rw given (
            create_named-IsConsistent env (env.runtime.to_iso t) (name_config env.runtime config) w₁
              timed)
      ]
