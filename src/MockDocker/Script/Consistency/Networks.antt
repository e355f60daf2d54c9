-- ===== src/MockDocker/Script/Consistency/Networks.antt =====
-- mock-docker/src/mutations.ts: the invariant behind the operations on networks.
use dockge.Prelude.{String, Option, Option-cases, inl, inr}
use dockge.MockDocker.Types.{ContainerInspect, NetworkInspect}
use dockge.MockDocker.World.{Env, World, read_clock}
use dockge.MockDocker.World.Frame.{containers_frame}
use dockge.MockDocker.Membership.{resolve_container, resolve_network}
use dockge.MockDocker.Containers.{MutationResult-cases}
use dockge.MockDocker.Creation.{new_endpoint, set_endpoint}
use dockge.MockDocker.Networks.{
  NetworkCreateConfig, network_create, remove_network_found, network_remove, connect_found,
  network_connect, drop_endpoint, disconnect_found, network_disconnect,
}
use dockge.MockDocker.Script.Consistency.{
  IsConsistent, StandsWell, IsConsistent-same, IsConsistent-insert, resolve-StandsWell,
}

module _ (env : Env) (w : World) (h : IsConsistent w) where
  connect_found-IsConsistent :
      (address : Option String) (net : String × NetworkInspect) (key : String)
      (c : ContainerInspect)
      → StandsWell key c
      → IsConsistent (connect_found env address net (key, c) w).1
  unfolding connect_found
  connect_found-IsConsistent address (nk, net) key c p =
      IsConsistent-insert w _ h key
        (set_endpoint net.name (new_endpoint env.runtime c.id net address) c)
        (simp containers_frame) p

  pub network_connect-IsConsistent :
      (net_id ctr_id : String) (address : Option String)
      → IsConsistent (network_connect env net_id ctr_id address w).1
  unfolding network_connect
  network_connect-IsConsistent net_id ctr_id address =
      elim (MutationResult-cases (resolve_network w.state net_id)) [
        | inl (net, there) ↦ elim (MutationResult-cases (resolve_container w.state ctr_id)) [
          | inl ((key, c), at) ↦
              rw (there, at)
                (connect_found-IsConsistent address net key c
                  (resolve-StandsWell w ctr_id key c h at))
          | inr (_, _, at) ↦ rw (there, at) h
        ]
        | inr (_, _, there) ↦ rw there h
      ]

  drop_endpoint-StandsWell :
      (name key : String) (c : ContainerInspect)
      → StandsWell key c
      → StandsWell key (drop_endpoint name c)
  unfolding drop_endpoint
  drop_endpoint-StandsWell name key c p = elim (Option-cases c.network_settings.networks) [
    | inl nothing ↦ rw (nothing, drop_endpoint) p
    | inr (endpoints, there) ↦ rw (there, drop_endpoint) p
  ]

  disconnect_found-IsConsistent :
      (net : String × NetworkInspect) (key : String) (c : ContainerInspect)
      → StandsWell key c
      → IsConsistent (disconnect_found net (key, c) w).1
  unfolding disconnect_found
  disconnect_found-IsConsistent (nk, net) key c p =
      IsConsistent-insert w _ h key (drop_endpoint net.name c) (simp containers_frame)
        (drop_endpoint-StandsWell net.name key c p)

  pub network_disconnect-IsConsistent :
      (net_id ctr_id : String) → IsConsistent (network_disconnect net_id ctr_id w).1
  unfolding network_disconnect
  network_disconnect-IsConsistent net_id ctr_id =
      elim (MutationResult-cases (resolve_network w.state net_id)) [
        | inl (net, there) ↦ elim (MutationResult-cases (resolve_container w.state ctr_id)) [
          | inl ((key, c), at) ↦
              rw (there, at)
                (disconnect_found-IsConsistent net key c (resolve-StandsWell w ctr_id key c h at))
          | inr (_, _, at) ↦ rw (there, at) h
        ]
        | inr (_, _, there) ↦ rw there h
      ]

  pub network_create-IsConsistent :
      (config : NetworkCreateConfig) → IsConsistent (network_create env config w).1
  unfolding network_create read_clock
  network_create-IsConsistent config = IsConsistent-same w _ h (simp containers_frame)

  pub network_remove-IsConsistent : (id : String) → IsConsistent (network_remove id w).1
  unfolding network_remove remove_network_found
  network_remove-IsConsistent id = elim (MutationResult-cases (resolve_network w.state id)) [
    | inl (found, at) ↦ rw at (IsConsistent-same w _ h (simp containers_frame))
    | inr (_, _, at) ↦ rw at h
  ]
