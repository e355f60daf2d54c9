-- ===== src/MockDocker/Networks/Connection.antt =====
-- mock-docker/src/mutations.ts: `networkConnect` and `networkDisconnect` against the network's table.
use dockge.Prelude.{String, ◌≡◌, true, false, Option, some, eq_refl, arith, Option-cases, inl, inr}
use dockge.Prelude.Dict.{lookup, insert, lookup-insert}
use dockge.MockDocker.Types.{ContainerInspect, NetworkInspect, ok}
use dockge.MockDocker.World.{Env, World}
use dockge.MockDocker.World.Frame.{networks_frame}
use dockge.MockDocker.Membership.{resolve_container, resolve_network, member_of}
use dockge.MockDocker.Membership.Attachment.{lists, has-insert, has-remove}
use dockge.MockDocker.Creation.{list_or_empty, new_endpoint}
use dockge.MockDocker.Networks.{
  set_member, drop_member, connect_found, network_connect, disconnect_found, network_disconnect,
}

lists-drop_member : (id : String) (n : NetworkInspect) → lists id (some (drop_member id n)) ≡ false
unfolding drop_member
lists-drop_member id n = elim (Option-cases n.containers) [
  | inl gone ↦ ground (arith, gone)
  | inr (members, there) ↦ ground (arith, there, has-remove id members)
]

module _ (net_id ctr_id nk ck : String) (n : NetworkInspect) (c : ContainerInspect)
    (w : World) where
  networks-connect_found :
      (env : Env) (address : Option String)
      → (connect_found env address (nk, n) (ck, c) w).1.state.networks
        ≡ insert nk
            (set_member c.id (member_of c (new_endpoint env.runtime c.id n address)) n)
            w.state.networks
  unfolding connect_found
  networks-connect_found env address = simp networks_frame

  networks-disconnect_found :
      (disconnect_found (nk, n) (ck, c) w).1.state.networks
      ≡ insert nk (drop_member c.id n) w.state.networks
  unfolding disconnect_found
  networks-disconnect_found = simp networks_frame

  module _ (net_at : resolve_network w.state net_id ≡ ok (nk, n))
      (ctr_at : resolve_container w.state ctr_id ≡ ok (ck, c)) where
    -- Where both queries resolve, the network that is found lists the container after `networkConnect`, with
    -- or without a given address.
    pub network_connect-lists :
        (env : Env) (address : Option String)
        → lists c.id (lookup nk (network_connect env net_id ctr_id address w).1.state.networks)
          ≡ true
    unfolding network_connect set_member
    network_connect-lists env address =
        let found : network_connect env net_id ctr_id address w
            ≡ connect_found env address (nk, n) (ck, c) w =
          simp (net_at, ctr_at) in
        let member = member_of c (new_endpoint env.runtime c.id n address) in
        rw
          (
            found,
            networks-connect_found env address,
            lookup-insert nk nk (set_member c.id member n) w.state.networks,
            eq_refl nk,
          )
          (has-insert c.id member (list_or_empty n.containers))

    -- Where both queries resolve, the network that is found does not list the container after
    -- `networkDisconnect`.
    pub network_disconnect-lists :
        lists c.id (lookup nk (network_disconnect net_id ctr_id w).1.state.networks) ≡ false
    unfolding network_disconnect
    network_disconnect-lists =
        let found : network_disconnect net_id ctr_id w ≡ disconnect_found (nk, n) (ck, c) w =
          simp (net_at, ctr_at) in
        rw
          (
            found,
            networks-disconnect_found,
            lookup-insert nk nk (drop_member c.id n) w.state.networks,
            eq_refl nk,
          )
          (lists-drop_member c.id n)
