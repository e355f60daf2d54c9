-- ===== src/MockDocker/Membership/Attachment.antt =====
-- mock-docker/src/mutations.ts: which networks list a container behind `addContainerToNetworks`,
-- `removeContainerFromNetworks` and the operations that call them.
use dockge.Prelude.{
  String, ◌≡◌, refl, ap, ◌∙◌, Bool, true, false, Option, none, some, [], ◌∷◌, any, not, ◌&&◌, ◌==◌,
  arith, eq_iff, eq_refl, Bool-cases, Option-cases, inl, inr, if◌then◌else◌,
}
use dockge.Prelude.Dict.{Dict, lookup, insert, remove, has, values, lookup-insert}
use dockge.MockDocker.Types.{ContainerInspect, NetworkInspect, NetworkContainer, EndpointSettings}
use dockge.MockDocker.State.{MockState}
use dockge.MockDocker.Membership.{
  on_members, update_members, for_endpoints, endpoints_of, add_container_to_networks,
  remove_container_from_networks, member_of,
}

module _ {V : Type 0} where
  pub has-insert : (k : String) (v : V) (m : Dict V) → has k (insert k v m) ≡ true
  unfolding has insert
  has-insert k v [] = rw (eq_refl k) refl
  has-insert k v ((j, w) ∷ m) = ground (arith, eq_refl k, has-insert k v m)

  pub has-remove : (k : String) (m : Dict V) → has k (remove k m) ≡ false
  unfolding has remove
  has-remove k [] = refl
  has-remove k ((j, w) ∷ m) = ground (arith, has-remove k m)

-- A network that is there has a table of its containers.
abbrev pub keeps_members : Option NetworkInspect → Bool
keeps_members none = false
keeps_members (some n) = elim n.containers [ none ↦ false | some members ↦ true ]

-- The network lists the container.
abbrev pub lists : String → Option NetworkInspect → Bool
lists id none = false
lists id (some n) = elim n.containers [ none ↦ false | some members ↦ has id members ]

-- The container has an endpoint in the network.
abbrev pub is_connected : String → Dict EndpointSettings → Bool
is_connected key endpoints = any (λ e. e.network_id == key) (values endpoints)

module _ (g : Dict NetworkContainer → Dict NetworkContainer) where
  abbrev with_members : Option NetworkInspect → Option NetworkInspect
  with_members none = none
  with_members (some n) = elim n.containers [
    | none ↦ some n
    | some members ↦ some (record n { containers = some (g members) })
  ]

  lookup-on_members :
      (o : Option NetworkInspect) (k key : String) (ns : Dict NetworkInspect)
      → lookup k ns ≡ o
      → lookup key (on_members g o k ns) ≡ (if k == key then with_members o else lookup key ns)
  unfolding on_members
  lookup-on_members none k key ns e = ground (arith, eq_iff k key)
  lookup-on_members (some n) k key ns e = elim (Option-cases n.containers) [
    | inl gone ↦ simp gone (ground (arith, eq_iff k key))
    | inr (members, there) ↦
        simp there (lookup-insert k key (record n { containers = some (g members) }) ns)
  ]

  keeps_members-with :
      (o : Option NetworkInspect) → keeps_members (with_members o) ≡ keeps_members o
  keeps_members-with none = refl
  keeps_members-with (some n) = elim (Option-cases n.containers) [
    | inl gone ↦ simp gone
    | inr (members, there) ↦ simp there
  ]

  lists-with :
      (id : String) (b : Bool) (o : Option NetworkInspect)
      → ((m : Dict NetworkContainer) → has id (g m) ≡ b)
      → lists id (with_members o) ≡ keeps_members o && b
  lists-with id b none settles = refl
  lists-with id b (some n) settles = elim (Option-cases n.containers) [
    | inl gone ↦ simp gone
    | inr (members, there) ↦ simp (there, settles members)
  ]

-- A change of the tables that settles whether a container is listed.
module _ (id : String) (b : Bool)
    (f : EndpointSettings → Dict NetworkContainer → Dict NetworkContainer)
    (settles : (e : EndpointSettings) (m : Dict NetworkContainer) → has id (f e m) ≡ b) where
  keeps_members-update :
      (e : EndpointSettings) (k key : String) (ns : Dict NetworkInspect)
      → keeps_members (lookup key (update_members (f e) k ns)) ≡ keeps_members (lookup key ns)
  unfolding update_members on_members
  keeps_members-update e k key ns =
      ap keeps_members (lookup-on_members (f e) (lookup k ns) k key ns refl)
      ∙ elim (Bool-cases (k == key)) [
        | inl same ↦ rw (same, keeps_members-with (f e) (lookup k ns), (eq_iff k key).0 same) refl
        | inr other ↦ rw other refl
      ]

  lists-update :
      (e : EndpointSettings) (k key : String) (ns : Dict NetworkInspect)
      → lists id (lookup key (update_members (f e) k ns))
        ≡ (if k == key then keeps_members (lookup key ns) && b else lists id (lookup key ns))
  unfolding update_members on_members
  lists-update e k key ns =
      ap (lists id) (lookup-on_members (f e) (lookup k ns) k key ns refl)
      ∙ elim (Bool-cases (k == key)) [
        | inl same ↦
            rw (same, lists-with (f e) id b (lookup k ns) (settles e), (eq_iff k key).0 same) refl
        | inr other ↦ rw other refl
      ]

  lists-for_endpoints :
      (key : String) (es : Dict EndpointSettings) (ns : Dict NetworkInspect)
      → lists id (lookup key (for_endpoints f es ns)) ≡ (
          if is_connected key es
          then keeps_members (lookup key ns) && b
          else lists id (lookup key ns))
  unfolding for_endpoints
  lists-for_endpoints key [] ns = refl
  lists-for_endpoints key ((name, e) ∷ es) ns =
      lists-for_endpoints key es (update_members (f e) e.network_id ns)
      ∙ rw (keeps_members-update e e.network_id key ns, lists-update e e.network_id key ns)
          (ground arith)

pub lists-add :
    (c : ContainerInspect) (s : MockState) (key : String)
    → lists c.id (lookup key (add_container_to_networks c s).networks) ≡ (
        if is_connected key (endpoints_of c)
        then keeps_members (lookup key s.networks)
        else lists c.id (lookup key s.networks))
unfolding add_container_to_networks
lists-add c s key =
    lists-for_endpoints c.id true (λ e. insert c.id (member_of c e))
      (λ e m. has-insert c.id (member_of c e) m) key (endpoints_of c) s.networks
    ∙ ground arith

pub lists-remove :
    (c : ContainerInspect) (s : MockState) (key : String)
    → lists c.id (lookup key (remove_container_from_networks c s).networks)
      ≡ not (is_connected key (endpoints_of c)) && lists c.id (lookup key s.networks)
unfolding remove_container_from_networks
lists-remove c s key =
    lists-for_endpoints c.id false (λ e. remove c.id) (λ e m. has-remove c.id m) key
      (endpoints_of c) s.networks
    ∙ ground arith
