-- ===== src/MockDocker/Membership/Resolution.antt =====
-- The resolution of a container through the table, and after a change of the one that is found.
use Prim.Native.String.{◌++◌ as append}
use dockge.Prelude.{String, ◌≡◌, ap, some, arith}
use dockge.Prelude.Dict.{Dict, lookup, insert, IsKeyed}
use dockge.MockDocker.Types.{ContainerInspect, ok}
use dockge.MockDocker.State.{MockState}
use dockge.MockDocker.Names.{ResolveResult, found, ambiguous, missing, resolve_by_id_or_name}
use dockge.MockDocker.Names.Laws.{resolve-found}
use dockge.MockDocker.Names.Stability.{resolve-insert}
use dockge.MockDocker.Membership.{resolved, resolve_container}

resolved-eq-ok :
    {A : Type 0} (message : String) (r : ResolveResult A) (key : String) (a : A)
    → resolved message r ≡ ok (key, a)
    → r ≡ found key a
unfolding resolved
resolved-eq-ok message (found k b) key a e = ground arith
resolved-eq-ok message ambiguous key a e = cc
resolved-eq-ok message missing key a e = cc

-- The search behind `resolve_container`.
abbrev search_containers : Dict ContainerInspect → String → ResolveResult ContainerInspect
search_containers = resolve_by_id_or_name (λ c. c.name) (λ c. c.id)

module _ (s : MockState) (id key : String) (c : ContainerInspect)
    (at : resolve_container s id ≡ ok (key, c)) where
  search_found : search_containers s.containers id ≡ found key c
  unfolding resolve_container
  search_found = resolved-eq-ok _ _ key c at

  -- The container that is resolved stands in the table.
  pub lookup-resolve_container : IsKeyed s.containers → lookup key s.containers ≡ some c
  lookup-resolve_container keyed = (resolve-found _ _ s.containers id keyed search_found).0

  -- After a change that keeps its name and identifier, the same query resolves to it.
  pub resolve_container-insert :
      (s' : MockState) (c' : ContainerInspect)
      → IsKeyed s.containers
      → s'.containers ≡ insert key c' s.containers
      → c'.name ≡ c.name
      → c'.id ≡ c.id
      → resolve_container s' id ≡ ok (key, c')
  unfolding resolve_container resolved
  resolve_container-insert s' c' keyed e same_name same_id = rw e (
      ap (resolved (append "No such container: " id)) (
        resolve-insert (λ c. c.name) (λ c. c.id) key c c' same_name same_id s.containers id keyed
          (lookup-resolve_container keyed) search_found))
