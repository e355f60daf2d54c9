-- ===== src/MockDocker/Script/Consistency/Containers.antt =====
-- mock-docker/src/mutations.ts: the invariant behind operating, removing and renaming containers.
use dockge.Prelude.{String, ◌≡◌, refl, ap, Bool, arith, inl, inr}
use dockge.MockDocker.Types.{ContainerInspect, MutationResult, ok, fail}
use dockge.MockDocker.World.{Env, World, current}
use dockge.MockDocker.World.Frame.{containers_frame}
use dockge.MockDocker.Membership.{resolve_container}
use dockge.MockDocker.Containers.{Outcome, MutationResult-cases, container_stop}
use dockge.MockDocker.Disposal.{
  with_slash, remove_found, container_remove, rename_found, container_rename,
}
use dockge.MockDocker.Lifecycle.{Operation, stop, step, phase_of, perform}
use dockge.MockDocker.Lifecycle.Refinement.{perform-Follows, perform_unresolved}
use dockge.MockDocker.Script.Consistency.{
  IsConsistent, StandsWell, IsConsistent-same, IsConsistent-insert, IsConsistent-remove,
  IsConsistent-Follows, resolve-StandsWell, step-Allowed,
}

pub perform-IsConsistent :
    (env : Env) (op : Operation) (id : String) (w : World)
    → IsConsistent w
    → IsConsistent (perform env op id w).1
perform-IsConsistent env op id w h = go (resolve_container w.state id) refl
  where
    go :
        (r : MutationResult (String × ContainerInspect))
        → resolve_container w.state id ≡ r
        → IsConsistent (perform env op id w).1
    go (fail code message) at = IsConsistent-same w _ h (
        ap (λ (o : Outcome Unit). o.1.state.containers)
          (perform_unresolved env op id w code message at))
    go (ok (key, c)) at =
        let next = step op (phase_of c.state) in
        IsConsistent-Follows w _ h key c next (perform env op id w)
          (resolve-StandsWell w id key c h at).0 refl (step-Allowed op (phase_of c.state))
          (perform-Follows env op id key c w h.keyed at)

remove_found-IsConsistent :
    (w : World) (found : String × ContainerInspect)
    → IsConsistent w
    → IsConsistent (remove_found found w).1
unfolding remove_found
remove_found-IsConsistent w (key, c) h = IsConsistent-remove w _ h c.id (simp containers_frame)

module _ (env : Env) (w : World) (h : IsConsistent w) where
  pub container_remove-IsConsistent :
      (id : String) (force : Bool) → IsConsistent (container_remove env id force w).1
  unfolding container_remove
  container_remove-IsConsistent id force =
      elim (MutationResult-cases (resolve_container w.state id)) [
        | inl (found, at) ↦
            let stopped : IsConsistent (container_stop env found.1.id w).1 =
              unfold perform in perform-IsConsistent env stop found.1.id w h in
            rw at (
              ground (
                arith,
                remove_found-IsConsistent (container_stop env found.1.id w).1
                    (found.0, current found.0 found.1 (container_stop env found.1.id w).1) stopped,
                remove_found-IsConsistent w found h,
              ))
        | inr (_, _, at) ↦ rw at h
      ]

  rename_found-IsConsistent :
      (name key : String) (c : ContainerInspect)
      → StandsWell key c
      → IsConsistent (rename_found name (key, c) w).1
  unfolding rename_found
  rename_found-IsConsistent name key c p =
      IsConsistent-insert w _ h key (record c { name = with_slash name }) (simp containers_frame) p

  pub container_rename-IsConsistent :
      (id name : String) → IsConsistent (container_rename id name w).1
  unfolding container_rename
  container_rename-IsConsistent id name =
      elim (MutationResult-cases (resolve_container w.state id)) [
        | inl ((key, c), at) ↦
            rw at (rename_found-IsConsistent name key c (resolve-StandsWell w id key c h at))
        | inr (_, _, at) ↦ rw at h
      ]
