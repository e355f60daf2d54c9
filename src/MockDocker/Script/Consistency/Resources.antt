-- ===== src/MockDocker/Script/Consistency/Resources.antt =====
-- mock-docker/src/mutations.ts: the invariant behind the operations on volumes, sessions and images.
use dockge.Prelude.{
  String, ◌≡◌, refl, ◌∙◌, Bool, true, false, Option, none, some, List, [], ◌∷◌, arith, Bool-cases,
  Option-cases, inl, inr, not, ◌&&◌, ◌||◌,
}
use dockge.Prelude.Dict.{values, lookup}
use dockge.MockDocker.Types.{ContainerInspect, ImageInspect}
use dockge.MockDocker.World.{Env, World, read_clock}
use dockge.MockDocker.World.Frame.{containers_frame, containers-publish}
use dockge.MockDocker.Membership.{resolve_container, resolve_image}
use dockge.MockDocker.Containers.{MutationResult-cases}
use dockge.MockDocker.Resources.{
  VolumeCreateConfig, volume_create, remove_volume, volume_remove, untag_all, delete_image,
  remove_image_unless, image_remove, prune_images, is_used, is_tagged, image_prune,
  ExecCreateConfig, exec_id_of, track_exec, create_exec_found, exec_create,
}
use dockge.MockDocker.Script.Consistency.{
  IsConsistent, StandsWell, IsConsistent-same, IsConsistent-insert, resolve-StandsWell,
}

module _ (env : Env) (w : World) (h : IsConsistent w) where
  pub volume_create-IsConsistent :
      (config : VolumeCreateConfig) → IsConsistent (volume_create env config w).1
  unfolding volume_create read_clock
  volume_create-IsConsistent config = IsConsistent-same w _ h (simp containers_frame)

  pub volume_remove-IsConsistent : (name : String) → IsConsistent (volume_remove name w).1
  unfolding volume_remove remove_volume
  volume_remove-IsConsistent name = elim (Option-cases (lookup name w.state.volumes)) [
    | inl nothing ↦ rw (nothing, remove_volume) h
    | inr (vol, there) ↦ rw there (IsConsistent-same w _ h (simp containers_frame))
  ]

  create_exec_found-IsConsistent :
      (config : ExecCreateConfig) (key : String) (c : ContainerInspect)
      → StandsWell key c
      → IsConsistent (create_exec_found env config (key, c) w).1
  unfolding create_exec_found read_clock
  create_exec_found-IsConsistent config key c p =
      IsConsistent-insert w _ h key (track_exec (exec_id_of env config c (read_clock w).0) c) refl
        (unfold track_exec in p)

  pub exec_create-IsConsistent :
      (id : String) (config : ExecCreateConfig) → IsConsistent (exec_create env id config w).1
  unfolding exec_create
  exec_create-IsConsistent id config = elim (MutationResult-cases (resolve_container w.state id)) [
    | inl (found, at) ↦ rw at (
        ground (
          arith,
          create_exec_found-IsConsistent config found.0 found.1
              (resolve-StandsWell w id found.0 found.1 h at),
        ))
    | inr (_, _, at) ↦ rw at h
  ]

containers-untag_all :
    (id : String) (tags : List String) (w : World)
    → (untag_all id tags w).state.containers ≡ w.state.containers
unfolding untag_all
containers-untag_all id [] w = refl
containers-untag_all id (tag ∷ tags) w =
    containers-untag_all id tags _ ∙ containers-publish _ _ _ _ w

containers-delete_image :
    (img : ImageInspect) (w : World) → (delete_image img w).state.containers ≡ w.state.containers
unfolding delete_image
containers-delete_image img w = simp (containers-publish, containers-untag_all)

containers-prune_images :
    (all : Bool) (used : List ContainerInspect) (imgs : List ImageInspect) (w : World)
    → (prune_images all used imgs w).1.state.containers ≡ w.state.containers
unfolding prune_images
containers-prune_images all used [] w = refl
containers-prune_images all used (img ∷ imgs) w =
    elim (Bool-cases (is_used img.id used || (not all && is_tagged img))) [
      | inl kept ↦ rw kept (containers-prune_images all used imgs w)
      | inr goes ↦ rw goes (
          containers-prune_images all used imgs (delete_image img w)
          ∙ containers-delete_image img w)
    ]

module _ (w : World) (h : IsConsistent w) where
  remove_image_unless-IsConsistent :
      (user : Option ContainerInspect) (force : Bool) (img : ImageInspect)
      → IsConsistent (remove_image_unless user force img w).1
  unfolding remove_image_unless
  remove_image_unless-IsConsistent none force img =
      IsConsistent-same w _ h (containers-delete_image img w)
  remove_image_unless-IsConsistent (some c) true img =
      IsConsistent-same w _ h (containers-delete_image img w)
  remove_image_unless-IsConsistent (some c) false img = h

  pub image_remove-IsConsistent :
      (query : String) (force : Bool) → IsConsistent (image_remove query force w).1
  unfolding image_remove
  image_remove-IsConsistent query force =
      elim (MutationResult-cases (resolve_image w.state query)) [
        | inl (found, at) ↦ rw at (remove_image_unless-IsConsistent _ force found.1)
        | inr (_, _, at) ↦ rw at h
      ]

  pub image_prune-IsConsistent : (all : Bool) → IsConsistent (image_prune all w).1
  unfolding image_prune
  image_prune-IsConsistent all =
      IsConsistent-same w _ h
        (containers-prune_images all (values w.state.containers) (values w.state.images) w)
