-- ===== src/MockDocker/Resources/Pruning.antt =====
-- mock-docker/src/mutations.ts: which images `imagePrune` deletes.
use dockge.Prelude.{
  String, ◌≡◌, refl, sym, ap, ◌∙◌, Bool, Option, none, some, List, [], ◌∷◌, not, ◌&&◌, ◌||◌, ◌==◌,
  eq_iff, Bool-cases, inl, inr, if◌then◌else◌,
}
use dockge.Prelude.Dict.{Dict, lookup, remove, values, lookup-remove, lookup-Fresh, IsKeyed}
use dockge.MockDocker.Types.{ContainerInspect, ImageInspect}
use dockge.MockDocker.World.{World, publish}
use dockge.MockDocker.World.Frame.{SameTables-publish}
use dockge.MockDocker.Resources.{
  untag_all, delete_image, is_used, is_tagged, prune_images, image_prune,
}

images-untag_all :
    (id : String) (tags : List String) (w : World)
    → (untag_all id tags w).state.images ≡ w.state.images
unfolding untag_all
images-untag_all id [] w = refl
images-untag_all id (tag ∷ tags) w =
    images-untag_all id tags (publish "image" "untag" id (("name", tag) ∷ []) w)
    ∙ (SameTables-publish "image" "untag" id (("name", tag) ∷ []) w).images

images-delete_image :
    (img : ImageInspect) (w : World)
    → (delete_image img w).state.images ≡ remove img.id w.state.images
unfolding delete_image
images-delete_image img w =
    (SameTables-publish "image" "delete" img.id (("name", img.id) ∷ []) _).images
    ∙ ap (remove img.id) (images-untag_all img.id img.repo_tags w)

-- Each image stands under its identifier.
abbrev pub OwnsIds : Dict ImageInspect → Type 0
OwnsIds [] = Unit
OwnsIds ((k, img) ∷ m) = (k ≡ img.id) × OwnsIds m

-- An image stays when a container uses it or, unless all images go, when it is tagged.
abbrev pub is_kept : Bool → List ContainerInspect → ImageInspect → Bool
is_kept all used img = is_used img.id used || (not all && is_tagged img)

-- What is left of an image.
abbrev pub kept : Bool → List ContainerInspect → Option ImageInspect → Option ImageInspect
kept all used none = none
kept all used (some img) = if is_kept all used img then some img else none

-- What the loop over some images leaves of an entry that the table had.
abbrev after :
    Bool → List ContainerInspect → Option ImageInspect → Option ImageInspect → Option ImageInspect
after all used none old = old
after all used (some img) old = if is_kept all used img then old else none

after-eq-kept :
    (all : Bool) (used : List ContainerInspect) (o : Option ImageInspect)
    → after all used o o ≡ kept all used o
after-eq-kept all used none = refl
after-eq-kept all used (some img) = refl

lookup-delete_image :
    (id : String) (img : ImageInspect) (w : World)
    → lookup id (delete_image img w).state.images
      ≡ (if img.id == id then none else lookup id w.state.images)
lookup-delete_image id img w =
    ap (lookup id) (images-delete_image img w) ∙ lookup-remove img.id id w.state.images

lookup-prune_images :
    (id : String) (all : Bool) (used : List ContainerInspect) (m : Dict ImageInspect) (w : World)
    → IsKeyed m
    → OwnsIds m
    → lookup id (prune_images all used (values m) w).1.state.images
      ≡ after all used (lookup id m) (lookup id w.state.images)
unfolding prune_images lookup
lookup-prune_images id all used [] w keyed own = refl
lookup-prune_images id all used ((k, img) ∷ m) w (fresh, keyed) (own, owns) =
    elim (Bool-cases (is_kept all used img)) [
      | inl stays ↦ rw stays (elim (Bool-cases (k == id)) [
        | inl same ↦
            let gone : lookup id m ≡ none =
              rw (sym ((eq_iff k id).0 same)) (lookup-Fresh k m fresh) in
            lookup-prune_images id all used m w keyed owns ∙ rw (gone, same, stays) refl
        | inr other ↦ lookup-prune_images id all used m w keyed owns ∙ rw other refl
      ])
      | inr goes ↦ rw goes (
          lookup-prune_images id all used m (delete_image img w) keyed owns
          ∙ elim (Bool-cases (k == id)) [
            | inl same ↦
                let gone : lookup id m ≡ none =
                  rw (sym ((eq_iff k id).0 same)) (lookup-Fresh k m fresh) in
                rw (gone, same, goes, lookup-delete_image id img w, sym own, same) refl
            | inr other ↦ rw (other, lookup-delete_image id img w, sym own, other) refl
          ])
    ]

-- In a table whose images stand once each, under their identifiers, `imagePrune` leaves exactly the images
-- that a container uses and, unless it is asked for all, those that are tagged, and changes none.
pub lookup-image_prune :
    (id : String) (all : Bool) (w : World)
    → IsKeyed w.state.images
    → OwnsIds w.state.images
    → lookup id (image_prune all w).1.state.images
      ≡ kept all (values w.state.containers) (lookup id w.state.images)
unfolding image_prune
lookup-image_prune id all w keyed owns =
    lookup-prune_images id all (values w.state.containers) w.state.images w keyed owns
    ∙ after-eq-kept all (values w.state.containers) (lookup id w.state.images)
