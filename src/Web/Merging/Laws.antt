-- ===== src/Web/Merging/Laws.antt =====
-- The map updates of web/src/stores, read one key at a time.
use dockge.Prelude.{
  String, ◌≡◌, refl, sym, ◌∙◌, Option, none, some, [], ◌∷◌, ◌==◌, eq_iff, Bool-cases, inl, inr,
  if◌then◌else◌,
}
use dockge.Prelude.Dict.{Dict, lookup, lookup-insert, lookup-remove, IsKeyed, lookup-Fresh}
use dockge.Web.Merging.{merge_entry, merge_map, set_or_merge}

-- What one key of an update does to the value of that key: nothing without an entry.
abbrev pub updated : {V : Type 0} → (V → V → V) → Option (Option V) → Option V → Option V
updated merge none old = old
updated merge (some none) old = none
updated merge (some (some v)) old = some (set_or_merge merge old v)

module _ {V : Type 0} (merge : V → V → V) where
  lookup-merge_entry :
      (k key : String) (v : Option V) (m : Dict V)
      → lookup k (merge_entry merge key v m)
        ≡ (if key == k then updated merge (some v) (lookup k m) else lookup k m)
  unfolding merge_entry
  lookup-merge_entry k key none m = lookup-remove key k m
  lookup-merge_entry k key (some v) m =
      lookup-insert key k (set_or_merge merge (lookup key m) v) m ∙ elim (Bool-cases (key == k)) [
        | inl same ↦ rw ((eq_iff key k).0 same) refl
        | inr other ↦ rw other refl
      ]

  -- A store's update touches each key on its own: for an update with one entry a key at most, the value
  -- that the merged map has for a key is the old value, deleted, set or merged as the entry of
  -- that key says, and the old value where the update has no such entry.
  pub lookup-merge_map :
      (k : String) (changes : Dict (Option V)) (m : Dict V)
      → IsKeyed changes
      → lookup k (merge_map merge changes m) ≡ updated merge (lookup k changes) (lookup k m)
  unfolding merge_map lookup
  lookup-merge_map k [] m h = refl
  lookup-merge_map k ((key, v) ∷ changes) m (fresh, keyed) =
      lookup-merge_map k changes (merge_entry merge key v m) keyed ∙ elim (Bool-cases (key == k)) [
        | inl same ↦
            rw
              (
                lookup-merge_entry k key v m,
                same,
                sym ((eq_iff key k).0 same),
                lookup-Fresh key changes fresh,
              )
              refl
        | inr other ↦ rw (lookup-merge_entry k key v m, other) refl
      ]
