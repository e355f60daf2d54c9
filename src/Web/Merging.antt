-- ===== src/Web/Merging.antt =====
-- The map updates that the stores of web/src/stores share: an object without a field has `none`
-- there, and every store keeps such objects, as the casts of the source let it. The arrays of the
-- stores are sorted by one string.
pub mod Laws
use Prim.Native.Char.{code}
use Prim.Native.String.{[] as no_text, ◌∷◌ as char}
use dockge.Prelude.{
  ℕ, String, Bool, true, false, Option, none, some, List, [], ◌∷◌, ltb, eqb, ◌||◌, ◌&&◌, ◌==◌,
  if◌then◌else◌,
}
use dockge.Prelude.Dict.{Dict, lookup, insert, remove}

-- One field of `{ ...existing, ...value }`.
unfoldable pub spread : {A : Type 0} → Option A → Option A → Option A
spread existing none = existing
spread existing (some x) = some x

-- o === s, for a field that may be undefined
unfoldable pub is_field : Option String → String → Bool
is_field none s = false
is_field (some t) s = t == s

unfoldable pub set_or_merge : {V : Type 0} → (V → V → V) → Option V → V → V
set_or_merge merge none v = v
set_or_merge merge (some existing) v = merge existing v

-- One entry of the update: a null deletes the key, an object is merged into the existing one.
unfoldable pub merge_entry : {V : Type 0} → (V → V → V) → String → Option V → Dict V → Dict V
unfolding set_or_merge
merge_entry merge key none m = remove key m
merge_entry merge key (some v) m = insert key (set_or_merge merge (lookup key m) v) m

unfoldable pub merge_map : {V : Type 0} → (V → V → V) → Dict (Option V) → Dict V → Dict V
unfolding merge_entry
merge_map merge [] m = m
merge_map merge ((key, v) ∷ changes) m = merge_map merge changes (merge_entry merge key v m)

-- a < b on strings, by code points
unfoldable pub text_before : String → String → Bool
text_before no_text no_text = false
text_before no_text (char d t) = true
text_before (char c s) no_text = false
text_before (char c s) (char d t) =
    let rest = text_before s t in ltb (code c) (code d) || (eqb (code c) (code d) && rest)

place : {A : Type 0} → (A → String) → A → List A → List A
place key x [] = x ∷ []
place key x (y ∷ ys) =
    let rest = place key x ys in if text_before (key y) (key x) then y ∷ rest else x ∷ y ∷ ys

-- [...values].sort((a, b) => …), by a string
unfoldable pub sort_by_text : {A : Type 0} → (A → String) → List A → List A
unfolding place
sort_by_text key [] = []
sort_by_text key (x ∷ xs) = place key x (sort_by_text key xs)
