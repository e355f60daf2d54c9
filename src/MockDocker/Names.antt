-- ===== src/MockDocker/Names.antt =====
-- mock-docker/src/name-resolution.ts
pub mod Laws
pub mod Misses
pub mod Stability
use dockge.Prelude.{
  ℕ, String, Bool, true, false, Option, none, some, List, [], ◌∷◌, leb, ◌==◌, starts_with,
  drop_slash, utf16_length, if◌then◌else◌,
}
use dockge.Prelude.Dict.{Dict, lookup}

-- An item is found with the key under which the table holds it: what the callers then change is
-- that entry of the table.
pub data ResolveResult {ℓ} (A : Type ℓ) : Type ℓ where
  found : String → A → ResolveResult A
  ambiguous missing : ResolveResult A

module _ {ℓ} {A : Type ℓ} (get_name get_id : A → String) where
  -- the loop that fills `prefixMatches`
  unfoldable pub prefix_matches : String → Dict A → Dict A
  prefix_matches query [] = []
  prefix_matches query ((k, item) ∷ items) =
      let rest = prefix_matches query items in
      if starts_with (get_id item) query then (k, item) ∷ rest else rest

  -- the loop that compares names without their leading slash
  unfoldable pub find_by_name : String → Dict A → ResolveResult A
  find_by_name query [] = missing
  find_by_name query ((k, item) ∷ items) =
      if drop_slash (get_name item) == query then found k item else find_by_name query items

  unfoldable pub by_prefix : Dict A → ResolveResult A → ResolveResult A
  by_prefix [] by_name = by_name
  by_prefix ((k, item) ∷ []) by_name = found k item
  by_prefix (_ ∷ _ ∷ _) by_name = ambiguous

  unfoldable pub resolve_by_id_or_name : Dict A → String → ResolveResult A
  unfolding by_prefix
  resolve_by_id_or_name items query = elim (lookup query items) [
    | some exact ↦ found query exact
    | none ↦
        let by_name = find_by_name (drop_slash query) items in
        if leb 3 (utf16_length query)
        then by_prefix (prefix_matches query items) by_name
        else by_name
  ]
