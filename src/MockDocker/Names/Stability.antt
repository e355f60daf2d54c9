-- ===== src/MockDocker/Names/Stability.antt =====
-- mock-docker/src/name-resolution.ts: a lookup before and after a change of an object in place.
use dockge.Prelude.{
  ◌≡◌, ◌≢◌, inl, inr, subst, String, none, some, [], ◌∷◌, arith, leb, ◌==◌, eq_iff, drop_slash,
  utf16_length, Bool-cases, Option-cases,
}
use dockge.Prelude.Dict.{Dict, lookup, insert, Fresh, IsKeyed, lookup-Fresh, lookup-insert}
use dockge.MockDocker.Names.{
  ResolveResult, found, prefix_matches, find_by_name, by_prefix, resolve_by_id_or_name,
}
use dockge.MockDocker.Names.Laws.{by_prefix_found, by_name_sound, prefix_matches-Each}

module _ {A : Type 0} (get_name get_id : A → String) (k : String) (old item : A)
    (same_name : get_name item ≡ get_name old) (same_id : get_id item ≡ get_id old) where
  abbrev matches : String → Dict A → Dict A
  matches = prefix_matches get_name get_id

  matches-insert_nil :
      (query : String) (m : Dict A)
      → lookup k m ≡ some old
      → matches query m ≡ []
      → matches query (insert k item m) ≡ []
  unfolding prefix_matches lookup insert
  matches-insert_nil query [] at e = cc
  matches-insert_nil query ((j, other) ∷ m) at e =
      ground (arith, eq_iff j k, matches-insert_nil query m)

  -- No match stands under a key that the table lacks.
  no_match_of_Fresh :
      (query : String) (m : Dict A) → IsKeyed m → Fresh k m → matches query m ≢ (k, old) ∷ []
  no_match_of_Fresh query m keyed fresh = λ e.
      let all = prefix_matches-Each get_name get_id query m keyed in
      let one = (rw e at all).0 in cc (lookup-Fresh k m fresh, one.0)

  no_name_of_Fresh :
      (query : String) (m : Dict A)
      → IsKeyed m
      → Fresh k m
      → find_by_name get_name get_id query m ≢ found k old
  no_name_of_Fresh query m keyed fresh = λ e.
      let one = by_name_sound get_name get_id query m keyed e in cc (lookup-Fresh k m fresh, one.0)

  matches-insert_one :
      (query : String) (m : Dict A)
      → IsKeyed m
      → lookup k m ≡ some old
      → matches query m ≡ (k, old) ∷ []
      → matches query (insert k item m) ≡ (k, item) ∷ []
  unfolding prefix_matches lookup insert
  matches-insert_one query [] keyed at e = cc
  matches-insert_one query ((j, other) ∷ m) keyed at e = elim (Bool-cases (j == k)) [
    | inl same ↦
        let fresh = subst (λ i. Fresh i m) ((eq_iff j k).0 same) keyed.0 in
        ground (arith, no_match_of_Fresh query m keyed.1 fresh)
    | inr apart ↦ ground (arith, eq_iff j k, matches-insert_one query m keyed.1)
  ]

  find_by_name-insert :
      (query : String) (m : Dict A)
      → IsKeyed m
      → lookup k m ≡ some old
      → find_by_name get_name get_id query m ≡ found k old
      → find_by_name get_name get_id query (insert k item m) ≡ found k item
  unfolding find_by_name lookup insert
  find_by_name-insert query [] keyed at e = cc
  find_by_name-insert query ((j, other) ∷ m) keyed at e = elim (Bool-cases (j == k)) [
    | inl same ↦
        let fresh = subst (λ i. Fresh i m) ((eq_iff j k).0 same) keyed.0 in
        ground (arith, no_name_of_Fresh query m keyed.1 fresh)
    | inr apart ↦ ground (arith, eq_iff j k, find_by_name-insert query m keyed.1)
  ]

  module _ (items : Dict A) (query : String) (keyed : IsKeyed items)
      (at : lookup k items ≡ some old) where
    abbrev by_name : Dict A → ResolveResult A
    by_name = find_by_name get_name get_id (drop_slash query)

    by_prefix-insert :
        by_prefix get_name get_id (matches query items) (by_name items) ≡ found k old
        → by_prefix get_name get_id
            (matches query (insert k item items))
            (by_name (insert k item items))
          ≡ found k item
    unfolding by_prefix
    by_prefix-insert e = elim (by_prefix_found get_name get_id (matches query items) _ e) [
      | inl one ↦ rw (matches-insert_one query items keyed at one)
      | inr (nothing, named) ↦
          rw (matches-insert_nil query items at nothing)
            (find_by_name-insert (drop_slash query) items keyed at named)
    ]

    -- In a table of distinct keys, a query that finds an object finds the changed object under the same key
    -- after a change that keeps the object's name and identifier.
    pub resolve-insert :
        resolve_by_id_or_name get_name get_id items query ≡ found k old
        → resolve_by_id_or_name get_name get_id (insert k item items) query ≡ found k item
    unfolding resolve_by_id_or_name
    resolve-insert e = elim (Option-cases (lookup query items)) [
      | inr (exact, there) ↦ ground (arith, eq_iff k query, lookup-insert k query item items)
      | inl nothing ↦
          let gone : lookup query (insert k item items) ≡ none =
            ground (arith, eq_iff k query, lookup-insert k query item items) in
          elim (Bool-cases (leb 3 (utf16_length query))) [
            | inl long ↦ ground (arith, by_prefix-insert)
            | inr short ↦ ground (arith, find_by_name-insert (drop_slash query) items keyed at)
          ]
    ]
