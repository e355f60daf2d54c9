-- ===== src/MockDocker/Names/Misses.antt =====
-- mock-docker/src/name-resolution.ts: the two errors of `resolveByIdOrName`.
use dockge.Prelude.{
  ◌≤◌, ◌≡◌, ◌≢◌, ◌↔◌, ◌⊎◌, inl, inr, refl, String, none, [], ◌∷◌, arith, length, ◌==◌, eq_iff,
  starts_with, drop_slash, utf16_length, Bool-cases,
}
use dockge.Prelude.Dict.{Dict, lookup, Each, Each-map}
use dockge.MockDocker.Names.{
  ambiguous, missing, prefix_matches, find_by_name, by_prefix, resolve_by_id_or_name,
}
use dockge.MockDocker.Names.Laws.{HasPrefix, HasName, Answers, by_key, by_id, by_name}

module _ {A : Type 0} (get_name get_id : A → String) where
  find_by_name-ne_ambiguous :
      (query : String) (items : Dict A) → find_by_name get_name get_id query items ≢ ambiguous
  unfolding find_by_name
  find_by_name-ne_ambiguous query [] = λ e. cc
  find_by_name-ne_ambiguous query ((k, item) ∷ items) =
      λ e. ground (arith, find_by_name-ne_ambiguous query items)

  lookup-none_iff : (k : String) (m : Dict A) → (lookup k m ≡ none) ↔ Each (λ j item. j ≢ k) m
  unfolding lookup
  lookup-none_iff k [] = (λ _. tt, λ _. refl)
  lookup-none_iff k ((j, item) ∷ m) =
      let ih = lookup-none_iff k m in
      elim (Bool-cases (j == k)) [
        | inl same ↦ (λ e. ground arith, λ h. absurd (h.0 ((eq_iff j k).0 same)))
        | inr differs ↦
            rw differs (λ e. (λ same. ground (arith, eq_iff j k), ih.0 e), λ h. ih.1 h.1)
      ]

  prefix_matches-nil_iff :
      (query : String) (m : Dict A)
      → (prefix_matches get_name get_id query m ≡ [])
        ↔ Each (λ j item. ¬ HasPrefix get_name get_id query item) m
  unfolding prefix_matches
  prefix_matches-nil_iff query [] = (λ _. tt, λ _. refl)
  prefix_matches-nil_iff query ((j, item) ∷ m) =
      let ih = prefix_matches-nil_iff query m in
      elim (Bool-cases (starts_with (get_id item) query)) [
        | inl fits ↦ (λ e. ground arith, λ h. absurd (h.0 fits))
        | inr differs ↦ rw differs (λ e. (λ fits. cc, ih.0 e), λ h. ih.1 h.1)
      ]

  -- At least one item, and at least two items in two places, whose identifier begins with the query.
  abbrev pub SomePrefix : String → Dict A → Type 0
  SomePrefix query [] = ⊥
  SomePrefix query ((k, item) ∷ m) = HasPrefix get_name get_id query item ⊎ SomePrefix query m

  abbrev pub TwoPrefixes : String → Dict A → Type 0
  TwoPrefixes query [] = ⊥
  TwoPrefixes query ((k, item) ∷ m) =
      (HasPrefix get_name get_id query item × SomePrefix query m) ⊎ TwoPrefixes query m

  prefix_matches-some_iff :
      (query : String) (m : Dict A)
      → (1 ≤ length (prefix_matches get_name get_id query m)) ↔ SomePrefix query m
  unfolding prefix_matches
  prefix_matches-some_iff query [] = (λ h. absurd (omega arith), λ h. absurd h)
  prefix_matches-some_iff query ((k, item) ∷ m) =
      let ih = prefix_matches-some_iff query m in
      elim (Bool-cases (starts_with (get_id item) query)) [
        | inl fits ↦ rw fits (λ _. inl refl, λ _. omega arith)
        | inr differs ↦ rw differs (
          λ h. inr (ih.0 h),
          λ h. elim h [ inl fits ↦ absurd (cc (fits)) | inr later ↦ ih.1 later ],
        )
      ]

  prefix_matches-two_iff :
      (query : String) (m : Dict A)
      → (2 ≤ length (prefix_matches get_name get_id query m)) ↔ TwoPrefixes query m
  unfolding prefix_matches
  prefix_matches-two_iff query [] = (λ h. absurd (omega arith), λ h. absurd h)
  prefix_matches-two_iff query ((k, item) ∷ m) =
      let one = prefix_matches-some_iff query m in
      let ih = prefix_matches-two_iff query m in
      elim (Bool-cases (starts_with (get_id item) query)) [
        | inl fits ↦ rw fits (
          λ h. inl (refl, one.0 (omega arith)),
          λ h. elim h [
            | inl both ↦ let some_later = one.1 both.1 in omega arith
            | inr later ↦ let two_later = ih.1 later in omega arith
          ],
        )
        | inr differs ↦ rw differs (
          λ h. inr (ih.0 h),
          λ h. elim h [ inl both ↦ absurd (cc (both.0)) | inr later ↦ ih.1 later ],
        )
      ]

  ambiguous_parts :
      (items : Dict A) (query : String)
      → (resolve_by_id_or_name get_name get_id items query ≡ ambiguous) ↔ (
          (lookup query items ≡ none)
          × (3 ≤ utf16_length query)
          × (2 ≤ length (prefix_matches get_name get_id query items)))
  unfolding resolve_by_id_or_name by_prefix
  ambiguous_parts items query =
      (ground (arith, find_by_name-ne_ambiguous (drop_slash query) items), ground arith)

  -- The query is ambiguous exactly when no key is the query, it has three characters or more, and it is
  -- a prefix of the identifiers of two items at least, in different places of the table.
  pub resolve-ambiguous_iff :
      (items : Dict A) (query : String)
      → (resolve_by_id_or_name get_name get_id items query ≡ ambiguous)
        ↔ (Each (λ k item. k ≢ query) items × (3 ≤ utf16_length query) × TwoPrefixes query items)
  resolve-ambiguous_iff items query =
      let parts = ambiguous_parts items query in
      let keys = lookup-none_iff query items in
      let two = prefix_matches-two_iff query items in
      (
        λ e. let (a, b, c) = parts.0 e in (keys.0 a, b, two.0 c),
        λ h. parts.1 (keys.1 h.0, h.1, two.1 h.2),
      )

  find_by_name-missing_iff :
      (query : String) (m : Dict A)
      → (find_by_name get_name get_id (drop_slash query) m ≡ missing)
        ↔ Each (λ j item. ¬ HasName get_name get_id query item) m
  unfolding find_by_name
  find_by_name-missing_iff query [] = (λ _. tt, λ _. refl)
  find_by_name-missing_iff query ((j, item) ∷ m) =
      let ih = find_by_name-missing_iff query m in
      let same_iff = eq_iff (drop_slash (get_name item)) (drop_slash query) in
      elim (Bool-cases (drop_slash (get_name item) == drop_slash query)) [
        | inl fits ↦ (λ e. ground arith, λ h. absurd (h.0 (same_iff.0 fits)))
        | inr differs ↦ rw differs (λ e. (λ fits. ground (arith, same_iff), ih.0 e), λ h. ih.1 h.1)
      ]

  -- The facts that rule an item out, put together.
  no_answer :
      (query k : String) (item : A)
      → k ≢ query
      → (3 ≤ utf16_length query → ¬ HasPrefix get_name get_id query item)
      → ¬ HasName get_name get_id query item
      → ¬ Answers get_name get_id query k item
  no_answer query k item key prefix name (by_key e) = key e
  no_answer query k item key prefix name (by_id long e) = prefix long e
  no_answer query k item key prefix name (by_name e) = name e

  Each-no_answer :
      (query : String) (m : Dict A)
      → Each (λ j item. j ≢ query) m
      → (3 ≤ utf16_length query → Each (λ j item. ¬ HasPrefix get_name get_id query item) m)
      → Each (λ j item. ¬ HasName get_name get_id query item) m
      → Each (λ j item. ¬ Answers get_name get_id query j item) m
  Each-no_answer query [] ks ps ns = tt
  Each-no_answer query ((k, item) ∷ m) ks ps ns = (
    no_answer query k item ks.0 (λ long. (ps long).0) ns.0,
    Each-no_answer query m ks.1 (λ long. (ps long).1) ns.1,
  )

  missing_of_parts :
      (items : Dict A) (query : String)
      → lookup query items ≡ none
      → (3 ≤ utf16_length query → prefix_matches get_name get_id query items ≡ [])
      → find_by_name get_name get_id (drop_slash query) items ≡ missing
      → resolve_by_id_or_name get_name get_id items query ≡ missing
  unfolding resolve_by_id_or_name by_prefix
  missing_of_parts items query a b c = ground (arith, b)

  parts_of_missing :
      (items : Dict A) (query : String)
      → resolve_by_id_or_name get_name get_id items query ≡ missing
      → (lookup query items ≡ none)
        × (3 ≤ utf16_length query → prefix_matches get_name get_id query items ≡ [])
        × (find_by_name get_name get_id (drop_slash query) items ≡ missing)
  unfolding resolve_by_id_or_name by_prefix
  parts_of_missing items query e = (ground arith, λ long. ground arith, ground arith)

  -- Nothing is found, and nothing is ambiguous, exactly when no item answers to the query.
  pub resolve-missing_iff :
      (items : Dict A) (query : String)
      → (resolve_by_id_or_name get_name get_id items query ≡ missing)
        ↔ Each (λ k item. ¬ Answers get_name get_id query k item) items
  resolve-missing_iff items query = (
    λ e.
        let parts = parts_of_missing items query e in
        Each-no_answer query items ((lookup-none_iff query items).0 parts.0)
          (λ long. (prefix_matches-nil_iff query items).0 (parts.1 long))
          ((find_by_name-missing_iff query items).0 parts.2),
    λ none_answers.
        missing_of_parts items query
          ((lookup-none_iff query items).1
            (Each-map (λ k item f e. f (by_key e)) items none_answers))
          (λ long.
            (prefix_matches-nil_iff query items).1
              (Each-map (λ k item f e. f (by_id long e)) items none_answers))
          ((find_by_name-missing_iff query items).1
            (Each-map (λ k item f e. f (by_name e)) items none_answers)),
  )
