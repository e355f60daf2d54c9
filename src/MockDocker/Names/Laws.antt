-- ===== src/MockDocker/Names/Laws.antt =====
-- mock-docker/src/name-resolution.ts: what `resolveByIdOrName` finds.
use dockge.Prelude.{
  ◌≤◌, ◌≡◌, ◌≢◌, ◌⊎◌, inl, inr, refl, sym, String, true, some, [], ◌∷◌, arith, leb, ◌==◌, eq_iff,
  eq_refl, starts_with, drop_slash, utf16_length, Bool-cases, Option-cases,
}
use dockge.Prelude.Dict.{Dict, lookup, Fresh, IsKeyed, Each, lookup-Fresh, Each-map}
use dockge.MockDocker.Names.{
  ResolveResult, found, prefix_matches, find_by_name, by_prefix, resolve_by_id_or_name,
}

module _ {A : Type 0} (get_name get_id : A → String) where
  abbrev pub HasPrefix : String → A → Type 0
  HasPrefix query item = starts_with (get_id item) query ≡ true

  abbrev pub HasName : String → A → Type 0
  HasName query item = drop_slash (get_name item) ≡ drop_slash query

  -- Why an item answers to a query: by its key, by a prefix of its identifier, or by its name.
  pub data Answers (query key : String) (item : A) : Type 0 where
    by_key : key ≡ query → Answers query key item
    by_id : 3 ≤ utf16_length query → HasPrefix query item → Answers query key item
    by_name : HasName query item → Answers query key item

  Fresh-lookup_none :
      (k j : String) (m : Dict A) {item : A} → Fresh k m → lookup j m ≡ some item → j ≢ k
  Fresh-lookup_none k j m h e = λ same. cc (lookup-Fresh k m h, same)

  lookup-tail :
      (k j : String) (item other : A) (m : Dict A)
      → Fresh k m
      → lookup j m ≡ some item
      → lookup j ((k, other) ∷ m) ≡ some item
  unfolding lookup
  lookup-tail k j item other m h e = ground (arith, eq_iff k j, lookup-Fresh k m h)

  -- What the two loops find stands in the table, and fits.
  pub by_name_sound :
      (query : String) (items : Dict A) {k : String} {item : A}
      → IsKeyed items
      → find_by_name get_name get_id query items ≡ found k item
      → (lookup k items ≡ some item) × (drop_slash (get_name item) ≡ query)
  unfolding find_by_name
  by_name_sound query [] h e = cc
  by_name_sound query ((j, other) ∷ items) {k} {item} h e =
      elim (Bool-cases (drop_slash (get_name other) == query)) [
        | inl same ↦
            unfold lookup in ground (arith, eq_iff j k, eq_iff (drop_slash (get_name other)) query)
        | inr differs ↦
            let (at, fits) =
              by_name_sound query items {k = k} {item = item} h.1 (rw differs at e) in
            (lookup-tail j k item other items h.0 at, fits)
      ]

  pub prefix_matches-Each :
      (query : String) (items : Dict A)
      → IsKeyed items
      → Each
          (λ k item. (lookup k items ≡ some item) × HasPrefix query item)
          (prefix_matches get_name get_id query items)
  unfolding prefix_matches
  prefix_matches-Each query [] h = tt
  prefix_matches-Each query ((j, other) ∷ items) h =
      let rest = prefix_matches-Each query items h.1 in
      let wider =
        Each-map {P = λ k item. (lookup k items ≡ some item) × HasPrefix query item}
          {Q = λ k item. (lookup k ((j, other) ∷ items) ≡ some item) × HasPrefix query item}
          (λ k item p. (lookup-tail j k item other items h.0 p.0, p.1))
          (prefix_matches get_name get_id query items) rest in
      elim (Bool-cases (starts_with (get_id other) query)) [
        | inl fits ↦ rw fits ((unfold lookup in rw (eq_refl j), fits), wider)
        | inr differs ↦ rw differs wider
      ]

  pub by_prefix_found :
      (matches : Dict A) (r : ResolveResult A) {k : String} {item : A}
      → by_prefix get_name get_id matches r ≡ found k item
      → (matches ≡ (k, item) ∷ []) ⊎ ((matches ≡ []) × (r ≡ found k item))
  unfolding by_prefix
  by_prefix_found [] r e = inr (refl, e)
  by_prefix_found ((j, other) ∷ []) r e = inl (ground arith)
  by_prefix_found (_ ∷ _ ∷ _) r e = cc

  module _ (items : Dict A) (query : String) {k : String} {item : A} (keyed : IsKeyed items) where
    found_by_name :
        find_by_name get_name get_id (drop_slash query) items ≡ found k item
        → (lookup k items ≡ some item) × Answers query k item
    found_by_name e =
        let (at, fits) = by_name_sound (drop_slash query) items keyed e in (at, by_name fits)

    found_by_prefix :
        3 ≤ utf16_length query
        → prefix_matches get_name get_id query items ≡ (k, item) ∷ []
        → (lookup k items ≡ some item) × Answers query k item
    found_by_prefix long e =
        let all = prefix_matches-Each query items keyed in
        let one = (rw e at all).0 in (one.0, by_id long one.1)

    -- In a table of distinct keys, an item that is found stands under the key that is found, and answers to
    -- the query: by its key, by a prefix of three characters or more of its identifier, or by its
    -- name without the slash.
    pub resolve-found :
        resolve_by_id_or_name get_name get_id items query ≡ found k item
        → (lookup k items ≡ some item) × Answers query k item
    unfolding resolve_by_id_or_name
    resolve-found e = elim (Option-cases (lookup query items)) [
      | inr (exact, at) ↦ let same : query ≡ k = ground arith in (ground arith, by_key (sym same))
      | inl none_there ↦ elim (Bool-cases (leb 3 (utf16_length query))) [
        | inl long ↦
            let taken : by_prefix get_name get_id (prefix_matches get_name get_id query items)
                  (find_by_name get_name get_id (drop_slash query) items)
                ≡ found k item =
              ground arith in
            elim (by_prefix_found (prefix_matches get_name get_id query items) _ taken) [
              | inl one ↦ found_by_prefix (ground arith) one
              | inr (_, named) ↦ found_by_name named
            ]
        | inr short ↦ found_by_name (ground arith)
      ]
    ]
