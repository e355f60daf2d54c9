-- ===== src/Web/StackStore/Unmanaged.antt =====
-- web/src/stores/stackStore.ts: the names of `unmanagedStacks`.
use dockge.Prelude.{
  String, ◌≡◌, refl, subst, Bool, true, false, List, [], ◌∷◌, any, not, ◌&&◌, ◌||◌, ◌==◌, arith,
  eq_iff, truthy, or_empty, Bool-cases, inl, inr,
}
use dockge.Web.ContainerStore.{ContainerBroadcast}
use dockge.Web.StackStore.{unmanaged_names}

abbrev pub is_one_of : String → List String → Bool
is_one_of name names = any (λ n. n == name) names

-- May be listed: the name is not empty, not Dockge's own, and not managed.
abbrev pub is_listable : List String → String → Bool
is_listable managed name = truthy name && (not (name == "dockge") && not (is_one_of name managed))

-- Each name may be listed and stands in the list once, and not among those seen before.
abbrev pub IsUnmanaged : List String → List String → List String → Type 0
IsUnmanaged managed seen [] = Unit
IsUnmanaged managed seen (name ∷ names) =
    (is_listable managed name ≡ true)
    × (is_one_of name seen ≡ false)
    × IsUnmanaged managed (name ∷ seen) names

module _ (managed : List String) where
  -- The test of the loop.
  abbrev pub is_skipped : List String → String → Bool
  is_skipped seen name =
      not (truthy name)
      || (name == "dockge" || (any (λ n. n == name) managed || any (λ n. n == name) seen))

  is_skipped-listable :
      (seen : List String) (name : String)
      → is_skipped seen name ≡ false
      → (is_listable managed name ≡ true) × (is_one_of name seen ≡ false)
  is_skipped-listable seen name h = (ground arith, ground arith)

  -- The unmanaged names are listed once each, and none is empty, Dockge's own, managed or seen before.
  pub unmanaged_names-IsUnmanaged :
      (seen : List String) (cs : List ContainerBroadcast)
      → IsUnmanaged managed seen (unmanaged_names managed seen cs)
  unfolding unmanaged_names
  unmanaged_names-IsUnmanaged seen [] = tt
  unmanaged_names-IsUnmanaged seen (c ∷ cs) =
      elim (Bool-cases (is_skipped seen (or_empty c.stack_name))) [
        | inl skipped ↦ rw skipped (unmanaged_names-IsUnmanaged seen cs)
        | inr taken ↦
            let (listable, new) = is_skipped-listable seen (or_empty c.stack_name) taken in
            rw taken (listable, new, unmanaged_names-IsUnmanaged (or_empty c.stack_name ∷ seen) cs)
      ]

  -- A name is listed as unmanaged exactly when some container's stack has it and it may be listed and
  -- was not seen before.
  pub unmanaged_names_iff :
      (name : String) (seen : List String) (cs : List ContainerBroadcast)
      → is_one_of name (unmanaged_names managed seen cs)
        ≡ is_listable managed name
          && (not (is_one_of name seen) && any (λ c. or_empty c.stack_name == name) cs)
  unfolding unmanaged_names
  unmanaged_names_iff name seen [] = ground arith
  unmanaged_names_iff name seen (c ∷ cs) =
      elim (Bool-cases (is_skipped seen (or_empty c.stack_name))) [
        | inl skipped ↦ elim (Bool-cases (or_empty c.stack_name == name)) [
          | inl same ↦
              let known =
                subst (λ x. is_skipped seen x ≡ true) ((eq_iff (or_empty c.stack_name) name).0 same)
                  skipped in
              rw (skipped, unmanaged_names_iff name seen cs, same) (ground (arith, known))
          | inr other ↦ rw (skipped, unmanaged_names_iff name seen cs, other) refl
        ]
        | inr taken ↦ elim (Bool-cases (or_empty c.stack_name == name)) [
          | inl same ↦
              let known =
                subst (λ x. is_skipped seen x ≡ false)
                  ((eq_iff (or_empty c.stack_name) name).0 same) taken in
              rw (taken, same) (ground (arith, known))
          | inr other ↦
              rw (taken, unmanaged_names_iff name (or_empty c.stack_name ∷ seen) cs, other) refl
        ]
      ]
