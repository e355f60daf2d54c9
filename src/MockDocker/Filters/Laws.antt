-- ===== src/MockDocker/Filters/Laws.antt =====
-- mock-docker/src/filters.ts: how the keys and the values of a filter combine.
use dockge.Prelude.{
  ap, ◌∙◌, ◌↔◌, ◌⊎◌, inl, inr, Bool-cases, true, select, String, ◌≡◌, refl, Bool, List, [], ◌∷◌,
  ◌++◌, any, ◌||◌, arith,
}
use dockge.MockDocker.Types.{ContainerInspect}
use dockge.MockDocker.Filters.{
  ParsedFilters, passes, apply_filters, apply_container_filters, container_matches, match_any,
}

-- The filter's keys, each with its values, all match.
abbrev pub MatchesAll :
    {A : Type 0} → (A → String → List String → Bool) → A → ParsedFilters → Type 0
MatchesAll matches x [] = Unit
MatchesAll matches x ((key, vs) ∷ fs) = (matches x key vs ≡ true) × MatchesAll matches x fs

-- Standing in a list.
abbrev pub StandsIn : {A : Type 0} → A → List A → Type 0
StandsIn x [] = ⊥
StandsIn x (y ∷ ys) = (x ≡ y) ⊎ StandsIn x ys

module _ {A : Type 0} (matches : A → String → List String → Bool) where
  passes_iff :
      (x : A) (fs : ParsedFilters) → (passes (matches x) fs ≡ true) ↔ MatchesAll matches x fs
  unfolding passes
  passes_iff x [] = (λ _. tt, λ _. refl)
  passes_iff x ((key, vs) ∷ fs) =
      let ih = passes_iff x fs in
      elim (Bool-cases (matches x key vs)) [
        | inl fits ↦ rw fits (λ e. (refl, ih.0 e), λ h. ih.1 h.1)
        | inr fails ↦ rw fails (λ e. absurd (cc (e)), λ h. absurd (cc (h.0)))
      ]

  select_iff :
      (p : A → Bool) (x : A) (xs : List A)
      → StandsIn x (select p xs) ↔ (StandsIn x xs × (p x ≡ true))
  select_iff p x [] = (λ h. absurd h, λ h. absurd h.0)
  select_iff p x (y ∷ ys) =
      let ih = select_iff p x ys in
      elim (Bool-cases (p y)) [
        | inl kept ↦ rw kept (
          λ h. elim h [
            | inl e ↦ (inl e, ap p e ∙ kept)
            | inr later ↦ (inr (ih.0 later).0, (ih.0 later).1)
          ],
          λ (at, holds). elim at [ inl e ↦ inl e | inr later ↦ inr (ih.1 (later, holds)) ],
        )
        | inr cut ↦ rw cut (
          λ h. (inr (ih.0 h).0, (ih.0 h).1),
          λ (at, holds). elim at [
            | inl e ↦ absurd (cc (ap p e, cut, holds))
            | inr later ↦ ih.1 (later, holds)
          ],
        )
      ]

  apply_filters_iff :
      (x : A) (xs : List A) (fs : ParsedFilters)
      → StandsIn x (apply_filters matches xs fs) ↔ (StandsIn x xs × MatchesAll matches x fs)
  unfolding apply_filters passes
  apply_filters_iff x xs [] = (λ h. (h, tt), λ h. h.0)
  apply_filters_iff x xs (f ∷ fs) =
      let kept = select_iff (λ y. passes (matches y) (f ∷ fs)) x xs in
      let all = passes_iff x (f ∷ fs) in
      (λ h. ((kept.0 h).0, all.0 (kept.0 h).1), λ h. kept.1 (h.0, all.1 h.1))

-- The keys of a filter are joined by AND: exactly those containers of the list are kept that match
-- every key of the filter with its values.
pub apply_container_filters_iff :
    (c : ContainerInspect) (cs : List ContainerInspect) (fs : ParsedFilters)
    → StandsIn c (apply_container_filters cs fs)
      ↔ (StandsIn c cs × MatchesAll container_matches c fs)
unfolding apply_container_filters
apply_container_filters_iff c cs fs = apply_filters_iff container_matches c cs fs

any-append : {A : Type 0} (p : A → Bool) (xs ys : List A) → any p (xs ++ ys) ≡ any p xs || any p ys
any-append p [] ys = refl
any-append p (x ∷ xs) ys = ground (arith, any-append p xs ys)

-- The values of one key are joined by OR: a container matches a key with two lists of values
-- together exactly when it matches the key with the first list or with the second.
pub container_matches-append :
    (c : ContainerInspect) (key : String) (vs ws : List String)
    → container_matches c key (vs ++ ws) ≡ container_matches c key vs || container_matches c key ws
unfolding container_matches match_any
container_matches-append c key vs ws =
    rw (any-append, any-append, any-append, any-append, any-append, any-append, any-append)
      (ground arith)
