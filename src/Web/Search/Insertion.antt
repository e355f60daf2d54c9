-- ===== src/Web/Search/Insertion.antt =====
-- web/src/common/log-store.ts: insertion at the place that the search finds.
use mathlib.Core.List.{Perm}
use mathlib.Core.List.Perm
use dockge.Prelude.{
  ℕ, ◌≤◌, ◌<◌, ◌≡◌, refl, ap, List, [], ◌∷◌, ◌++◌, arith, ltb, ltb→lt, ltb→le, Bool-cases, inl, inr,
}
use dockge.Web.Search.{insert_entry, IsAbove, IsSorted}
use dockge.Web.Search.Laws.{IsAbove-le, insert_before, insert_entry-eq-before}

module _ {A : Type 0} (nanos_of : A → ℕ) where
  IsAbove-insert_before :
      (n : ℕ) (e : A) (es : List A)
      → n ≤ nanos_of e
      → IsAbove nanos_of n es
      → IsAbove nanos_of n (insert_before nanos_of e es)
  unfolding insert_before
  IsAbove-insert_before n e [] le h = (le, tt)
  IsAbove-insert_before n e (x ∷ es) le h = ground (arith, IsAbove-insert_before n e es le h.1)

  IsSorted-insert_before :
      (e : A) (es : List A) → IsSorted nanos_of es → IsSorted nanos_of (insert_before nanos_of e es)
  unfolding insert_before
  IsSorted-insert_before e [] h = (tt, tt)
  IsSorted-insert_before e (x ∷ es) h = elim (Bool-cases (ltb (nanos_of x) (nanos_of e))) [
    | inl earlier ↦
        let lt = ltb→lt (nanos_of x) (nanos_of e) earlier in
        rw earlier (
          IsAbove-insert_before (nanos_of x) e es (omega arith) h.0,
          IsSorted-insert_before e es h.1,
        )
    | inr later ↦
        let le = ltb→le (nanos_of x) (nanos_of e) later in
        rw later ((le, IsAbove-le nanos_of (nanos_of e) (nanos_of x) es le h.0), h)
  ]

  perm-insert_before : (e : A) (es : List A) → Perm (insert_before nanos_of e es) (e ∷ es)
  unfolding insert_before
  perm-insert_before e [] = Perm.refl _
  perm-insert_before e (x ∷ es) = elim (Bool-cases (ltb (nanos_of x) (nanos_of e))) [
    | inl earlier ↦
        rw earlier (Perm.trans (Perm.cons x (perm-insert_before e es)) (Perm.swap e x es))
    | inr later ↦ rw later (Perm.refl _)
  ]

  -- An entry that is inserted into a sorted array leaves the array sorted, with the entry and what
  -- was there before and nothing else.
  pub insert_entry-IsSorted :
      (e : A) (es : List A)
      → IsSorted nanos_of es
      → IsSorted nanos_of (insert_entry nanos_of e es) × Perm (insert_entry nanos_of e es) (e ∷ es)
  insert_entry-IsSorted e es h =
      rw (insert_entry-eq-before nanos_of e es h)
        (IsSorted-insert_before e es h, perm-insert_before e es)

  -- Every entry is earlier.
  abbrev pub IsBelow : ℕ → List A → Type 0
  IsBelow n [] = Unit
  IsBelow n (e ∷ es) = (nanos_of e < n) × IsBelow n es

  insert_before-append :
      (e : A) (earlier later : List A)
      → IsBelow (nanos_of e) earlier
      → IsAbove nanos_of (nanos_of e) later
      → insert_before nanos_of e (earlier ++ later) ≡ earlier ++ (e ∷ later)
  unfolding insert_before
  insert_before-append e [] [] b a = refl
  insert_before-append e [] (x ∷ later) b a = ground arith
  insert_before-append e (x ∷ earlier) later b a =
      ground (arith, insert_before-append e earlier later b.1 a)

  -- Where a sorted array is cut before the entries that are not earlier.
  cut :
      (n : ℕ) (es : List A)
      → IsSorted nanos_of es
      → (xs ys : List A) × (es ≡ xs ++ ys) × IsBelow n xs × IsAbove nanos_of n ys
  cut n [] h = ([], [], refl, tt, tt)
  cut n (x ∷ es) h = elim (Bool-cases (ltb (nanos_of x) n)) [
    | inl earlier ↦
        let (xs, ys, e, b, a) = cut n es h.1 in
        (x ∷ xs, ys, ap (λ l. x ∷ l) e, (ltb→lt _ _ earlier, b), a)
    | inr later ↦
        let le = ltb→le (nanos_of x) n later in
        ([], x ∷ es, refl, tt, (le, IsAbove-le nanos_of n (nanos_of x) es le h.0))
  ]

  -- Two entries of one time that are inserted into a sorted array one after the other stand next to each
  -- other, the later insertion first.
  pub insert_entry_twice :
      (a b : A) (es : List A)
      → IsSorted nanos_of es
      → nanos_of a ≡ nanos_of b
      → (xs ys : List A) × (es ≡ xs ++ ys)
        × (insert_entry nanos_of b (insert_entry nanos_of a es) ≡ xs ++ (b ∷ a ∷ ys))
  insert_entry_twice a b es h same =
      let (xs, ys, e, below, above) = cut (nanos_of b) es h in
      (
        xs,
        ys,
        e,
        rw (insert_entry-eq-before nanos_of a es h) (
            rw (insert_entry-eq-before nanos_of b _ (IsSorted-insert_before a es h)) (
              rw e (
                rw (insert_before-append a xs ys (rw same below) (rw same above))
                  (insert_before-append b xs (a ∷ ys) below (omega arith, above))))),
      )
