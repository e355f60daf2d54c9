-- ===== src/Web/Search/Laws.antt =====
-- web/src/common/log-store.ts: `findInsertIndex` and the splice, against recursive definitions.
use native.Mathlib.Decide.{dec_lt}
use dockge.Prelude.{
  ℕ, zero, suc, ◌+◌, ◌-◌, ◌/◌, ◌≤◌, ◌<◌, ◌≡◌, refl, ap, List, [], ◌∷◌, length, arith, ltb, ltb→lt,
  ltb→le, Bool-cases, inl, inr, if◌then◌else◌,
}
use dockge.Web.Search.{
  nanos_at, search_between, find_insert_index, splice, insert_entry, IsAbove, IsSorted, rank,
}

module _ {A : Type 0} (nanos_of : A → ℕ) where
  rank-le-length : (n : ℕ) (es : List A) → rank nanos_of n es ≤ length es
  rank-le-length n [] = omega arith
  rank-le-length n (e ∷ es) = ground (arith, rank-le-length n es)

  pub IsAbove-le : (m n : ℕ) (es : List A) → m ≤ n → IsAbove nanos_of n es → IsAbove nanos_of m es
  IsAbove-le m n [] le h = tt
  IsAbove-le m n (e ∷ es) le h = (omega arith, IsAbove-le m n es le h.1)

  rank_above : (n : ℕ) (es : List A) → IsAbove nanos_of n es → rank nanos_of n es ≡ 0
  rank_above n [] h = refl
  rank_above n (e ∷ es) h = ground (arith, rank_above n es h.1)

  IsAbove-nanos_at :
      (m : ℕ) (es : List A) (i : ℕ)
      → IsAbove nanos_of m es
      → i < length es
      → m ≤ nanos_at nanos_of es i
  unfolding nanos_at
  IsAbove-nanos_at m [] i h lt = absurd (omega arith)
  IsAbove-nanos_at m (e ∷ es) zero h lt = h.0
  IsAbove-nanos_at m (e ∷ es) (suc i) h lt = IsAbove-nanos_at m es i h.1 (omega arith)

  -- In a sorted array the earlier entries are those before the rank.
  below_rank :
      (n : ℕ) (es : List A) (i : ℕ)
      → IsSorted nanos_of es
      → i < rank nanos_of n es
      → nanos_at nanos_of es i < n
  unfolding nanos_at
  below_rank n [] i h lt = absurd (omega arith)
  below_rank n (e ∷ es) zero h lt = elim (Bool-cases (ltb (nanos_of e) n)) [
    | inl earlier ↦ ltb→lt _ _ earlier
    | inr later ↦
        ground (arith, rank_above n es (IsAbove-le n (nanos_of e) es (ltb→le _ _ later) h.0))
  ]
  below_rank n (e ∷ es) (suc i) h lt = below_rank n es i h.1 (ground arith)

  from_rank :
      (n : ℕ) (es : List A) (i : ℕ)
      → IsSorted nanos_of es
      → rank nanos_of n es ≤ i
      → i < length es
      → n ≤ nanos_at nanos_of es i
  unfolding nanos_at
  from_rank n [] i h le lt = absurd (omega arith)
  from_rank n (e ∷ es) zero h le lt = ground arith
  from_rank n (e ∷ es) (suc i) h le lt = elim (Bool-cases (ltb (nanos_of e) n)) [
    | inl earlier ↦ from_rank n es i h.1 (ground arith) (omega arith)
    | inr later ↦
        IsAbove-nanos_at n es i (IsAbove-le n (nanos_of e) es (ltb→le _ _ later) h.0) (omega arith)
  ]

  rank_after :
      (n : ℕ) (es : List A) (i : ℕ)
      → IsSorted nanos_of es
      → i < length es
      → nanos_at nanos_of es i < n
      → i < rank nanos_of n es
  rank_after n es i h lt earlier = elim (dec_lt i (rank nanos_of n es)) [
    | yes p ↦ p
    | no p ↦ absurd (omega (arith, from_rank n es i h (omega arith) lt))
  ]

  rank_before :
      (n : ℕ) (es : List A) (i : ℕ)
      → IsSorted nanos_of es
      → n ≤ nanos_at nanos_of es i
      → rank nanos_of n es ≤ i
  rank_before n es i h later = elim (dec_lt i (rank nanos_of n es)) [
    | yes p ↦ absurd (omega (arith, below_rank n es i h p))
    | no p ↦ omega arith
  ]

  search_between-eq-rank :
      (fuel : ℕ) (es : List A) (n lo hi : ℕ)
      → IsSorted nanos_of es
      → hi - lo ≤ fuel
      → lo ≤ rank nanos_of n es
      → rank nanos_of n es ≤ hi
      → hi ≤ length es
      → search_between nanos_of fuel es n lo hi ≡ rank nanos_of n es
  unfolding search_between
  search_between-eq-rank zero es n lo hi h enough low high fits = omega arith
  search_between-eq-rank (suc fuel) es n lo hi h enough low high fits =
      elim (Bool-cases (ltb lo hi)) [
        | inr done ↦ rw done (omega (arith, ltb→le lo hi done))
        | inl open_still ↦
            let inside = ltb→lt lo hi open_still in
            let mid = (lo + hi) / 2 in
            elim (Bool-cases (ltb (nanos_at nanos_of es mid) n)) [
              | inl earlier ↦
                  rw (open_still, earlier)
                    (search_between-eq-rank fuel es n (mid + 1) hi h (omega arith)
                      (omega (arith, rank_after n es mid h (omega arith) (ltb→lt _ _ earlier))) high
                      fits)
              | inr later ↦
                  rw (open_still, later)
                    (search_between-eq-rank fuel es n lo mid h (omega arith) low
                      (rank_before n es mid h (ltb→le _ _ later)) (omega arith))
            ]
      ]

  -- Over a sorted array the loop ends with its bounds met, at the number of the earlier entries.
  pub find_insert_index-eq-rank :
      (es : List A) (n : ℕ)
      → IsSorted nanos_of es
      → find_insert_index nanos_of es n ≡ rank nanos_of n es
  unfolding find_insert_index
  find_insert_index-eq-rank es n h =
      search_between-eq-rank (length es) es n 0 (length es) h (omega arith) (omega arith)
        (rank-le-length n es) (omega arith)

  -- The same insertion by recursion: before the first entry that is not earlier.
  unfoldable pub insert_before : A → List A → List A
  insert_before e [] = e ∷ []
  insert_before e (x ∷ es) =
      if ltb (nanos_of x) (nanos_of e) then x ∷ insert_before e es else e ∷ x ∷ es

  splice-rank :
      (e : A) (es : List A)
      → IsSorted nanos_of es
      → splice nanos_of (rank nanos_of (nanos_of e) es) e es ≡ insert_before e es
  unfolding splice insert_before
  splice-rank e [] h = refl
  splice-rank e (x ∷ es) h =
      let next : 1 + rank nanos_of (nanos_of e) es ≡ suc (rank nanos_of (nanos_of e) es) =
        omega arith in
      elim (Bool-cases (ltb (nanos_of x) (nanos_of e))) [
        | inl earlier ↦ rw (earlier, next) (ap (λ l. x ∷ l) (splice-rank e es h.1))
        | inr later ↦
            rw
              (
                later,
                rank_above (nanos_of e) es (IsAbove-le _ (nanos_of x) es (ltb→le _ _ later) h.0),
              )
              refl
      ]

  pub insert_entry-eq-before :
      (e : A) (es : List A) → IsSorted nanos_of es → insert_entry nanos_of e es ≡ insert_before e es
  unfolding insert_entry
  insert_entry-eq-before e es h =
      rw (find_insert_index-eq-rank es (nanos_of e) h) (splice-rank e es h)
