-- ===== src/Web/Search.antt =====
-- The binary search that `findInsertIndex` of web/src/common/log-store.ts and `insert` of
-- web/src/stores/eventStore.ts make over an array that is sorted by time, and the insertion there.
pub mod Laws
pub mod Insertion
use dockge.Prelude.{ℕ, zero, suc, ◌+◌, ◌/◌, ◌≤◌, Bool, List, [], ◌∷◌, length, ltb, if◌then◌else◌}

module _ {A : Type 0} (nanos_of : A → ℕ) where
  -- entries[i].nanos; the search reads no index out of range.
  unfoldable pub nanos_at : List A → ℕ → ℕ
  nanos_at [] i = 0
  nanos_at (e ∷ entries) zero = nanos_of e
  nanos_at (e ∷ entries) (suc i) = nanos_at entries i

  -- The loop, with fuel for its rounds.
  unfoldable pub search_between : ℕ → List A → ℕ → ℕ → ℕ → ℕ
  search_between zero entries nanos lo hi = lo
  search_between (suc fuel) entries nanos lo hi =
      let mid = (lo + hi) / 2 in
      let right = search_between fuel entries nanos (mid + 1) hi in
      let left = search_between fuel entries nanos lo mid in
      if ltb lo hi then if ltb (nanos_at entries mid) nanos then right else left else lo

  unfoldable pub find_insert_index : List A → ℕ → ℕ
  find_insert_index entries nanos = search_between (length entries) entries nanos 0 (length entries)

  -- arr.splice(i, 0, entry)
  unfoldable pub splice : ℕ → A → List A → List A
  splice zero entry arr = entry ∷ arr
  splice (suc i) entry [] = entry ∷ []
  splice (suc i) entry (e ∷ arr) = e ∷ splice i entry arr

  unfoldable pub insert_entry : A → List A → List A
  insert_entry entry arr = splice (find_insert_index arr (nanos_of entry)) entry arr

  -- The times do not fall along the array.
  abbrev pub IsAbove : ℕ → List A → Type 0
  IsAbove n [] = Unit
  IsAbove n (e ∷ es) = (n ≤ nanos_of e) × IsAbove n es

  abbrev pub IsSorted : List A → Type 0
  IsSorted [] = Unit
  IsSorted (e ∷ es) = IsAbove (nanos_of e) es × IsSorted es

  -- How many entries are earlier.
  abbrev pub rank : ℕ → List A → ℕ
  rank n [] = 0
  rank n (e ∷ es) = (if ltb (nanos_of e) n then 1 else 0) + rank n es
