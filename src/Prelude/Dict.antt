-- ===== src/Prelude/Dict.antt =====
-- JavaScript's `Map` with string keys, and a plain object used as one: the entries in the order of
-- insertion. `set` on a key that is present keeps its place. A plain object's inherited names
-- (`toString` and the like) and its numeric order of integer keys are not modelled.
use Prim.Native.String.{String}
use mathlib.Core.Path.{◌≡◌, refl, subst, subst₂}
use mathlib.Core.Logic.{◌≢◌, inl, inr}
use mathlib.Core.Bool.{Bool, true, false}
use mathlib.Core.Option.{Option, none, some}
use mathlib.Core.List.{List, [], ◌∷◌}
use native.Mathlib.Omega.{arith}
use text.Mathlib.Text.{◌==◌}
use text.Mathlib.TextEquality.{eq_iff}
use dockge.Prelude.Tests.{Bool-cases, if◌then◌else◌}

abbrev pub Dict {ℓ} : Type ℓ → Type ℓ
Dict V = List (String × V)

module _ {ℓ} {V : Type ℓ} where
  -- m.get(k)
  unfoldable pub lookup : String → Dict V → Option V
  lookup key [] = none
  lookup key ((k, x) ∷ rest) = if k == key then some x else lookup key rest

  -- m.set(k, v)
  unfoldable pub insert : String → V → Dict V → Dict V
  insert key x [] = (key, x) ∷ []
  insert key x ((k, old) ∷ rest) =
      if k == key then (key, x) ∷ rest else (k, old) ∷ insert key x rest

  -- m.delete(k)
  unfoldable pub remove : String → Dict V → Dict V
  remove k [] = []
  remove k ((j, v) ∷ m) = let rest = remove k m in if j == k then rest else (j, v) ∷ rest

  -- m.values()
  abbrev pub values : Dict V → List V
  values [] = []
  values ((k, v) ∷ m) = v ∷ values m

  -- m.has(k), and `k in m`
  unfoldable pub has : String → Dict V → Bool
  has k [] = false
  has k ((j, v) ∷ m) = if j == k then true else has k m

  pub lookup-insert :
      (key asked : String) (x : V) (m : Dict V)
      → lookup asked (insert key x m) ≡ (if key == asked then some x else lookup asked m)
  unfolding insert lookup
  lookup-insert key asked x [] = refl
  lookup-insert key asked x ((k, old) ∷ rest) =
      let deeper = lookup-insert key asked x rest in
      ground (arith, deeper, eq_iff k key, eq_iff k asked, eq_iff key asked)

  pub lookup-remove :
      (k j : String) (m : Dict V) → lookup j (remove k m) ≡ (if k == j then none else lookup j m)
  unfolding lookup remove
  lookup-remove k j [] = ground arith
  lookup-remove k j ((i, v) ∷ m) =
      ground (arith, lookup-remove k j m, eq_iff i k, eq_iff i j, eq_iff k j)

-- A key has one entry at most.
abbrev pub Fresh {ℓ} : {V : Type ℓ} → String → Dict V → Type 0
Fresh k [] = Unit
Fresh k ((j, v) ∷ m) = (j ≢ k) × Fresh k m

abbrev pub IsKeyed {ℓ} : {V : Type ℓ} → Dict V → Type 0
IsKeyed [] = Unit
IsKeyed ((k, v) ∷ m) = Fresh k m × IsKeyed m

pub ruleset dict_laws = (lookup-insert, lookup-remove)

module _ {ℓ} {V : Type ℓ} where
  -- A property of every entry.
  abbrev pub Each {κ} : (String → V → Type κ) → Dict V → Type κ
  Each P [] = Unit
  Each P ((k, v) ∷ m) = P k v × Each P m

  pub lookup-Fresh : (k : String) (m : Dict V) → Fresh k m → lookup k m ≡ none
  unfolding lookup
  lookup-Fresh k [] h = refl
  lookup-Fresh k ((j, v) ∷ m) h = ground (arith, eq_iff j k, lookup-Fresh k m h.1)

  pub Each-lookup {κ} :
      (P : String → V → Type κ) (m : Dict V) {k : String} {v : V}
      → Each P m
      → lookup k m ≡ some v
      → P k v
  unfolding lookup
  Each-lookup P [] h e = cc
  Each-lookup P ((j, w) ∷ m) {k} {v} h e = elim (Bool-cases (j == k)) [
    | inl same ↦ subst₂ P ((eq_iff j k).0 same) (ground arith) h.0
    | inr other ↦ Each-lookup P m h.1 (rw other at e)
  ]

  pub Fresh-insert :
      (k j : String) (v : V) (m : Dict V) → j ≢ k → Fresh k m → Fresh k (insert j v m)
  unfolding insert
  Fresh-insert k j v [] ne h = (ne, tt)
  Fresh-insert k j v ((i, w) ∷ m) ne h = ground (arith, Fresh-insert k j v m ne h.1)

  pub IsKeyed-insert : (k : String) (v : V) (m : Dict V) → IsKeyed m → IsKeyed (insert k v m)
  unfolding insert
  IsKeyed-insert k v [] h = (tt, tt)
  IsKeyed-insert k v ((j, w) ∷ m) h = elim (Bool-cases (j == k)) [
    | inl same ↦ rw same (subst (λ i. Fresh i m) ((eq_iff j k).0 same) h.0, h.1)
    | inr other ↦
        rw other
          (Fresh-insert j k v m (λ e. ground (arith, eq_iff j k)) h.0, IsKeyed-insert k v m h.1)
  ]

  pub Fresh-remove : (k j : String) (m : Dict V) → Fresh k m → Fresh k (remove j m)
  unfolding remove
  Fresh-remove k j [] h = tt
  Fresh-remove k j ((i, w) ∷ m) h = ground (arith, Fresh-remove k j m h.1)

  pub IsKeyed-remove : (k : String) (m : Dict V) → IsKeyed m → IsKeyed (remove k m)
  unfolding remove
  IsKeyed-remove k [] h = tt
  IsKeyed-remove k ((j, w) ∷ m) h = ground (arith, Fresh-remove j k m h.0, IsKeyed-remove k m h.1)

  pub Each-map {κ μ} :
      {P : String → V → Type κ} {Q : String → V → Type μ}
      → ((k : String) (v : V) → P k v → Q k v)
      → (m : Dict V) → Each P m
      → Each Q m
  Each-map f [] h = tt
  Each-map f ((k, v) ∷ m) h = (f k v h.0, Each-map f m h.1)

-- A property of every value that a key finds.
abbrev pub Holds {ℓ κ} : {V : Type ℓ} → (String → V → Type κ) → Dict V → Type (ℓ ⊔ κ)
Holds P m = (k : String) (v : _) → lookup k m ≡ some v → P k v

module _ {ℓ κ} {V : Type ℓ} (P : String → V → Type κ) where
  pub Holds-nil : Holds P []
  unfolding lookup
  Holds-nil k v e = cc

  pub Holds-insert : (k : String) (v : V) (m : Dict V) → Holds P m → P k v → Holds P (insert k v m)
  Holds-insert k v m h p j w at = elim (Bool-cases (k == j)) [
    | inl same ↦
        let found = rw (lookup-insert k j v m, same) at at in
        subst₂ P ((eq_iff k j).0 same) (cc (found)) p
    | inr apart ↦ h j w (rw (lookup-insert k j v m, apart) at at)
  ]

  pub Holds-remove : (k : String) (m : Dict V) → Holds P m → Holds P (remove k m)
  Holds-remove k m h j w at = elim (Bool-cases (k == j)) [
    | inl same ↦ let found = rw (lookup-remove k j m, same) at at in cc (found)
    | inr apart ↦ h j w (rw (lookup-remove k j m, apart) at at)
  ]
