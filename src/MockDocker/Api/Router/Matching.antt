-- ===== src/MockDocker/Api/Router/Matching.antt =====
-- mock-docker/src/server.ts: `matchRoute`, against a description of what a pattern allows.
use dockge.Prelude.{
  ℕ, ◌≡◌, ◌≤◌, refl, ◌↔◌, ◌⊎◌, inl, inr, String, Bool, true, false, Option, none, some, List, [],
  ◌∷◌, length, ltb, eqb, ◌==◌, starts_with, skip_text, join, drop, Bool-cases, arith, eq_iff,
}
use dockge.Prelude.Dict.{Dict, insert}
use dockge.MockDocker.Api.Router.{
  Route, match_route, match_pattern, parse_pattern, bind_segments, with_rest,
}

abbrev pub IsParameter : String → Type 0
IsParameter seg = starts_with seg ":" ≡ true

-- A path goes along the segments: each is a parameter or the same text. Where `open_end` holds, the path
-- may go on.
abbrev pub Along : Bool → List String → List String → Type 0
Along true [] path = Unit
Along false [] [] = Unit
Along false [] (p ∷ path) = ⊥
Along open_end (seg ∷ segs) [] = ⊥
Along open_end (seg ∷ segs) (p ∷ path) = (IsParameter seg ⊎ (seg ≡ p)) × Along open_end segs path

Along-length : (segs path : List String) → Along false segs path → length path ≡ length segs
Along-length [] [] h = refl
Along-length [] (p ∷ path) h = elim h [ ]
Along-length (seg ∷ segs) [] h = elim h [ ]
Along-length (seg ∷ segs) (p ∷ path) h = ground (arith, Along-length segs path h.1)

Along-le : (segs path : List String) → Along true segs path → length segs ≤ length path
Along-le [] path h = ground arith
Along-le (seg ∷ segs) [] h = elim h [ ]
Along-le (seg ∷ segs) (p ∷ path) h = ground (arith, Along-le segs path h.1)

bind_segments-Along :
    (open_end : Bool) (segs path : List String) (params : Dict String)
    → Along open_end segs path
    → (bound : Dict String) × (bind_segments segs path params ≡ some bound)
unfolding bind_segments
bind_segments-Along open_end [] path params h = (params, refl)
bind_segments-Along open_end (seg ∷ segs) [] params h = absurd h
bind_segments-Along open_end (seg ∷ segs) (p ∷ path) params h =
    let (b, e) = bind_segments-Along open_end segs path (insert (skip_text 1 seg) p params) h.1 in
    let (c, f) = bind_segments-Along open_end segs path params h.1 in
    elim (Bool-cases (starts_with seg ":")) [
      | inl colon ↦ (b, rw colon e)
      | inr literal ↦
          let same : (seg == p) ≡ true = ground (arith, eq_iff seg p) in (c, rw (literal, same) f)
    ]

-- What the loop binds goes along the segments, where the path is long enough.
Along-bind_segments :
    (segs path : List String) (params bound : Dict String)
    → bind_segments segs path params ≡ some bound
    → Along true segs path
unfolding bind_segments
Along-bind_segments [] path params bound e = tt
Along-bind_segments (seg ∷ segs) [] params bound e = cc
Along-bind_segments (seg ∷ segs) (p ∷ path) params bound e =
    elim (Bool-cases (starts_with seg ":")) [
      | inl colon ↦ (
        inl colon,
        Along-bind_segments segs path (insert (skip_text 1 seg) p params) bound (rw colon at e),
      )
      | inr literal ↦ elim (Bool-cases (seg == p)) [
        | inl same ↦ (
          inr ((eq_iff seg p).0 same),
          Along-bind_segments segs path params bound (rw (literal, same) at e),
        )
        | inr other ↦ let refused = rw (literal, other) at e in absurd (cc (refused))
      ]
    ]

Along-closed :
    (segs path : List String)
    → Along true segs path
    → length path ≡ length segs
    → Along false segs path
Along-closed [] [] h e = tt
Along-closed [] (p ∷ path) h e = absurd (omega arith)
Along-closed (seg ∷ segs) [] h e = absurd h
Along-closed (seg ∷ segs) (p ∷ path) h e = (h.0, Along-closed segs path h.1 (omega arith))

with_rest-some :
    (n : ℕ) (path : List String) (o : Option (Dict String)) (params : Dict String)
    → with_rest n path o ≡ some params
    → (bound : Dict String) × (o ≡ some bound)
unfolding with_rest
with_rest-some n path none params e = cc
with_rest-some n path (some bound) params e = (bound, refl)

match_pattern-Along :
    (segs : List String) (greedy : Bool) (path : List String) (params : Dict String)
    → match_pattern (record { segments = segs; greedy = greedy }) path ≡ some params
    → Along greedy segs path
unfolding match_pattern
match_pattern-Along segs true path params e = elim (Bool-cases (ltb (length path) (length segs))) [
  | inl short ↦ let refused = rw short at e in absurd (cc (refused))
  | inr long ↦
      let (bound, f) =
        with_rest-some (length segs) path (bind_segments segs path []) params (rw long at e) in
      Along-bind_segments segs path [] bound f
]
match_pattern-Along segs false path params e = elim (Bool-cases (eqb (length path) (length segs))) [
  | inl same ↦
      Along-closed segs path (Along-bind_segments segs path [] params (rw same at e)) (ground arith)
  | inr other ↦ let refused = rw other at e in absurd (cc (refused))
]

Along-match_pattern :
    (segs : List String) (greedy : Bool) (path : List String)
    → Along greedy segs path
    → (params : Dict String) × (match_pattern (record { segments = segs; greedy = greedy }) path
        ≡ some params)
unfolding match_pattern with_rest
Along-match_pattern segs true path h =
    let (bound, e) = bind_segments-Along true segs path [] h in
    let long : ltb (length path) (length segs) ≡ false = ground (arith, Along-le segs path h) in
    (insert "*" (join "/" (drop (length segs) path)) bound, rw (long, e) refl)
Along-match_pattern segs false path h =
    let (bound, e) = bind_segments-Along false segs path [] h in
    let same : eqb (length path) (length segs) ≡ true = ground (arith, Along-length segs path h) in
    (bound, rw same e)

-- A route matches a request exactly when its method is the request's and the path goes along the segments
-- of its pattern, each of which is a parameter or the same text; the path may go on where the pattern
-- ends in "*", and has as many segments otherwise.
pub match_route_iff :
    {H : Type 0} (r : Route H) (method : String) (path : List String)
    → ((params : Dict String) × (match_route r method path ≡ some params)) ↔ (
        (r.method ≡ method)
        × Along (parse_pattern r.pattern).greedy (parse_pattern r.pattern).segments path)
unfolding match_route
match_route_iff r method path =
    let p = parse_pattern r.pattern in
    (
      λ (params, e). elim (Bool-cases (r.method == method)) [
        | inl same ↦ (
          (eq_iff r.method method).0 same,
          match_pattern-Along p.segments p.greedy path params (rw same at e),
        )
        | inr other ↦ let refused = rw other at e in absurd (cc (refused))
      ],
      λ (same, h).
          let (params, e) = Along-match_pattern p.segments p.greedy path h in
          (params, rw ((eq_iff r.method method).1 same) e),
    )
