-- ===== src/Cli/SocketClient/Headers.antt =====
-- mock-docker/cli/socket-client.ts: where the headers of a response end, and what they say.
use dockge.Prelude.{
  ℕ, suc, ◌+◌, ◌≤◌, ◌≡◌, refl, sym, ap, ◌∙◌, true, false, none, some, List, [], ◌∷◌, ◌++◌, eqb,
  length, length-append, map, arith, Bool-cases, Option-cases, inl, inr, ◌||◌, ◌&&◌,
}
use mathlib.Core.Option.{map as map_option}
use dockge.MockDocker.Stream.{utf8}
use dockge.Cli.SocketClient.{begins_with, headers_end, contains_bytes, lower_byte}
use dockge.Cli.SocketClient.Lines.{append_assoc}

-- The empty line behind the headers.
abbrev pub gap : List ℕ
gap = 13 ∷ 10 ∷ 13 ∷ 10 ∷ []

begins_with-append :
    (xs ys part : List ℕ)
    → length part ≤ length xs
    → begins_with (xs ++ ys) part ≡ begins_with xs part
unfolding begins_with
begins_with-append [] ys [] h = refl
begins_with-append [] ys (c ∷ part) h = absurd (omega arith)
begins_with-append (b ∷ xs) ys [] h = refl
begins_with-append (b ∷ xs) ys (c ∷ part) h =
    ap (λ t. eqb b c && t) (begins_with-append xs ys part (omega arith))

module _ (b : ℕ) (xs : List ℕ) where
  headers_end-here : begins_with (b ∷ xs) gap ≡ true → headers_end (b ∷ xs) ≡ some 0
  unfolding headers_end
  headers_end-here here = rw here refl

  headers_end-later :
      begins_with (b ∷ xs) gap ≡ false → headers_end (b ∷ xs) ≡ map_option suc (headers_end xs)
  headers_end-later later = unfold headers_end in rw later refl

  headers_end-tail :
      (k : ℕ)
      → begins_with (b ∷ xs) gap ≡ false
      → headers_end (b ∷ xs) ≡ some k
      → (i : ℕ) × (headers_end xs ≡ some i) × (k ≡ suc i)
  headers_end-tail k later h = elim (Option-cases (headers_end xs)) [
    | inl missing ↦ absurd (cc (headers_end-later later, h, missing))
    | inr (i, found) ↦ (i, found, cc (headers_end-later later, h, found))
  ]

begins_with-small : (xs part : List ℕ) → begins_with xs part ≡ true → length part ≤ length xs
unfolding begins_with
begins_with-small xs [] h = omega arith
begins_with-small [] (c ∷ part) h = absurd (cc (h))
begins_with-small (b ∷ xs) (c ∷ part) h =
    let shorter = begins_with-small xs part (ground arith) in omega arith

pub headers_end-small : (xs : List ℕ) (k : ℕ) → headers_end xs ≡ some k → k + 4 ≤ length xs
headers_end-small [] k h = absurd (unfold headers_end in cc (h))
headers_end-small (b ∷ xs) k h = elim (Bool-cases (begins_with (b ∷ xs) gap)) [
  | inl here ↦
      let first : k ≡ 0 = cc (headers_end-here b xs here, h) in
      omega (arith, begins_with-small (b ∷ xs) gap here)
  | inr later ↦
      let (i, found, e) = headers_end-tail b xs k later h in
      let shorter = headers_end-small xs i found in omega arith
]

pub headers_end-append :
    (xs ys : List ℕ) (k : ℕ) → headers_end xs ≡ some k → headers_end (xs ++ ys) ≡ some k
headers_end-append [] ys k h = absurd (unfold headers_end in cc (h))
headers_end-append (b ∷ xs) ys k h = elim (Bool-cases (begins_with (b ∷ xs) gap)) [
  | inl here ↦
      headers_end-here b (xs ++ ys)
        (begins_with-append (b ∷ xs) ys gap (begins_with-small (b ∷ xs) gap here) ∙ here)
      ∙ sym (headers_end-here b xs here)
      ∙ h
  | inr later ↦
      let (i, found, e) = headers_end-tail b xs k later h in
      let small = headers_end-small xs i found in
      headers_end-later b (xs ++ ys) (begins_with-append (b ∷ xs) ys gap (omega arith) ∙ later)
      ∙ ap (map_option suc) (headers_end-append xs ys i found)
      ∙ ap some (sym e)
]

headers_end-missing :
    (b : ℕ) (xs : List ℕ)
    → begins_with (b ∷ xs) gap ≡ false
    → headers_end (b ∷ xs) ≡ none
    → headers_end xs ≡ none
headers_end-missing b xs later h = elim (Option-cases (headers_end xs)) [
  | inl missing ↦ missing
  | inr (i, found) ↦ absurd (cc (headers_end-later b xs later, h, found))
]

-- Headers with no empty line in them, not even with the three bytes that follow them.
abbrev pub IsHead : List ℕ → Type 0
IsHead head = headers_end (head ++ 13 ∷ 10 ∷ 13 ∷ []) ≡ none

pub headers_end-head :
    (head rest : List ℕ)
    → IsHead head
    → headers_end (head ++ 13 ∷ 10 ∷ 13 ∷ 10 ∷ rest) ≡ some (length head)
headers_end-head [] rest h =
    headers_end-here 13 (10 ∷ 13 ∷ 10 ∷ rest)
      (begins_with-append gap rest gap (omega arith) ∙ unfold begins_with in refl)
headers_end-head (b ∷ head) rest h =
    let front = head ++ 13 ∷ 10 ∷ 13 ∷ [] in
    let all = append_assoc (b ∷ head) (13 ∷ 10 ∷ 13 ∷ []) (10 ∷ rest) in
    elim (Bool-cases (begins_with (b ∷ front) gap)) [
      | inl here ↦ absurd (cc (headers_end-here b front here, h))
      | inr later ↦
          headers_end-later b (head ++ 13 ∷ 10 ∷ 13 ∷ 10 ∷ rest) (
            ap (λ l. begins_with l gap) (sym all)
            ∙ begins_with-append (b ∷ front) (10 ∷ rest) gap
                (omega (arith, length-append head (13 ∷ 10 ∷ 13 ∷ [])))
            ∙ later)
          ∙ ap (map_option suc) (headers_end-head head rest (headers_end-missing b front later h))
    ]

pub map-append : (f : ℕ → ℕ) (xs ys : List ℕ) → map f (xs ++ ys) ≡ map f xs ++ map f ys
map-append f [] ys = refl
map-append f (x ∷ xs) ys = ap (λ l. f x ∷ l) (map-append f xs ys)

pub contains_bytes-append :
    (xs ys part : List ℕ) → contains_bytes xs part ≡ true → contains_bytes (xs ++ ys) part ≡ true
unfolding contains_bytes begins_with
contains_bytes-append [] [] [] h = refl
contains_bytes-append [] (y ∷ ys) [] h = refl
contains_bytes-append [] ys (c ∷ part) h = absurd (cc (h))
contains_bytes-append (b ∷ xs) ys part h = elim (Bool-cases (begins_with (b ∷ xs) part)) [
  | inl here ↦
      ap (λ t. t || contains_bytes (xs ++ ys) part)
        (begins_with-append (b ∷ xs) ys part (begins_with-small (b ∷ xs) part here) ∙ here)
  | inr later ↦
      let behind = contains_bytes-append xs ys part (ground (arith, later, h)) in
      ground (arith, behind)
]

-- The headers say that the body comes in chunks.
abbrev pub SaysChunked : List ℕ → Type 0
SaysChunked head = contains_bytes (map lower_byte head) (utf8 "transfer-encoding: chunked") ≡ true
