-- ===== src/Cli/SocketClient/Lines.antt =====
-- mock-docker/cli/socket-client.ts: size lines and the rounds of the loop over the chunks.
use dockge.Prelude.{
  ℕ, zero, suc, ◌+◌, ◌≤◌, ◌<◌, ◌≡◌, refl, sym, ap, ◌∙◌, true, false, none, some, List, [], ◌∷◌,
  ◌++◌, eqb, ltb, length, drop, take, take-append, length-append, arith, Bool-cases, Option-cases,
  inl, inr, ◌&&◌, if◌then◌else◌,
}
use mathlib.Core.Option.{map as map_option}
use dockge.Cli.SocketClient.{plus, wait, emit, crlf_at, size_of, sized_round, round_at, next_round}

module _ {ℓ} {A : Type ℓ} where
  pub append_assoc : (xs ys zs : List A) → (xs ++ ys) ++ zs ≡ xs ++ (ys ++ zs)
  append_assoc [] ys zs = refl
  append_assoc (x ∷ xs) ys zs = ap (λ l. x ∷ l) (append_assoc xs ys zs)

  pub append-nil : (xs : List A) → xs ++ [] ≡ xs
  append-nil [] = refl
  append-nil (x ∷ xs) = ap (λ l. x ∷ l) (append-nil xs)

  -- Of two ways to cut a list, the longer front has the shorter one in front.
  pub longer_front :
      (xs r ys s : List A)
      → xs ++ r ≡ ys ++ s
      → length ys ≤ length xs
      → (z : List A) × (xs ≡ ys ++ z) × (z ++ r ≡ s)
  longer_front xs r [] s e h = (xs, refl, e)
  longer_front [] r (y ∷ ys) s e h = absurd (omega arith)
  longer_front (x ∷ xs) r (y ∷ ys) s e h =
      let (z, front, back) = longer_front xs r ys s (cc (e)) (omega arith) in
      (z, cc (e, front), back)

module _ (b c : ℕ) (xs : List ℕ) where
  crlf_at-here : eqb b 13 && eqb c 10 ≡ true → crlf_at (b ∷ c ∷ xs) ≡ some 0
  unfolding crlf_at
  crlf_at-here here = rw here refl

  crlf_at-later :
      eqb b 13 && eqb c 10 ≡ false → crlf_at (b ∷ c ∷ xs) ≡ map_option suc (crlf_at (c ∷ xs))
  crlf_at-later later = unfold crlf_at in rw later refl

  -- Where the line ends later, it ends one byte later than in what follows the first byte.
  crlf_at-tail :
      (k : ℕ)
      → eqb b 13 && eqb c 10 ≡ false
      → crlf_at (b ∷ c ∷ xs) ≡ some k
      → (i : ℕ) × (crlf_at (c ∷ xs) ≡ some i) × (k ≡ suc i)
  crlf_at-tail k later h = elim (Option-cases (crlf_at (c ∷ xs))) [
    | inl missing ↦ absurd (cc (crlf_at-later later, h, missing))
    | inr (i, found) ↦ (i, found, cc (crlf_at-later later, h, found))
  ]

crlf_at-append : (xs ys : List ℕ) (k : ℕ) → crlf_at xs ≡ some k → crlf_at (xs ++ ys) ≡ some k
crlf_at-append [] ys k h = absurd (unfold crlf_at in cc (h))
crlf_at-append (b ∷ []) ys k h = absurd (unfold crlf_at in cc (h))
crlf_at-append (b ∷ c ∷ xs) ys k h = elim (Bool-cases (eqb b 13 && eqb c 10)) [
  | inl here ↦ crlf_at-here b c (xs ++ ys) here ∙ sym (crlf_at-here b c xs here) ∙ h
  | inr later ↦
      let (i, found, e) = crlf_at-tail b c xs k later h in
      crlf_at-later b c (xs ++ ys) later
      ∙ ap (map_option suc) (crlf_at-append (c ∷ xs) ys i found)
      ∙ ap some (sym e)
]

crlf_at-small : (xs : List ℕ) (k : ℕ) → crlf_at xs ≡ some k → k + 2 ≤ length xs
crlf_at-small [] k h = absurd (unfold crlf_at in cc (h))
crlf_at-small (b ∷ []) k h = absurd (unfold crlf_at in cc (h))
crlf_at-small (b ∷ c ∷ xs) k h = elim (Bool-cases (eqb b 13 && eqb c 10)) [
  | inl here ↦ let first : k ≡ 0 = cc (crlf_at-here b c xs here, h) in omega arith
  | inr later ↦
      let (i, found, e) = crlf_at-tail b c xs k later h in
      let shorter = crlf_at-small (c ∷ xs) i found in omega arith
]

-- A line with no CRLF in it, not even with the CR that ends it.
abbrev pub IsLine : List ℕ → Type 0
IsLine line = crlf_at (line ++ 13 ∷ []) ≡ none

crlf_at-missing :
    (b c : ℕ) (xs : List ℕ)
    → eqb b 13 && eqb c 10 ≡ false
    → crlf_at (b ∷ c ∷ xs) ≡ none
    → crlf_at (c ∷ xs) ≡ none
crlf_at-missing b c xs later h = elim (Option-cases (crlf_at (c ∷ xs))) [
  | inl missing ↦ missing
  | inr (i, found) ↦ absurd (cc (crlf_at-later b c xs later, h, found))
]

crlf_at-line :
    (line rest : List ℕ) → IsLine line → crlf_at (line ++ 13 ∷ 10 ∷ rest) ≡ some (length line)
crlf_at-line [] rest h = unfold crlf_at in refl
crlf_at-line (b ∷ []) rest h =
    let later : eqb b 13 && eqb 13 10 ≡ false = ground arith in
    crlf_at-later b 13 (10 ∷ rest) later
    ∙ ap (map_option suc) (crlf_at-line [] rest (unfold crlf_at in refl))
crlf_at-line (b ∷ c ∷ line) rest h = elim (Bool-cases (eqb b 13 && eqb c 10)) [
  | inl here ↦ absurd (cc (crlf_at-here b c (line ++ 13 ∷ []) here, h))
  | inr later ↦
      crlf_at-later b c (line ++ 13 ∷ 10 ∷ rest) later
      ∙ ap (map_option suc)
          (crlf_at-line (c ∷ line) rest (crlf_at-missing b c (line ++ 13 ∷ []) later h))
]

-- A buffer that the rest of the stream follows holds the next size line, or waits for its end.
module _ (b r line rest : List ℕ) (plain : IsLine line) (e : b ++ r ≡ line ++ 13 ∷ 10 ∷ rest) where
  pub wait_for_line : length b < length line + 2 → next_round b ≡ wait
  unfolding next_round round_at
  wait_for_line h = elim (Option-cases (crlf_at b)) [
    | inl missing ↦ rw missing refl
    | inr (k, found) ↦
        let same : k ≡ length line =
          cc (crlf_at-append b r k found, ap crlf_at e, crlf_at-line line rest plain) in
        absurd (omega (arith, crlf_at-small b k found))
  ]

pub behind_crlf :
    (b r line rest : List ℕ)
    → b ++ r ≡ line ++ 13 ∷ 10 ∷ rest
    → length line + 2 ≤ length b
    → (z : List ℕ) × (b ≡ line ++ 13 ∷ 10 ∷ z) × (z ++ r ≡ rest)
behind_crlf b r line rest e h =
    let (z, front, back) =
      longer_front b r (line ++ 13 ∷ 10 ∷ []) rest (e ∙ sym (append_assoc line (13 ∷ 10 ∷ []) rest))
        (omega (arith, length-append line (13 ∷ 10 ∷ []))) in
    (z, front ∙ append_assoc line (13 ∷ 10 ∷ []) z, back)

pub next_round-line :
    (line z : List ℕ)
    → IsLine line
    → next_round (line ++ 13 ∷ 10 ∷ z)
      ≡ sized_round (length line) (size_of line) (line ++ 13 ∷ 10 ∷ z)
unfolding next_round round_at
next_round-line line z h = rw (crlf_at-line line z h, take-append line (13 ∷ 10 ∷ z)) refl

pub drop-past : (xs ys : List ℕ) (n m : ℕ) → m ≡ length xs + n → drop m (xs ++ ys) ≡ drop n ys
drop-past [] ys n m e = ap (λ i. drop i ys) (omega arith)
drop-past (x ∷ xs) ys n zero e = absurd (omega arith)
drop-past (x ∷ xs) ys n (suc m) e = drop-past xs ys n m (omega arith)

pub length-line : (line z : List ℕ) → length (line ++ 13 ∷ 10 ∷ z) ≡ length line + 2 + length z
length-line line z = omega (arith, length-append line (13 ∷ 10 ∷ z))

sized_round-plus :
    (k n : ℕ) (buf : List ℕ)
    → 0 < n
    → sized_round k (plus n) buf ≡ (
        if ltb (length buf) (k + 2 + n + 2)
        then wait
        else emit (take n (drop (k + 2) buf)) (drop (k + 2 + n + 2) buf))
unfolding sized_round
sized_round-plus k zero buf h = absurd (omega arith)
sized_round-plus k (suc n) buf h = refl

-- A size line in front of a payload that is not empty.
module _ (line p : List ℕ) (plain : IsLine line) (sized : size_of line ≡ plus (length p))
    (full : 0 < length p) where
  round_of_size :
      (buf : List ℕ)
      → sized_round (length line) (size_of line) buf ≡ (
          if ltb (length buf) (length line + 2 + length p + 2)
          then wait
          else emit
              (take (length p) (drop (length line + 2) buf))
              (drop (length line + 2 + length p + 2) buf))
  round_of_size buf =
      ap (λ size. sized_round (length line) size buf) sized
      ∙ sized_round-plus (length line) (length p) buf full

  pub wait_for_payload :
      (z : List ℕ) → length z < length p + 2 → next_round (line ++ 13 ∷ 10 ∷ z) ≡ wait
  wait_for_payload z h =
      let buf = line ++ 13 ∷ 10 ∷ z in
      let short : ltb (length buf) (length line + 2 + length p + 2) ≡ true =
        ground (arith, length-line line z) in
      next_round-line line z plain ∙ round_of_size buf ∙ rw short refl

  pub emit_payload : (z : List ℕ) → next_round (line ++ 13 ∷ 10 ∷ (p ++ 13 ∷ 10 ∷ z)) ≡ emit p z
  emit_payload z =
      let buf = line ++ 13 ∷ 10 ∷ (p ++ 13 ∷ 10 ∷ z) in
      let whole : ltb (length buf) (length line + 2 + length p + 2) ≡ false =
        ground (arith, length-line line (p ++ 13 ∷ 10 ∷ z), length-line p z) in
      let body : drop (length line + 2) buf ≡ p ++ 13 ∷ 10 ∷ z =
        drop-past line (13 ∷ 10 ∷ (p ++ 13 ∷ 10 ∷ z)) 2 (length line + 2) refl in
      let left : drop (length line + 2 + length p + 2) buf ≡ z =
        drop-past line (13 ∷ 10 ∷ (p ++ 13 ∷ 10 ∷ z)) (suc (suc (length p + 2)))
          (length line + 2 + length p + 2) (omega arith)
        ∙ drop-past p (13 ∷ 10 ∷ z) 2 (length p + 2) refl in
      next_round-line line (p ++ 13 ∷ 10 ∷ z) plain
      ∙ round_of_size buf
      ∙ rw (whole, body, left, take-append p (13 ∷ 10 ∷ z)) refl
