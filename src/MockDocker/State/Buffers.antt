-- ===== src/MockDocker/State/Buffers.antt =====
-- mock-docker/src/state.ts: `appendLog`, and the loops of mock-docker/src/mutations.ts over it.
use mathlib.Core.List.{append_assoc, append-nil}
use dockge.Prelude.{
  ℕ, zero, suc, ◌+◌, ◌-◌, ◌≤◌, String, ◌≡◌, refl, sym, ap, ◌∙◌, List, [], ◌∷◌, ◌++◌, map, length,
  drop, length-append, length-drop, arith, ltb, Bool-cases, inl, inr, eq_refl,
}
use dockge.Prelude.Dict.{lookup, lookup-insert}
use dockge.MockDocker.State.{MockState, LogEntry, log_buffer_cap, trim, buffer_of, append_log}
use dockge.MockDocker.World.{World, append_lines, read_clock}

-- The last hundred.
abbrev pub recent : {A : Type 0} → List A → List A
recent xs = drop (length xs - log_buffer_cap) xs

-- The texts that the buffer of a container holds; no buffer holds none.
abbrev pub logged : String → MockState → List String
logged id s = map (λ e. e.line) (buffer_of (lookup id s.log_buffers))

module _ {A : Type 0} where
  drop-append-drop :
      (m n : ℕ) (xs ys : List A)
      → m ≤ length xs
      → drop n (drop m xs ++ ys) ≡ drop (m + n) (xs ++ ys)
  drop-append-drop zero n xs ys h = ap (λ k. drop k (xs ++ ys)) (omega arith)
  drop-append-drop (suc m) n [] ys h = ground (arith, h)
  drop-append-drop (suc m) n (x ∷ xs) ys h =
      let step : suc (m + n) ≡ suc m + n = omega arith in
      drop-append-drop m n xs ys (omega arith) ∙ ap (λ k. drop k (x ∷ xs ++ ys)) step

  recent-append : (xs ys : List A) → recent (recent xs ++ ys) ≡ recent (xs ++ ys)
  recent-append xs ys =
      let m = length xs - 100 in
      let n = length (drop m xs ++ ys) - 100 in
      let sum : m + n ≡ length (xs ++ ys) - 100 =
        omega (arith, length-append (drop m xs) ys, length-append xs ys, length-drop m xs) in
      drop-append-drop m n xs ys (omega arith) ∙ ap (λ k. drop k (xs ++ ys)) sum

  map-drop : {B : Type 0} (f : A → B) (n : ℕ) (xs : List A) → map f (drop n xs) ≡ drop n (map f xs)
  map-drop f zero xs = refl
  map-drop f (suc n) [] = refl
  map-drop f (suc n) (x ∷ xs) = map-drop f n xs

  length-map : {B : Type 0} (f : A → B) (xs : List A) → length (map f xs) ≡ length xs
  length-map f [] = refl
  length-map f (x ∷ xs) = ap suc (length-map f xs)

  map-append : {B : Type 0} (f : A → B) (xs ys : List A) → map f (xs ++ ys) ≡ map f xs ++ map f ys
  map-append f [] ys = refl
  map-append f (x ∷ xs) ys = ap (λ zs. f x ∷ zs) (map-append f xs ys)

trim-eq-recent : (buf : List LogEntry) → trim buf ≡ recent buf
unfolding trim
trim-eq-recent buf = elim (Bool-cases (ltb 100 (length buf))) [
  | inl long ↦ rw long refl
  | inr short ↦
      let none_over : 0 ≡ length buf - 100 = ground arith in
      rw short (ap (λ k. drop k buf) none_over)
]

texts-recent :
    (buf : List LogEntry) → map (λ e. e.line) (recent buf) ≡ recent (map (λ e. e.line) buf)
texts-recent buf =
    map-drop (λ e. e.line) (length buf - 100) buf
    ∙ ap (λ k. drop (k - 100) (map (λ e. e.line) buf)) (sym (length-map (λ e. e.line) buf))

texts-insert :
    (id : String) (ts : ℕ) (line : String) (buf : List LogEntry)
    → map (λ e. e.line) (trim (buf ++ record { ts = ts; line = line } ∷ []))
      ≡ recent (map (λ e. e.line) buf ++ line ∷ [])
texts-insert id ts line buf =
    ap (map (λ e. e.line)) (trim-eq-recent (buf ++ record { ts = ts; line = line } ∷ []))
    ∙ texts-recent (buf ++ record { ts = ts; line = line } ∷ [])
    ∙ ap recent (map-append (λ e. e.line) buf (record { ts = ts; line = line } ∷ []))

logged-append_log :
    (id : String) (ts : ℕ) (line : String) (s : MockState)
    → logged id (append_log id ts line s) ≡ recent (logged id s ++ line ∷ [])
unfolding append_log buffer_of
logged-append_log id ts line s =
    let buf = buffer_of (lookup id s.log_buffers) in
    let there =
      lookup-insert id id (trim (buf ++ record { ts = ts; line = line } ∷ [])) s.log_buffers in
    rw (there, eq_refl id) (texts-insert id ts line buf)

-- After the lines of a loop are appended one by one to a container whose buffer holds a hundred lines at
-- most, the buffer holds the last hundred lines of what it held with the new lines behind it.
pub append_lines-recent :
    (id : String) (lines : List String) (w : World)
    → length (logged id w.state) ≤ 100
    → logged id (append_lines id lines w).state ≡ recent (logged id w.state ++ lines)
unfolding append_lines read_clock
append_lines-recent id [] w h =
    let all_kept : 0 ≡ length (logged id w.state) - 100 = omega arith in
    ap (λ k. drop k (logged id w.state)) all_kept ∙ sym (ap recent (append-nil (logged id w.state)))
append_lines-recent id (line ∷ lines) w h =
    let t = (read_clock w).0 in
    let old = logged id w.state in
    let v : World = record (read_clock w).1 { state = append_log id t line w.state } in
    let now : logged id v.state ≡ recent (old ++ line ∷ []) = logged-append_log id t line w.state in
    let short : length (logged id v.state) ≤ 100 =
      rw now (omega (arith, length-drop (length (old ++ line ∷ []) - 100) (old ++ line ∷ []))) in
    append_lines-recent id lines v short
    ∙ ap (λ xs. recent (xs ++ lines)) now
    ∙ recent-append (old ++ line ∷ []) lines
    ∙ ap recent (append_assoc old (line ∷ []) lines)
