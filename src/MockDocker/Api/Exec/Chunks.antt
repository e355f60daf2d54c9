-- ===== src/MockDocker/Api/Exec/Chunks.antt =====
-- mock-docker/src/api/exec.ts: how the chunks of the request are put together.
use Prim.Native.Char.{Char, code}
use Prim.Native.String.{[] as no_text, ◌∷◌ as char, ◌++◌ as append}
use text.Mathlib.TextLemmas.{append-nil, append_assoc, nil-append, cons-append}
use dockge.Prelude.{
  ℕ, List, ◌++◌, String, true, false, none, some, ◌≡◌, refl, sym, ap, ◌∙◌, ◌⊎◌, inl, inr, ◌||◌,
  Bool-cases, arith, eqb, truthy, has_char, after, trim_start, is_white,
}
use dockge.MockDocker.Runtime.{Runtime}
use dockge.MockDocker.Shell.{Ran, process_command}
use dockge.MockDocker.Api.Exec.{
  Interactive, run_line, process_lines, on_chunk, on_data, begins_with_brace, after_line,
  write_output, write_prompt, parsed, close,
}

-- What a line makes of the state does not depend on the buffer, and keeps it.
record Stepped (r : Ran) (i i' : Interactive) : Type 0 where
  here : after_line r i ≡ some i'
  elsewhere :
      (b : String) → after_line r (record i { buffer = b }) ≡ some (record i' { buffer = b })
  flag : i'.json_parsed ≡ i.json_parsed
  still : i'.ended ≡ i.ended

after_line-cases :
    (r : Ran) (i : Interactive)
    → ((b : String) → after_line r (record i { buffer = b }) ≡ none)
      ⊎ ((i' : Interactive) × Stepped r i i')
unfolding after_line write_output
after_line-cases (none, session, clock) i = inl (λ b. refl)
after_line-cases (some text, session, clock) i = inr (
  write_prompt (write_output text (record i { session = session; clock = clock })),
  elim (Bool-cases (truthy text)) [
    | inl shown ↦ record {
      here = refl;
      elsewhere = λ b. rw shown refl;
      flag = rw shown refl;
      still = rw shown refl;
    }
    | inr empty ↦ record {
      here = refl;
      elsewhere = λ b. rw empty refl;
      flag = rw empty refl;
      still = rw empty refl;
    }
  ],
)

module _ (rt : Runtime) where
  -- What a line of the loop can do.
  run_line-cases :
      (i : Interactive) (line : String)
      → ((b : String) → run_line rt (record i { buffer = b }) line ≡ none)
        ⊎ ((i' : Interactive) × Stepped (process_command rt i.session i.clock line) i i')
  unfolding run_line
  run_line-cases i line = after_line-cases (process_command rt i.session i.clock line) i

  newline-some :
      (i i' : Interactive) (line s : String) (c : Char)
      → eqb (code c) 10 ≡ true
      → run_line rt i line ≡ some i'
      → process_lines rt i line (char c s) ≡ process_lines rt i' "" s
  unfolding process_lines
  newline-some i i' line s c nl e = ground (arith, nl, e)

  newline-none :
      (i : Interactive) (line s : String) (c : Char)
      → eqb (code c) 10 ≡ true
      → run_line rt i line ≡ none
      → process_lines rt i line (char c s) ≡ close (record i { buffer = s })
  unfolding process_lines
  newline-none i line s c nl e = ground (arith, nl, e)

  other_char :
      (i : Interactive) (line s : String) (c : Char)
      → eqb (code c) 10 ≡ false
      → process_lines rt i line (char c s) ≡ process_lines rt i (append line (char c "")) s
  unfolding process_lines
  other_char i line s c nl = ground (arith, nl)

  process_lines-buffer :
      (b : String) (i : Interactive) (line s : String)
      → process_lines rt (record i { buffer = b }) line s ≡ process_lines rt i line s
  process_lines-buffer b i line no_text = unfold process_lines in refl
  process_lines-buffer b i line (char c s) = elim (Bool-cases (eqb (code c) 10)) [
    | inl nl ↦ elim (run_line-cases i line) [
      | inl stops ↦
          newline-none (record i { buffer = b }) line s c nl (stops b)
          ∙ sym (newline-none i line s c nl (stops i.buffer))
      | inr (i', stepped) ↦
          newline-some (record i { buffer = b }) (record i' { buffer = b }) line s c nl
            (unfold run_line in stepped.elsewhere b)
          ∙ process_lines-buffer b i' "" s
          ∙ sym (newline-some i i' line s c nl (unfold run_line in stepped.here))
    ]
    | inr other ↦
        other_char (record i { buffer = b }) line s c other
        ∙ process_lines-buffer b i (append line (char c "")) s
        ∙ sym (other_char i line s c other)
  ]

  -- The text of a line has no newline, so the loop puts it in front of what follows.
  line_first :
      (i : Interactive) (p line d : String)
      → has_char 10 line ≡ false
      → process_lines rt i p (append line d) ≡ process_lines rt i (append p line) d
  unfolding has_char
  line_first i p no_text d h = rw (nil-append d, append-nil p) refl
  line_first i p (char c line) d h =
      let other : eqb (code c) 10 ≡ false = ground arith in
      rw (cons-append c line d) (
        other_char i p (append line d) c other
        ∙ line_first i (append p (char c "")) line d (ground arith)
        ∙ ap (λ q. process_lines rt i q d)
            (append_assoc p (char c "") line
              ∙ ap (append p) (cons-append c "" line ∙ ap (λ t. char c t) (nil-append line))))

  has_char-append : (n : ℕ) (s t : String) → has_char n (append s t) ≡ has_char n s || has_char n t
  unfolding has_char
  has_char-append n no_text t = rw (nil-append t) refl
  has_char-append n (char c s) t = rw (cons-append c s t) (ground (arith, has_char-append n s t))

  on_chunk-flag :
      (i : Interactive) (d : String)
      → i.json_parsed ≡ true
      → on_chunk rt d i ≡ process_lines rt i "" (append i.buffer d)
  unfolding on_chunk parsed
  on_chunk-flag i d flag =
      let text = append i.buffer d in
      let read_on : on_chunk rt d i ≡ parsed rt text i = simp flag in
      read_on ∙ (λ k. process_lines rt (record i { json_parsed = sym flag k }) "" text)

  -- Where the loop has not returned, the rest of the text is read as if it had been there at once.
  process_lines-append :
      (i : Interactive) (line s d : String)
      → has_char 10 line ≡ false
      → i.json_parsed ≡ true
      → (process_lines rt i line s).ended ≡ false
      → (on_chunk rt d (process_lines rt i line s)) ≡ process_lines rt i line (append s d)
  unfolding has_char
  process_lines-append i line no_text d clear flag going =
      let at_end : process_lines rt i line "" ≡ record i { buffer = line } =
        unfold process_lines in refl in
      ap (on_chunk rt d) at_end
      ∙ on_chunk-flag (record i { buffer = line }) d flag
      ∙ process_lines-buffer line i "" (append line d)
      ∙ line_first i "" line d clear
      ∙ rw (nil-append line, nil-append d) refl
  process_lines-append i line (char c s) d clear flag going = elim (Bool-cases (eqb (code c) 10)) [
    | inl nl ↦ elim (run_line-cases i line) [
      | inl stops ↦
          let over = ap (λ j. j.ended) (newline-none i line s c nl (stops i.buffer)) in
          absurd (cc (over, going))
      | inr (i', stepped) ↦
          let next = newline-some i i' line s c nl (unfold run_line in stepped.here) in
          ap (on_chunk rt d) next
          ∙ process_lines-append i' "" s d refl (stepped.flag ∙ flag)
              (sym (ap (λ j. j.ended) next) ∙ going)
          ∙ sym (newline-some i i' line (append s d) c nl (unfold run_line in stepped.here))
          ∙ ap (process_lines rt i line) (sym (cons-append c s d))
    ]
    | inr other ↦
        let next = other_char i line s c other in
        let longer = append line (char c "") in
        let clear' : has_char 10 longer ≡ false =
          ground (arith, has_char-append 10 line (char c ""), other) in
        ap (on_chunk rt d) next
        ∙ process_lines-append i longer s d clear' flag (sym (ap (λ j. j.ended) next) ∙ going)
        ∙ sym (other_char i line (append s d) c other)
        ∙ ap (process_lines rt i line) (sym (cons-append c s d))
  ]

  parsed-append :
      (text d : String) (i : Interactive)
      → (parsed rt text i).ended ≡ false
      → on_chunk rt d (parsed rt text i) ≡ parsed rt (append text d) i
  unfolding parsed has_char
  parsed-append text d i going =
      process_lines-append (record i { json_parsed = true }) "" text d refl refl going

trim_start-append :
    (s t : String)
    → truthy (trim_start s) ≡ true
    → trim_start (append s t) ≡ append (trim_start s) t
unfolding trim_start truthy
trim_start-append no_text t h = cc (h)
trim_start-append (char c s) t h = elim (Bool-cases (is_white (code c))) [
  | inl white ↦ rw (cons-append c s t, white) (trim_start-append s t (rw white at h))
  | inr other ↦ rw (cons-append c s t, other) (sym (cons-append c s t))
]

after-append :
    (n : ℕ) (s t : String) → has_char n s ≡ true → after n (append s t) ≡ append (after n s) t
unfolding after has_char
after-append n no_text t h = cc (h)
after-append n (char c s) t h = elim (Bool-cases (eqb (code c) n)) [
  | inl same ↦ rw (cons-append c s t, same) refl
  | inr other ↦ rw (cons-append c s t, other) (after-append n s t (rw other at h))
]

module _ (rt : Runtime) where
  brace-append :
      (s t : String) → truthy s ≡ true → begins_with_brace rt (append s t) ≡ begins_with_brace rt s
  unfolding begins_with_brace truthy
  brace-append no_text t h = cc (h)
  brace-append (char c s) t h = rw (cons-append c s t) refl

  module _ (i : Interactive) (c : String) where
    open_read : i.json_parsed ≡ true → on_chunk rt c i ≡ parsed rt (append i.buffer c) i
    unfolding on_chunk
    open_read flag = simp flag

    module _ (fresh : i.json_parsed ≡ false) where
      open_plain :
          begins_with_brace rt (trim_start (append i.buffer c)) ≡ false
          → on_chunk rt c i ≡ parsed rt (append i.buffer c) i
      unfolding on_chunk
      open_plain plain = simp (fresh, plain)

      open_object :
          begins_with_brace rt (trim_start (append i.buffer c)) ≡ true
          → has_char b'}' (append i.buffer c) ≡ true
          → on_chunk rt c i ≡ parsed rt (after b'}' (append i.buffer c)) i
      unfolding on_chunk
      open_object brace whole = simp (fresh, brace, whole)

      open_wait :
          begins_with_brace rt (trim_start (append i.buffer c)) ≡ true
          → has_char b'}' (append i.buffer c) ≡ false
          → on_chunk rt c i ≡ record i { buffer = append i.buffer c }
      unfolding on_chunk
      open_wait brace wait = simp (fresh, brace, wait)

  -- A chunk that comes while the shell waits is read as one with what has come.
  wait_more :
      (i : Interactive) (c d : String)
      → i.json_parsed ≡ false
      → begins_with_brace rt (trim_start (append i.buffer (append c d))) ≡ true
      → on_chunk rt d (record i { buffer = append i.buffer c }) ≡ on_chunk rt (append c d) i
  wait_more i c d fresh brace =
      let joined = append_assoc i.buffer c d in
      let i' : Interactive = record i { buffer = append i.buffer c } in
      let brace' : begins_with_brace rt (trim_start (append i'.buffer d)) ≡ true =
        rw joined brace in
      elim (Bool-cases (has_char b'}' (append i.buffer (append c d)))) [
        | inl whole ↦
            open_object i' d fresh brace' (rw joined whole)
            ∙ unfold parsed in
              process_lines-buffer rt (append i.buffer c) (record i { json_parsed = true }) ""
                (after b'}' (append i'.buffer d))
              ∙ ap (λ t. parsed rt (after b'}' t) i) joined
              ∙ sym (open_object i (append c d) fresh brace whole)
        | inr wait ↦
            open_wait i' d fresh brace' (rw joined wait)
            ∙ ap (λ t. record i { buffer = t }) joined
            ∙ sym (open_wait i (append c d) fresh brace wait)
      ]

  on_chunk-fresh :
      (i : Interactive) (c d : String)
      → i.json_parsed ≡ false
      → truthy (trim_start (append i.buffer c)) ≡ true
      → (on_chunk rt c i).ended ≡ false
      → on_chunk rt d (on_chunk rt c i) ≡ on_chunk rt (append c d) i
  on_chunk-fresh i c d fresh shown going =
      let text = append i.buffer c in
      let joined = append_assoc i.buffer c d in
      let same_start : begins_with_brace rt (trim_start (append i.buffer (append c d)))
          ≡ begins_with_brace rt (trim_start text) =
        rw (← joined) (
          ap (begins_with_brace rt) (trim_start-append text d shown)
          ∙ brace-append (trim_start text) d shown) in
      elim (Bool-cases (begins_with_brace rt (trim_start text))) [
        | inr plain ↦
            let now = open_plain i c fresh plain in
            ap (on_chunk rt d) now
            ∙ parsed-append rt text d i (sym (ap (λ j. j.ended) now) ∙ going)
            ∙ ap (λ t. parsed rt t i) joined
            ∙ sym (open_plain i (append c d) fresh (same_start ∙ plain))
        | inl brace ↦ elim (Bool-cases (has_char b'}' text)) [
          | inl whole ↦
              let now = open_object i c fresh brace whole in
              let found : has_char b'}' (append i.buffer (append c d)) ≡ true =
                rw (← joined) (has_char-append rt b'}' text d ∙ rw whole refl) in
              ap (on_chunk rt d) now
              ∙ parsed-append rt (after b'}' text) d i (sym (ap (λ j. j.ended) now) ∙ going)
              ∙ ap (λ t. parsed rt t i)
                  (sym (after-append b'}' text d whole) ∙ ap (after b'}') joined)
              ∙ sym (open_object i (append c d) fresh (same_start ∙ brace) found)
          | inr wait ↦
              ap (on_chunk rt d) (open_wait i c fresh brace wait)
              ∙ wait_more i c d fresh (same_start ∙ brace)
        ]
      ]

  on_chunk-append :
      (i : Interactive) (c d : String)
      → i.json_parsed || truthy (trim_start (append i.buffer c)) ≡ true
      → (on_chunk rt c i).ended ≡ false
      → on_chunk rt d (on_chunk rt c i) ≡ on_chunk rt (append c d) i
  on_chunk-append i c d begun going = elim (Bool-cases i.json_parsed) [
    | inl flag ↦
        let now = open_read i c flag in
        ap (on_chunk rt d) now
        ∙ parsed-append rt (append i.buffer c) d i (sym (ap (λ j. j.ended) now) ∙ going)
        ∙ ap (λ t. parsed rt t i) (append_assoc i.buffer c d)
        ∙ sym (open_read i (append c d) flag)
    | inr fresh ↦ on_chunk-fresh i c d fresh (ground arith) going
  ]

  -- Two chunks of bytes that are not cut within a character, so that their texts together are the text of
  -- both: where the object in front has been read, or what has come with the first of them is not all white
  -- space, and the shell has not ended with the first, the two chunks leave the shell in the state in which
  -- one chunk of both leaves it, with the same output.
  pub on_data-append :
      (i : Interactive) (c d : List ℕ)
      → rt.decode (c ++ d) ≡ append (rt.decode c) (rt.decode d)
      → i.json_parsed || truthy (trim_start (append i.buffer (rt.decode c))) ≡ true
      → (on_data rt c i).ended ≡ false
      → on_data rt d (on_data rt c i) ≡ on_data rt (c ++ d) i
  unfolding on_data
  on_data-append i c d apart begun going =
      on_chunk-append i (rt.decode c) (rt.decode d) begun going
      ∙ ap (λ text. on_chunk rt text i) (sym apart)
