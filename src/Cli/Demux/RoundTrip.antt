-- ===== src/Cli/Demux/RoundTrip.antt =====
-- mock-docker/src/stream.ts against mock-docker/cli/docker-handler.ts: frames that are written and read.
use dockge.Prelude.{
  contains_text, ℕ, zero, suc, ◌/◌, ◌%◌, ◌^◌, ◌≤◌, ◌<◌, ◌≡◌, refl, ◌∙◌, String, true, false, some,
  List, [], ◌∷◌, ◌++◌, length, drop, take, take-append, drop-append, length-append, length-drop,
  eqb, ltb, All, arith, Bool-cases, inl, inr,
}
use dockge.MockDocker.Stream.{frame, frame_output, uint32_be, utf8, with_newline}
use dockge.Cli.Demux.{Write, uint32_of, logs_output, demux_loop, demux, also, or_nothing}

-- On every body, well formed or not, the loop over the frames ends within one round more than the body has
-- bytes.
pub demux_loop-ends :
    (fuel : ℕ) (body : List ℕ)
    → length body < fuel
    → (ws : List Write) × (demux_loop fuel body ≡ some ws)
unfolding demux_loop also
demux_loop-ends zero body h = absurd (omega arith)
demux_loop-ends (suc fuel) [] h = ([], refl)
demux_loop-ends (suc fuel) (_ ∷ []) h = ([], refl)
demux_loop-ends (suc fuel) (_ ∷ _ ∷ []) h = ([], refl)
demux_loop-ends (suc fuel) (_ ∷ _ ∷ _ ∷ []) h = ([], refl)
demux_loop-ends (suc fuel) (_ ∷ _ ∷ _ ∷ _ ∷ []) h = ([], refl)
demux_loop-ends (suc fuel) (_ ∷ _ ∷ _ ∷ _ ∷ _ ∷ []) h = ([], refl)
demux_loop-ends (suc fuel) (_ ∷ _ ∷ _ ∷ _ ∷ _ ∷ _ ∷ []) h = ([], refl)
demux_loop-ends (suc fuel) (_ ∷ _ ∷ _ ∷ _ ∷ _ ∷ _ ∷ _ ∷ []) h = ([], refl)
demux_loop-ends (suc fuel) (stream ∷ _ ∷ _ ∷ _ ∷ n₃ ∷ n₂ ∷ n₁ ∷ n₀ ∷ rest) h =
    let size = uint32_of n₃ n₂ n₁ n₀ in
    let (ws, e) = demux_loop-ends fuel (drop size rest) (omega (arith, length-drop size rest)) in
    elim (Bool-cases (ltb (length rest) size)) [
      | inl cut ↦ ([], rw cut refl)
      | inr whole ↦
          (record { to_stderr = eqb stream 2; bytes = take size rest } ∷ ws, rw (whole, e) refl)
    ]

uint32_of-be :
    (n : ℕ)
    → n < 2 ^ 32
    → uint32_of (n / 2 ^ 24 % 256) (n / 2 ^ 16 % 256) (n / 2 ^ 8 % 256) (n % 256) ≡ n
unfolding uint32_of
uint32_of-be n h = omega arith

demux_loop-frame :
    (fuel stream : ℕ) (payload rest : List ℕ)
    → length payload < 2 ^ 32
    → demux_loop (suc fuel) (frame stream payload ++ rest)
      ≡ also (record { to_stderr = eqb stream 2; bytes = payload }) (demux_loop fuel rest)
unfolding demux_loop frame uint32_be
demux_loop-frame fuel stream payload rest h =
    let size = uint32_of-be (length payload) h in
    let whole : ltb (length (payload ++ rest)) (length payload) ≡ false =
      ground (arith, length-append payload rest) in
    rw (size, whole, take-append payload rest, drop-append payload rest) refl

-- The frames of some lines on their streams, one behind the other.
abbrev pub frames : List (ℕ × String) → List ℕ
frames [] = []
frames ((stream, line) ∷ lines) = frame_output stream line ++ frames lines

-- The writes that the lines stand for: the second stream is standard error.
abbrev pub writes : List (ℕ × String) → List Write
writes [] = []
writes ((stream, line) ∷ lines) =
    record { to_stderr = eqb stream 2; bytes = utf8 (with_newline line) } ∷ writes lines

-- A line fits in a frame.
abbrev pub Fits : ℕ × String → Type 0
Fits (stream, line) = length (utf8 (with_newline line)) < 2 ^ 32

demux_loop-frames :
    (fuel : ℕ) (lines : List (ℕ × String))
    → length lines < fuel
    → All Fits lines
    → demux_loop fuel (frames lines) ≡ some (writes lines)
unfolding frame_output
demux_loop-frames zero lines h fits = absurd (omega arith)
demux_loop-frames (suc fuel) [] h fits = unfold demux_loop in refl
demux_loop-frames (suc fuel) ((stream, line) ∷ lines) h (fit, fits) =
    demux_loop-frame fuel stream (utf8 (with_newline line)) (frames lines) fit
    ∙ rw (demux_loop-frames fuel lines (omega arith) fits) (unfold also in refl)

length-frames : (lines : List (ℕ × String)) → length lines ≤ length (frames lines)
unfolding frame_output frame
length-frames [] = omega arith
length-frames ((stream, line) ∷ lines) =
    omega (arith, length-frames lines, length-append (utf8 (with_newline line)) (frames lines))

content_type_found :
    contains_text "application/vnd.docker.multiplexed-stream"
      "application/vnd.docker.multiplexed-stream"
    ≡ true
unfolding contains_text
content_type_found = refl

-- For lines that fit in a frame each, on whatever streams, `docker logs` writes every line of a
-- multiplexed response with its newline, in order, on standard error for the second stream and on
-- standard output for the others, and nothing else.
pub logs_output-frames :
    (lines : List (ℕ × String))
    → All Fits lines
    → logs_output "application/vnd.docker.multiplexed-stream" (frames lines) ≡ writes lines
unfolding logs_output demux or_nothing
logs_output-frames lines fits =
    rw
      (
        content_type_found,
        demux_loop-frames (suc (length (frames lines))) lines (omega (arith, length-frames lines))
            fits,
      )
      refl
