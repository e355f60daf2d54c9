-- ===== src/Cli/SocketClient/Chunked.antt =====
-- mock-docker/cli/socket-client.ts: the decoding of a body in chunks, however the stream is cut.
use dockge.Prelude.{
  ℕ, zero, suc, ◌+◌, ◌<◌, ◌≡◌, refl, sym, ap, ◌∙◌, Bool, true, false, none, some, Option, List, [],
  ◌∷◌, ◌++◌, ltb, length, length-append, All, arith, Bool-cases, inl, inr, ◌||◌,
}
use dockge.Cli.SocketClient.{
  plus, Round, wait, close, emit, Decoded, Reading, size_of, sized_round, next_round, left_of,
  in_front, continue, decode, take_up, process_chunked_data,
}
use dockge.Cli.SocketClient.Lines.{
  append_assoc, append-nil, IsLine, wait_for_line, behind_crlf, next_round-line, length-line,
  wait_for_payload, emit_payload,
}

-- A chunk: its size line without the CRLF, and its payload, which is not empty.
abbrev pub IsChunk : List ℕ × List ℕ → Type 0
IsChunk (line, p) = IsLine line × (size_of line ≡ plus (length p)) × (0 < length p)

-- The bytes of a body in chunks; `last` is the size line at the end, of size 0.
abbrev pub stream : List ℕ → List (List ℕ × List ℕ) → List ℕ
stream last [] = last ++ 13 ∷ 10 ∷ 13 ∷ 10 ∷ []
stream last ((line, p) ∷ chunks) = line ++ 13 ∷ 10 ∷ (p ++ 13 ∷ 10 ∷ stream last chunks)

abbrev pub payloads : List (List ℕ × List ℕ) → List ℕ
payloads [] = []
payloads ((line, p) ∷ chunks) = p ++ payloads chunks

-- What has been decoded of the chunks where r is still to come.
record Partly (last : List ℕ) (chunks : List (List ℕ × List ℕ)) (r : List ℕ) (d : Decoded)
    : Type 0 where
  rest : List (List ℕ × List ℕ)
  rest-chunks : All IsChunk rest
  bytes : d.written ++ payloads rest ≡ payloads chunks
  ahead : d.left ++ r ≡ stream last rest
  over : r ≡ [] → (d.closed ≡ true) × (rest ≡ [])

decode-continue :
    (fuel : ℕ) (b : List ℕ) (n : Round)
    → next_round b ≡ n
    → decode (suc fuel) b ≡ continue n b (decode fuel (left_of n b))
unfolding decode
decode-continue fuel b n e = ap (λ n. continue n b (decode fuel (left_of n b))) e

Decodes : List ℕ → ℕ → List (List ℕ × List ℕ) → List ℕ → List ℕ → Type 0
Decodes last fuel chunks b r = (d : Decoded) × (decode fuel b ≡ some d) × Partly last chunks r d

module _ (last : List ℕ) (last_plain : IsLine last) (nothing : size_of last ≡ plus 0) where
  -- A buffer that waits for more.
  waiting :
      (fuel : ℕ) (chunks : List (List ℕ × List ℕ)) (b r : List ℕ)
      → All IsChunk chunks
      → b ++ r ≡ stream last chunks
      → length b < length (stream last chunks)
      → next_round b ≡ wait
      → Decodes last (suc fuel) chunks b r
  unfolding Decodes continue
  waiting fuel chunks b r whole e h waits = (
    record { written = []; left = b; closed = false },
    decode-continue fuel b wait waits,
    record {
      rest = chunks;
      rest-chunks = whole;
      bytes = refl;
      ahead = e;
      over = λ ends. absurd (omega (arith, ap length e, length-append b r, ap length ends, h));
    },
  )

  -- The size line at the end has come.
  finishing :
      (fuel : ℕ) (b r z : List ℕ)
      → b ++ r ≡ stream last []
      → b ≡ last ++ 13 ∷ 10 ∷ z
      → Decodes last (suc fuel) [] b r
  unfolding Decodes continue sized_round
  finishing fuel b r z e front =
      let closes : next_round b ≡ close =
        ap next_round front
        ∙ next_round-line last z last_plain
        ∙ ap (λ size. sized_round (length last) size (last ++ 13 ∷ 10 ∷ z)) nothing in
      (
        record { written = []; left = b; closed = true },
        decode-continue fuel b close closes,
        record {
          rest = [];
          rest-chunks = tt;
          bytes = refl;
          ahead = e;
          over = λ ends. (refl, refl);
        },
      )

  -- A whole chunk is in front of what has been decoded behind it.
  behind_chunk :
      (fuel : ℕ) (chunks : List (List ℕ × List ℕ)) (line p b r z : List ℕ)
      → next_round b ≡ emit p z
      → Decodes last fuel chunks z r
      → Decodes last (suc fuel) ((line, p) ∷ chunks) b r
  unfolding Decodes continue in_front left_of
  behind_chunk fuel chunks line p b r z emits (d, e, part) = (
    record d { written = p ++ d.written },
    decode-continue fuel b (emit p z) emits ∙ ap (in_front p) e,
    record {
      rest = part.rest;
      rest-chunks = part.rest-chunks;
      bytes = append_assoc p d.written (payloads part.rest) ∙ ap (λ l. p ++ l) part.bytes;
      ahead = part.ahead;
      over = part.over;
    },
  )

  behind_shorter :
      (fuel : ℕ) (line p b z : List ℕ)
      → b ≡ line ++ 13 ∷ 10 ∷ (p ++ 13 ∷ 10 ∷ z)
      → length b < suc fuel
      → length z < fuel
  behind_shorter fuel line p b z e h =
      omega (arith, ap length e, length-line line (p ++ 13 ∷ 10 ∷ z), length-line p z)

  decode-Partly :
      (fuel : ℕ) (chunks : List (List ℕ × List ℕ)) (b r : List ℕ)
      → length b < fuel
      → All IsChunk chunks
      → b ++ r ≡ stream last chunks
      → Decodes last fuel chunks b r
  decode-Partly zero chunks b r h whole e = absurd (omega arith)
  decode-Partly (suc fuel) [] b r h whole e = elim (Bool-cases (ltb (length b) (length last + 2))) [
    | inl short ↦
        waiting fuel [] b r whole e (ground (arith, short, length-line last (13 ∷ 10 ∷ [])))
          (wait_for_line b r last (13 ∷ 10 ∷ []) last_plain e (ground arith))
    | inr long ↦
        let (z, front, back) = behind_crlf b r last (13 ∷ 10 ∷ []) e (ground arith) in
        finishing fuel b r z e front
  ]
  decode-Partly (suc fuel) ((line, p) ∷ chunks) b r h ((plain, sized, full), whole) e =
      let behind = 13 ∷ 10 ∷ stream last chunks in
      let all = length-line line (p ++ behind) in
      let chunk = length-line p (stream last chunks) in
      elim (Bool-cases (ltb (length b) (length line + 2))) [
        | inl short ↦
            waiting fuel ((line, p) ∷ chunks) b r ((plain, sized, full), whole) e
              (ground (arith, short, all))
              (wait_for_line b r line (p ++ behind) plain e (ground arith))
        | inr long ↦
            let (z, front, back) = behind_crlf b r line (p ++ behind) e (ground arith) in
            elim (Bool-cases (ltb (length z) (length p + 2))) [
              | inl short ↦
                  waiting fuel ((line, p) ∷ chunks) b r ((plain, sized, full), whole) e
                    (ground (arith, short, all, chunk, ap length front, length-line line z))
                    (ap next_round front
                      ∙ wait_for_payload line p plain sized full z (ground arith))
              | inr filled ↦
                  let (z', front', back') =
                    behind_crlf z r p (stream last chunks) back (ground arith) in
                  let whole_front = front ∙ ap (λ l. line ++ 13 ∷ 10 ∷ l) front' in
                  behind_chunk fuel chunks line p b r z'
                    (ap next_round whole_front ∙ emit_payload line p plain sized full z')
                    (decode-Partly fuel chunks z' r (behind_shorter fuel line p b z' whole_front h)
                      whole back')
            ]
      ]

abbrev pub joined : List (List ℕ) → List ℕ
joined [] = []
joined (piece ∷ pieces) = piece ++ joined pieces

-- The connection's data, in pieces.
abbrev pub receive : List (List ℕ) → Reading → Option Reading
receive [] s = some s
receive (piece ∷ pieces) s = elim (process_chunked_data piece s) [
  | none ↦ none
  | some next ↦ receive pieces next
]

receive-decoded :
    (piece : List ℕ) (pieces : List (List ℕ)) (s : Reading) (d : Decoded)
    → decode (suc (length (s.buffer ++ piece))) (s.buffer ++ piece) ≡ some d
    → receive (piece ∷ pieces) s
      ≡ receive pieces
          (record { buffer = d.left; output = s.output ++ d.written; ended = s.ended || d.closed })
unfolding process_chunked_data take_up
receive-decoded piece pieces s d e =
    ap
      (λ o. elim (take_up s o) as (λ _. Option Reading) [
        | none ↦ none
        | some next ↦ receive pieces next
      ])
      e

or_true : (a b : Bool) → b ≡ true → a || b ≡ true
or_true a b e = ground arith

module _ (last : List ℕ) (last_plain : IsLine last) (nothing : size_of last ≡ plus 0) where
  receive-from :
      (chunks : List (List ℕ × List ℕ)) (piece : List ℕ) (pieces : List (List ℕ)) (s : Reading)
      → All IsChunk chunks
      → (s.buffer ++ piece) ++ joined pieces ≡ stream last chunks
      → receive (piece ∷ pieces) s
        ≡ some
            (record { buffer = stream last []; output = s.output ++ payloads chunks; ended = true })
  unfolding Decodes
  receive-from chunks piece [] s whole e =
      let b = s.buffer ++ piece in
      let (d, decoded, part) =
        decode-Partly last last_plain nothing (suc (length b)) chunks b [] (omega arith) whole e in
      let (closed, none_left) = part.over refl in
      let written =
        sym (append-nil d.written)
        ∙ ap (λ rest. d.written ++ payloads rest) (sym none_left)
        ∙ part.bytes in
      let left = sym (append-nil d.left) ∙ part.ahead ∙ ap (stream last) none_left in
      receive-decoded piece [] s d decoded
      ∙ rw (written, left, or_true s.ended d.closed closed) refl
  receive-from chunks piece (next ∷ pieces) s whole e =
      let b = s.buffer ++ piece in
      let (d, decoded, part) =
        decode-Partly last last_plain nothing (suc (length b)) chunks b (joined (next ∷ pieces))
          (omega arith) whole e in
      let s' : Reading = record {
        buffer = d.left;
        output = s.output ++ d.written;
        ended = s.ended || d.closed;
      } in
      let written =
        append_assoc s.output d.written (payloads part.rest) ∙ ap (λ l. s.output ++ l) part.bytes in
      receive-decoded piece (next ∷ pieces) s d decoded
      ∙ receive-from part.rest next pieces s' part.rest-chunks
          (append_assoc d.left next (joined pieces) ∙ part.ahead)
      ∙ rw written refl

  -- From the start of a body, its payloads are written in order, and the connection is ended.
  pub receive-stream :
      (chunks : List (List ℕ × List ℕ)) (piece : List ℕ) (pieces : List (List ℕ))
      → All IsChunk chunks
      → piece ++ joined pieces ≡ stream last chunks
      → receive (piece ∷ pieces) (record { buffer = []; output = []; ended = false })
        ≡ some (record { buffer = stream last []; output = payloads chunks; ended = true })
  receive-stream chunks piece pieces whole e =
      receive-from chunks piece pieces (record { buffer = []; output = []; ended = false }) whole e
