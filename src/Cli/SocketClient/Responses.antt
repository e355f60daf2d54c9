-- ===== src/Cli/SocketClient/Responses.antt =====
-- mock-docker/cli/socket-client.ts: a response in chunks, headers and body, however it is cut.
use dockge.Prelude.{
  ℕ, ◌+◌, ◌<◌, ◌≡◌, refl, sym, ap, ◌∙◌, true, false, none, some, Option, List, [], ◌∷◌, ◌++◌, ltb,
  length, drop, length-append, map, All, arith, Bool-cases, Option-cases, inl, inr, if◌then◌else◌,
}
use dockge.MockDocker.Stream.{utf8}
use dockge.Cli.SocketClient.{
  plus, Reading, Response, size_of, headers_end, contains_bytes, lower_byte, process_chunked_data,
  with_reading, body_data, header_data, on_response_data,
}
use dockge.Cli.SocketClient.Lines.{append_assoc, IsLine, longer_front, drop-past}
use dockge.Cli.SocketClient.Chunked.{IsChunk, stream, payloads, joined, receive, receive-stream}
use dockge.Cli.SocketClient.Headers.{
  gap, headers_end-small, headers_end-append, headers_end-head, map-append, contains_bytes-append,
  IsHead, SaysChunked,
}

-- The connection's data from its start on, in pieces.
abbrev pub receive_response : List (List ℕ) → Response → Option Response
receive_response [] r = some r
receive_response (piece ∷ pieces) r = elim (on_response_data piece r) [
  | none ↦ none
  | some next ↦ receive_response pieces next
]

abbrev next_response : List (List ℕ) → Option Response → Option Response
next_response pieces o = elim o as (λ _. Option Response) [
  | none ↦ none
  | some next ↦ receive_response pieces next
]

receive_response-step :
    (piece : List ℕ) (pieces : List (List ℕ)) (r next : Response)
    → on_response_data piece r ≡ some next
    → receive_response (piece ∷ pieces) r ≡ receive_response pieces next
receive_response-step piece pieces r next e =
    ap
      (λ o. elim o as (λ _. Option Response) [
        | none ↦ none
        | some next ↦ receive_response pieces next
      ])
      e

receive_on : List (List ℕ) → Option Reading → Option Reading
receive_on pieces none = none
receive_on pieces (some next) = receive pieces next

receive_on-elim :
    (pieces : List (List ℕ)) (o : Option Reading)
    → elim o as (λ _. Option Reading) [ none ↦ none | some next ↦ receive pieces next ]
      ≡ receive_on pieces o
unfolding receive_on
receive_on-elim pieces none = refl
receive_on-elim pieces (some next) = refl

receive-step :
    (piece : List ℕ) (pieces : List (List ℕ)) (s : Reading) (o : Option Reading)
    → process_chunked_data piece s ≡ o
    → receive (piece ∷ pieces) s ≡ receive_on pieces o
unfolding receive_on
receive-step piece pieces s o e =
    ap (λ o. elim o as (λ _. Option Reading) [ none ↦ none | some next ↦ receive pieces next ]) e
    ∙ receive_on-elim pieces o

on_response_data-chunk :
    (piece : List ℕ) (r : Response)
    → r.headers_parsed ≡ true
    → r.is_chunked ≡ true
    → on_response_data piece r ≡ with_reading r (process_chunked_data piece r.reading)
unfolding on_response_data body_data
on_response_data-chunk piece r parsed chunked = simp (parsed, chunked)

-- Behind the headers, the pieces are read as chunks.
receive_response-receive :
    (pieces : List (List ℕ)) (r : Response) (s : Reading)
    → r.headers_parsed ≡ true
    → r.is_chunked ≡ true
    → receive pieces r.reading ≡ some s
    → receive_response pieces r ≡ some (record r { reading = s })
unfolding receive_on with_reading
receive_response-receive [] r s parsed chunked e =
    let same : r.reading ≡ s = cc (e) in λ i. some (record r { reading = same i })
receive_response-receive (piece ∷ pieces) r s parsed chunked e =
    elim (Option-cases (process_chunked_data piece r.reading)) [
      | inl stuck ↦ absurd (cc (receive-step piece pieces r.reading none stuck, e))
      | inr (s', read) ↦
          receive_response-step piece pieces r (record r { reading = s' })
            (on_response_data-chunk piece r parsed chunked ∙ ap (with_reading r) read)
          ∙ receive_response-receive pieces (record r { reading = s' }) s parsed chunked
              (sym (receive-step piece pieces r.reading (some s') read) ∙ e)
    ]

abbrev pub fresh : Reading
fresh = record { buffer = []; output = []; ended = false }

-- A connection whose headers have not ended, with the bytes that have come.
abbrev pub before_headers : List ℕ → Response
before_headers text = record {
  headers_parsed = false;
  header_buf = text;
  is_chunked = false;
  reading = fresh;
}

abbrev behind_headers : List ℕ → Response
behind_headers text = record {
  headers_parsed = true;
  header_buf = text;
  is_chunked = true;
  reading = fresh;
}

module _ (head : List ℕ) (plain : IsHead head) (says : SaysChunked head) where
  headers_waiting :
      (text piece r rest : List ℕ)
      → (text ++ piece) ++ r ≡ head ++ 13 ∷ 10 ∷ 13 ∷ 10 ∷ rest
      → length (text ++ piece) < length head + 4
      → on_response_data piece (before_headers text) ≡ some (before_headers (text ++ piece))
  unfolding on_response_data header_data
  headers_waiting text piece r rest e h = elim (Option-cases (headers_end (text ++ piece))) [
    | inl missing ↦ rw missing refl
    | inr (k, found) ↦
        let same : k ≡ length head = cc (
          headers_end-append (text ++ piece) r k found,
          ap headers_end e,
          headers_end-head head rest plain,
        ) in
        absurd (omega (arith, headers_end-small (text ++ piece) k found))
  ]

  -- The piece in which the headers end, with the bytes z of the body.
  headers_come :
      (text piece z : List ℕ)
      → text ++ piece ≡ head ++ 13 ∷ 10 ∷ 13 ∷ 10 ∷ z
      → on_response_data piece (before_headers text) ≡ (
          if ltb 0 (length z)
          then body_data z (behind_headers (text ++ piece))
          else some (behind_headers (text ++ piece)))
  unfolding on_response_data header_data
  headers_come text piece z e =
      let found : headers_end (text ++ piece) ≡ some (length head) =
        ap headers_end e ∙ headers_end-head head z plain in
      let chunked : contains_bytes (map lower_byte (text ++ piece))
            (utf8 "transfer-encoding: chunked")
          ≡ true =
        ap (λ l. contains_bytes (map lower_byte l) (utf8 "transfer-encoding: chunked")) e
        ∙ ap (λ l. contains_bytes l (utf8 "transfer-encoding: chunked"))
            (map-append lower_byte head (13 ∷ 10 ∷ 13 ∷ 10 ∷ z))
        ∙ contains_bytes-append (map lower_byte head) (map lower_byte (13 ∷ 10 ∷ 13 ∷ 10 ∷ z))
            (utf8 "transfer-encoding: chunked") says in
      let cut : drop (length head + 4) (text ++ piece) ≡ z =
        ap (drop (length head + 4)) e
        ∙ drop-past head (13 ∷ 10 ∷ 13 ∷ 10 ∷ z) 4 (length head + 4) refl in
      let more : ltb (length head + 4) (length (text ++ piece)) ≡ ltb 0 (length z) =
        ground (arith, ap length e, length-append head (13 ∷ 10 ∷ 13 ∷ 10 ∷ z)) in
      rw (found, chunked, cut, more) refl

first_data :
    (b : ℕ) (z : List ℕ) (r : Response)
    → r.headers_parsed ≡ true
    → (if ltb 0 (length (b ∷ z)) then body_data (b ∷ z) r else some r) ≡ on_response_data (b ∷ z) r
unfolding on_response_data
first_data b z r parsed =
    let some_bytes : ltb 0 (length (b ∷ z)) ≡ true = ground arith in rw (some_bytes, parsed) refl

stream-full : (last : List ℕ) (chunks : List (List ℕ × List ℕ)) → 0 < length (stream last chunks)
stream-full last [] = omega (arith, length-append last (13 ∷ 10 ∷ 13 ∷ 10 ∷ []))
stream-full last ((line, p) ∷ chunks) =
    omega (arith, length-append line (13 ∷ 10 ∷ (p ++ 13 ∷ 10 ∷ stream last chunks)))

-- How a connection ends, with what has been written.
abbrev pub Delivers : List (List ℕ) → Response → Reading → Type 0
Delivers pieces r done =
    (end : Response) × (receive_response pieces r ≡ some end) × (end.reading ≡ done)

-- A body in chunks with the last size line `last`.
module _ (last : List ℕ) (last_plain : IsLine last) (nothing : size_of last ≡ plus 0)
    (chunks : List (List ℕ × List ℕ)) (whole : All IsChunk chunks) where
  abbrev done : Reading
  done = record { buffer = stream last []; output = payloads chunks; ended = true }

  chunks_come :
      (text piece : List ℕ) (pieces : List (List ℕ))
      → piece ++ joined pieces ≡ stream last chunks
      → receive_response (piece ∷ pieces) (behind_headers text)
        ≡ some (record (behind_headers text) { reading = done })
  chunks_come text piece pieces e =
      receive_response-receive (piece ∷ pieces) (behind_headers text) done refl refl
        (receive-stream last last_plain nothing chunks piece pieces whole e)

  module _ (head : List ℕ) (plain : IsHead head) (says : SaysChunked head) where
    -- The headers end in the first piece.
    first_of_body :
        (text piece z : List ℕ) (pieces : List (List ℕ))
        → text ++ piece ≡ head ++ 13 ∷ 10 ∷ 13 ∷ 10 ∷ z
        → z ++ joined pieces ≡ stream last chunks
        → Delivers (piece ∷ pieces) (before_headers text) done
    first_of_body text piece [] [] e back =
        absurd (omega (arith, ap length back, stream-full last chunks))
    first_of_body text piece [] (next ∷ pieces) e back = (
      record (behind_headers (text ++ piece)) { reading = done },
      receive_response-step piece (next ∷ pieces) (before_headers text)
            (behind_headers (text ++ piece)) (headers_come head plain says text piece [] e)
          ∙ chunks_come (text ++ piece) next pieces back,
      refl,
    )
    first_of_body text piece (b ∷ z) pieces e back =
        let as_data : (if ltb 0 (length (b ∷ z))
              then body_data (b ∷ z) (behind_headers (text ++ piece))
              else some (behind_headers (text ++ piece)))
            ≡ on_response_data (b ∷ z) (behind_headers (text ++ piece)) =
          first_data b z (behind_headers (text ++ piece)) refl in
        (
          record (behind_headers (text ++ piece)) { reading = done },
          ap (next_response pieces) (headers_come head plain says text piece (b ∷ z) e ∙ as_data)
              ∙ chunks_come (text ++ piece) (b ∷ z) pieces back,
          refl,
        )

    in_first :
        (text piece : List ℕ) (pieces : List (List ℕ))
        → (text ++ piece) ++ joined pieces ≡ head ++ 13 ∷ 10 ∷ 13 ∷ 10 ∷ stream last chunks
        → ltb (length (text ++ piece)) (length head + 4) ≡ false
        → Delivers (piece ∷ pieces) (before_headers text) done
    in_first text piece pieces e long =
        let (z, front, back) =
          longer_front (text ++ piece) (joined pieces) (head ++ gap) (stream last chunks)
            (e ∙ sym (append_assoc head gap (stream last chunks)))
            (ground (arith, long, length-append head gap)) in
        first_of_body text piece z pieces (front ∙ append_assoc head gap z) back

    response-from :
        (text piece : List ℕ) (pieces : List (List ℕ))
        → (text ++ piece) ++ joined pieces ≡ head ++ 13 ∷ 10 ∷ 13 ∷ 10 ∷ stream last chunks
        → Delivers (piece ∷ pieces) (before_headers text) done
    response-from text piece [] e = in_first text piece [] e (
        ground (
          arith,
          ap length e,
          length-append (text ++ piece) [],
          length-append head (13 ∷ 10 ∷ 13 ∷ 10 ∷ stream last chunks),
        ))
    response-from text piece (next ∷ pieces) e =
        elim (Bool-cases (ltb (length (text ++ piece)) (length head + 4))) [
          | inl short ↦
              let (end, arrives, is_done) =
                response-from (text ++ piece) next pieces
                  (append_assoc (text ++ piece) next (joined pieces) ∙ e) in
              (
                end,
                receive_response-step piece (next ∷ pieces) (before_headers text)
                      (before_headers (text ++ piece))
                      (headers_waiting head plain says text piece (next ++ joined pieces)
                        (stream last chunks) e (ground (arith, short)))
                    ∙ arrives,
                is_done,
              )
          | inr long ↦ in_first text piece (next ∷ pieces) e long
        ]

    -- For headers that hold no empty line and say that the body comes in chunks, and a body in chunks, each
    -- with a size line that holds no CRLF and reads as the length of its payload, which is not empty, and
    -- such a last line that reads as 0: in whatever pieces the bytes of the response come, the loop ends on
    -- each of them, the payloads are written in order and nothing else, the connection is ended, and the
    -- buffer is left with the last line and the empty line behind it.
    pub on_response_data-Delivers :
        (piece : List ℕ) (pieces : List (List ℕ))
        → piece ++ joined pieces ≡ head ++ 13 ∷ 10 ∷ 13 ∷ 10 ∷ stream last chunks
        → Delivers
            (piece ∷ pieces)
            (before_headers [])
            (record { buffer = stream last []; output = payloads chunks; ended = true })
    on_response_data-Delivers piece pieces e = response-from [] piece pieces e
