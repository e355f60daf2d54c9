-- ===== src/Tests/Client.antt =====
-- The streams of mock-docker/cli on concrete bodies.
use dockge.Prelude.{
  ℕ, String, ◌≡◌, true, false, none, some, refl, List, [], ◌∷◌, ◌++◌, take, drop, All, arith,
}
use dockge.MockDocker.Stream.{utf8, frame_output}
use dockge.Cli.Demux.{Write, demux_loop, logs_output}
use dockge.Cli.SocketClient.{
  headers_end, contains_bytes, lower_byte, plus, crlf_at, process_chunked_data, on_response_data,
  on_stream_data, size_of,
}
use dockge.Cli.SocketClient.Chunked.{stream, payloads, joined, IsChunk}
use dockge.Cli.SocketClient.Headers.{IsHead, SaysChunked}
use dockge.Cli.SocketClient.Responses.{on_response_data-Delivers, Delivers, before_headers}
use dockge.Cli.Demux.RoundTrip.{demux_loop-ends, logs_output-frames, frames, writes, Fits}

-- A whole frame, and the header of another.
abbrev body : List ℕ
body = 1 ∷ 0 ∷ 0 ∷ 0 ∷ 0 ∷ 0 ∷ 0 ∷ 2 ∷ 97 ∷ 10 ∷ 2 ∷ 0 ∷ 0 ∷ 0 ∷ []

demux_loop-ends_example : (ws : List Write) × (demux_loop 15 body ≡ some ws)
demux_loop-ends_example = demux_loop-ends 15 body (omega arith)

abbrev two_lines : List (ℕ × String)
two_lines = (1, "up") ∷ (2, "née") ∷ []

two_lines-Fits : All Fits two_lines
unfolding utf8
two_lines-Fits = (omega arith, (omega arith, tt))

logs_output-frames_example :
    logs_output "application/vnd.docker.multiplexed-stream" (frames two_lines) ≡ writes two_lines
logs_output-frames_example = logs_output-frames two_lines two_lines-Fits

frame_of_line : frame_output 2 "é" ≡ 2 ∷ 0 ∷ 0 ∷ 0 ∷ 0 ∷ 0 ∷ 0 ∷ 3 ∷ 195 ∷ 169 ∷ 10 ∷ []
unfolding frame_output
frame_of_line = refl

-- The last size line, and two chunks: one with a size in capitals, and one with an extension.
abbrev last : List ℕ
last = b'0' ∷ []

abbrev two_chunks : List (List ℕ × List ℕ)
two_chunks =
    (b'0' ∷ b'A' ∷ [], 1 ∷ 2 ∷ 3 ∷ 4 ∷ 5 ∷ 6 ∷ 7 ∷ 13 ∷ 10 ∷ 8 ∷ [])
    ∷ (b'2' ∷ b';' ∷ b'x' ∷ [], 13 ∷ 10 ∷ [])
    ∷ []

two_chunks-IsChunk : All IsChunk two_chunks
unfolding crlf_at size_of
two_chunks-IsChunk = ((refl, refl, omega arith), ((refl, refl, omega arith), tt))

last-plain : crlf_at (last ++ 13 ∷ []) ≡ none
unfolding crlf_at
last-plain = refl

last-size : size_of last ≡ plus 0
unfolding size_of
last-size = refl

abbrev head : List ℕ
head = utf8 "HTTP/1.1 200 OK\r\nTransfer-Encoding: Chunked"

head-IsHead : IsHead head
unfolding headers_end utf8
head-IsHead = refl

head-SaysChunked : SaysChunked head
unfolding contains_bytes lower_byte utf8
head-SaysChunked = refl

abbrev response : List ℕ
response = head ++ 13 ∷ 10 ∷ 13 ∷ 10 ∷ stream last two_chunks

-- Cut within the headers, within a payload, and behind it.
abbrev pieces : List (List ℕ)
pieces = take 40 (drop 10 response) ∷ take 9 (drop 50 response) ∷ drop 59 response ∷ []

pieces-response : take 10 response ++ joined pieces ≡ response
unfolding utf8
pieces-response = refl

on_response_data-Delivers_example :
    Delivers
      (take 10 response ∷ pieces)
      (before_headers [])
      (record { buffer = stream last []; output = payloads two_chunks; ended = true })
on_response_data-Delivers_example =
    on_response_data-Delivers last last-plain last-size two_chunks two_chunks-IsChunk head
      head-IsHead head-SaysChunked (take 10 response) pieces pieces-response

-- The words of the header in the body, without the header.
plain_body :
    (on_response_data (utf8 "HTTP/1.1 200 OK\r\n\r\nhi") (record {
      headers_parsed = false;
      header_buf = [];
      is_chunked = false;
      reading = record { buffer = []; output = []; ended = false };
    }))
    ≡ some (record {
      headers_parsed = true;
      header_buf = utf8 "HTTP/1.1 200 OK\r\n\r\nhi";
      is_chunked = false;
      reading = record { buffer = []; output = utf8 "hi"; ended = false };
    })
unfolding on_response_data utf8
plain_body = refl

negative_size_loops :
    process_chunked_data (utf8 "-6\r\n") (record { buffer = []; output = []; ended = false }) ≡ none
unfolding process_chunked_data utf8
negative_size_loops = refl

lines_of_a_stream : on_stream_data "b\n\nc" "a" ≡ ("ab" ∷ [], "c")
unfolding on_stream_data
lines_of_a_stream = refl
