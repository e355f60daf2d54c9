-- ===== src/Cli/SocketClient.antt =====
-- mock-docker/cli/socket-client.ts: the body that comes in chunks over a raw connection
-- (requestInteractive), and the lines of a stream (requestStream). Bytes are numbers below 256; text
-- in latin1 is the list of its bytes.
pub mod Lines
pub mod Chunked
pub mod Headers
pub mod Responses
use dockge.MockDocker.Stream.{utf8}
use dockge.Prelude.{
  ℕ, zero, suc, ◌+◌, ◌-◌, ◌*◌, String, Bool, true, false, Option, none, some, List, [], ◌∷◌, ◌++◌,
  ltb, leb, eqb, length, drop, take, map, not, ◌&&◌, ◌||◌, if◌then◌else◌, split, last_part, truthy,
  trim_text,
}
use Prim.Native.String.{◌++◌ as append}
use mathlib.Core.Option.{map as map_option}

-- chunkBuf.indexOf("\r\n"); `none` for -1.
unfoldable pub crlf_at : List ℕ → Option ℕ
crlf_at [] = none
crlf_at (b ∷ []) = none
crlf_at (b ∷ c ∷ rest) =
    let later = map_option suc (crlf_at (c ∷ rest)) in
    if eqb b 13 && eqb c 10 then some 0 else later

-- What parseInt gives; a value that is not negative, or one below zero.
pub data Size : Type 0 where
  not_a_number : Size
  plus : ℕ → Size
  minus : ℕ → Size

unfoldable pub hex_value : ℕ → Option ℕ
hex_value b =
    if leb 48 b && leb b 57
    then some (b - 48)
    else if leb 97 b && leb b 102
    then some (b - 87)
    else if leb 65 b && leb b 70
    then some (b - 55)
    else none

unfoldable pub digits_from : ℕ → List ℕ → ℕ
unfolding hex_value
digits_from value [] = value
digits_from value (b ∷ line) = elim (hex_value b) [
  | none ↦ value
  | some digit ↦ digits_from (value * 16 + digit) line
]

-- The digits in front; `none` where there is not one.
unfoldable pub hex_number : List ℕ → Option ℕ
unfolding hex_value digits_from
hex_number [] = none
hex_number (b ∷ line) = map_option (λ digit. digits_from digit line) (hex_value b)

unfoldable pub begins_with : List ℕ → List ℕ → Bool
begins_with bytes [] = true
begins_with [] (c ∷ part) = false
begins_with (b ∷ bytes) (c ∷ part) = eqb b c && begins_with bytes part

-- U+2000 to U+200A, U+2028, U+2029 and U+202F, behind the byte e2.
general_punctuation : List ℕ → Bool
general_punctuation (b ∷ c ∷ line) =
    eqb b 0x80 && (leb 0x80 c && leb c 0x8a || eqb c 0xa8 || eqb c 0xa9 || eqb c 0xaf)
general_punctuation _ = false

-- How many bytes the white space of JavaScript in front takes in UTF-8; 0 where there is none.
unfoldable pub white_bytes : List ℕ → ℕ
unfolding begins_with general_punctuation
white_bytes [] = 0
white_bytes (b ∷ line) =
    if leb 9 b && leb b 13 || eqb b 32
    then 1
    else if begins_with (b ∷ line) (0xc2 ∷ 0xa0 ∷ [])
    then 2
    else if begins_with (b ∷ line) (0xe1 ∷ 0x9a ∷ 0x80 ∷ [])
        || begins_with (b ∷ line) (0xe2 ∷ 0x81 ∷ 0x9f ∷ [])
        || begins_with (b ∷ line) (0xe3 ∷ 0x80 ∷ 0x80 ∷ [])
        || begins_with (b ∷ line) (0xef ∷ 0xbb ∷ 0xbf ∷ [])
        || (eqb b 0xe2 && general_punctuation line)
    then 3
    else 0

-- The line behind n bytes and the white space that follows.
unfoldable pub skip_white : ℕ → List ℕ → List ℕ
unfolding white_bytes
skip_white n [] = []
skip_white (suc n) (b ∷ line) = skip_white n line
skip_white zero (b ∷ line) =
    let rest = skip_white (white_bytes (b ∷ line) - 1) line in
    if eqb (white_bytes (b ∷ line)) 0 then b ∷ line else rest

-- The prefix "0x".
unfoldable pub without_prefix : List ℕ → List ℕ
without_prefix (b ∷ c ∷ line) = if eqb b 48 && (eqb c 120 || eqb c 88) then line else b ∷ c ∷ line
without_prefix line = line

unfoldable pub signed : Bool → Option ℕ → Size
signed negative none = not_a_number
signed negative (some zero) = plus 0
signed true (some n) = minus n
signed false (some n) = plus n

unfoldable pub after_sign : List ℕ → Size
unfolding signed hex_number without_prefix
after_sign [] = not_a_number
after_sign (b ∷ line) =
    if eqb b 45
    then signed true (hex_number (without_prefix line))
    else if eqb b 43
    then signed false (hex_number (without_prefix line))
    else signed false (hex_number (without_prefix (b ∷ line)))

-- parseInt(sizeStr, 16)
unfoldable pub size_of : List ℕ → Size
unfolding skip_white after_sign
size_of line = after_sign (skip_white 0 line)

-- What a round of the loop does: it stops, ends the connection, or writes and cuts the buffer.
pub data Round : Type 0 where
  wait : Round
  close : Round
  emit : List ℕ → List ℕ → Round

-- A round with the size -n, for n > 0. An index below 0 counts from the end of the buffer.
unfoldable pub minus_round : ℕ → ℕ → List ℕ → Round
minus_round k n buf =
    let len = length buf in
    let end = if leb n (k + 2) then k + 2 - n else len - (n - (k + 2)) in
    let payload = take (end - (k + 2)) (drop (k + 2) buf) in
    if leb n (k + 4)
    then (if ltb len (k + 4 - n) then wait else emit payload (drop (k + 4 - n) buf))
    else emit payload (drop (len - (n - (k + 4))) buf)

-- A round where the size line ends at k.
unfoldable pub sized_round : ℕ → Size → List ℕ → Round
unfolding minus_round
sized_round k not_a_number buf = wait
sized_round k (plus zero) buf = close
sized_round k (plus n) buf =
    if ltb (length buf) (k + 2 + n + 2)
    then wait
    else emit (take n (drop (k + 2) buf)) (drop (k + 2 + n + 2) buf)
sized_round k (minus n) buf = minus_round k n buf

unfoldable pub round_at : Option ℕ → List ℕ → Round
unfolding sized_round size_of
round_at none buf = wait
round_at (some k) buf = sized_round k (size_of (take k buf)) buf

unfoldable pub next_round : List ℕ → Round
unfolding round_at crlf_at
next_round buf = round_at (crlf_at buf) buf

pub record Decoded : Type 0 where
  pub written : List ℕ
  pub left : List ℕ
  pub closed : Bool

unfoldable pub left_of : Round → List ℕ → List ℕ
left_of (emit payload rest) buf = rest
left_of _ buf = buf

unfoldable pub in_front : List ℕ → Option Decoded → Option Decoded
in_front payload none = none
in_front payload (some d) = some (record d { written = payload ++ d.written })

unfoldable pub continue : Round → List ℕ → Option Decoded → Option Decoded
unfolding in_front
continue wait buf more = some (record { written = []; left = buf; closed = false })
continue close buf more = some (record { written = []; left = buf; closed = true })
continue (emit payload rest) buf more = in_front payload more

-- The loop; `none` where it does not end. A round that writes makes the buffer shorter, or leaves it
-- as it is and then never ends, so that one round more than there are bytes is enough.
unfoldable pub decode : ℕ → List ℕ → Option Decoded
unfolding next_round left_of continue
decode zero buf = none
decode (suc fuel) buf =
    let r = next_round buf in let more = decode fuel (left_of r buf) in continue r buf more

-- chunkBuf, the bytes on standard output, and whether conn.end() has been called.
pub record Reading : Type 0 where
  pub buffer : List ℕ
  pub output : List ℕ
  pub ended : Bool

unfoldable pub take_up : Reading → Option Decoded → Option Reading
take_up s none = none
take_up s (some d) =
    some (record { buffer = d.left; output = s.output ++ d.written; ended = s.ended || d.closed })

unfoldable pub process_chunked_data : List ℕ → Reading → Option Reading
unfolding take_up decode
process_chunked_data chunk s =
    let buf = s.buffer ++ chunk in take_up s (decode (suc (length buf)) buf)

-- headerBuf.indexOf("\r\n\r\n")
unfoldable pub headers_end : List ℕ → Option ℕ
unfolding begins_with
headers_end [] = none
headers_end (b ∷ rest) =
    let later = map_option suc (headers_end rest) in
    if begins_with (b ∷ rest) (13 ∷ 10 ∷ 13 ∷ 10 ∷ []) then some 0 else later

-- toLowerCase() in latin1
unfoldable pub lower_byte : ℕ → ℕ
lower_byte b =
    if leb 65 b && leb b 90 || leb 0xc0 b && leb b 0xde && not (eqb b 0xd7) then b + 32 else b

unfoldable pub contains_bytes : List ℕ → List ℕ → Bool
unfolding begins_with
contains_bytes [] part = begins_with [] part
contains_bytes (b ∷ bytes) part = begins_with (b ∷ bytes) part || contains_bytes bytes part

pub record Response : Type 0 where
  pub headers_parsed : Bool
  pub header_buf : List ℕ
  pub is_chunked : Bool
  pub reading : Reading

unfoldable pub with_reading : Response → Option Reading → Option Response
with_reading r none = none
with_reading r (some s) = some (record r { reading = s })

unfoldable pub body_data : List ℕ → Response → Option Response
unfolding with_reading process_chunked_data
body_data chunk r =
    let s = r.reading in
    if r.is_chunked
    then with_reading r (process_chunked_data chunk s)
    else some (record r { reading = record s { output = s.output ++ chunk } })

unfoldable pub header_data : List ℕ → Response → Option ℕ → Option Response
unfolding body_data contains_bytes lower_byte utf8
header_data text r none = some (record r { header_buf = text })
header_data text r (some k) =
    let chunked = contains_bytes (map lower_byte text) (utf8 "transfer-encoding: chunked") in
    let r' : Response = record r {
      headers_parsed = true;
      header_buf = text;
      is_chunked = chunked;
    } in
    let rest = body_data (drop (k + 4) text) r' in
    if ltb (k + 4) (length text) then rest else some r'

-- conn.on("data"); `none` where the loop does not end.
unfoldable pub on_response_data : List ℕ → Response → Option Response
unfolding body_data header_data headers_end
on_response_data chunk r =
    let text = r.header_buf ++ chunk in
    if r.headers_parsed then body_data chunk r else header_data text r (headers_end text)

-- lines.pop() || "", and what is left of the lines
unfoldable pub all_but_last : List String → List String
all_but_last [] = []
all_but_last (s ∷ []) = []
all_but_last (s ∷ t ∷ parts) = s ∷ all_but_last (t ∷ parts)

-- The calls of onData.
unfoldable pub shown_lines : List String → List String
unfolding trim_text truthy
shown_lines [] = []
shown_lines (line ∷ lines) =
    let rest = shown_lines lines in if truthy (trim_text line) then line ∷ rest else rest

-- The chunks of requestStream: the lines that a chunk completes, and the next buffer.
unfoldable pub on_stream_data : String → String → List String × String
unfolding all_but_last shown_lines split last_part
on_stream_data chunk buffer =
    let lines = split 10 (append buffer chunk) in
    (shown_lines (all_but_last lines), last_part lines)

unfoldable pub on_stream_end : String → List String
unfolding shown_lines
on_stream_end buffer = shown_lines (buffer ∷ [])
