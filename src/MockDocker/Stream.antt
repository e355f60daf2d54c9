-- ===== src/MockDocker/Stream.antt =====
-- mock-docker/src/stream.ts: the frames of Docker's multiplexed stream. Bytes are numbers below 256.
use Prim.Native.Char.{code}
use Prim.Native.String.{[] as no_text, ◌∷◌ as char, ◌++◌ as append}
use dockge.Prelude.{ℕ, ◌+◌, ◌/◌, ◌%◌, ◌^◌, String, List, [], ◌∷◌, ◌++◌, ltb, length, if◌then◌else◌}

-- The bytes of a character in UTF-8.
utf8_char : ℕ → List ℕ
utf8_char n =
    if ltb n 0x80
    then n ∷ []
    else if ltb n 0x800
    then (0xc0 + n / 64) ∷ (0x80 + n % 64) ∷ []
    else if ltb n 0x10000
    then (0xe0 + n / 4096) ∷ (0x80 + n / 64 % 64) ∷ (0x80 + n % 64) ∷ []
    else (0xf0 + n / 262144) ∷ (0x80 + n / 4096 % 64) ∷ (0x80 + n / 64 % 64) ∷ (0x80 + n % 64) ∷ []

-- Buffer.from(s, "utf-8")
unfoldable pub utf8 : String → List ℕ
unfolding utf8_char
utf8 no_text = []
utf8 (char c s) = utf8_char (code c) ++ utf8 s

-- header.writeUInt32BE(n, 4), for n < 2 ^ 32
unfoldable pub uint32_be : ℕ → List ℕ
uint32_be n = n / 2 ^ 24 % 256 ∷ n / 2 ^ 16 % 256 ∷ n / 2 ^ 8 % 256 ∷ n % 256 ∷ []

-- The header and the payload; `writePrompt` of mock-docker/src/api/exec.ts builds the same frame.
unfoldable pub frame : ℕ → List ℕ → List ℕ
unfolding uint32_be
frame stream payload = stream ∷ 0 ∷ 0 ∷ 0 ∷ (uint32_be (length payload) ++ payload)

-- line + "\n"
abbrev pub with_newline : String → String
with_newline line = append line "\n"

unfoldable pub frame_output : ℕ → String → List ℕ
unfolding frame utf8
frame_output stream line = frame stream (utf8 (with_newline line))
