-- ===== src/MockDocker/Deterministic.antt =====
-- mock-docker/src/deterministic.ts: identifiers, addresses and numbers drawn from seeds.
pub mod Bounds
use Prim.Native.Nat.{bit_and, bit_or}
use Prim.Native.String.{◌++◌ as append}
use dockge.Prelude.{
  ℕ, zero, suc, ◌+◌, ◌-◌, ◌*◌, ◌/◌, ◌%◌, ◌^◌, String, Bool, true, false, Option, none, some, List,
  [], ◌∷◌, eqb, truthy, or_default, or_empty, before, second_part, join, after, show_nat, ◌&&◌,
  if◌then◌else◌,
}
use dockge.Prelude.Numbers.{Number, nan, plus, minus, parse_int}
use dockge.Prelude.Dict.{Dict, lookup}
use dockge.MockDocker.Runtime.{Runtime}

abbrev root_seed : String
root_seed = "portge-mock-v1"

hex_digit : ℕ → String
hex_digit (suc (suc (suc (suc (suc (suc (suc (suc (suc (suc zero)))))))))) = "a"
hex_digit (suc (suc (suc (suc (suc (suc (suc (suc (suc (suc (suc zero))))))))))) = "b"
hex_digit (suc (suc (suc (suc (suc (suc (suc (suc (suc (suc (suc (suc zero)))))))))))) = "c"
hex_digit (suc (suc (suc (suc (suc (suc (suc (suc (suc (suc (suc (suc (suc zero))))))))))))) = "d"
hex_digit (suc (suc (suc (suc (suc (suc (suc (suc (suc (suc (suc (suc (suc (suc zero)))))))))))))) =
    "e"
hex_digit
      (suc
        (suc (suc (suc (suc (suc (suc (suc (suc (suc (suc (suc (suc (suc (suc zero))))))))))))))) =
    "f"
hex_digit n = show_nat n

-- A byte in two hexadecimal digits: `b.toString(16).padStart(2, "0")`.
hex_byte : ℕ → String
unfolding hex_digit show_nat
hex_byte b = append (hex_digit (b / 16)) (hex_digit (b % 16))

-- digest("hex")
pub hex : List ℕ → String
unfolding hex_byte
hex [] = ""
hex (b ∷ bytes) = append (hex_byte b) (hex bytes)

-- hash[i]
abbrev pub byte_at : List ℕ → ℕ → ℕ
byte_at [] i = 0
byte_at (b ∷ bytes) zero = b
byte_at (b ∷ bytes) (suc i) = byte_at bytes i

-- hash.readUInt32BE(0)
unfoldable pub read_uint32_be : List ℕ → ℕ
read_uint32_be h = byte_at h 0 * 2 ^ 24 + byte_at h 1 * 2 ^ 16 + byte_at h 2 * 2 ^ 8 + byte_at h 3

-- 32 - prefix as the count of a shift, which is taken modulo 32
host_bits : Number → ℕ
host_bits nan = 0
host_bits (plus n) = (32 - n % 32) % 32
host_bits (minus n) = n % 32

-- |maxHost - 1| for `maxHost = (1 << hostBits) - 1`, a signed word: 1 << 31 is -2 ^ 31.
host_modulus : ℕ → ℕ
host_modulus bits = if eqb bits 31 then 2 ^ 31 + 2 else if eqb bits 0 then 1 else 2 ^ bits - 2

-- (hashVal % (maxHost - 1)) + 1 as `|` reads it: a remainder by 0 is NaN, and NaN reads as 0.
host_part : ℕ → ℕ → ℕ
host_part modulus hash_val = if eqb modulus 0 then 0 else hash_val % modulus + 1

-- part << bits of a 32-bit word, as an unsigned word
shift_left : ℕ → ℕ → ℕ
shift_left part bits = part * 2 ^ bits % 2 ^ 32

dotted : ℕ → String
unfolding show_nat
dotted ip = join "." (
    show_nat (ip / 2 ^ 24 % 256)
    ∷ show_nat (ip / 2 ^ 16 % 256)
    ∷ show_nat (ip / 2 ^ 8 % 256)
    ∷ show_nat (ip % 256)
    ∷ [])

-- The address as a word, for a base, the bits of the host and the number drawn from the seed.
unfoldable pub ip_int : ℕ → ℕ → ℕ → ℕ
unfolding host_part host_modulus
ip_int base bits hash_val = bit_or base (host_part (host_modulus bits) hash_val)

module _ (rt : Runtime) where
  unfoldable pub hash_to_seed : List String → String
  unfolding hex join
  hash_to_seed parts = hex (rt.sha256 (join "\0" parts))

  unfoldable pub deterministic_id : String → String → String
  unfolding hex
  deterministic_id seed purpose = hex (rt.sha256 (append seed purpose))

  unfoldable pub deterministic_mac : String → String
  unfolding hex_byte join
  deterministic_mac seed =
      let hash = rt.sha256 seed in
      join ":" (
        "02"
        ∷ "42"
        ∷ hex_byte (byte_at hash 0)
        ∷ hex_byte (byte_at hash 1)
        ∷ hex_byte (byte_at hash 2)
        ∷ hex_byte (byte_at hash 3)
        ∷ [])

  -- The four parts of the base address as one word; a part that is missing reads as 0.
  base_int : String → ℕ
  unfolding before second_part shift_left
  base_int base =
      let rest = after b'.' base in
      let rest' = after b'.' rest in
      bit_or
        (bit_or
          (bit_or (shift_left (rt.to_uint32 (before b'.' base)) 24)
            (shift_left (rt.to_uint32 (before b'.' rest)) 16))
          (shift_left (rt.to_uint32 (before b'.' rest')) 8))
        (rt.to_uint32 (before b'.' (after b'.' rest')) % 2 ^ 32)

  unfoldable pub deterministic_ip : String → String → String
  unfolding before second_part host_bits base_int ip_int dotted read_uint32_be
  deterministic_ip seed subnet =
      let bits = host_bits (parse_int (or_empty (second_part b'/' subnet))) in
      dotted (ip_int (base_int (before b'/' subnet)) bits (read_uint32_be (rt.sha256 seed)))

  -- For min ≤ max, as every call has it.
  unfoldable pub deterministic_int : String → ℕ → ℕ → ℕ
  unfolding read_uint32_be
  deterministic_int seed min max = min + read_uint32_be (rt.sha256 seed) % (max - min + 1)

  unfoldable pub project_seed : String → String
  unfolding hash_to_seed
  project_seed project = hash_to_seed (root_seed ∷ "project" ∷ project ∷ [])

  unfoldable pub service_seed : String → String → String
  unfolding hash_to_seed
  service_seed project service = hash_to_seed (root_seed ∷ "service" ∷ project ∷ service ∷ [])

  unfoldable pub container_seed_of : Dict String → String → String
  unfolding service_seed truthy
  container_seed_of labels name =
      let project = or_empty (lookup "com.docker.compose.project" labels) in
      let service = or_empty (lookup "com.docker.compose.service" labels) in
      if truthy project && truthy service then service_seed project service else name

  unfoldable pub container_id_from_labels : Dict String → String → String
  unfolding container_seed_of deterministic_id
  container_id_from_labels labels name =
      deterministic_id (container_seed_of labels name) "container-id"

  unfoldable pub network_seed : String → String
  unfolding hash_to_seed
  network_seed network_name = hash_to_seed (root_seed ∷ "network" ∷ network_name ∷ [])

  unfoldable pub image_seed : String → String
  unfolding hash_to_seed
  image_seed image_ref = hash_to_seed (root_seed ∷ "image" ∷ image_ref ∷ [])
