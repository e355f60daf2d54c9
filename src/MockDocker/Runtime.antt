-- ===== src/MockDocker/Runtime.antt =====
-- What the daemon takes from Node: SHA-256 (`node:crypto`) and the conversions of the JavaScript
-- runtime whose text is not in the repository.
use dockge.Prelude.{ℕ, String, List}

pub record Runtime : Type 0 where
  -- createHash("sha256").update(s).digest()
  pub sha256 : String → List ℕ
  -- new Date(ms).toISOString()
  pub to_iso : ℕ → String
  -- new Date(s).getTime()
  pub from_iso : String → ℕ
  -- s.toUpperCase()
  pub to_upper : String → String
  -- s.toLowerCase()
  pub to_lower : String → String
  -- JSON.stringify of an array of strings
  pub stringify : List String → String
  -- Number(s) as a bit operation reads it, modulo 2 ^ 32
  pub to_uint32 : String → ℕ
  -- (n / d).toFixed(1), of whole numbers
  pub to_fixed1 : ℕ → ℕ → String
  -- new Date(ms).toString()
  pub date_text : ℕ → String
  -- Math.floor(n * p), for the double p that is nearest to k / 100
  pub floor_share : ℕ → ℕ → ℕ
  -- Math.floor((n / d) * 100)
  pub floor_percent : ℕ → ℕ → ℕ
  -- buffer.toString(), which decodes UTF-8
  pub decode : List ℕ → String
