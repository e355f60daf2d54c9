-- ===== src/Cli/Demux.antt =====
-- mock-docker/cli/docker-handler.ts: what `docker logs` and `docker exec` write of the body of a
-- response, which may be a multiplexed stream.
pub mod RoundTrip
use dockge.Prelude.{
  ℕ, zero, suc, ◌+◌, ◌*◌, ◌^◌, String, Bool, true, false, Option, none, some, List, [], ◌∷◌, ltb,
  leb, eqb, length, drop, take, ◌&&◌, ◌||◌, contains_text, if◌then◌else◌,
}

-- One call of `write`, on standard error or on standard output.
pub record Write : Type 0 where
  pub to_stderr : Bool
  pub bytes : List ℕ

unfoldable pub also : Write → Option (List Write) → Option (List Write)
also w none = none
also w (some ws) = some (w ∷ ws)

-- body.readUInt32BE(offset + 4)
unfoldable pub uint32_of : ℕ → ℕ → ℕ → ℕ → ℕ
uint32_of n₃ n₂ n₁ n₀ = n₃ * 2 ^ 24 + n₂ * 2 ^ 16 + n₁ * 2 ^ 8 + n₀

-- The loop over the frames of what is left of the body; `none` only where the rounds run out.
unfoldable pub demux_loop : ℕ → List ℕ → Option (List Write)
unfolding also
demux_loop zero body = none
demux_loop (suc fuel) (stream ∷ _ ∷ _ ∷ _ ∷ n₃ ∷ n₂ ∷ n₁ ∷ n₀ ∷ rest) =
    let size = uint32_of n₃ n₂ n₁ n₀ in
    let more = demux_loop fuel (drop size rest) in
    if ltb (length rest) size
    then some []
    else also (record { to_stderr = eqb stream 2; bytes = take size rest }) more
demux_loop (suc fuel) _ = some []

unfoldable pub or_nothing : Option (List Write) → List Write
or_nothing none = []
or_nothing (some ws) = ws

-- A round takes eight bytes at least, so there are no more rounds than bytes, and the last one.
unfoldable pub demux : List ℕ → List Write
unfolding demux_loop or_nothing
demux body = or_nothing (demux_loop (suc (length body)) body)

unfoldable pub looks_multiplexed : List ℕ → Bool
looks_multiplexed (stream ∷ a ∷ b ∷ c ∷ _ ∷ _ ∷ _ ∷ _ ∷ _) =
    leb stream 2 && (eqb a 0 && (eqb b 0 && eqb c 0))
looks_multiplexed _ = false

-- The output of `docker logs`, by the content type of the response.
unfoldable pub logs_output : String → List ℕ → List Write
unfolding looks_multiplexed
logs_output content_type body =
    if contains_text content_type "application/vnd.docker.multiplexed-stream"
      || looks_multiplexed body
    then demux body
    else record { to_stderr = false; bytes = body } ∷ []

-- The output of `docker exec`; an empty body is not written.
unfoldable pub exec_output : List ℕ → List Write
unfolding looks_multiplexed
exec_output body =
    if looks_multiplexed body
    then demux body
    else if ltb 0 (length body)
    then record { to_stderr = false; bytes = body } ∷ []
    else []
