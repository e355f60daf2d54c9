-- ===== src/MockDocker/LogTemplates.antt =====
-- mock-docker/src/log-templates.ts: the durations, the look-up of an image's template and the expansion
-- of a line. The file is read and parsed by Node and the library yaml.
use Prim.Native.Char.{code}
use Prim.Native.String.{[] as no_text, ◌∷◌ as char}
use dockge.Prelude.{
  ℕ, ◌+◌, ◌-◌, ◌*◌, String, Bool, Option, none, some, [], ◌∷◌, leb, ◌==◌, ◌&&◌, before, split,
  last_part, replace_all, show_nat, if◌then◌else◌,
}
use dockge.Prelude.Dict.{lookup}
use dockge.MockDocker.State.{ImageLogTemplate, LogTemplates}

is_decimal : ℕ → Bool
is_decimal c = leb b'0' c && leb c b'9'

-- The digits at the front, as a number behind n, and the text behind them.
unfoldable pub digits_and_unit : ℕ → String → ℕ × String
unfolding is_decimal
digits_and_unit n no_text = (n, no_text)
digits_and_unit n (char c s) =
    let longer = digits_and_unit (n * 10 + (code c - 48)) s in
    if is_decimal (code c) then longer else (n, char c s)

in_unit : ℕ × String → ℕ
in_unit (value, unit) =
    if unit == "ms"
    then value
    else if unit == "s"
    then value * 1000
    else if unit == "m"
    then value * 60000
    else 5000

-- /^(\d+)(ms|s|m)$/, and 5000 where it does not match
unfoldable pub parse_template_duration : String → ℕ
unfolding in_unit digits_and_unit is_decimal
parse_template_duration no_text = 5000
parse_template_duration (char c s) =
    if is_decimal (code c) then in_unit (digits_and_unit 0 (char c s)) else 5000

abbrev pub fallback_default : ImageLogTemplate
fallback_default = record {
  startup = "{{.Image}} service starting" ∷ "Configuration loaded" ∷ "Service ready" ∷ [];
  heartbeat_interval = 3000;
  heartbeat_lines = "[INFO] Health check OK" ∷ "[INFO] Request processed #{{.N}}" ∷ [];
  shutdown = "[INFO] Shutting down gracefully" ∷ "[INFO] Goodbye" ∷ [];
}

unfoldable pub extract_base_image_name : String → String
unfolding before split last_part
extract_base_image_name image_ref = last_part (split b'/' (before b'@' (before b':' image_ref)))

template_or : Option ImageLogTemplate → ImageLogTemplate → ImageLogTemplate
template_or none d = d
template_or (some t) d = t

unfoldable pub lookup_template : LogTemplates → String → ImageLogTemplate
unfolding template_or
lookup_template templates image_ref =
    template_or (lookup (extract_base_image_name image_ref) templates.images) templates.default

-- The three variables are given in every call.
unfoldable pub expand_placeholders : String → String → String → ℕ → String
unfolding replace_all show_nat
expand_placeholders line timestamp image n =
    replace_all (replace_all (replace_all line "{{.Timestamp}}" timestamp) "{{.Image}}" image)
      "{{.N}}" (show_nat n)
