-- ===== src/MockDocker/Compose.antt =====
-- mock-docker/src/compose-parser.ts: the short forms of a compose file. What the YAML library yields is a
-- `Value`; its numbers are whole and not negative here. `to_number` is JavaScript's Number of a value.
pub mod Mounts
use Prim.Native.Char.{code}
use Prim.Native.String.{[] as no_text, ◌∷◌ as char, ◌++◌ as append}
use dockge.Prelude.{
  ℕ, zero, suc, ◌+◌, ◌-◌, String, Bool, true, false, Option, none, some, List, [], ◌∷◌, ◌++◌, map,
  ltb, leb, eqb, ◌==◌, ◌&&◌, ◌||◌, starts_with, ends_with, has_char, before, after, split,
  skip_text, take_text, text_size, or_default, or_empty, show_nat, join, if◌then◌else◌,
}
use dockge.Prelude.Numbers.{Number, nan, plus, minus, parse_int}
use dockge.Prelude.Dict.{Dict, insert}

mutual
  pub data Value : Type 0 where
    null : Value
    flag : Bool → Value
    number : ℕ → Value
    text : String → Value
    items : Values → Value
    fields : Fields → Value

  pub data Values : Type 0 where
    done : Values
    item : Value → Values → Values

  pub data Fields : Type 0 where
    end : Fields
    field : String → Value → Fields → Fields

-- The elements of a list, and the entries of a map.
unfoldable pub elements : Values → List Value
elements done = []
elements (item v vs) = v ∷ elements vs

unfoldable pub entries : Fields → List (String × Value)
entries end = []
entries (field key v fs) = (key, v) ∷ entries fs

-- String(v), for what is no list.
unfoldable pub text_of : Value → String
unfolding show_nat
text_of null = "null"
text_of (flag true) = "true"
text_of (flag false) = "false"
text_of (number n) = show_nat n
text_of (text s) = s
text_of (items vs) = ""
text_of (fields fs) = "[object Object]"

unfoldable pub get_field : String → Fields → Option Value
get_field key end = none
get_field key (field k v fs) = let rest = get_field key fs in if k == key then some v else rest

pub record ParsedPort : Type 0 where
  pub target : Number
  pub published : Option Number
  pub protocol : String
  pub host_ip : String

-- The text behind the first occurrence of another.
unfoldable pub behind : String → String → Option String
unfolding skip_text text_size
behind pat no_text = none
behind pat (char c s) =
    let rest = behind pat s in
    if starts_with (char c s) pat then some (skip_text (text_size pat) (char c s)) else rest

or_dash : Option String → Option String → String
or_dash (some d) dash = d
or_dash none (some d) = d
or_dash none none = ""

-- The default of the reference ${inner}.
unfoldable pub default_of : String → String
unfolding behind or_dash
default_of inner = or_dash (behind ":-" inner) (behind "-" inner)

-- Behind n characters of a reference that was resolved.
resolve_from : ℕ → String → String
unfolding default_of has_char before skip_text text_size
resolve_from n no_text = ""
resolve_from (suc n) (char c s) = resolve_from n s
resolve_from zero (char c s) =
    let inner = before b'}' (skip_text 1 s) in
    let resolved = append (default_of inner) (resolve_from (text_size inner + 2) s) in
    let kept = char c (resolve_from 0 s) in
    if starts_with (char c s) "${" && has_char b'}' s then resolved else kept

unfoldable pub resolve_env_var_defaults : String → String
unfolding resolve_from
resolve_env_var_defaults s = resolve_from 0 s

or_zero : Number → Number
or_zero nan = plus 0
or_zero n = n

unfoldable pub parse_port_num : String → Number
unfolding or_zero parse_int
parse_port_num s = or_zero (parse_int s)

-- n + i
unfoldable pub add_to : Number → ℕ → Number
add_to nan i = nan
add_to (plus n) i = plus (n + i)
add_to (minus n) i = if leb n i then plus (i - n) else minus (n - i)

shifted : Option Number → ℕ → Option Number
unfolding add_to
shifted none i = none
shifted (some n) i = some (add_to n i)

-- n ports from port i on
range_ports : Option Number → String → String → ℕ → ℕ → List ParsedPort
unfolding shifted
range_ports published protocol ip i zero = []
range_ports published protocol ip i (suc n) =
    record { target = plus i; published = shifted published i; protocol = protocol; host_ip = ip }
    ∷ range_ports published protocol ip (i + 1) n

-- String(target) has a "-" where the target is negative, and only there: then the two parts are "" and the
-- digits, and the ports from 0 on are listed.
unfoldable pub expand_range : ParsedPort → List ParsedPort
unfolding range_ports
expand_range p = elim p.target [
  | minus (suc n) ↦ range_ports p.published p.protocol p.host_ip 0 (n + 2)
  | _ ↦ p ∷ []
]

unfoldable pub port_of_parts : String → List String → ParsedPort
unfolding parse_port_num has_char
port_of_parts protocol (ip ∷ published ∷ target ∷ []) = record {
  target = parse_port_num target;
  published = some (parse_port_num published);
  protocol = protocol;
  host_ip = ip;
}
port_of_parts protocol (first ∷ target ∷ []) =
    if has_char b'.' first
    then record {
      target = parse_port_num target;
      published = none;
      protocol = protocol;
      host_ip = first;
    }
    else record {
      target = parse_port_num target;
      published = some (parse_port_num first);
      protocol = protocol;
      host_ip = "";
    }
port_of_parts protocol (first ∷ _) = record {
  target = parse_port_num first;
  published = none;
  protocol = protocol;
  host_ip = "";
}
port_of_parts protocol [] = record {
  target = parse_port_num "";
  published = none;
  protocol = protocol;
  host_ip = "";
}

but_four : String → String
unfolding take_text text_size
but_four s = take_text (text_size s - 4) s

unfoldable pub parse_port_short : String → List ParsedPort
unfolding expand_range port_of_parts but_four ends_with resolve_env_var_defaults split
parse_port_short s =
    let parts = λ (t : String). split b':' (resolve_env_var_defaults t) in
    if ends_with s "/udp"
    then expand_range (port_of_parts "udp" (parts (but_four s)))
    else if ends_with s "/tcp"
    then expand_range (port_of_parts "tcp" (parts (but_four s)))
    else expand_range (port_of_parts "tcp" (parts s))

text_field : Option Value → String
unfolding text_of
text_field (some (text s)) = s
text_field _ = ""

module _ (to_number : Value → Number) where
  number_of : Option Value → Number
  number_of none = nan
  number_of (some v) = to_number v

  published_of : Option Value → Option Number
  published_of none = none
  published_of (some v) = some (to_number v)

  -- For the parts that are texts where they are given.
  unfoldable pub parse_port_long : Fields → ParsedPort
  unfolding number_of published_of text_field get_field or_default
  parse_port_long obj = record {
    target = number_of (get_field "target" obj);
    published = published_of (get_field "published" obj);
    protocol = or_default (some (text_field (get_field "protocol" obj))) "tcp";
    host_ip = text_field (get_field "host_ip" obj);
  }

  parse_port : Value → List ParsedPort
  unfolding parse_port_short parse_port_long
  parse_port (number n) =
      record { target = plus n; published = none; protocol = "tcp"; host_ip = "" } ∷ []
  parse_port (text s) = parse_port_short s
  parse_port (fields obj) = parse_port_long obj ∷ []
  parse_port _ = []

  parse_all : List Value → List ParsedPort
  unfolding parse_port
  parse_all [] = []
  parse_all (v ∷ vs) = parse_port v ++ parse_all vs

  unfoldable pub parse_ports : Value → List ParsedPort
  unfolding parse_all elements
  parse_ports (items vs) = parse_all (elements vs)
  parse_ports _ = []

set_line : String → Dict String → Dict String
unfolding has_char before after
set_line s env =
    if has_char b'=' s then insert (before b'=' s) (after b'=' s) env else insert s "" env

lines_env : List Value → Dict String → Dict String
unfolding set_line text_of
lines_env [] env = env
lines_env (v ∷ vs) env = lines_env vs (set_line (text_of v) env)

value_text : Value → String
unfolding text_of
value_text null = ""
value_text v = text_of v

map_env : List (String × Value) → Dict String → Dict String
unfolding value_text
map_env [] env = env
map_env ((key, v) ∷ vs) env = map_env vs (insert key (value_text v) env)

-- `parseLabels` has the same two forms. Lists inside are not modelled.
unfoldable pub parse_environment : Value → Dict String
unfolding lines_env map_env elements entries
parse_environment (items vs) = lines_env (elements vs) []
parse_environment (fields fs) = map_env (entries fs) []
parse_environment _ = []
