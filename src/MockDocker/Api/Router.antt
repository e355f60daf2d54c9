-- ===== src/MockDocker/Api/Router.antt =====
-- mock-docker/src/server.ts: the routes, the search for the one that a request means, and the answer that
-- the result of a mutation becomes. `url` has given the path and the query; `decodeURIComponent` is a
-- parameter, and is `none` where it throws.
pub mod Matching
use Prim.Native.Char.{code}
use Prim.Native.String.{[] as no_text, ◌∷◌ as char, ◌++◌ as append}
use dockge.Prelude.{
  ℕ, zero, suc, String, Bool, true, false, Option, none, some, List, [], ◌∷◌, length, drop, select,
  ltb, leb, eqb, not, ◌==◌, ◌&&◌, starts_with, truthy, before, after, has_char, split, join,
  skip_text, if◌then◌else◌,
}
use dockge.Prelude.Dict.{Dict, insert}
use dockge.MockDocker.Networks.{drop_prefix}
use dockge.MockDocker.Types.{MutationResult, ok, fail}

-- An answer: a status with a JSON body, with a message in its place, or with no body.
pub data Response {ℓ} (A : Type ℓ) : Type ℓ where
  json : ℕ → A → Response A
  message : ℕ → String → Response A
  no_content : ℕ → Response A

unfoldable pub status_of {ℓ} : {A : Type ℓ} → Response A → ℕ
status_of (json code body) = code
status_of (message code text) = code
status_of (no_content code) = code

-- handleMutationResult, for a result with a value and for one whose `ok` is undefined.
unfoldable pub failure_response {ℓ} : {A : Type ℓ} → ℕ → String → Response A
failure_response code error = if eqb code 304 then no_content 304 else message code error

unfoldable pub handle_mutation_result {ℓ} : {A : Type ℓ} → MutationResult A → ℕ → Response A
unfolding failure_response
handle_mutation_result (fail code error) success = failure_response code error
handle_mutation_result (ok a) success = json success a

unfoldable pub handle_unit_result {ℓ} : {A : Type ℓ} → MutationResult (Unit {0}) → ℕ → Response A
unfolding failure_response
handle_unit_result (fail code error) success = failure_response code error
handle_unit_result (ok _) success = no_content (if eqb success 200 then 204 else success)

-- s.split("/").filter(Boolean)
unfoldable pub path_segments : String → List String
unfolding split truthy
path_segments s = select truthy (split b'/' s)

pub record Pattern : Type 0 where
  pub segments : List String
  pub greedy : Bool

-- The last part, where it is "*", makes the pattern greedy and is dropped.
unfoldable pub pattern_of : List String → Pattern
pattern_of [] = record { segments = []; greedy = false }
pattern_of (s ∷ []) =
    if s == "*"
    then record { segments = []; greedy = true }
    else record { segments = s ∷ []; greedy = false }
pattern_of (s ∷ t ∷ parts) =
    let rest = pattern_of (t ∷ parts) in record rest { segments = s ∷ rest.segments }

unfoldable pub parse_pattern : String → Pattern
unfolding pattern_of path_segments
parse_pattern pattern = pattern_of (path_segments pattern)

-- The loop over the segments of the route, on a path that has as many at least.
unfoldable pub bind_segments : List String → List String → Dict String → Option (Dict String)
unfolding skip_text
bind_segments [] path params = some params
bind_segments (seg ∷ segs) [] params = none
bind_segments (seg ∷ segs) (p ∷ path) params =
    let bound = bind_segments segs path (insert (skip_text 1 seg) p params) in
    let next = bind_segments segs path params in
    if starts_with seg ":" then bound else if seg == p then next else none

unfoldable pub with_rest : ℕ → List String → Option (Dict String) → Option (Dict String)
unfolding join
with_rest n path none = none
with_rest n path (some params) = some (insert "*" (join "/" (drop n path)) params)

unfoldable pub match_pattern : Pattern → List String → Option (Dict String)
unfolding bind_segments with_rest
match_pattern r path =
    if r.greedy
    then (if ltb (length path) (length r.segments)
        then none
        else with_rest (length r.segments) path (bind_segments r.segments path []))
    else if eqb (length path) (length r.segments)
    then bind_segments r.segments path []
    else none

pub record Route (H : Type 0) : Type 0 where
  pub method : String
  pub pattern : String
  pub handler : H

module _ {H : Type 0} where
  unfoldable pub match_route : Route H → String → List String → Option (Dict String)
  unfolding match_pattern parse_pattern
  match_route r method path =
      if r.method == method then match_pattern (parse_pattern r.pattern) path else none

  unfoldable pub or_next :
      H → Option (Dict String) → Option (H × Dict String) → Option (H × Dict String)
  or_next h none next = next
  or_next h (some params) next = some (h, params)

  -- The first route that matches.
  unfoldable pub find_route : List (Route H) → String → List String → Option (H × Dict String)
  unfolding match_route or_next
  find_route [] method path = none
  find_route (r ∷ routes) method path =
      or_next r.handler (match_route r method path) (find_route routes method path)

is_digit : ℕ → Bool
is_digit c = leb b'0' c && leb c b'9'

-- The text behind its digits, and whether it began with one.
skip_digits : String → String
unfolding is_digit
skip_digits no_text = ""
skip_digits (char c s) =
    let rest = skip_digits s in if is_digit (code c) then rest else append (char c "") s

begins_with_digit : String → Bool
unfolding is_digit
begins_with_digit no_text = false
begins_with_digit (char c s) = is_digit (code c)

behind_minor : String → String → String
unfolding skip_digits begins_with_digit
behind_minor whole s = if begins_with_digit s then skip_digits s else whole

behind_major : String → String → String
unfolding behind_minor skip_digits begins_with_digit
behind_major whole s =
    if begins_with_digit s
    then elim (drop_prefix "." (skip_digits s)) [
      | none ↦ whole
      | some minor ↦ behind_minor whole minor
    ]
    else whole

-- pathname.replace(/^\/v\d+\.\d+/, ""), and the slash in front
unfoldable pub strip_version : String → String
unfolding behind_major
strip_version s = elim (drop_prefix "/v" s) [ none ↦ s | some major ↦ behind_major s major ]

unfoldable pub with_leading_slash : String → String
with_leading_slash s = if starts_with s "/" then s else append "/" s

module _ (decode : String → Option String) where
  set_decoded : Option String → Option String → Dict String → Option (Dict String)
  set_decoded (some k) (some v) params = some (insert k v params)
  set_decoded _ _ params = none

  parse_pair : String → Dict String → Option (Dict String)
  unfolding set_decoded
  parse_pair pair params =
      if has_char b'=' pair
      then set_decoded (decode (before b'=' pair)) (decode (after b'=' pair)) params
      else set_decoded (decode pair) (some "") params

  parse_pairs : List String → Option (Dict String) → Option (Dict String)
  unfolding parse_pair
  parse_pairs pairs none = none
  parse_pairs [] (some params) = some params
  parse_pairs (pair ∷ pairs) (some params) = parse_pairs pairs (parse_pair pair params)

  -- url.search, which begins with "?" or is empty
  unfoldable pub parse_query_string : String → Option (Dict String)
  unfolding parse_pairs
  parse_query_string search =
      if truthy search
      then parse_pairs (split b'&' (if starts_with search "?" then skip_text 1 search else search))
          (some [])
      else some []

  -- What the server does with a request before a handler runs: an exception of the decoding is answered
  -- by 500 and its message.
  pub data Dispatch (H : Type 0) : Type 0 where
    run : H → Dict String → Dict String → Dispatch H
    answer : ℕ → String → Dispatch H

  dispatch_found : {H : Type 0} → Dict String → Option (H × Dict String) → Dispatch H
  dispatch_found query none = answer 404 "page not found"
  dispatch_found query (some (h, params)) = run h params query

  dispatch_query :
      {H : Type 0} → List (Route H) → String → List String → Option (Dict String) → Dispatch H
  unfolding dispatch_found
  dispatch_query routes method path none = answer 500 "URI malformed"
  dispatch_query routes method path (some query) =
      dispatch_found query (find_route routes method path)

  -- The method in upper case, the path and the query of the address.
  unfoldable pub dispatch : {H : Type 0} → List (Route H) → String → String → String → Dispatch H
  unfolding dispatch_query path_segments with_leading_slash strip_version parse_query_string
  dispatch routes method pathname search =
      dispatch_query routes method (path_segments (with_leading_slash (strip_version pathname)))
        (parse_query_string search)
