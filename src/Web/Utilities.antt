-- ===== src/Web/Utilities.antt =====
-- web/src/common/util-common.ts: the status of a stack and of a container as it is shown, the filters of the
-- stack list, hashes, the address of a port, .env files and the names of terminals.
use Prim.Native.Char.{code}
use Prim.Native.String.{[] as no_text, ◌∷◌ as char, ◌++◌ as append}
use dockge.Prelude.{
  ℕ, ◌+◌, ◌-◌, ◌/◌, ◌%◌, String, Bool, false, Option, none, some, List, [], ◌∷◌, ◌++◌, any, select,
  length, ltb, eqb, not, ◌==◌, ◌||◌, ◌&&◌, truthy, or_default, starts_with, ends_with, has_char,
  before, after, second_part, split, skip_text, take_text, text_size, contains_text, trim_text,
  show_nat, if◌then◌else◌,
}
use dockge.Prelude.Numbers.{plus, parse_int, show_number}
use dockge.Prelude.Dict.{Dict, insert, values}
use dockge.Web.StackStore.{
  created_file, created_stack, running, exited, running_and_exited, unhealthy,
}

pub record StatusInfo : Type 0 where
  pub label : String
  pub badge_color : String
  pub text_color : String

abbrev pub status_info : String → String → String → StatusInfo
status_info label badge text = record { label = label; badge_color = badge; text_color = text }

-- StackStatusInfo.get, over the table that the class builds.
unfoldable pub stack_status_info : ℕ → StatusInfo
stack_status_info id =
    if eqb id unhealthy
    then status_info "unhealthy" "danger" "danger"
    else if eqb id running
    then status_info "active" "primary" "primary"
    else if eqb id running_and_exited
    then status_info "partially" "info" "info"
    else if eqb id exited
    then status_info "exited" "warning" "warning"
    else if eqb id created_file || eqb id created_stack
    then status_info "down" "dark" "secondary"
    else status_info "?" "secondary" "secondary"

unfoldable pub status_name : ℕ → String
status_name id =
    if eqb id created_file
    then "draft"
    else if eqb id created_stack
    then "created_stack"
    else if eqb id running
    then "running"
    else if eqb id running_and_exited
    then "partially_running"
    else if eqb id unhealthy
    then "unhealthy"
    else if eqb id exited
    then "exited"
    else "unknown"

unfoldable pub status_name_short : ℕ → String
status_name_short id =
    if eqb id created_file || eqb id created_stack
    then "down"
    else if eqb id running
    then "active"
    else if eqb id running_and_exited
    then "partially"
    else if eqb id unhealthy
    then "unhealthy"
    else if eqb id exited
    then "exited"
    else "?"

unfoldable pub status_color : ℕ → String
status_color id =
    if eqb id created_file || eqb id created_stack
    then "dark"
    else if eqb id running
    then "primary"
    else if eqb id running_and_exited
    then "info"
    else if eqb id unhealthy
    then "danger"
    else if eqb id exited
    then "warning"
    else "secondary"

-- Of a container: the label and the colour.
is_value : Option String → String → Bool
is_value none s = false
is_value (some t) s = t == s

unfoldable pub container_status_info : String → Option String → String × String
unfolding is_value
container_status_info state health =
    if state == "running" && is_value health "unhealthy"
    then ("unhealthy", "danger")
    else if state == "running"
    then ("running", "primary")
    else if state == "exited"
    then ("exited", "warning")
    else if state == "dead"
    then ("dead", "dark")
    else if state == "paused"
    then ("paused", "info")
    else if state == "created"
    then ("created", "dark")
    else ("down", "dark")

unfoldable pub container_status_from : String → String × String
unfolding container_status_info
container_status_from status =
    if status == "healthy"
    then ("running", "primary")
    else if status == "unhealthy"
    then ("unhealthy", "danger")
    else container_status_info status none

-- The set of the selected values is a list without repetitions.
pub record FilterCategory : Type 0 where
  pub options : Dict String
  pub selected : List String

abbrev pub is_in : String → List String → Bool
is_in v vs = any (λ u. u == v) vs

unfoldable pub toggle_selected : String → FilterCategory → FilterCategory
toggle_selected v c =
    if is_in v c.selected
    then record c { selected = select (λ u. not (u == v)) c.selected }
    else record c { selected = c.selected ++ v ∷ [] }

unfoldable pub is_filter_selected : FilterCategory → Bool
is_filter_selected c =
    if eqb (length c.selected) 0 then false else any (λ v. is_in v c.selected) (values c.options)

pub record StackFilter : Type 0 where
  pub status : FilterCategory
  pub attributes : FilterCategory

unfoldable pub is_stack_filter_selected : StackFilter → Bool
unfolding is_filter_selected
is_stack_filter_selected f = is_filter_selected f.status || is_filter_selected f.attributes

unfoldable pub clear_filter : StackFilter → StackFilter
clear_filter f = record {
  status = record f.status { selected = [] };
  attributes = record f.attributes { selected = [] };
}

-- The sum of the UTF-16 code units of a text; a character above U+FFFF has two.
unit_sum : String → ℕ
unit_sum no_text = 0
unit_sum (char c s) =
    (if ltb (code c) 0x10000
      then code c
      else 0xd800 + (code c - 0x10000) / 0x400 + (0xdc00 + (code c - 0x10000) % 0x400))
    + unit_sum s

-- For a length above 0.
unfoldable pub int_hash : String → ℕ → ℕ
unfolding unit_sum
int_hash s n = (unit_sum s % n + n) % n

-- The text in front of the last of a character, and behind it; for a text that has one.
before_last : ℕ → String → String
before_last sep no_text = ""
before_last sep (char c s) =
    let rest = char c (before_last sep s) in if has_char sep s then rest else ""

-- s.split("->")[0]
before_arrow : String → String
before_arrow no_text = ""
before_arrow (char c s) =
    let rest = char c (before_arrow s) in if starts_with (char c s) "->" then "" else rest

without_target : String → String
unfolding before_arrow second_part or_default has_char
without_target s =
    let host = before_arrow s in
    let port = or_default (second_part b':' host) "" in
    if contains_text s "->" then (if has_char b':' host then port else host) else s

-- The host and the port of the part in front of the last colon.
host_and_port : String → String → String × String
unfolding has_char before after
host_and_port hostname host =
    if has_char b':' host then (before b':' host, after b':' host) else (hostname, host)

first_of_range : String → String
unfolding has_char before
first_of_range s = if has_char b'-' s then before b'-' s else s

port_url : String → String × String → String
unfolding parse_int show_number
port_url protocol (hostname, port) =
    let n = parse_int port in
    let is_tls : Bool = elim n [ plus k ↦ eqb k 443 | _ ↦ false ] in
    let scheme = if is_tls then "https" else if protocol == "tcp" then "http" else protocol in
    append scheme (append "://" (append hostname (append ":" (show_number n))))

-- The address and the text that is shown, for an input that is a text; its port is decimal.
unfoldable pub parse_docker_port : String → String → String × String
unfolding without_target host_and_port first_of_range port_url before_last second_part or_default
    has_char
parse_docker_port input hostname =
    let part = without_target (before b'/' input) in
    let protocol = or_default (second_part b'/' input) "tcp" in
    let host = if has_char b'-' part then before b'-' part else before_last b':' part in
    if has_char b':' part
    then (port_url protocol (host_and_port hostname host), before_last b':' part)
    else (port_url protocol (hostname, first_of_range part), part)

-- Without the quotes around it, where they are the same.
is_quote : ℕ → Bool
is_quote c = eqb c b'"' || eqb c 39 || eqb c b'`'

unquoted : String → String
unfolding is_quote ends_with take_text text_size
unquoted no_text = ""
unquoted (char c no_text) = char c ""
unquoted (char c s) =
    if is_quote (code c) && ends_with s (char c "") then take_text (text_size s - 1) s else char c s

set_variable : String → Dict String → Dict String
unfolding unquoted trim_text has_char before after skip_text
set_variable line env =
    let trimmed = trim_text line in
    let assign = if starts_with trimmed "export " then skip_text 7 trimmed else trimmed in
    if not (truthy trimmed) || starts_with trimmed "#" || not (has_char b'=' assign)
    then env
    else insert (trim_text (before b'=' assign)) (unquoted (trim_text (after b'=' assign))) env

set_variables : List String → Dict String → Dict String
unfolding set_variable
set_variables [] env = env
set_variables (line ∷ lines) env = set_variables lines (set_variable line env)

unfoldable pub parse_env : String → Dict String
unfolding set_variables split
parse_env src = set_variables (split 10 src) []

unfoldable pub combined_terminal_name : String → String
combined_terminal_name stack = append "combined-" stack

unfoldable pub container_terminal_name : String → String → String → ℕ → String
unfolding show_nat
container_terminal_name stack container shell index = append "container-terminal-" (
    append stack
      (append "-" (append container (append "-" (append shell (append "-" (show_nat index)))))))

unfoldable pub container_exec_terminal_name : String → String → ℕ → String
unfolding show_nat
container_exec_terminal_name stack container index =
    append "container-exec-"
      (append stack (append "-" (append container (append "-" (show_nat index)))))

-- The name of the stack is not used.
unfoldable pub container_log_name : String → String → String
container_log_name stack container = append "container-log-" container
