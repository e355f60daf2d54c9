-- ===== src/MockDocker/Shell/Output.antt =====
-- mock-docker/src/shell.ts: what the commands print that only look at the container. `path in known` holds
-- of the names that every object inherits too; such a path is taken for an unknown one here.
use Prim.Native.String.{◌++◌ as append}
use dockge.Prelude.{
  ℕ, zero, suc, ◌+◌, ◌-◌, ◌*◌, ◌/◌, ◌%◌, String, Bool, true, false, Option, none, some, List, [],
  ◌∷◌, ◌++◌, map, any, ltb, length, truthy, not, ◌==◌, ◌||◌, ◌&&◌, or_default, join, show_nat,
  take_text, has_char, before, after, starts_with, if◌then◌else◌,
}
use dockge.Prelude.Dict.{values}
use dockge.MockDocker.Types.{ContainerInspect, EndpointSettings}
use dockge.MockDocker.Runtime.{Runtime}
use dockge.MockDocker.Clock
use dockge.MockDocker.Clock.{FixedClock}
use dockge.MockDocker.Deterministic.{deterministic_int}
use dockge.MockDocker.Creation.{list_or_empty}
use dockge.MockDocker.Logs.{container_seed, nth_text}
use dockge.MockDocker.Top.{Process, generate_top, pad_start, pad_end}

abbrev pub includes : String → List String → Bool
includes s args = any (λ a. a == s) args

unfoldable pub user_name : ContainerInspect → String
unfolding or_default
user_name c = or_default c.config.user "root"

unfoldable pub host_name : ContainerInspect → String
unfolding or_default take_text
host_name c = or_default c.config.hostname (take_text 12 c.id)

unfoldable pub format_uname : ContainerInspect → List String → String
unfolding host_name
format_uname c args =
    if includes "-a" args || includes "--all" args
    then append "Linux " (append (host_name c) " 5.15.0-mock #1 SMP x86_64 GNU/Linux")
    else if includes "-r" args || includes "--kernel-release" args
    then "5.15.0-mock"
    else if includes "-n" args || includes "--nodename" args
    then host_name c
    else "Linux"

unfoldable pub format_env : ContainerInspect → String
unfolding join
format_env c = join "\n" (list_or_empty c.config.env)

-- The value of the first entry of the name; empty where there is none.
unfoldable pub find_variable : String → List String → String
unfolding has_char before after
find_variable name [] = ""
find_variable name (entry ∷ env) =
    let rest = find_variable name env in
    if has_char b'=' entry && before b'=' entry == name then after b'=' entry else rest

unfoldable pub format_printenv : ContainerInspect → List String → String
unfolding format_env find_variable
format_printenv c [] = format_env c
format_printenv c (name ∷ _) = find_variable name (list_or_empty c.config.env)

-- The line of the first network with an address.
unfoldable pub own_host_line : String → List EndpointSettings → List String
unfolding truthy
own_host_line host [] = []
own_host_line host (ep ∷ eps) =
    let rest = own_host_line host eps in
    if truthy ep.ip_address then append ep.ip_address (append "\t" host) ∷ [] else rest

unfoldable pub extra_host_lines : List String → List String
unfolding has_char before after
extra_host_lines [] = []
extra_host_lines (h ∷ hosts) =
    let rest = extra_host_lines hosts in
    if has_char b':' h then append (after b':' h) (append "\t" (before b':' h)) ∷ rest else rest

name_servers : List String → String
unfolding join
name_servers [] = "nameserver 127.0.0.11\noptions ndots:0"
name_servers dns = join "\n" (map (λ d. append "nameserver " d) dns)

unfoldable pub format_cat : ContainerInspect → List String → String
unfolding host_name own_host_line extra_host_lines name_servers join
format_cat c [] = ""
format_cat c (file ∷ _) =
    if file == "/etc/hostname"
    then host_name c
    else if file == "/etc/hosts"
    then join "\n" (
        "127.0.0.1\tlocalhost"
        ∷ "::1\tlocalhost ip6-localhost ip6-loopback"
        ∷ (own_host_line (host_name c) (values (list_or_empty c.network_settings.networks))
            ++ extra_host_lines (list_or_empty c.host_config.extra_hosts)))
    else if file == "/etc/resolv.conf"
    then name_servers (list_or_empty c.host_config.dns)
    else append "cat: " (append file ": No such file or directory")

pub record DirEntry : Type 0 where
  pub name : String
  pub is_dir : Bool

abbrev pub dir : String → DirEntry
dir name = record { name = name; is_dir = true }

abbrev pub file : String → DirEntry
file name = record { name = name; is_dir = false }

abbrev pub generated_names : List String
generated_names = "data" ∷ "config" ∷ "logs" ∷ "cache" ∷ "run" ∷ []

-- n entries from entry i on: the first two are directories.
unfoldable pub generated_entries : ℕ → ℕ → List DirEntry
unfolding nth_text
generated_entries i zero = []
generated_entries i (suc n) =
    record { name = nth_text generated_names (i % length generated_names); is_dir = ltb i 2 }
    ∷ generated_entries (i + 1) n

known_root : List DirEntry
known_root =
    dir "bin"
    ∷ dir "dev"
    ∷ dir "etc"
    ∷ dir "home"
    ∷ dir "lib"
    ∷ dir "proc"
    ∷ dir "root"
    ∷ dir "sys"
    ∷ dir "tmp"
    ∷ dir "usr"
    ∷ dir "var"
    ∷ []

known_etc : List DirEntry
known_etc = file "hostname" ∷ file "hosts" ∷ file "resolv.conf" ∷ file "passwd" ∷ file "group" ∷ []

-- The words that do not begin with "-"; the first is the path.
unfoldable pub path_or : String → List String → String
unfolding truthy
path_or cwd [] = cwd
path_or cwd (a ∷ args) =
    let rest = path_or cwd args in if starts_with a "-" then rest else if truthy a then a else cwd

module _ (rt : Runtime) where
  unfoldable pub format_id : ContainerInspect → String
  unfolding user_name show_nat
  format_id c =
      let user = user_name c in
      let uid = show_nat (deterministic_int rt (append (container_seed rt c) "uid") 1000 65534) in
      let part = append uid (append "(" (append user ")")) in
      if user == "root"
      then "uid=0(root) gid=0(root) groups=0(root)"
      else append "uid=" (append part (append " gid=" (append part (append " groups=" part))))

  two_digits : ℕ → String
  unfolding pad_start show_nat
  two_digits n = pad_start 2 "0" (show_nat n)

  -- The first reading of the clock gives the time that has passed, the second the time of day.
  uptime_text : ℕ → ℕ → ℕ → String
  unfolding two_digits show_nat
  uptime_text started now later =
      let seconds = (now - started) / 1000 in
      let hours = seconds / 3600 in
      let mins = seconds % 3600 / 60 in
      let clock_text = append (two_digits (later / 3600000 % 24)) (
        append ":" (
          append (two_digits (later / 60000 % 60))
            (append ":" (two_digits (later / 1000 % 60))))) in
      let up =
        if ltb 0 hours
        then append (show_nat hours) (append ":" (two_digits mins))
        else append (show_nat mins) " min" in
      append " "
        (append clock_text (append " up " (append up ",  1 user,  load average: 0.08, 0.03, 0.01")))

  uptime_later : ℕ → ℕ → ℕ × FixedClock → String × FixedClock
  unfolding uptime_text
  uptime_later started now (later, clock) = (uptime_text started now later, clock)

  uptime_now : ℕ → ℕ × FixedClock → String × FixedClock
  unfolding uptime_later
  uptime_now started (now, clock) = uptime_later started now (Clock.now clock)

  unfoldable pub format_uptime : ContainerInspect → FixedClock → String × FixedClock
  unfolding uptime_now truthy
  format_uptime c clock =
      let at = c.state.started_at in
      if not (truthy at) || at == "0001-01-01T00:00:00Z"
      then (" 00:00:00 up 0 min,  0 users,  load average: 0.00, 0.00, 0.00", clock)
      else uptime_now (rt.from_iso at) (Clock.now clock)

  unfoldable pub get_directory_entries : String → String → List DirEntry
  unfolding known_root known_etc generated_entries
  get_directory_entries path seed =
      if path == "/"
      then known_root
      else if path == "/etc"
      then known_etc
      else if path == "/tmp" || path == "/root"
      then []
      else generated_entries 0 (deterministic_int rt (append seed "count") 1 5)

  long_line : String → DirEntry → String
  unfolding pad_start show_nat
  long_line seed e =
      let size = deterministic_int rt (append seed (append e.name "size")) 0 65536 in
      append (if e.is_dir then "drwxr-xr-x 2" else "-rw-r--r-- 1") (
        append " root root "
          (append (pad_start 5 " " (show_nat size)) (append " Jan  1 00:00 " e.name)))

  unfoldable pub format_ls : ContainerInspect → String → List String → String
  unfolding path_or get_directory_entries long_line join show_nat
  format_ls c cwd args =
      let target = path_or cwd args in
      let seed = append (container_seed rt c) (append "ls" target) in
      let entries = get_directory_entries target seed in
      if includes "-la" args || includes "-l" args || includes "-al" args
      then join "\n"
          (append "total " (show_nat (length entries * 4)) ∷ map (long_line seed) entries)
      else join "  " (map (λ e. e.name) entries)

  process_line : Process → String
  unfolding pad_start pad_end
  process_line p = append (pad_end 8 p.uid) (
      append " " (
        append (pad_start 5 " " p.pid) (
          append "  0.0 " (
            append (pad_start 4 " " p.mem) (
              append " " (
                append (pad_start 6 " " p.vsz) (
                  append " " (
                    append (pad_start 5 " " p.rss)
                      (append " ?        Ss   00:00   " (append p.time (append " " p.cmd)))))))))))

  unfoldable pub format_ps : ContainerInspect → String
  unfolding process_line generate_top join
  format_ps c = join "\n" (
      "USER         PID %CPU %MEM    VSZ   RSS TTY      STAT START   TIME COMMAND"
      ∷ map process_line (generate_top rt c))

  total_megabytes : Option ℕ → ℕ
  total_megabytes none = 2048
  total_megabytes (some limit) = if ltb 0 limit then limit / 1048576 else 2048

  eight : ℕ → String
  unfolding pad_start show_nat
  eight n = pad_start 8 " " (show_nat n)

  unfoldable pub format_free : ContainerInspect → String
  unfolding total_megabytes eight join
  format_free c =
      let total = total_megabytes c.host_config.memory in
      let used = rt.floor_share total 35 in
      let free = total - used in
      let buff = rt.floor_share total 20 in
      let gap : String = "    " in
      join "\n" (
        "              total        used        free      shared  buff/cache   available"
        ∷ append "Mem:       " (
            append (eight total) (
              append gap (
                append (eight used) (
                  append gap (
                    append (eight free) (
                      append "           0    "
                        (append (eight buff) (append gap (eight (free + buff))))))))))
        ∷ append "Swap:      " (
            append (eight (total / 2))
              (append gap (append (eight 0) (append gap (eight (total / 2))))))
        ∷ [])

  two_wide : ℕ → String
  unfolding pad_start show_nat
  two_wide n = pad_start 2 " " (show_nat n)

  unfoldable pub format_df : ContainerInspect → String
  unfolding two_wide join
  format_df c =
      let used = deterministic_int rt (append (container_seed rt c) "df-used") 1 30 in
      join "\n" (
        "Filesystem      Size  Used Avail Use% Mounted on"
        ∷ append "overlay          50G   " (
            append (two_wide used) (
              append "G   " (
                append (two_wide (50 - used))
                  (append "G  " (append (two_wide (rt.floor_percent used 50)) "% /")))))
        ∷ "tmpfs            64M     0   64M   0% /dev"
        ∷ "shm              64M     0   64M   0% /dev/shm"
        ∷ [])
