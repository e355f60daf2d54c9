-- ===== src/MockDocker/Top.antt =====
-- mock-docker/src/top.ts: the processes of a container. `containerSeed` is the one of
-- mock-docker/src/logs.ts, word for word.
use Prim.Native.String.{◌++◌ as append}
use dockge.Prelude.{
  ℕ, zero, suc, ◌+◌, ◌-◌, ◌*◌, ◌%◌, String, some, List, [], ◌∷◌, length, truthy, or_default, join,
  show_nat, utf16_length, if◌then◌else◌,
}
use dockge.MockDocker.Types.{ContainerInspect}
use dockge.MockDocker.Runtime.{Runtime}
use dockge.MockDocker.Deterministic.{deterministic_int}
use dockge.MockDocker.Logs.{container_seed, nth_text}

pub record Process : Type 0 where
  pub uid : String
  pub pid : String
  pub ppid : String
  pub cpu : String
  pub stime : String
  pub tty : String
  pub time : String
  pub cmd : String
  pub vsz : String
  pub rss : String
  pub mem : String

abbrev pub worker_names : List String
worker_names = "worker" ∷ "handler" ∷ "scheduler" ∷ "gc" ∷ "logger" ∷ "monitor" ∷ []

unfoldable pub repeat_text : ℕ → String → String
repeat_text zero s = ""
repeat_text (suc n) s = append s (repeat_text n s)

-- s.padStart(n, fill) and s.padEnd(n), for a `fill` of one character
unfoldable pub pad_start : ℕ → String → String → String
unfolding repeat_text utf16_length
pad_start n fill s = append (repeat_text (n - utf16_length s) fill) s

unfoldable pub pad_end : ℕ → String → String
unfolding repeat_text utf16_length
pad_end n s = append s (repeat_text (n - utf16_length s) " ")

command_parts : ContainerInspect → List String
unfolding truthy
command_parts c = if truthy c.path then c.path ∷ c.args else c.args

unfoldable pub build_pid1_command : ContainerInspect → String
unfolding command_parts join or_default
build_pid1_command c = or_default (some (join " " (command_parts c))) "/bin/sh"

module _ (rt : Runtime) where
  -- (rss / 1024 / 1024 * 100).toFixed(1): no step of the quotient is rounded for rss < 2^46.
  mem_text : ℕ → String
  mem_text rss = rt.to_fixed1 (rss * 100) 1048576

  unfoldable pub main_process : ContainerInspect → Process
  unfolding mem_text build_pid1_command or_default show_nat
  main_process c =
      let seed = container_seed rt c in
      let rss = deterministic_int rt (append seed "p1rss") 5000 100000 in
      record {
        uid = or_default c.config.user "root";
        pid = "1";
        ppid = "0";
        cpu = "0";
        stime = "00:00";
        tty = "?";
        time = "00:00:01";
        cmd = build_pid1_command c;
        vsz = show_nat (deterministic_int rt (append seed "p1vsz") 10000 500000);
        rss = show_nat rss;
        mem = mem_text rss;
      }

  unfoldable pub worker_process : ContainerInspect → ℕ → Process
  unfolding mem_text or_default show_nat nth_text pad_start
  worker_process c i =
      let seed = append (container_seed rt c) (append "worker" (show_nat i)) in
      let rss = deterministic_int rt (append seed "rss") 2000 50000 in
      record {
        uid = or_default c.config.user "root";
        pid = show_nat (deterministic_int rt (append seed "pid") 10 999);
        ppid = "1";
        cpu = "0";
        stime = "00:00";
        tty = "?";
        time =
            append "00:00:"
              (pad_start 2 "0" (show_nat (deterministic_int rt (append seed "time") 0 59)));
        cmd = nth_text worker_names (i % length worker_names);
        vsz = show_nat (deterministic_int rt (append seed "vsz") 5000 200000);
        rss = show_nat rss;
        mem = mem_text rss;
      }

  -- n workers from worker i on
  unfoldable pub workers : ContainerInspect → ℕ → ℕ → List Process
  unfolding worker_process
  workers c i zero = []
  workers c i (suc n) = worker_process c i ∷ workers c (i + 1) n

  -- The processes; the titles are constants.
  unfoldable pub generate_top : ContainerInspect → List Process
  unfolding main_process workers
  generate_top c =
      main_process c
      ∷ workers c 0 (deterministic_int rt (append (container_seed rt c) "nprocs") 2 8)
