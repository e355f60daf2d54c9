-- ===== src/Cli/Progress.antt =====
-- mock-docker/cli/tty-output.ts: the progress of a compose command. Each text is one write; in a terminal the
-- tasks are drawn again for each frame. `elapsed` gives the seconds that a task has taken, as a text.
use Prim.Native.String.{◌++◌ as append}
use dockge.Prelude.{
  ℕ, zero, suc, ◌+◌, ◌%◌, String, Bool, List, [], ◌∷◌, ◌++◌, map, length, ltb, show_nat,
  if◌then◌else◌,
}
use dockge.MockDocker.Logs.{nth_text}
use dockge.MockDocker.Top.{pad_end, repeat_text}

pub record ProgressTask : Type 0 where
  pub name : String
  pub action : String
  pub outcome : String

abbrev task : String → String → String → ProgressTask
task name action outcome = record { name = name; action = action; outcome = outcome }

-- `Container ${project}-${svc}-1`
container_text : String → String → String
container_text project service =
    append "Container " (append project (append "-" (append service "-1")))

service_tasks : String → Bool → List String → List ProgressTask
unfolding container_text
service_tasks project recreate [] = []
service_tasks project recreate (s ∷ services) =
    let name = container_text project s in
    (if recreate then task name "Recreating" "Recreated" else task name "Creating" "Created")
    ∷ task name "Starting" "Started"
    ∷ service_tasks project recreate services

unfoldable pub compose_up_tasks : String → List String → Bool → Bool → List ProgressTask
unfolding service_tasks
compose_up_tasks project services whole recreate =
    let tasks = service_tasks project recreate services in
    if whole
    then task (append "Network " (append project "_default")) "Creating" "Created" ∷ tasks
    else tasks

unfoldable pub one_task_each : String → String → String → List String → List ProgressTask
unfolding container_text
one_task_each action outcome project services =
    map (λ s. task (container_text project s) action outcome) services

unfoldable pub compose_stop_tasks : String → List String → List ProgressTask
unfolding one_task_each
compose_stop_tasks project services = one_task_each "Stopping" "Stopped" project services

unfoldable pub compose_restart_tasks : String → List String → List ProgressTask
unfolding one_task_each
compose_restart_tasks project services = one_task_each "Restarting" "Started" project services

unfoldable pub compose_pause_tasks : String → List String → List ProgressTask
unfolding one_task_each
compose_pause_tasks project services = one_task_each "Pausing" "Paused" project services

unfoldable pub compose_unpause_tasks : String → List String → List ProgressTask
unfolding one_task_each
compose_unpause_tasks project services = one_task_each "Unpausing" "Unpaused" project services

unfoldable pub compose_pull_tasks : List String → List ProgressTask
compose_pull_tasks services = map (λ s. task s "Pulling" "Pulled") services

removal_tasks : String → List String → List ProgressTask
unfolding container_text
removal_tasks project [] = []
removal_tasks project (s ∷ services) =
    let name = container_text project s in
    task name "Stopping" "Stopped" ∷ task name "Removing" "Removed" ∷ removal_tasks project services

unfoldable pub compose_down_tasks : String → List String → Bool → List ProgressTask
unfolding removal_tasks
compose_down_tasks project services remove_volumes =
    let volumes =
      map
        (λ s.
          task (append "Volume " (append project (append "_" (append s "-data")))) "Removing"
            "Removed")
        services in
    removal_tasks project services
    ++ ((if remove_volumes then volumes else [])
        ++ task (append "Network " (append project "_default")) "Removing" "Removed" ∷ [])

abbrev pub spinner_frames : List String
spinner_frames = "⠋" ∷ "⠙" ∷ "⠹" ∷ "⠸" ∷ "⠼" ∷ "⠴" ∷ "⠦" ∷ "⠧" ∷ "⠇" ∷ "⠏" ∷ []

-- The escape sequence with a body.
escape : String → String
escape s = append "\u{1b}[" s

green : String → String
unfolding escape
green s = append (escape "32m") (append s (escape "0m"))

line_start : String
unfolding escape
line_start = append "\r" (escape "2K ")

unfoldable pub header_text : String → ℕ → ℕ → String
unfolding line_start green show_nat
header_text verb completed total = append line_start (
    append (green "[+]") (
      append " " (
        append verb (
          append " " (append (show_nat completed) (append "/" (append (show_nat total) "\r\n")))))))

unfoldable pub pending_text : ProgressTask → ℕ → String
unfolding line_start nth_text
pending_text t spin = append line_start (
    append (nth_text spinner_frames (spin % length spinner_frames))
      (append " " (append t.name (append "  " (append t.action "\r\n")))))

unfoldable pub done_text : ProgressTask → String → String
unfolding line_start green pad_end
done_text t seconds = append line_start (
    append (green "✔") (
      append " "
        (append t.name (append "  " (append (pad_end 12 t.outcome) (append seconds "s\r\n"))))))

-- The tasks from task i on: those in front of `bound` are done.
task_texts : (ℕ → String) → ℕ → ℕ → ℕ → List ProgressTask → List String
unfolding pending_text done_text
task_texts elapsed bound spin i [] = []
task_texts elapsed bound spin i (t ∷ tasks) =
    (if ltb i bound then done_text t (elapsed i) else pending_text t spin)
    ∷ task_texts elapsed bound spin (i + 1) tasks

unfoldable pub redraw : (ℕ → String) → String → List ProgressTask → ℕ → ℕ → List String
unfolding header_text task_texts repeat_text escape
redraw elapsed verb tasks bound spin =
    repeat_text (length tasks + 1) (escape "A")
    ∷ header_text verb bound (length tasks)
    ∷ task_texts elapsed bound spin 0 tasks

-- Three frames for the task that is next, and one more behind it; n tasks are left.
rounds : (ℕ → String) → String → List ProgressTask → ℕ → ℕ → ℕ → List String
unfolding redraw
rounds elapsed verb tasks completed spin zero = []
rounds elapsed verb tasks completed spin (suc n) =
    redraw elapsed verb tasks completed (spin + 1)
    ++ (redraw elapsed verb tasks completed (spin + 2)
        ++ (redraw elapsed verb tasks completed (spin + 3)
            ++ (redraw elapsed verb tasks (completed + 1) (spin + 3)
                ++ rounds elapsed verb tasks (completed + 1) (spin + 3) n)))

plain_text : ProgressTask → String
unfolding green
plain_text t =
    append " "
      (append (green "✔") (append " " (append t.name (append "  " (append t.outcome "\n")))))

-- The cursor's movements up by one line are joined into one text.
unfoldable pub render_progress : Bool → (ℕ → String) → String → List ProgressTask → List String
unfolding rounds plain_text escape header_text task_texts
render_progress tty elapsed verb [] = []
render_progress tty elapsed verb (t ∷ tasks) =
    let every = t ∷ tasks in
    if tty
    then escape "?25l"
      ∷ header_text verb 0 (length every)
      ∷ (task_texts elapsed 0 0 0 every
          ++ (rounds elapsed verb every 0 0 (length every) ++ escape "?25h" ∷ []))
    else map plain_text every
