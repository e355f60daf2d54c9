-- ===== src/MockDocker/Api/LogStream/Delivery.antt =====
-- mock-docker/src/api/containers.ts with `appendLog` of mock-docker/src/state.ts: what reaches a follower.
use mathlib.Core.List.{append_assoc, append-nil}
use dockge.Prelude.{
  ℕ, zero, suc, ◌+◌, ◌-◌, ◌≤◌, ◌<◌, ◌≡◌, refl, sym, ap, ◌∙◌, String, true, false, List, [], ◌∷◌,
  ◌++◌, map, length, ltb, drop, take, ◌==◌, arith, Bool-cases, ltb→lt, inl, inr, eq_iff,
  length-append, length-drop, drop-append, if◌then◌else◌,
}
use dockge.Prelude.Dict.{lookup, lookup-insert}
use dockge.MockDocker.State.{MockState, LogEntry, append_log, buffer_of, trim}
use dockge.MockDocker.Runtime.{Runtime}
use dockge.MockDocker.Api.LogStream.{Session, on_log, flush, current_buffer, line_of, chunk_of}

-- A line that is appended to the log of a container.
pub record Append : Type 0 where
  pub id : String
  pub entry : LogEntry

-- The entries that a list of appends gives to one container.
abbrev pub entries_of : String → List Append → List LogEntry
entries_of id [] = []
entries_of id (a ∷ steps) =
    if a.id == id then a.entry ∷ entries_of id steps else entries_of id steps

appended : Append → MockState → MockState
appended a state = append_log a.id a.entry.ts a.entry.line state

-- The buffer of a container after an append, to it or to another.
current_buffer-append_log :
    (a : Append) (id : String) (state : MockState)
    → current_buffer id (appended a state) ≡ (
        if a.id == id
        then trim (current_buffer id state ++ a.entry ∷ [])
        else current_buffer id state)
unfolding current_buffer append_log buffer_of appended
current_buffer-append_log a id state =
    let there =
      lookup-insert a.id id (trim (buffer_of (lookup a.id state.log_buffers) ++ a.entry ∷ []))
        state.log_buffers in
    elim (Bool-cases (a.id == id)) [
      | inl same ↦
          rw (there, same)
            (ap (λ k. trim (buffer_of (lookup k state.log_buffers) ++ a.entry ∷ []))
              ((eq_iff a.id id).0 same))
      | inr other ↦ rw (there, other) refl
    ]

trim-open : (buf : List LogEntry) → length buf ≤ 100 → trim buf ≡ buf
unfolding trim
trim-open buf h = ground arith

trim-full :
    (buf : List LogEntry) (e : LogEntry) → length buf ≡ 100 → length (trim (buf ++ e ∷ [])) ≡ 100
unfolding trim
trim-full buf e h =
    let longer = length-append buf (e ∷ []) in
    let over : ltb 100 (length (buf ++ e ∷ [])) ≡ true = ground (arith, longer) in
    rw over (omega (arith, longer, length-drop (length (buf ++ e ∷ []) - 100) (buf ++ e ∷ [])))

take-nil {ℓ} : {A : Type ℓ} (n : ℕ) → take {A = A} n [] ≡ []
take-nil zero = refl
take-nil (suc n) = refl

drop-length : (buf : List LogEntry) → drop (length buf) buf ≡ []
drop-length [] = refl
drop-length (e ∷ buf) = drop-length buf

module _ (rt : Runtime) where
  -- One append, and the call of the listener that follows it.
  abbrev pub deliver : Append → MockState × Session → MockState × Session
  deliver a (state, s) =
      let state' = append_log a.id a.entry.ts a.entry.line state in
      (state', on_log rt a.id state' s)

  abbrev pub deliver_all : List Append → MockState × Session → MockState × Session
  deliver_all [] w = w
  deliver_all (a ∷ steps) w = deliver_all steps (deliver a w)

  -- The chunk in which a session gets an entry.
  abbrev pub chunk_for : Session → LogEntry → List ℕ
  chunk_for s e = chunk_of rt s.tty (line_of rt s.timestamps e)

  on_log-other :
      (id : String) (state : MockState) (s : Session)
      → (id == s.id) ≡ false
      → on_log rt id state s ≡ s
  unfolding on_log
  on_log-other id state s other = ground arith

  on_log-own :
      (id : String) (state : MockState) (s : Session)
      → (id == s.id) ≡ true
      → s.stopped ≡ false
      → on_log rt id state s ≡ flush rt (drop s.cursor (current_buffer s.id state)) s
  unfolding on_log
  on_log-own id state s own open_still = ground arith

  -- The session behind an entry that it has got.
  abbrev given : LogEntry → Session → Session
  given e s = record s { cursor = s.cursor + 1; written = s.written ++ chunk_for s e ∷ [] }

  deliver-open :
      (a : Append) (state : MockState) (s : Session)
      → (a.id == s.id) ≡ true
      → s.stopped ≡ false
      → s.cursor ≡ length (current_buffer s.id state)
      → s.cursor < 100
      → (on_log rt a.id (appended a state) s ≡ given a.entry s)
        × (length (current_buffer s.id (appended a state)) ≡ s.cursor + 1)
  unfolding flush
  deliver-open a state s own going at room =
      let buf = current_buffer s.id state in
      let longer = length-append buf (a.entry ∷ []) in
      let now : current_buffer s.id (appended a state) ≡ buf ++ a.entry ∷ [] =
        rw (current_buffer-append_log a s.id state, own)
          (trim-open (buf ++ a.entry ∷ []) (omega (arith, longer))) in
      (
        on_log-own a.id (appended a state) s own going
            ∙ rw now (
                ap (λ n. flush rt (drop n (buf ++ a.entry ∷ [])) s) at
                ∙ ap (λ es. flush rt es s) (drop-append buf (a.entry ∷ []))),
        rw now (omega (arith, longer)),
      )

  deliver-full :
      (a : Append) (state : MockState) (s : Session)
      → (a.id == s.id) ≡ true
      → s.stopped ≡ false
      → s.cursor ≡ length (current_buffer s.id state)
      → s.cursor ≡ 100
      → (on_log rt a.id (appended a state) s ≡ s)
        × (length (current_buffer s.id (appended a state)) ≡ 100)
  unfolding flush
  deliver-full a state s own going at full =
      let buf = current_buffer s.id state in
      let now : current_buffer s.id (appended a state) ≡ trim (buf ++ a.entry ∷ []) =
        rw (current_buffer-append_log a s.id state, own) refl in
      let hundred = trim-full buf a.entry (sym at ∙ full) in
      (
        on_log-own a.id (appended a state) s own going
            ∙ rw now (
                ap (λ n. flush rt (drop n (trim (buf ++ a.entry ∷ []))) s) (full ∙ sym hundred)
                ∙ ap (λ es. flush rt es s) (drop-length (trim (buf ++ a.entry ∷ [])))),
        ap length now ∙ hundred,
      )

  -- A session that has not stopped and whose cursor stands at the end of its container's buffer, which
  -- holds a hundred entries at most: after any appends, to its container and to others, each followed by
  -- the listener's call, it has written, besides what it had, the chunks of the first entries of its
  -- container, in order, as many as the buffer had room for when the session began, and no more.
  pub deliver_all-written :
      (steps : List Append) (state : MockState) (s : Session)
      → s.stopped ≡ false
      → s.cursor ≡ length (current_buffer s.id state)
      → s.cursor ≤ 100
      → (deliver_all steps (state, s)).1.written
        ≡ s.written ++ map (chunk_for s) (take (100 - s.cursor) (entries_of s.id steps))
  unfolding appended
  deliver_all-written [] state s going at room =
      rw (take-nil {A = LogEntry} (100 - s.cursor), append-nil s.written) refl
  deliver_all-written (a ∷ steps) state s going at room = elim (Bool-cases (a.id == s.id)) [
    | inr other ↦
        let same : current_buffer s.id (appended a state) ≡ current_buffer s.id state =
          rw (current_buffer-append_log a s.id state, other) refl in
        rw other (
          ap (λ t. (deliver_all steps (appended a state, t)).1.written)
            (on_log-other a.id (appended a state) s other)
          ∙ deliver_all-written steps (appended a state) s going (at ∙ sym (ap length same)) room)
    | inl own ↦ elim (Bool-cases (ltb s.cursor 100)) [
      | inl open_still ↦
          let (next, longer) =
            deliver-open a state s own going at (ltb→lt s.cursor 100 open_still) in
          let rest = entries_of s.id steps in
          let left : 100 - s.cursor ≡ suc (100 - (s.cursor + 1)) = ground arith in
          rw own (
            ap (λ t. (deliver_all steps (appended a state, t)).1.written) next
            ∙ deliver_all-written steps (appended a state) (given a.entry s) going (sym longer)
                (ground arith)
            ∙ append_assoc s.written (chunk_for s a.entry ∷ [])
                (map (chunk_for s) (take (100 - (s.cursor + 1)) rest))
            ∙ ap (λ n. s.written ++ map (chunk_for s) (take n (a.entry ∷ rest))) (sym left))
      | inr full ↦
          let at_end : s.cursor ≡ 100 = ground arith in
          let (next, hundred) = deliver-full a state s own going at at_end in
          let rest = entries_of s.id steps in
          let none_left : 0 ≡ 100 - s.cursor = omega arith in
          rw own (
            ap (λ t. (deliver_all steps (appended a state, t)).1.written) next
            ∙ deliver_all-written steps (appended a state) s going (at_end ∙ sym hundred) room
            ∙ ap (λ n. s.written ++ map (chunk_for s) (take n rest)) (sym none_left)
            ∙ ap (λ n. s.written ++ map (chunk_for s) (take n (a.entry ∷ rest))) none_left)
    ]
  ]
