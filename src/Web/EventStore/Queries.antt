-- ===== src/Web/EventStore/Queries.antt =====
-- web/src/stores/eventStore.ts: the range queries, and the duplicate test of `insert`.
use dockge.Prelude.{
  ℕ, zero, suc, ◌+◌, ◌≤◌, ◌<◌, String, ◌≡◌, ◌≢◌, refl, Bool, true, Option, none, some, List, [],
  ◌∷◌, arith, drop, select, ◌&&◌, not, eq_iff, Bool-cases, inl, inr, All, ap, ◌∙◌, ◌++◌, length,
  false,
}
use dockge.Web.Search.{find_insert_index, insert_entry, IsAbove, IsSorted, rank}
use dockge.Web.Search.Laws.{find_insert_index-eq-rank, insert_before, insert_entry-eq-before}
use dockge.Web.EventStore.{
  DockerResourceEvent, EventStore, time_of, event_key, has_key, neighbours, insert, too_early,
  too_late, scan, query, of_container, of_stack, for_container, for_stack,
}

IsSorted-drop :
    (n : ℕ) (es : List DockerResourceEvent) → IsSorted time_of es → IsSorted time_of (drop n es)
IsSorted-drop zero es h = h
IsSorted-drop (suc n) [] h = tt
IsSorted-drop (suc n) (e ∷ es) h = IsSorted-drop n es h.1

-- What a query is for: since < time ≤ until, and wanted.
abbrev pub in_range :
    (DockerResourceEvent → Bool) → Option ℕ → Option ℕ → DockerResourceEvent → Bool
in_range wanted since until e = not (too_early since e) && (not (too_late until e) && wanted e)

module _ (wanted : DockerResourceEvent → Bool) (since until : Option ℕ) where
  -- Behind an event that is too late, all are.
  none_in_range :
      (n : ℕ) (es : List DockerResourceEvent)
      → ((e : DockerResourceEvent) → n ≤ e.time_nano → too_late until e ≡ true)
      → IsAbove time_of n es
      → select (in_range wanted since until) es ≡ []
  none_in_range n [] late h = refl
  none_in_range n (e ∷ es) late h = ground (arith, late e h.0, none_in_range n es late h.1)

  late_above :
      (b : Option ℕ) (e : DockerResourceEvent)
      → too_late b e ≡ true
      → (d : DockerResourceEvent) → e.time_nano ≤ d.time_nano
      → too_late b d ≡ true
  late_above none e h d le = cc
  late_above (some u) e h d le = ground arith

  scan-eq-select :
      (i end_index : ℕ) (es : List DockerResourceEvent)
      → IsSorted time_of es
      → (scan wanted since until i end_index es).events ≡ select (in_range wanted since until) es
  unfolding scan
  scan-eq-select i end_index [] h = refl
  scan-eq-select i end_index (e ∷ es) h = elim (Bool-cases (too_early since e)) [
    | inl early ↦ ground (arith, scan-eq-select (i + 1) end_index es h.1)
    | inr not_early ↦ elim (Bool-cases (too_late until e)) [
      | inl late ↦ ground (arith, none_in_range e.time_nano es (late_above until e late) h.0)
      | inr in_time ↦ ground (arith, scan-eq-select (i + 1) (i + 1) es h.1)
    ]
  ]

  query-eq-select :
      (start : ℕ) (s : EventStore)
      → IsSorted time_of s.events
      → (query wanted since until start s).events
        ≡ select (in_range wanted since until) (drop start s.events)
  unfolding query
  query-eq-select start s h =
      scan-eq-select start start (drop start s.events) (IsSorted-drop start s.events h)

module _ (name : String) (since until : Option ℕ) (start : ℕ) (s : EventStore)
    (sorted : IsSorted time_of s.events) where
  -- Over sorted events, `forContainer` returns exactly the events from the start index on that lie
  -- in the range (since, until], are of a container, and bear the name as their name or service: the
  -- early end of its loop loses none.
  pub for_container-eq-select :
      (for_container name since until start s).events
      ≡ select (in_range (of_container name) since until) (drop start s.events)
  unfolding for_container
  for_container-eq-select = query-eq-select (of_container name) since until start s sorted

  -- Over sorted events, `forStack` returns exactly the events from the start index on that lie in the
  -- range (since, until], are of a container, and belong to the stack.
  pub for_stack-eq-select :
      (for_stack name since until start s).events
      ≡ select (in_range (of_stack name) since until) (drop start s.events)
  unfolding for_stack
  for_stack-eq-select = query-eq-select (of_stack name) since until start s sorted

rank_none : (n : ℕ) (es : List DockerResourceEvent) → IsAbove time_of n es → rank time_of n es ≡ 0
rank_none n [] h = refl
rank_none n (e ∷ es) h = ground (arith, rank_none n es h.1)

-- Behind earlier events, the place of a time is the place among the others.
rank_behind :
    (n : ℕ) (front es : List DockerResourceEvent)
    → All (λ e. e.time_nano < n) front
    → rank time_of n (front ++ es) ≡ length front + rank time_of n es
rank_behind n [] es h = omega arith
rank_behind n (x ∷ front) es (earlier, h) = ground (arith, rank_behind n front es h)

insert_before-behind :
    (e : DockerResourceEvent) (front es : List DockerResourceEvent)
    → All (λ x. x.time_nano < e.time_nano) front
    → insert_before time_of e (front ++ es) ≡ front ++ insert_before time_of e es
unfolding insert_before
insert_before-behind e [] es h = refl
insert_before-behind e (x ∷ front) es (earlier, h) =
    ground (arith, insert_before-behind e front es h)

-- The neighbours of a place are the event before it, if there is one, and two from it on.
neighbours-behind :
    (text : ℕ → String) (key : String) (a b : DockerResourceEvent)
    (front later : List DockerResourceEvent)
    → All (λ x. event_key text x ≢ key) front
    → event_key text a ≢ key
    → event_key text b ≢ key
    → has_key text key (neighbours text (length front) (front ++ a ∷ b ∷ later)) ≡ false
unfolding has_key neighbours
neighbours-behind text key a b [] later h ka kb =
    ground (arith, eq_iff (event_key text a) key, eq_iff (event_key text b) key)
neighbours-behind text key a b (x ∷ []) later (kx, _) ka kb = ground (
  arith,
  eq_iff (event_key text x) key,
  eq_iff (event_key text a) key,
  eq_iff (event_key text b) key,
)
neighbours-behind text key a b (x ∷ y ∷ front) later (kx, h) ka kb =
    neighbours-behind text key a b (y ∷ front) later h ka kb

IsSorted-behind :
    (front es : List DockerResourceEvent) → IsSorted time_of (front ++ es) → IsSorted time_of es
IsSorted-behind [] es h = h
IsSorted-behind (x ∷ front) es h = IsSorted-behind front es h.1

-- The duplicate test of `insert` reads three entries at most. Where sorted events hold three or more of
-- one time, anywhere in the array, and the third of them has a key that no event before it has, the third
-- is inserted again, in front of the first of that time.
pub insert_repeats :
    (text : ℕ → String) (front : List DockerResourceEvent) (a b c : DockerResourceEvent)
    (later : List DockerResourceEvent) (s : EventStore)
    → s.events ≡ front ++ a ∷ b ∷ c ∷ later
    → IsSorted time_of s.events
    → All (λ x. x.time_nano < c.time_nano) front
    → a.time_nano ≡ c.time_nano
    → All (λ x. event_key text x ≢ event_key text c) front
    → event_key text a ≢ event_key text c
    → event_key text b ≢ event_key text c
    → (insert text c s).events ≡ front ++ c ∷ a ∷ b ∷ c ∷ later
unfolding insert
insert_repeats text front a b c later s e sorted earlier same keys ka kb =
    let es = a ∷ b ∷ c ∷ later in
    let sorted' : IsSorted time_of es = IsSorted-behind front es (rw e at sorted) in
    let here : rank time_of c.time_nano es ≡ 0 =
      rank_none c.time_nano es (omega arith, (omega arith, (omega arith, sorted'.1.1.0))) in
    let place : find_insert_index time_of s.events c.time_nano ≡ length front =
      find_insert_index-eq-rank time_of s.events c.time_nano sorted
      ∙ rw (e, rank_behind c.time_nano front es earlier, here) (omega arith) in
    let unseen : has_key text (event_key text c)
          (neighbours text (find_insert_index time_of s.events c.time_nano) s.events)
        ≡ false =
      rw (place, e) (neighbours-behind text (event_key text c) a b front (c ∷ later) keys ka kb) in
    let placed : insert_entry time_of c s.events ≡ front ++ c ∷ es =
      insert_entry-eq-before time_of c s.events sorted
      ∙ rw e (
          insert_before-behind c front es earlier
          ∙ ap (λ l. front ++ l) (unfold insert_before in ground (arith))) in
    rw (unseen, placed) refl
