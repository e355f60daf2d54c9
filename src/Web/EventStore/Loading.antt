-- ===== src/Web/EventStore/Loading.antt =====
-- web/src/stores/eventStore.ts: `insert` and `bulkLoad`.
use dockge.Prelude.{
  ℕ, ◌≤◌, String, ◌≡◌, false, List, [], ◌∷◌, any, arith, leb, ◌==◌, Bool-cases, inl, inr,
}
use dockge.Web.Search.{IsAbove, IsSorted}
use dockge.Web.Search.Laws.{IsAbove-le}
use dockge.Web.Search.Insertion.{insert_entry-IsSorted}
use dockge.Web.EventStore.{
  DockerResourceEvent, EventStore, time_of, event_key, insert, insert_stable, sort_by_time, dedup,
  bulk_load,
}

module _ (text : ℕ → String) where
  -- Inserting an event into sorted events leaves them sorted by time.
  pub insert-IsSorted :
      (event : DockerResourceEvent) (s : EventStore)
      → IsSorted time_of s.events
      → IsSorted time_of (insert text event s).events
  unfolding insert
  insert-IsSorted event s h = ground (arith, insert_entry-IsSorted time_of event s.events h)

IsAbove-insert_stable :
    (n : ℕ) (e : DockerResourceEvent) (es : List DockerResourceEvent)
    → n ≤ e.time_nano
    → IsAbove time_of n es
    → IsAbove time_of n (insert_stable e es)
unfolding insert_stable
IsAbove-insert_stable n e [] le h = (le, tt)
IsAbove-insert_stable n e (x ∷ es) le h = ground (arith, IsAbove-insert_stable n e es le h.1)

IsSorted-insert_stable :
    (e : DockerResourceEvent) (es : List DockerResourceEvent)
    → IsSorted time_of es
    → IsSorted time_of (insert_stable e es)
unfolding insert_stable
IsSorted-insert_stable e [] h = (tt, tt)
IsSorted-insert_stable e (x ∷ es) h = elim (Bool-cases (leb e.time_nano x.time_nano)) [
  | inl first ↦
      let le : e.time_nano ≤ x.time_nano = ground arith in
      rw first ((le, IsAbove-le time_of e.time_nano x.time_nano es le h.0), h)
  | inr behind ↦
      let le : x.time_nano ≤ e.time_nano = ground arith in
      rw behind (IsAbove-insert_stable x.time_nano e es le h.0, IsSorted-insert_stable e es h.1)
]

sort_by_time-IsSorted : (es : List DockerResourceEvent) → IsSorted time_of (sort_by_time es)
unfolding sort_by_time
sort_by_time-IsSorted [] = tt
sort_by_time-IsSorted (e ∷ es) =
    IsSorted-insert_stable e (sort_by_time es) (sort_by_time-IsSorted es)

module _ (text : ℕ → String) where
  IsAbove-dedup :
      (n : ℕ) (seen : List String) (es : List DockerResourceEvent)
      → IsAbove time_of n es
      → IsAbove time_of n (dedup text seen es)
  unfolding dedup
  IsAbove-dedup n seen [] h = tt
  IsAbove-dedup n seen (e ∷ es) h =
      ground (arith, IsAbove-dedup n seen es h.1, IsAbove-dedup n (event_key text e ∷ seen) es h.1)

  dedup-IsSorted :
      (seen : List String) (es : List DockerResourceEvent)
      → IsSorted time_of es
      → IsSorted time_of (dedup text seen es)
  unfolding dedup
  dedup-IsSorted seen [] h = tt
  dedup-IsSorted seen (e ∷ es) h = ground (
    arith,
    dedup-IsSorted seen es h.1,
    dedup-IsSorted (event_key text e ∷ seen) es h.1,
    IsAbove-dedup e.time_nano (event_key text e ∷ seen) es h.0,
  )

  -- No key stands twice, and none that was seen before.
  abbrev pub HasNoKeyOf : List String → List DockerResourceEvent → Type 0
  HasNoKeyOf seen [] = Unit
  HasNoKeyOf seen (e ∷ es) = (any (λ k. k == event_key text e) seen ≡ false) × HasNoKeyOf seen es

  abbrev pub HasDistinctKeys : List DockerResourceEvent → Type 0
  HasDistinctKeys [] = Unit
  HasDistinctKeys (e ∷ es) = HasNoKeyOf (event_key text e ∷ []) es × HasDistinctKeys es

  HasNoKeyOf-tail :
      (key : String) (seen : List String) (es : List DockerResourceEvent)
      → HasNoKeyOf (key ∷ seen) es
      → HasNoKeyOf (key ∷ []) es × HasNoKeyOf seen es
  HasNoKeyOf-tail key seen [] h = (tt, tt)
  HasNoKeyOf-tail key seen (e ∷ es) h =
      let ih = HasNoKeyOf-tail key seen es h.1 in ((ground arith, ih.0), (ground arith, ih.1))

  dedup-HasNoKeyOf :
      (seen : List String) (es : List DockerResourceEvent) → HasNoKeyOf seen (dedup text seen es)
  unfolding dedup
  dedup-HasNoKeyOf seen [] = tt
  dedup-HasNoKeyOf seen (e ∷ es) = elim (Bool-cases (any (λ k. k == event_key text e) seen)) [
    | inl old ↦ rw old (dedup-HasNoKeyOf seen es)
    | inr new ↦
        let deeper = dedup-HasNoKeyOf (event_key text e ∷ seen) es in
        rw new (new, (HasNoKeyOf-tail (event_key text e) seen _ deeper).1)
  ]

  dedup-HasDistinctKeys :
      (seen : List String) (es : List DockerResourceEvent) → HasDistinctKeys (dedup text seen es)
  unfolding dedup
  dedup-HasDistinctKeys seen [] = tt
  dedup-HasDistinctKeys seen (e ∷ es) = elim (Bool-cases (any (λ k. k == event_key text e) seen)) [
    | inl old ↦ rw old (dedup-HasDistinctKeys seen es)
    | inr new ↦
        let deeper = dedup-HasNoKeyOf (event_key text e ∷ seen) es in
        rw new (
          (HasNoKeyOf-tail (event_key text e) seen _ deeper).0,
          dedup-HasDistinctKeys (event_key text e ∷ seen) es,
        )
  ]

  -- A bulk load leaves the events sorted by time, with no key twice.
  pub bulk_load-IsSorted :
      (incoming : List DockerResourceEvent) (s : EventStore)
      → IsSorted time_of (bulk_load text incoming s).events
        × HasDistinctKeys (bulk_load text incoming s).events
  unfolding bulk_load
  bulk_load-IsSorted incoming s = (
    dedup-IsSorted [] (sort_by_time incoming) (sort_by_time-IsSorted incoming),
    dedup-HasDistinctKeys [] (sort_by_time incoming),
  )
