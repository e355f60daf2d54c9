-- ===== src/Web/LogStore/Order.antt =====
-- web/src/common/log-store.ts: the batch insertion of `flushPending`, and what it leaves.
use mathlib.Core.List.{Perm, append-nil, perm_middle}
use mathlib.Core.List.Perm
use dockge.Prelude.{
  ℕ, ◌≡◌, refl, sym, subst, false, Option, none, some, List, [], ◌∷◌, ◌++◌, Bool-cases, inl, inr,
  All, arith,
}
use dockge.Web.Search.{insert_entry, IsSorted}
use dockge.Web.Search.Insertion.{insert_entry-IsSorted}
use dockge.Web.EventStore.{DockerResourceEvent, EventStore}
use dockge.Web.LogStore.{
  LogEntry, log, banner, make_banner, later_start, collect_banners, nanos, LogStoreOptions,
  LogStore, load_in_range, load_historical, historical_events, log_range, insert_all, flush_pending,
}

insert_all-IsSorted :
    (batch arr : List LogEntry)
    → IsSorted nanos arr
    → IsSorted nanos (insert_all batch arr) × Perm (insert_all batch arr) (arr ++ batch)
unfolding insert_all
insert_all-IsSorted [] arr h = (h, rw (append-nil arr) (Perm.refl arr))
insert_all-IsSorted (e ∷ batch) arr h =
    let (sorted, perm) = insert_entry-IsSorted nanos e arr h in
    let (rest, perm') = insert_all-IsSorted batch (insert_entry nanos e arr) sorted in
    (
      rest,
      Perm.trans perm'
          (Perm.trans (Perm.append perm (Perm.refl batch)) (Perm.symm (perm_middle arr batch))),
    )

load_in_range-entries :
    (opts : LogStoreOptions) (es : List DockerResourceEvent) (range : Option (ℕ × ℕ)) (s : LogStore)
    → (load_in_range opts es range s).entries ≡ s.entries
unfolding load_in_range
load_in_range-entries opts es none s = refl
load_in_range-entries opts es (some (lo, hi)) s = refl

load_historical-entries :
    (opts : LogStoreOptions) (events : EventStore) (s : LogStore)
    → (load_historical opts events s).entries ≡ s.entries
unfolding load_historical
load_historical-entries opts events s = elim (Bool-cases s.historical_banners_loaded) [
  | inl loaded ↦ simp loaded
  | inr fresh ↦ simp (
    fresh,
    load_in_range-entries opts (historical_events opts events)
        (log_range (log_range none s.entries) s.pending) s,
  )
]

abbrev pub IsBanner : LogEntry → Type 0
IsBanner (log n html) = ⊥
IsBanner (banner n action name) = Unit

collect_banners-IsBanner :
    (opts : LogStoreOptions) (lo hi : ℕ) (last : Option DockerResourceEvent)
    (es : List DockerResourceEvent)
    → All IsBanner (collect_banners opts lo hi last es)
unfolding collect_banners make_banner
collect_banners-IsBanner opts lo hi none [] = tt
collect_banners-IsBanner opts lo hi (some e) [] = (tt, tt)
collect_banners-IsBanner opts lo hi none (e ∷ es) =
    let before = collect_banners-IsBanner opts lo hi (later_start none e) es in
    ground (arith, collect_banners-IsBanner opts lo hi none es, before)
collect_banners-IsBanner opts lo hi (some d) (e ∷ es) =
    let before = collect_banners-IsBanner opts lo hi (later_start (some d) e) es in
    ground (arith, collect_banners-IsBanner opts lo hi (some d) es, before)

-- What is pending behind the loading: what was, and banners.
AddsBanners : LogStore → LogStore → Type 0
AddsBanners s s' =
    (loaded : List LogEntry) × All IsBanner loaded × (s'.pending ≡ s.pending ++ loaded)

load_in_range-pending :
    (opts : LogStoreOptions) (es : List DockerResourceEvent) (range : Option (ℕ × ℕ)) (s : LogStore)
    → AddsBanners s (load_in_range opts es range s)
unfolding load_in_range AddsBanners
load_in_range-pending opts es none s = ([], tt, sym (append-nil s.pending))
load_in_range-pending opts es (some (lo, hi)) s =
    (collect_banners opts lo hi none es, collect_banners-IsBanner opts lo hi none es, refl)

load_historical-pending :
    (opts : LogStoreOptions) (events : EventStore) (s : LogStore)
    → AddsBanners s (load_historical opts events s)
load_historical-pending opts events s = elim (Bool-cases s.historical_banners_loaded) [
  | inl already ↦
      let stays : load_historical opts events s ≡ s = unfold load_historical in simp already in
      subst (AddsBanners s) (sym stays) (unfold AddsBanners in ([], tt, sym (append-nil s.pending)))
  | inr fresh ↦
      let range = log_range (log_range none s.entries) s.pending in
      let loads : load_historical opts events s
          ≡ load_in_range opts (historical_events opts events) range s =
        unfold load_historical in simp fresh in
      subst (AddsBanners s) (sym loads)
        (load_in_range-pending opts (historical_events opts events) range s)
]

-- A flush of a store whose entries are sorted leaves them sorted, and nothing pending. There are
-- banners, those that the flush loads, such that the new entries are the old ones, the ones that were
-- pending and these banners, each as often as it was there.
pub flush_pending-IsSorted :
    (opts : LogStoreOptions) (events : EventStore) (s : LogStore)
    → IsSorted nanos s.entries
    → IsSorted nanos (flush_pending opts events s).entries
      × ((flush_pending opts events s).pending ≡ [])
      × ((loaded : List LogEntry) × All IsBanner loaded
          × Perm (flush_pending opts events s).entries (s.entries ++ (s.pending ++ loaded)))
unfolding flush_pending AddsBanners
flush_pending-IsSorted opts events s h =
    let s₁ = load_historical opts events (record s { scheduled = false }) in
    let same = load_historical-entries opts events (record s { scheduled = false }) in
    let (loaded, banners, grown) =
      load_historical-pending opts events (record s { scheduled = false }) in
    let (sorted, perm) =
      insert_all-IsSorted s₁.pending s₁.entries (subst (λ es. IsSorted nanos es) (sym same) h) in
    (
      sorted,
      refl,
      (
        loaded,
        banners,
        subst (λ new. Perm (insert_all s₁.pending s₁.entries) (s.entries ++ new)) grown
            (subst (λ es. Perm (insert_all s₁.pending s₁.entries) (es ++ s₁.pending)) same perm),
      ),
    )
