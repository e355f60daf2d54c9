-- ===== src/MockDocker/Script/Consistency.antt =====
-- mock-docker/src/mutations.ts: the invariant of the container table, as a predicate on worlds.
pub mod Containers
pub mod Creation
pub mod Networks
pub mod Resources
pub mod Preservation
use dockge.Prelude.{
  String, ◌≡◌, ◌≢◌, refl, sym, ◌∙◌, ap, subst, Bool, true, false, Option, none, some, List, [], ◌∷◌,
  arith, eq_iff, ◌==◌, Bool-cases, inl, inr, if◌then◌else◌,
}
use dockge.Prelude.Dict.{
  Dict, lookup, insert, remove, IsKeyed, IsKeyed-insert, IsKeyed-remove, Holds, Holds-insert,
  Holds-remove,
}
use dockge.MockDocker.Types.{ContainerState, ContainerInspect, MutationResult, ok, fail}
use dockge.MockDocker.World.{Env, World}
use dockge.MockDocker.Membership.{resolve_container}
use dockge.MockDocker.Membership.Resolution.{lookup-resolve_container}
use dockge.MockDocker.Containers.{Outcome}
use dockge.MockDocker.Lifecycle.{
  Phase, halted, running, paused, loaded_paused, is_running, is_paused, Represents, Operation,
  start, stop, restart, pause, unpause, kill, step, Moves, Follows,
}

-- A status for two flags: it is "paused" exactly where the second flag is set, and where the first one is
-- set, it is "running" or "paused". The first flag may be unset whatever the status is.
abbrev pub Agrees : Bool → Bool → String → Type 0
Agrees runs pauses status =
    (pauses ≡ (status == "paused"))
    × (runs ≡ true → status ≡ (if pauses then "paused" else "running"))

abbrev pub FlagsAgree : ContainerState → Type 0
FlagsAgree s = Agrees s.running s.paused s.status

abbrev pub StandsWell : String → ContainerInspect → Type 0
StandsWell k c = (k ≡ c.id) × FlagsAgree c.state

-- Every step of the machine leads to flags and a status that agree.
abbrev Allowed : Option (Phase × String) → Type 0
Allowed none = Unit
Allowed (some (p, status)) = Agrees (is_running p) (is_paused p) status

pub step-Allowed : (op : Operation) (p : Phase) → Allowed (step op p)
step-Allowed (start _) halted = (refl, λ _. refl)
step-Allowed (start _) running = tt
step-Allowed (start _) paused = tt
step-Allowed (start _) loaded_paused = (refl, λ _. refl)
step-Allowed stop halted = tt
step-Allowed stop running = (refl, λ e. absurd (cc (e)))
step-Allowed stop paused = (refl, λ e. absurd (cc (e)))
step-Allowed stop loaded_paused = (refl, λ e. absurd (cc (e)))
step-Allowed restart _ = (refl, λ _. refl)
step-Allowed pause halted = tt
step-Allowed pause running = (refl, λ _. refl)
step-Allowed pause paused = tt
step-Allowed pause loaded_paused = tt
step-Allowed unpause halted = tt
step-Allowed unpause running = tt
step-Allowed unpause paused = (refl, λ _. refl)
step-Allowed unpause loaded_paused = (refl, λ e. absurd (cc (e)))
step-Allowed (kill _) halted = tt
step-Allowed (kill _) running = (refl, λ e. absurd (cc (e)))
step-Allowed (kill _) paused = (refl, λ e. absurd (cc (e)))
step-Allowed (kill _) loaded_paused = (refl, λ e. absurd (cc (e)))

pub record IsConsistent (w : World) : Type 0 where
  pub keyed : IsKeyed w.state.containers
  pub well : Holds StandsWell w.state.containers

-- The table as it was, with one entry set, or with one taken out.
module _ (w w' : World) (h : IsConsistent w) where
  pub IsConsistent-same : w'.state.containers ≡ w.state.containers → IsConsistent w'
  IsConsistent-same e = record { keyed = rw e h.keyed; well = rw e h.well }

  pub IsConsistent-insert :
      (k : String) (c : ContainerInspect)
      → w'.state.containers ≡ insert k c w.state.containers
      → StandsWell k c
      → IsConsistent w'
  IsConsistent-insert k c e p = record {
    keyed = rw e (IsKeyed-insert k c w.state.containers h.keyed);
    well = rw e (Holds-insert StandsWell k c w.state.containers h.well p);
  }

  pub IsConsistent-remove :
      (k : String) → w'.state.containers ≡ remove k w.state.containers → IsConsistent w'
  IsConsistent-remove k e = record {
    keyed = rw e (IsKeyed-remove k w.state.containers h.keyed);
    well = rw e (Holds-remove StandsWell k w.state.containers h.well);
  }

  pub IsConsistent-Moves :
      {key : String} {c : ContainerInspect} {p : Phase × String}
      → key ≡ c.id
      → Allowed (some p)
      → Moves key c p w w'
      → IsConsistent w'
  IsConsistent-Moves {key} {c} {p} own allowed m = record {
    keyed = m.stays_keyed h.keyed;
    well = λ j d at. elim (Bool-cases (key == j)) [
      | inl same ↦
          let here = (eq_iff key j).0 same in
          let which : m.object ≡ d = cc (m.held, here) in
          subst (StandsWell j) which (
            sym here ∙ own ∙ sym m.same_id,
            rw (m.represents.running, m.represents.paused, m.status) allowed,
          )
      | inr apart ↦ h.well j d (sym (m.others j (λ e. ground (arith, eq_iff key j))) ∙ at)
    ];
  }

  pub IsConsistent-Follows :
      (key : String) (c : ContainerInspect) (next : Option (Phase × String)) (o : Outcome Unit)
      → key ≡ c.id
      → w' ≡ o.1
      → Allowed next
      → Follows next key c w o
      → IsConsistent w'
  IsConsistent-Follows key c none (r, v) own e allowed f =
      IsConsistent-same (ap (λ (u : World). u.state.containers) (e ∙ f.1))
  IsConsistent-Follows key c (some p) (r, v) own e allowed f =
      IsConsistent-Moves own allowed (subst (Moves key c p w) (sym e) f.1)

-- A query that resolves finds an object that stands well.
pub resolve-StandsWell :
    (w : World) (id key : String) (c : ContainerInspect)
    → IsConsistent w
    → resolve_container w.state id ≡ ok (key, c)
    → StandsWell key c
resolve-StandsWell w id key c h at =
    h.well key c (lookup-resolve_container w.state id key c at h.keyed)
