-- ===== src/Web/StackStore/Status.antt =====
-- web/src/stores/stackStore.ts: the status of a stack.
use dockge.Prelude.{
  String, ◌≡◌, refl, Bool, false, Option, none, some, List, [], ◌∷◌, any, ltb, not, ◌&&◌, ◌||◌,
  ◌==◌, arith, eq_iff, if◌then◌else◌,
}
use dockge.Prelude.Dict.{Dict}
use dockge.Web.ContainerStore.{ContainerBroadcast}
use dockge.Web.Merging.{is_field}
use dockge.Web.StackStore.{
  Counts, count, count_all, status_of, derive_status, is_ignored, created_file, created_stack,
  running, exited, running_and_exited, unhealthy,
}

-- A container that is not ignored is unhealthy, or it stands in a state.
abbrev pub is_unhealthy : Option (Dict Bool) → ContainerBroadcast → Bool
is_unhealthy ignore c = not (is_ignored ignore c) && is_field c.health "unhealthy"

abbrev pub is_in_state : Option (Dict Bool) → String → ContainerBroadcast → Bool
is_in_state ignore state c =
    not (is_ignored ignore c) && (not (is_field c.health "unhealthy") && is_field c.state state)

abbrev pub has_exited : Option (Dict Bool) → ContainerBroadcast → Bool
has_exited ignore c = is_in_state ignore "exited" c || is_in_state ignore "dead" c

-- A field has one value.
is_field-differs :
    (o : Option String) (s t : String) → (s == t) ≡ false → (is_field o s && is_field o t) ≡ false
unfolding is_field
is_field-differs none s t h = refl
is_field-differs (some u) s t h = ground (arith, eq_iff u s, eq_iff u t, eq_iff s t)

module _ (ignore : Option (Dict Bool)) where
  count-unhealthy :
      (c : ContainerBroadcast) (n : Counts)
      → ltb 0 (count ignore c n).unhealthy_count ≡ ltb 0 n.unhealthy_count || is_unhealthy ignore c
  unfolding count
  count-unhealthy c n = ground arith

  count_all-unhealthy :
      (cs : List ContainerBroadcast) (n : Counts)
      → ltb 0 (count_all ignore cs n).unhealthy_count
        ≡ ltb 0 n.unhealthy_count || any (is_unhealthy ignore) cs
  unfolding count_all
  count_all-unhealthy [] n = ground arith
  count_all-unhealthy (c ∷ cs) n =
      ground (arith, count_all-unhealthy cs (count ignore c n), count-unhealthy c n)

  count-running :
      (c : ContainerBroadcast) (n : Counts)
      → ltb 0 (count ignore c n).running_count
        ≡ ltb 0 n.running_count || is_in_state ignore "running" c
  unfolding count
  count-running c n = ground arith

  count_all-running :
      (cs : List ContainerBroadcast) (n : Counts)
      → ltb 0 (count_all ignore cs n).running_count
        ≡ ltb 0 n.running_count || any (is_in_state ignore "running") cs
  unfolding count_all
  count_all-running [] n = ground arith
  count_all-running (c ∷ cs) n =
      ground (arith, count_all-running cs (count ignore c n), count-running c n)

  count-exited :
      (c : ContainerBroadcast) (n : Counts)
      → ltb 0 (count ignore c n).exited_count ≡ ltb 0 n.exited_count || has_exited ignore c
  unfolding count
  count-exited c n = ground (
    arith,
    is_field-differs c.state "running" "exited" refl,
    is_field-differs c.state "running" "dead" refl,
  )

  count_all-exited :
      (cs : List ContainerBroadcast) (n : Counts)
      → ltb 0 (count_all ignore cs n).exited_count
        ≡ ltb 0 n.exited_count || any (has_exited ignore) cs
  unfolding count_all
  count_all-exited [] n = ground arith
  count_all-exited (c ∷ cs) n =
      ground (arith, count_all-exited cs (count ignore c n), count-exited c n)

  count-created :
      (c : ContainerBroadcast) (n : Counts)
      → ltb 0 (count ignore c n).created_count
        ≡ ltb 0 n.created_count || is_in_state ignore "created" c
  unfolding count
  count-created c n = ground (
    arith,
    is_field-differs c.state "running" "created" refl,
    is_field-differs c.state "exited" "created" refl,
    is_field-differs c.state "dead" "created" refl,
  )

  count_all-created :
      (cs : List ContainerBroadcast) (n : Counts)
      → ltb 0 (count_all ignore cs n).created_count
        ≡ ltb 0 n.created_count || any (is_in_state ignore "created") cs
  unfolding count_all
  count_all-created [] n = ground arith
  count_all-created (c ∷ cs) n =
      ground (arith, count_all-created cs (count ignore c n), count-created c n)

  count-paused :
      (c : ContainerBroadcast) (n : Counts)
      → ltb 0 (count ignore c n).paused_count
        ≡ ltb 0 n.paused_count || is_in_state ignore "paused" c
  unfolding count
  count-paused c n = ground (
    arith,
    is_field-differs c.state "running" "paused" refl,
    is_field-differs c.state "exited" "paused" refl,
    is_field-differs c.state "dead" "paused" refl,
    is_field-differs c.state "created" "paused" refl,
  )

  count_all-paused :
      (cs : List ContainerBroadcast) (n : Counts)
      → ltb 0 (count_all ignore cs n).paused_count
        ≡ ltb 0 n.paused_count || any (is_in_state ignore "paused") cs
  unfolding count_all
  count_all-paused [] n = ground arith
  count_all-paused (c ∷ cs) n =
      ground (arith, count_all-paused cs (count ignore c n), count-paused c n)

-- The status of a stack by its containers that are not ignored: unhealthy when one is unhealthy; else
-- the mixture when one runs and one has exited; else running, exited or created by whether one runs,
-- has exited (or is dead), or is created, in this order; running again when one is paused; and
-- created as a file when there is none of these. An unhealthy container counts as unhealthy alone.
pub derive_status-eq :
    (cs : List ContainerBroadcast) (ignore : Option (Dict Bool))
    → derive_status cs ignore ≡ (
        if any (is_unhealthy ignore) cs
        then unhealthy
        else if any (is_in_state ignore "running") cs && any (has_exited ignore) cs
        then running_and_exited
        else if any (is_in_state ignore "running") cs
        then running
        else if any (has_exited ignore) cs
        then exited
        else if any (is_in_state ignore "created") cs
        then created_stack
        else if any (is_in_state ignore "paused") cs
        then running
        else created_file)
unfolding derive_status status_of
derive_status-eq cs ignore =
    let n : Counts = record {
      running_count = 0;
      exited_count = 0;
      created_count = 0;
      paused_count = 0;
      unhealthy_count = 0;
    } in
    rw
      (
        count_all-unhealthy ignore cs n,
        count_all-running ignore cs n,
        count_all-exited ignore cs n,
        count_all-created ignore cs n,
        count_all-paused ignore cs n,
      )
      refl
