-- ===== src/MockDocker/Api/Reply.antt =====
-- The bodies that the handlers of mock-docker/src/api answer with, and the helpers of
-- mock-docker/src/server.ts that send them.
use dockge.Prelude.{ℕ, String, Bool, false, Option, none, some, List, ◌==◌, ◌||◌}
use dockge.Prelude.Dict.{Dict, lookup}
use dockge.MockDocker.Types.{
  ContainerInspect, NetworkInspect, VolumeInspect, ImageInspect, ExecInspect, MutationResult,
}
use dockge.MockDocker.World.{World}
use dockge.MockDocker.Containers.{Outcome}
use dockge.MockDocker.Resources.{Deletion}
use dockge.MockDocker.Projections.{ContainerListEntry, ImageListEntry}
use dockge.MockDocker.Top.{Process}
use dockge.MockDocker.Api.Router.{Response, handle_mutation_result, handle_unit_result}

-- An item of an image's history.
pub record ImageHistoryItem : Type 0 where
  pub id : String
  pub created : ℕ
  pub created_by : String
  pub size : ℕ
  pub tags : Option (List String)

-- The counts that /info answers with, beside its constants.
pub record Info : Type 0 where
  pub containers : ℕ
  pub running : ℕ
  pub paused : ℕ
  pub stopped : ℕ
  pub images : ℕ

pub data Body : Type 0 where
  created_container created_network created_exec : String → Body
  containers : List ContainerListEntry → Body
  container : ContainerInspect → Body
  processes : List Process → Body
  no_warnings : Body
  networks : List NetworkInspect → Body
  network : NetworkInspect → Body
  volumes : List VolumeInspect → Body
  volume : VolumeInspect → Body
  images : List ImageListEntry → Body
  image : ImageInspect → Body
  history : List ImageHistoryItem → Body
  deletions : List Deletion → Body
  pruned : List Deletion → ℕ → Body
  -- the digest and the size
  descriptor : String → ℕ → Body
  exec : ExecInspect → Body
  info : Info → Body
  reset_done : Body

abbrev pub Reply : Type 0
Reply = Response Body × World

unfoldable pub answer_unit : ℕ → Outcome Unit → Reply
answer_unit success (r, w) = (handle_unit_result r success, w)

unfoldable pub map_result : {A B : Type 0} → (A → B) → MutationResult A → MutationResult B
map_result f (MutationResult.ok a) = MutationResult.ok (f a)
map_result f (MutationResult.fail code error) = MutationResult.fail code error

-- handleMutationResult, for a result with a value.
unfoldable pub answer : {A : Type 0} → (A → Body) → ℕ → Outcome A → Reply
unfolding map_result
answer body success (r, w) = (handle_mutation_result (map_result body r) success, w)

unfoldable pub sent : {A : Type 0} → (A → Body) → ℕ → MutationResult A → Response Body
sent body success (MutationResult.ok a) = Response.json success (body a)
sent body success (MutationResult.fail code error) = Response.message code error

-- The handlers that test the result themselves: an error is sent with its status, whatever it is.
unfoldable pub answer_created : {A : Type 0} → (A → Body) → ℕ → Outcome A → Reply
unfolding sent
answer_created body success (r, w) = (sent body success r, w)

flag_of : Option String → Bool
flag_of none = false
flag_of (some s) = s == "1" || s == "true"

-- query.x === "1" || query.x === "true"
unfoldable pub is_flag : String → Dict String → Bool
unfolding flag_of
is_flag key query = flag_of (lookup key query)
