-- ===== src/ClusterAddon/Resources.antt =====
-- internal/controller/clusteraddon_controller.go: the resources of a release, and those that an
-- upgrade cleans up.
use cluster_stack_operator.Base.{
  ℕ, suc, ◌+◌, ◌==◌, Bool, true, false, ◌&&◌, ◌||◌, List, [], ◌∷◌, ◌++◌, Option, none, some,
  if◌then◌else◌, Result, ok, err, length,
}
use cluster_stack_operator.Strings.{Text, codes, text_eq}
use cluster_stack_operator.Api.{
  Resource, ResourceStatus, unset, synced, not_synced, GroupVersionKind, group_version_kind,
}
use cluster_stack_operator.Kube.Template.{Error, Document, get_resources_from_helm_template}
use cluster_stack_operator.Kube.Client.{Deletion, deleted, not_found, failed}
use cluster_stack_operator.ClusterAddon.{ClusterAddon, Stage, apply_action, has_stage_annotation}
use cluster_stack_operator.ClusterAddon.Execute.{StageEnv, join_path, overwrite_yaml}

-- A `*Resource`: the address and what is there. Two pointers are equal if their addresses are.
pub record Pointer : Type 0 where
  pub address : ℕ
  pub resource : Resource

-- New pointers, from a free address on.
unfoldable pub allocate : ℕ → List Resource → List Pointer
allocate n [] = []
allocate n (r ∷ rs) = record { address = n; resource = r } ∷ allocate (suc n) rs

unfoldable pub has_address : List Pointer → ℕ → Bool
has_address [] a = false
has_address (p ∷ ps) a = if p.address == a then true else has_address ps a

-- `removeResourcesFromCurrentListOfObjects`: the map has pointers as its keys.
unfoldable pub remove_resources_from_current_list_of_objects :
    List Pointer → List Pointer → List Pointer
remove_resources_from_current_list_of_objects [] items_to_remove = []
remove_resources_from_current_list_of_objects (p ∷ ps) items_to_remove =
    let rest = remove_resources_from_current_list_of_objects ps items_to_remove in
    if has_address items_to_remove p.address then rest else p ∷ rest

pub data ObjectsError : Type 0 where
  build_failed template_failed : ObjectsError
  resources_failed : Error → ObjectsError

-- The variables of the loop: the values of the last stage that has an overwrite file, the free
-- address, and the list.
pub record Objects : Type 0 where
  pub values : Option Text
  pub free : ℕ
  pub resources : List Pointer

module _ {W : Type 0} (env : StageEnv W) (w : W) (dir kubernetes_version : Text) where
  -- The values of a stage: read from its overwrite file, or those of the stage before.
  unfoldable pub stage_values : Option Text → Text → Result ObjectsError (Option Text)
  stage_values values name =
      if env.exists w (join_path (join_path dir name) overwrite_yaml)
      then elim (env.build_values w (join_path (join_path dir name) overwrite_yaml)) [
        | none ↦ err build_failed
        | some v ↦ ok (some v)
      ]
      else ok values

  abbrev pub templated : Option (List Document) → Result ObjectsError (List Resource)
  templated none = err template_failed
  templated (some t) = elim (get_resources_from_helm_template t) [
    | err e ↦ err (resources_failed e)
    | ok rs ↦ ok rs
  ]

  abbrev pub stage_resources : Option Text → Text → Result ObjectsError (List Resource)
  stage_resources values name =
      templated (env.helm_template w (join_path dir name) values kubernetes_version)

  -- The list after a stage, by the action.
  abbrev pub with_stage : Text → Option Text → List Resource → Objects → Objects
  with_stage action values rs o = record {
    values = values;
    free = o.free + length rs;
    resources =
        if text_eq action apply_action
        then o.resources ++ allocate o.free rs
        else remove_resources_from_current_list_of_objects o.resources (allocate o.free rs);
  }

  -- The loop of `getNewReleaseObjects`, and of `getOldReleaseObjects`, over the stages of a hook.
  unfoldable pub release_objects : List Stage → Objects → Result ObjectsError Objects
  release_objects [] o = ok o
  release_objects (s ∷ l) o = elim (stage_values o.values s.name) [
    | err e ↦ err e
    | ok values ↦ elim (stage_resources values s.name) [
      | err e ↦ err e
      | ok rs ↦ release_objects l (with_stage s.action values rs o)
    ]
  ]

-- The hook of the stages of the old release.
unfoldable pub old_hook : {C : Type 0} → ClusterAddon C → Text
old_hook r =
    if has_stage_annotation r (codes "created")
    then codes "AfterControlPlaneInitialized"
    else codes "BeforeClusterUpgrade"

abbrev pub status_eq : ResourceStatus → ResourceStatus → Bool
status_eq unset unset = true
status_eq synced synced = true
status_eq not_synced not_synced = true
status_eq _ _ = false

-- `==` on two resources.
unfoldable pub resource_eq : Resource → Resource → Bool
resource_eq a b =
    text_eq a.group b.group
    && text_eq a.version b.version
    && text_eq a.kind b.kind
    && text_eq a.namespace b.namespace
    && text_eq a.name b.name
    && status_eq a.status b.status
    && text_eq a.error b.error

unfoldable pub has_resource : List Resource → Resource → Bool
has_resource [] r = false
has_resource (x ∷ xs) r = if resource_eq x r then true else has_resource xs r

-- `extraResources`.
unfoldable pub extra_resources : List Resource → List Resource → List Resource
extra_resources [] new_list = []
extra_resources (r ∷ rs) new_list =
    let rest = extra_resources rs new_list in if has_resource new_list r then rest else r ∷ rest

-- The calls of `cleanUpResources`, with the namespace of the interface; `true` is an error.
pub record CleanApi (W : Type 0) : Type 0 where
  pub get_interface : W → Text → GroupVersionKind → Bool
  pub delete : W → Text → GroupVersionKind → Text → W × Deletion

abbrev pub namespace_of : Resource → Text
namespace_of r = if text_eq r.namespace [] then codes "kube-system" else r.namespace

abbrev pub asks_again : Deletion → Bool
asks_again deleted = false
asks_again not_found = false
asks_again (failed _) = true

module _ {W : Type 0} (api : CleanApi W) where
  -- The loop that deletes; the result is the world, and the flag or an error.
  unfoldable pub delete_all : List Resource → W → Bool → W × Option Bool
  delete_all [] w requeue = (w, some requeue)
  delete_all (r ∷ rs) w requeue =
      if api.get_interface w (namespace_of r) (group_version_kind r)
      then (w, none)
      else let a = api.delete w (namespace_of r) (group_version_kind r) r.name in
        delete_all rs a.0 (requeue || asks_again a.1)

  -- `cleanUpResources`.
  unfoldable pub clean_up_resources : List Resource → List Resource → W → W × Option Bool
  clean_up_resources old_list new_list w = delete_all (extra_resources old_list new_list) w false
