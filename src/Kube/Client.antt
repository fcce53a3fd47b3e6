-- ===== src/Kube/Client.antt =====
-- pkg/kube/kube.go: the four operations. The API server is a parameter: a world that answers calls.
use cluster_stack_operator.Base.{
  Bool, true, false, List, [], ◌∷◌, ◌++◌, Option, none, some, if◌then◌else◌, Result, ok, err,
}
use cluster_stack_operator.Strings.{Text, codes}
use cluster_stack_operator.Api.{
  GroupVersionKind, Unstructured, Resource, synced, not_synced, is_synced,
  new_resource_from_unstructured, group_version_kind,
}
use cluster_stack_operator.Kube.Template.{
  Error, no_interface, delete_failed, no_clientset, Document, parse_k8s_yaml, set_label,
  find_resource, resources_to_be_deleted, objects_to_be_deleted,
}

-- The answer to a call that deletes: `not_found` is the error that `IsNotFound` recognises.
pub data Deletion : Type 0 where
  deleted not_found : Deletion
  failed : Text → Deletion

-- The API server and its clients, as the code calls them; errors are texts. Nothing is assumed of it.
pub record KubeApi (W : Type 0) : Type 0 where
  -- `GetDynamicResourceInterface`; `none` is no error.
  pub get_interface : W → GroupVersionKind → Option Text
  -- `dr.Apply` of the name of the object.
  pub apply : W → Unstructured → W × Option Text
  -- `dr.Delete` of a name, by the interface of a kind.
  pub delete : W → GroupVersionKind → Text → W × Deletion
  -- `kubernetes.NewForConfig`.
  pub new_for_config : W → Option Text
  -- The clients that `deleteObject` makes, then the deletion.
  pub rest_delete : W → Unstructured → W × Deletion
  -- Whether the REST mapping and client of an object can be made.
  pub rest_client : W → Unstructured → Option Text

-- The variables of an operation, and the error with which it returned.
pub record Run (W : Type 0) : Type 0 where
  pub world : W
  pub resources : List Resource
  pub requeue : Bool
  pub error : Option Error

abbrev pub object_label_key_owned : Text
object_label_key_owned = codes "clusterstack.x-k8s.io/instance"

abbrev pub object_label_value_owned : Text
object_label_value_owned = codes "owned"

module _ {W : Type 0} where
  -- A loop over a list, which a return leaves.
  unfoldable pub each {ℓ} : {A : Type ℓ} → (A → Run W → Run W) → List A → Run W → Run W
  each f [] r = r
  each f (a ∷ l) r = elim r.error [ some e ↦ r | none ↦ each f l (f a r) ]

  abbrev pub start : W → Run W
  start w = record { world = w; resources = []; requeue = false; error = none }

  abbrev pub fail : Error → Run W → Run W
  fail e r = record r { error = some e }

  abbrev pub append : Resource → Run W → Run W
  append x r = record r { resources = r.resources ++ x ∷ [] }

  abbrev pub again : Run W → Run W
  again r = record r { requeue = true }

  abbrev pub in_world : W → Run W → Run W
  in_world w r = record r { world = w }

  -- The world, and what the operation returns: nil resources and the flag `f` with an error.
  abbrev pub returned : Bool → Run W → W × Bool × Result Error (List Resource)
  returned f r = elim r.error [
    | some e ↦ (r.world, f, err e)
    | none ↦ (r.world, r.requeue, ok r.resources)
  ]

abbrev pub failed_resource : Resource → Text → Resource
failed_resource x e = record x { status = not_synced; error = e }

abbrev pub synced_resource : Resource → Resource
synced_resource x = record x { status = synced }

module _ {W : Type 0} (api : KubeApi W) where
  -- `dr.Apply` and what `Apply` makes of the answer.
  unfoldable pub apply_answer : Resource → W × Option Text → Run W → Run W
  apply_answer x (w, none) r = append (synced_resource x) (in_world w r)
  apply_answer x (w, some e) r = again (append (failed_resource x e) (in_world w r))

  -- The same in `ApplyNewClusterStack`, which sets the status once more.
  unfoldable pub apply_new_answer : Resource → W × Option Text → Run W → Run W
  apply_new_answer x (w, none) r = append (synced_resource x) (in_world w r)
  apply_new_answer x (w, some e) r =
      again (append (synced_resource (failed_resource x e)) (in_world w r))

  -- An object that is not known as synced, behind `setLabel`.
  unfoldable pub apply_object :
      (Resource → W × Option Text → Run W → Run W) → Unstructured → Run W → Run W
  apply_object answer o r = elim (set_label o object_label_key_owned object_label_value_owned) [
    | err e ↦ fail e r
    | ok o' ↦ elim (api.get_interface r.world o'.gvk) [
      | some _ ↦ again r
      | none ↦ answer (new_resource_from_unstructured o') (api.apply r.world o') r
    ]
  ]

  abbrev pub known_synced : Option Resource → Option Resource
  known_synced none = none
  known_synced (some x) = if is_synced x.status then some x else none

  -- The body of the first loop of `Apply`.
  unfoldable pub apply_step : List Resource → Unstructured → Run W → Run W
  apply_step old o r = elim (known_synced (find_resource old o.namespace o.name)) [
    | some x ↦ append x r
    | none ↦ apply_object apply_answer o r
  ]

  -- `dr.Delete` of a resource that is no longer wanted.
  unfoldable pub removal_answer : Resource → W × Deletion → Run W → Run W
  removal_answer x (w, deleted) r = in_world w r
  removal_answer x (w, not_found) r = in_world w r
  removal_answer x (w, failed e) r = again (append (failed_resource x e) (in_world w r))

  unfoldable pub remove_step : Resource → Run W → Run W
  remove_step x r = elim (api.get_interface r.world (group_version_kind x)) [
    | some _ ↦ fail no_interface r
    | none ↦ removal_answer x (api.delete r.world (group_version_kind x) x.name) r
  ]

  unfoldable pub remove_object_step : Unstructured → Run W → Run W
  remove_object_step o r = remove_step (new_resource_from_unstructured o) r

  -- `Apply`.
  unfoldable pub apply : List Document → List Resource → W → W × Bool × Result Error (List Resource)
  apply template old w = elim (parse_k8s_yaml template) [
    | err e ↦ (w, false, err e)
    | ok objs ↦
        returned false (
          each remove_step (resources_to_be_deleted old objs)
            (each (apply_step old) objs (start w)))
  ]

  -- `ApplyNewClusterStack`.
  unfoldable pub apply_new_cluster_stack :
      List Document → List Document → W → W × Bool × Result Error (List Resource)
  apply_new_cluster_stack old_template new_template w = elim (parse_k8s_yaml old_template) [
    | err e ↦ (w, false, err e)
    | ok old_objects ↦ elim (parse_k8s_yaml new_template) [
      | err e ↦ (w, false, err e)
      | ok new_objects ↦ returned false (
          each remove_object_step (objects_to_be_deleted old_objects new_objects)
            (each (apply_object apply_new_answer) new_objects (start w)))
    ]
  ]

  -- The answer in `DeleteNewClusterStack`, which sets the status once more.
  unfoldable pub delete_new_answer : Resource → W × Deletion → Run W → Run W
  delete_new_answer x (w, deleted) r = append (synced_resource x) (in_world w r)
  delete_new_answer x (w, not_found) r = append (synced_resource x) (in_world w r)
  delete_new_answer x (w, failed e) r =
      again (append (synced_resource (failed_resource x e)) (in_world w r))

  unfoldable pub delete_new_step : Unstructured → Run W → Run W
  delete_new_step o r = elim (set_label o object_label_key_owned object_label_value_owned) [
    | err e ↦ fail e r
    | ok o' ↦ elim (api.get_interface r.world o'.gvk) [
      | some _ ↦ fail no_interface r
      | none ↦
          delete_new_answer (new_resource_from_unstructured o) (api.delete r.world o'.gvk o'.name) r
    ]
  ]

  -- `DeleteNewClusterStack`.
  unfoldable pub delete_new_cluster_stack :
      List Document → W → W × Bool × Result Error (List Resource)
  delete_new_cluster_stack template w = elim (parse_k8s_yaml template) [
    | err e ↦ (w, false, err e)
    | ok objects ↦ returned false (each delete_new_step objects (start w))
  ]

  -- `deleteObject`, then the return of `Delete` on its error.
  unfoldable pub delete_object_answer : W × Deletion → Run W → Run W
  delete_object_answer (w, deleted) r = in_world w r
  delete_object_answer (w, not_found) r = in_world w r
  delete_object_answer (w, failed e) r = fail delete_failed (in_world w r)

  unfoldable pub delete_object : Unstructured → Run W → Run W
  delete_object o r = elim (api.rest_client r.world o) [
    | some _ ↦ fail delete_failed r
    | none ↦ delete_object_answer (api.rest_delete r.world o) r
  ]

  unfoldable pub delete_step : List Resource → Unstructured → Run W → Run W
  delete_step old o r = elim (known_synced (find_resource old o.namespace o.name)) [
    | some x ↦ append x r
    | none ↦ elim (set_label o object_label_key_owned object_label_value_owned) [
      | err e ↦ fail e r
      | ok o' ↦ delete_object o' r
    ]
  ]

  -- The flag that `Delete` returns with an error: true where `deleteObject` fails.
  abbrev pub delete_flag : Option Error → Bool
  delete_flag (some delete_failed) = true
  delete_flag _ = false

  -- `Delete`.
  unfoldable pub delete :
      List Document → List Resource → W → W × Bool × Result Error (List Resource)
  delete template old w = elim (api.new_for_config w) [
    | some _ ↦ (w, false, err no_clientset)
    | none ↦ elim (parse_k8s_yaml template) [
      | err e ↦ (w, false, err e)
      | ok objs ↦ let r = each (delete_step old) objs (start w) in returned (delete_flag r.error) r
    ]
  ]
