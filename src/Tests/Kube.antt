-- ===== src/Tests/Kube.antt =====
-- The theorems on the Kubernetes client at concrete values.
use cluster_stack_operator.Base.{◌≡◌, refl, ◌∷◌, [], ok, none, true, false, List, All}
use cluster_stack_operator.Strings.{Text, codes}
use cluster_stack_operator.Api.{
  Unstructured, missing, selector_empty, Resource, new_resource_from_unstructured,
}
use cluster_stack_operator.Kube.Template.{Document, object, null, parse_k8s_yaml}
use cluster_stack_operator.Kube.Client
use cluster_stack_operator.Kube.Client.{
  KubeApi, Deletion, failed, deleted, synced_resource, failed_resource, delete_new_cluster_stack,
}
use cluster_stack_operator.Kube.Settled.{Synced, names, object_names}
use cluster_stack_operator.Kube.Applied.{apply_settled}
use cluster_stack_operator.Kube.Again.{apply_again, delete_skips_applied}
use cluster_stack_operator.Kube.Deleted.{identities, object_identities, delete_new-All-Synced}

-- A server that accepts every object and fails every deletion; its state is the log of the calls.
abbrev pub server : KubeApi (List Text)
server = record {
  get_interface = λ w g. none;
  apply = λ w o. (o.name ∷ w, none);
  delete = λ w g n. (n ∷ w, failed (codes "forbidden"));
  new_for_config = λ w. none;
  rest_delete = λ w o. (o.name ∷ w, deleted);
  rest_client = λ w o. none;
}

abbrev pub config_map : Text → Unstructured
config_map n = record {
  api_version = codes "v1";
  gvk = record { group = []; version = codes "v1"; kind = codes "ConfigMap" };
  namespace = codes "default";
  name = n;
  labels = missing;
  template_labels = missing;
  selector = selector_empty;
}

abbrev pub a : Text
a = codes "a"

abbrev pub template : List Document
template = object (config_map a) ∷ null ∷ []

abbrev applied : List Resource
applied = synced_resource (new_resource_from_unstructured (config_map a)) ∷ []

first_apply : Client.apply server template [] [] ≡ (a ∷ [], false, ok applied)
unfolding Client.apply parse_k8s_yaml Client.each
    cluster_stack_operator.Kube.Template.resources_to_be_deleted Client.apply_step
    cluster_stack_operator.Kube.Template.find_resource Client.apply_object
    cluster_stack_operator.Kube.Template.set_label cluster_stack_operator.Strings.text_eq
    Client.apply_answer new_resource_from_unstructured
first_apply = refl

apply_settled_example :
    (objs : List Unstructured) × (parse_k8s_yaml template ≡ ok objs)
    × (names applied ≡ object_names objs)
    × All Synced applied
apply_settled_example = apply_settled server template [] applied [] (a ∷ []) first_apply

apply_again_example :
    (rs : List Resource) × (Client.apply server template applied [] ≡ ([], false, ok rs))
    × (names rs ≡ names applied)
    × All Synced rs
apply_again_example = apply_again server template [] applied [] (a ∷ []) [] first_apply

delete_skips_applied_example :
    (rs : List Resource) × (Client.delete server template applied [] ≡ ([], false, ok rs))
delete_skips_applied_example =
    delete_skips_applied server template [] applied [] (a ∷ []) [] first_apply refl

abbrev left : List Resource
left =
    synced_resource
      (failed_resource (new_resource_from_unstructured (config_map a)) (codes "forbidden"))
    ∷ []

failed_delete : delete_new_cluster_stack server template [] ≡ (a ∷ [], true, ok left)
unfolding delete_new_cluster_stack parse_k8s_yaml Client.each Client.delete_new_step
    cluster_stack_operator.Kube.Template.set_label cluster_stack_operator.Strings.text_eq
    Client.delete_new_answer
failed_delete = refl

delete_new-All-Synced_example :
    (objs : List Unstructured) × (parse_k8s_yaml template ≡ ok objs)
    × (identities left ≡ object_identities objs)
    × All Synced left
delete_new-All-Synced_example =
    delete_new-All-Synced server template [] (a ∷ []) true left failed_delete
