-- ===== src/Kube/Template.antt =====
-- pkg/kube/helpers.go: the objects of a template, their labels, and the differences of lists of them.
use cluster_stack_operator.Base.{
  Bool, true, false, ◌||◌, ◌&&◌, List, [], ◌∷◌, Option, none, some, if◌then◌else◌, Result, ok, err,
  ◌>>=◌,
}
use cluster_stack_operator.Strings.{Text, codes, text_eq}
use cluster_stack_operator.Api.{
  Unstructured, Nested, malformed, missing, present, selector_malformed, selector_empty,
  selector_given, match_labels, Resource, is_synced, new_resource_from_unstructured,
}

pub data Error : Type 0 where
  yaml_to_json_failed decode_failed convert_failed : Error
  labels_failed template_labels_failed selector_failed : Error
  no_interface delete_failed no_clientset : Error

-- What the YAML reader and the decoder of the libraries make of one document of a template.
pub data Document : Type 0 where
  bad_yaml null bad_object bad_conversion : Document
  object : Unstructured → Document

-- `parseK8sYaml`: the objects of the documents up to the end of the file.
unfoldable pub parse_k8s_yaml : List Document → Result Error (List Unstructured)
parse_k8s_yaml [] = ok []
parse_k8s_yaml (bad_yaml ∷ _) = err yaml_to_json_failed
parse_k8s_yaml (bad_object ∷ _) = err decode_failed
parse_k8s_yaml (bad_conversion ∷ _) = err convert_failed
parse_k8s_yaml (null ∷ ds) = parse_k8s_yaml ds
parse_k8s_yaml (object o ∷ ds) = do os ← parse_k8s_yaml ds; ok (o ∷ os)

abbrev pub resources_of : List Unstructured → List Resource
resources_of [] = []
resources_of (o ∷ os) = new_resource_from_unstructured o ∷ resources_of os

-- `GetResourcesFromHelmTemplate`.
unfoldable pub get_resources_from_helm_template : List Document → Result Error (List Resource)
get_resources_from_helm_template template = do os ← parse_k8s_yaml template; ok (resources_of os)

-- `labels[key] = val`, and `delete(labels, key)`.
abbrev pub delete_key : List (Text × Text) → Text → List (Text × Text)
delete_key [] key = []
delete_key ((k, v) ∷ m) key =
    let rest = delete_key m key in if text_eq k key then rest else (k, v) ∷ rest

abbrev pub set_key : List (Text × Text) → Text → Text → List (Text × Text)
set_key m key val = (key, val) ∷ delete_key m key

abbrev pub entries : Nested → Option (List (Text × Text))
entries malformed = none
entries missing = some []
entries (present m) = some m

abbrev pub is_workload : Text → Bool
is_workload kind =
    text_eq kind (codes "Deployment")
    || text_eq kind (codes "ReplicaSet")
    || text_eq kind (codes "StatefulSet")
    || text_eq kind (codes "DaemonSet")

abbrev pub with_template : Unstructured → Text → Text → Result Error Unstructured
with_template o key val = elim (entries o.template_labels) [
  | none ↦ err template_labels_failed
  | some m ↦ ok (record o { template_labels = present (set_key m key val) })
]

-- The selector of the beta versions: the labels of the template without the new one.
abbrev pub with_selector : Unstructured → Text → Result Error Unstructured
with_selector o key = elim o.selector [
  | selector_malformed ↦ err selector_failed
  | selector_empty ↦ elim (entries o.template_labels) [
    | none ↦ ok o
    | some m ↦ ok (record o { selector = match_labels (delete_key m key) })
  ]
  | selector_given ↦ ok o
  | match_labels _ ↦ ok o
]

abbrev pub is_beta : Text → Bool
is_beta v = text_eq v (codes "apps/v1beta1") || text_eq v (codes "extensions/v1beta1")

abbrev pub with_workload_labels : Unstructured → Text → Text → Result Error Unstructured
with_workload_labels o key val = do
  o' ← with_template o key val
  if is_beta o'.api_version then with_selector o' key else ok o'

-- `setLabel`.
unfoldable pub set_label : Unstructured → Text → Text → Result Error Unstructured
set_label target key val = elim (entries target.labels) [
  | none ↦ err labels_failed
  | some m ↦
      let o = record target { labels = present (set_key m key val) } in
      if text_eq o.gvk.group (codes "apps") || text_eq o.gvk.group (codes "extensions")
      then if is_workload o.gvk.kind then with_workload_labels o key val else ok o
      else if text_eq o.gvk.group (codes "batch") && text_eq o.gvk.kind (codes "Job")
      then with_template o key val
      else ok o
]

-- `types.NamespacedName` and its equality.
abbrev pub same_name : Text → Text → Text → Text → Bool
same_name namespace name namespace' name' = text_eq namespace namespace' && text_eq name name'

-- A read of the map of `getResourceMap`: a later resource of the name replaces an earlier one.
unfoldable pub find_resource : List Resource → Text → Text → Option Resource
find_resource [] namespace name = none
find_resource (r ∷ rs) namespace name = elim (find_resource rs namespace name) [
  | some r' ↦ some r'
  | none ↦ if same_name r.namespace r.name namespace name then some r else none
]

-- A read of a map from the names of objects.
unfoldable pub has_object : List Unstructured → Text → Text → Bool
has_object [] namespace name = false
has_object (o ∷ os) namespace name =
    if same_name o.namespace o.name namespace name then true else has_object os namespace name

-- `resourcesToBeDeleted`.
unfoldable pub resources_to_be_deleted : List Resource → List Unstructured → List Resource
resources_to_be_deleted [] current = []
resources_to_be_deleted (r ∷ rs) current =
    let rest = resources_to_be_deleted rs current in
    if is_synced r.status
    then if has_object current r.namespace r.name then rest else r ∷ rest
    else rest

-- `resourcesToBeDeletedFromUnstructuredObjects`.
unfoldable pub objects_to_be_deleted : List Unstructured → List Unstructured → List Unstructured
objects_to_be_deleted [] new_objects = []
objects_to_be_deleted (o ∷ os) new_objects =
    let rest = objects_to_be_deleted os new_objects in
    if has_object new_objects o.namespace o.name then rest else o ∷ rest
