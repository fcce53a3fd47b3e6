-- ===== src/Tests/Synced.antt =====
-- The theorems on the reconcile loop of a cluster stack at concrete values.
use cluster_stack_operator.Base.{
  Bool, true, false, ◌≡◌, ◌≢◌, refl, arith, ok, some, none, [], ◌∷◌, List, if◌then◌else◌,
  Bool-cases, inl, inr,
}
use cluster_stack_operator.Strings.{Text, codes, text_eq}
use cluster_stack_operator.Strings.Order.{text_eq→eq}
use cluster_stack_operator.ClusterStack as Stack
use cluster_stack_operator.Sort.{Sorter}
use cluster_stack_operator.Sort.Insertion.{insertion_sorter}
use cluster_stack_operator.Api.{
  ClusterStack, ClusterStackRelease, ClusterStackSpec, OwnerReference, ObjectReference, found,
  not_found,
}
use cluster_stack_operator.Api.Conditions
use cluster_stack_operator.ClusterAddon.{lookup}
use cluster_stack_operator.ClusterStackRelease.{no_requeue}
use cluster_stack_operator.ClusterStackController.Diff.{named, has_name}
use cluster_stack_operator.ClusterStackController.Select.{
  get_latest_ready_cluster_stack_release, get_cluster_stack_releases_in_spec, existing_releases,
  get_usable_versions,
}
use cluster_stack_operator.ClusterStackController.Provider
use cluster_stack_operator.ClusterStackController.Provider.{
  ProviderEnv, ProviderObject, GenerateInput, Template, generate_provider_object,
}
use cluster_stack_operator.ClusterStackController.Settled.{generate_labels, generate_settled}
use cluster_stack_operator.ClusterStackController.Loops.{
  Got, exists, absent, Deleted, deleted, StackEnv,
}
use cluster_stack_operator.ClusterStackController.Reconcile.{subscribe, goes_on, reconcile}
use cluster_stack_operator.ClusterStackController.Names.{
  Presence, gone, live, leaving, ReleaseStore,
}
use cluster_stack_operator.ClusterStackController.Converged.{reconcile-wanted}
use cluster_stack_operator.Tests.Conditions.{table, Table}
use cluster_stack_operator.Tests.Releases.{tag}

abbrev sorter : Sorter Stack.less
sorter = insertion_sorter Stack.less

-- The API server as the list of the names of its releases, which all belong to the cluster stack, with a
-- mark for those that wait for their finalizer.
abbrev Server : Type 0
Server = List (Text × Bool)

abbrev owner : OwnerReference
owner = record {
  api_version = codes "g";
  kind = codes "ClusterStack";
  name = codes "ferrol";
  uid = [];
}

abbrev owned : Server → List (ClusterStackRelease Table)
owned [] = []
owned ((n, _) ∷ w) = record (named table.empty n) { owner_references = owner ∷ [] } ∷ owned w

abbrev presence : Server → Text → Presence
presence [] n = gone
presence ((m, b) ∷ w) n =
    let rest = presence w n in if text_eq m n then (if b then leaving else live) else rest

-- The deletion of a release marks it.
abbrev mark : Text → Server → Server
mark m [] = []
mark m ((n, b) ∷ w) = let rest = mark m w in if text_eq n m then (n, true) ∷ rest else (n, b) ∷ rest

abbrev answer : Presence → Got
answer gone = absent
answer live = exists
answer leaving = exists

abbrev created_as : Presence → Text → Server → Server × Bool
created_as gone n w = ((n, false) ∷ w, false)
created_as live n w = (w, true)
created_as leaving n w = (w, true)

abbrev template_object : ProviderObject Text
template_object = record {
  api_version = codes "v1";
  kind = codes "OpenStackClusterStackRelease";
  namespace = [];
  name = [];
  uid = [];
  self_link = [];
  resource_version = [];
  finalizers = [];
  annotations = [];
  labels = (codes "a", codes "old") ∷ (codes "b", codes "kept") ∷ [];
  spec = Provider.present (codes "spec");
}

abbrev template : Template Text
template = record {
  api_version = codes "v1";
  kind = codes "OpenStackClusterStackReleaseTemplate";
  template = Provider.present template_object;
}

abbrev template_ref : ObjectReference
template_ref = record {
  api_version = codes "v1";
  kind = codes "OpenStackClusterStackReleaseTemplate";
  namespace = codes "default";
  name = codes "template";
  uid = [];
}

abbrev provider : ProviderEnv Server Text
provider = record {
  deep_equal = text_eq;
  get_template = λ w r ns. found template;
  get_object = λ w r ns. not_found;
  update = λ w o. (w, Provider.written);
  create = λ w o. (w, Provider.written);
  object_reference = λ o. record {
    api_version = o.api_version;
    kind = o.kind;
    namespace = o.namespace;
    name = o.name;
    uid = o.uid;
  };
}

abbrev env : StackEnv Server Table Text
env = record {
  provider = provider;
  list_releases = λ w. some (owned w);
  list_clusters = λ w. some [];
  get_release = λ w n. answer (presence w n);
  create_release = λ w csr. created_as (presence w csr.name) csr.name w;
  delete_release = λ w n. (mark n w, deleted);
  new_assets_client = λ w. false;
  list_remote = λ w. none;
  parse_group = λ t. some t;
}

exists_there : (p : Presence) → answer p ≡ exists → p ≢ gone
exists_there gone h = absurd (cc h)
exists_there live h = λ e. cc e
exists_there leaving h = λ e. cc e

created_free : (p : Presence) (n : Text) (w : Server) → (created_as p n w).1 ≡ false → p ≡ gone
created_free gone n w h = refl
created_free live n w h = absurd (cc h)
created_free leaving n w h = absurd (cc h)

created_live :
    (p : Presence) (m n : Text) (w : Server)
    → (created_as p m w).1 ≡ false
    → presence (created_as p m w).0 n ≡ (if text_eq m n then live else presence w n)
created_live gone m n w h = refl
created_live live m n w h = absurd (cc h)
created_live leaving m n w h = absurd (cc h)

marked : (n : Text) (w : Server) → presence (mark n w) n ≢ live
marked n [] h = cc h
marked n ((m, b) ∷ w) h = elim (Bool-cases (text_eq m n)) [
  | inl e ↦ absurd (ground (arith, h, e))
  | inr e ↦ marked n w (ground (arith, h, e))
]

marked_other :
    (m n : Text) (w : Server) → text_eq m n ≡ false → presence (mark m w) n ≡ presence w n
marked_other m n [] h = refl
marked_other m n ((k, b) ∷ w) h = ground (arith, marked_other m n w h, h, text_eq→eq k m)

abbrev store : ReleaseStore env
store = record {
  presence = presence;
  got = λ w n h. exists_there (presence w n) h;
  free = λ w csr h. created_free (presence w csr.name) csr.name w h;
  created = λ w csr n h. created_live (presence w csr.name) csr.name n w h;
  removed = λ w n h. marked n w;
  removed_other = λ w m n h. marked_other m n w h;
  updated = λ w o n. refl;
  provided = λ w o n. refl;
}

abbrev spec : ClusterStackSpec
spec = record {
  provider = codes "openstack";
  name = codes "ferrol";
  kubernetes_version = codes "1.27";
  channel = codes "stable";
  versions = codes "v1" ∷ [];
  auto_subscribe = false;
  no_provider = false;
  provider_ref = some template_ref;
}

abbrev stack : ClusterStack Table
stack = record {
  api_version = codes "g";
  kind = codes "ClusterStack";
  name = codes "ferrol";
  namespace = codes "default";
  uid = [];
  labels = [];
  annotations = [];
  deleting = false;
  spec = spec;
  status = record {
    latest_release = [];
    summary = [];
    usable_versions = [];
    conditions = table.empty;
  };
}

-- A release that the spec does not list, which a pass deletes.
abbrev old : Text
old = codes "openstack-ferrol-1-27-v0"

abbrev before : Server
before = (old, false) ∷ []

abbrev existing : List (ClusterStackRelease Table)
existing = existing_releases (λ t. some t) (owned before) stack

none_ready : get_latest_ready_cluster_stack_release sorter existing ≡ ok none
unfolding cluster_stack_operator.ClusterStackController.Select.collect_ready
    cluster_stack_operator.ClusterStackController.Select.get_latest_ready_cluster_stack_release
    cluster_stack_operator.ClusterStackController.Select.matches_owner_ref
    cluster_stack_operator.ClusterStackController.Select.owned_by
    cluster_stack_operator.ClusterStackController.Select.existing_releases
    cluster_stack_operator.ClusterStack.latest cluster_stack_operator.Strings.text_eq
    cluster_stack_operator.Sort.Insertion.insertion_sort
none_ready = refl

subscribed : subscribe table env sorter before stack ≡ goes_on stack none
unfolding cluster_stack_operator.ClusterStackController.Reconcile.subscribe
subscribed = refl

in_spec : get_cluster_stack_releases_in_spec spec ≡ ok (tag ∷ [])
unfolding cluster_stack_operator.ClusterStackController.Select.in_spec_from
    cluster_stack_operator.ClusterStackController.Select.get_cluster_stack_releases_in_spec
    cluster_stack_operator.Version.match_string cluster_stack_operator.Version.validate
    cluster_stack_operator.Version.new cluster_stack_operator.Version.string
    cluster_stack_operator.KubernetesVersion.from_splitted
    cluster_stack_operator.KubernetesVersion.new_from_string
    cluster_stack_operator.KubernetesVersion.validate
    cluster_stack_operator.KubernetesVersion.string cluster_stack_operator.ClusterStack.validate
    cluster_stack_operator.ClusterStack.new cluster_stack_operator.ClusterStack.string
    cluster_stack_operator.Strings.text_eq cluster_stack_operator.Strings.split
    cluster_stack_operator.Strings.join cluster_stack_operator.Strings.trim_prefix
    cluster_stack_operator.Strconv.atoi cluster_stack_operator.Strconv.itoa
    cluster_stack_operator.Api.member
in_spec = refl

returned : (reconcile table env sorter before stack).result ≡ ok no_requeue
unfolding cluster_stack_operator.ClusterStackController.Reconcile.subscribe
    cluster_stack_operator.ClusterStackController.Loops.delete_all
    cluster_stack_operator.ClusterStackController.Loops.get_or_create_cluster_stack_release
    cluster_stack_operator.ClusterStackController.Loops.provider_step
    cluster_stack_operator.ClusterStackController.Loops.create_one
    cluster_stack_operator.ClusterStackController.Loops.create_all
    cluster_stack_operator.ClusterStackController.Reconcile.conclude
    cluster_stack_operator.ClusterStackController.Reconcile.sync
    cluster_stack_operator.ClusterStackController.Reconcile.reconcile_diff
    cluster_stack_operator.ClusterStackController.Reconcile.reconcile_subscribed
    cluster_stack_operator.ClusterStackController.Reconcile.reconcile_body
    cluster_stack_operator.ClusterStackController.Reconcile.reconcile
    cluster_stack_operator.ClusterStackController.Select.collect_ready
    cluster_stack_operator.ClusterStackController.Select.get_latest_ready_cluster_stack_release
    cluster_stack_operator.ClusterStackController.Select.in_spec_from
    cluster_stack_operator.ClusterStackController.Select.get_cluster_stack_releases_in_spec
    cluster_stack_operator.ClusterStackController.Select.used_cluster_classes
    cluster_stack_operator.ClusterStackController.Select.get_usable_versions
    cluster_stack_operator.ClusterStackController.Select.matches_owner_ref
    cluster_stack_operator.ClusterStackController.Select.owned_by
    cluster_stack_operator.ClusterStackController.Select.existing_releases
    cluster_stack_operator.ClusterStackController.Diff.should_create
    cluster_stack_operator.ClusterStackController.Diff.decide
    cluster_stack_operator.ClusterStackController.Diff.add_latest
    cluster_stack_operator.ClusterStackController.Diff.add_spec
    cluster_stack_operator.ClusterStackController.Diff.make_diff
    cluster_stack_operator.ClusterStackRelease.Summary.summary
    cluster_stack_operator.Version.match_string cluster_stack_operator.Version.validate
    cluster_stack_operator.Version.parse_version_string cluster_stack_operator.Version.new
    cluster_stack_operator.Version.string cluster_stack_operator.KubernetesVersion.new
    cluster_stack_operator.KubernetesVersion.from_splitted
    cluster_stack_operator.KubernetesVersion.new_from_string
    cluster_stack_operator.KubernetesVersion.validate
    cluster_stack_operator.KubernetesVersion.string
    cluster_stack_operator.ClusterStack.from_properties
    cluster_stack_operator.ClusterStack.from_release_parts
    cluster_stack_operator.ClusterStack.new_from_cluster_stack_release_properties
    cluster_stack_operator.ClusterStack.validate cluster_stack_operator.ClusterStack.new
    cluster_stack_operator.ClusterStack.string cluster_stack_operator.ClusterStack.latest
    cluster_stack_operator.Strings.text_eq cluster_stack_operator.Strings.split
    cluster_stack_operator.Strings.join cluster_stack_operator.Strings.trim_prefix
    cluster_stack_operator.Strconv.atoi cluster_stack_operator.Strconv.itoa
    cluster_stack_operator.Api.member cluster_stack_operator.Sort.Insertion.insertion_sort
    cluster_stack_operator.ClusterStackController.Provider.create_or_update_provider
    cluster_stack_operator.ClusterStackController.Provider.with_template
    cluster_stack_operator.ClusterStackController.Provider.with_existing
    cluster_stack_operator.ClusterStackController.Provider.generate_provider_object
returned = refl

abbrev after : Server
after = (reconcile table env sorter before stack).world

reconcile-wanted_example : presence after old ≢ live
unfolding cluster_stack_operator.ClusterStackController.Select.used_cluster_classes
    cluster_stack_operator.Api.member text_eq existing_releases
    cluster_stack_operator.ClusterStackController.Select.owned_by
    cluster_stack_operator.ClusterStackController.Select.matches_owner_ref
reconcile-wanted_example =
    reconcile-wanted table env store old sorter before stack stack (owned before) none none []
      (tag ∷ []) no_requeue refl refl none_ready subscribed refl in_spec returned

abbrev input : GenerateInput Text
input = record {
  existing_object = none;
  template = template;
  namespace = codes "default";
  name = tag;
  labels = (codes "a", codes "new") ∷ [];
  annotations = [];
}

abbrev generated : ProviderObject Text
generated = record template_object {
  namespace = codes "default";
  name = tag;
  labels = (codes "a", codes "new") ∷ (codes "b", codes "kept") ∷ [];
}

is_generated : generate_provider_object text_eq input ≡ ok (generated, false)
unfolding cluster_stack_operator.ClusterStackController.Provider.set_all
    cluster_stack_operator.ClusterStackController.Provider.dress
    cluster_stack_operator.ClusterStackController.Provider.as_new
    cluster_stack_operator.ClusterStackController.Provider.generate_provider_object
    cluster_stack_operator.Strings.text_eq
is_generated = refl

generate_labels_example :
    (lookup generated.labels (codes "b") ≡ some (codes "kept"))
    × (lookup generated.annotations (codes "b") ≡ none)
unfolding cluster_stack_operator.Strings.text_eq
generate_labels_example =
    generate_labels text_eq input template_object refl generated false (codes "b") is_generated

generate_settled_example :
    (o' : ProviderObject Text) × (generate_provider_object text_eq
        (record input { existing_object = some generated })
      ≡ ok (o', false))
unfolding cluster_stack_operator.Strings.text_eq
generate_settled_example =
    generate_settled text_eq input template_object generated generated (codes "spec") false refl
      refl refl is_generated refl
