-- ===== src/Tests/Webhooks.antt =====
-- The theorems on the webhooks at concrete values.
use cluster_stack_operator.Base.{
  ◌≡◌, ◌↔◌, refl, ◌∷◌, [], err, some, true, false, All, Option, not, ◌&&◌,
}
use cluster_stack_operator.Strings.{Text, codes}
use cluster_stack_operator.ClusterStack as Stack
use cluster_stack_operator.Api.{Cluster}
use cluster_stack_operator.Webhooks.{Verdict, admitted, warned}
use cluster_stack_operator.Webhooks.Stacks
use cluster_stack_operator.Webhooks.Stacks.{is_nil}
use cluster_stack_operator.Webhooks.Releases
use cluster_stack_operator.Webhooks.Clusters
use cluster_stack_operator.Webhooks.Immutable.{
  Unchanged, Reads, update_admitted_iff, create_admitted_iff,
}
use cluster_stack_operator.Webhooks.Steps.{Moves, cluster_update-Moves}
use cluster_stack_operator.Webhooks.InUse.{Unused, stack_delete_admitted_iff, release_delete_warned}
use cluster_stack_operator.Tests.Diffs.{spec}

update_admitted_iff_example :
    (Stacks.validate_update true spec spec ≡ admitted) ↔ Unchanged spec spec
update_admitted_iff_example = update_admitted_iff true spec spec

create_admitted_iff_example :
    (Stacks.validate_create true spec ≡ admitted)
    ↔ (All Reads spec.versions × ((is_nil spec.provider_ref && not spec.no_provider) ≡ false))
create_admitted_iff_example = create_admitted_iff true spec

abbrev cluster : Text → Cluster
cluster class = record {
  name = codes "c";
  namespace = codes "default";
  topology = some (record { class = class; version = codes "v1.27.3" });
}

stack_delete_admitted_iff_example :
    (Stacks.validate_delete spec (some (cluster (codes "openstack-ferrol-1-27-v1") ∷ []))
      ≡ admitted)
    ↔ Unused spec (cluster (codes "openstack-ferrol-1-27-v1") ∷ [])
stack_delete_admitted_iff_example =
    stack_delete_admitted_iff spec (cluster (codes "openstack-ferrol-1-27-v1") ∷ [])

unread : Stack.new_from_cluster_class_properties (codes "mine") ≡ err Stack.invalid_format
unfolding Stack.new_from_cluster_class_properties Stack.from_class_parts
    cluster_stack_operator.Strings.split
unread = refl

release_delete_warned_example :
    Releases.validate_delete
      (codes "openstack-ferrol-1-27-v1")
      (some (cluster (codes "openstack-ferrol-1-27-v1") ∷ cluster (codes "mine") ∷ []))
    ≡ warned
release_delete_warned_example =
    release_delete_warned (codes "openstack-ferrol-1-27-v1")
      (cluster (codes "openstack-ferrol-1-27-v1") ∷ []) [] (cluster (codes "mine"))
      (record { class = codes "mine"; version = codes "v1.27.3" }) Stack.invalid_format refl unread

abbrev get_version : Text → Option Text
get_version n = some (codes "v1.27.3")

moved :
    Clusters.validate_update get_version
      (cluster (codes "openstack-ferrol-1-27-v1"))
      (cluster (codes "openstack-ferrol-1-28-v1"))
    ≡ admitted
unfolding Clusters.validate_update Clusters.is_version_correct Clusters.is_topology_correct
    cluster_stack_operator.Strings.text_eq Stack.new_from_cluster_class_properties
    Stack.from_class_parts cluster_stack_operator.Strings.split Stack.from_properties
    cluster_stack_operator.KubernetesVersion.new cluster_stack_operator.Strconv.atoi
    cluster_stack_operator.Version.new cluster_stack_operator.Version.match_string
    cluster_stack_operator.Strings.trim_prefix cluster_stack_operator.Version.validate
    cluster_stack_operator.Webhooks.aggregate_obj_errors Clusters.class_errors
moved = refl

cluster_update-Moves_example :
    Moves get_version
      (cluster (codes "openstack-ferrol-1-27-v1"))
      (cluster (codes "openstack-ferrol-1-28-v1"))
cluster_update-Moves_example =
    cluster_update-Moves get_version (cluster (codes "openstack-ferrol-1-27-v1"))
      (cluster (codes "openstack-ferrol-1-28-v1")) moved
