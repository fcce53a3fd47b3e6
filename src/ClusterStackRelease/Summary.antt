-- ===== src/ClusterStackRelease/Summary.antt =====
-- internal/clusterstackrelease/util.go: the summary of a release.
use cluster_stack_operator.Base.{true, false, [], if◌then◌else◌, Result, ok, err}
use cluster_stack_operator.Version
use cluster_stack_operator.ClusterStack as Stack
use cluster_stack_operator.Api
use cluster_stack_operator.Api.{
  ClusterStackRelease, ClusterStackReleaseSummary, ClusterStackReleasePhase, phase_none,
  downloading_assets, provider_specific_work, applying_objects, Cluster, Resource, member,
}
use cluster_stack_operator.Api.Conditions
use cluster_stack_operator.Api.Conditions.{ConditionsApi, ConditionType, Reason, Severity}
use cluster_stack_operator.ClusterStackRelease.{Csr}

module _ (cond : ConditionsApi) where
  abbrev pub phase_of : cond.C → ClusterStackReleasePhase
  phase_of c =
      if cond.is_true c Conditions.provider_cluster_stack_release_ready
      then applying_objects
      else if cond.is_true c Conditions.cluster_stack_release_assets_ready
      then provider_specific_work
      else if cond.is_false c Conditions.cluster_stack_release_assets_ready
      then downloading_assets
      else phase_none

  -- `Summary`.
  unfoldable pub summary : Csr cond → Result Stack.Error ClusterStackReleaseSummary
  summary csr = elim (Stack.new_from_cluster_stack_release_properties csr.name) [
    | err e ↦ err e
    | ok cs ↦
        if cond.is_true csr.status.conditions Conditions.ready
        then ok (record {
          name = Version.string cs.version;
          ready = true;
          phase = Api.done;
          message = [];
        })
        else ok (record {
          name = Version.string cs.version;
          ready = false;
          phase = phase_of csr.status.conditions;
          message =
              if cond.is_false csr.status.conditions Conditions.ready
              then cond.get_reason csr.status.conditions Conditions.ready
              else [];
        })
  ]
