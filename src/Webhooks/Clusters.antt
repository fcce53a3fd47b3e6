-- ===== src/Webhooks/Clusters.antt =====
-- api/v1alpha1/cluster_webhook.go.
use cluster_stack_operator.Base.{
  Bool, not, ◌||◌, List, [], ◌∷◌, ◌++◌, Option, none, some, if◌then◌else◌, Result, ok, err, ℤ, pos,
  negsuc, zero, suc, int_eq,
}
use cluster_stack_operator.Strings.{Text, text_eq}
use cluster_stack_operator.ClusterStack as Stack
use cluster_stack_operator.Api.{Cluster, Topology}
use cluster_stack_operator.Release.{convert_from_cluster_class_to_cluster_stack_format}
use cluster_stack_operator.Webhooks.{
  Field, Verdict, in_use, admitted, warned, refused, panicked, invalid, aggregate_obj_errors,
  topology_field, class_field, version_field,
}
use cluster_stack_operator.Webhooks.Stacks.{error_if}

-- `n + 1`. A difference of two minor versions, which are not negative, does not overflow an `int`.
abbrev pub next : ℤ → ℤ
next (pos n) = pos (suc n)
next (negsuc zero) = pos 0
next (negsuc (suc n)) = negsuc n

-- `new - old` is 1 or 0.
abbrev pub is_step : ℤ → ℤ → Bool
is_step old new = int_eq new (next old) || int_eq new old

-- The call that gets the status of a ClusterStackRelease of a name is a parameter: its Kubernetes
-- version, or nothing for an error.
module _ (get_version : Text → Option Text) where
  -- `isVersionCorrect`, for a topology.
  unfoldable pub is_topology_correct : Topology → Verdict
  is_topology_correct t =
      if text_eq t.class []
      then invalid (class_field ∷ [])
      else elim (get_version (convert_from_cluster_class_to_cluster_stack_format t.class)) [
        | none ↦ warned
        | some want ↦
            if text_eq want []
            then warned
            else if text_eq t.version want
            then admitted
            else invalid (version_field ∷ [])
      ]

  -- `isVersionCorrect`.
  unfoldable pub is_version_correct : Cluster → Verdict
  is_version_correct cluster = elim cluster.topology [
    | none ↦ invalid (topology_field ∷ [])
    | some t ↦ is_topology_correct t
  ]

  -- The three comparisons of `ValidateUpdate`.
  unfoldable pub class_errors : Stack.ClusterStack → Stack.ClusterStack → List Field
  class_errors old new =
      error_if (not (text_eq old.provider new.provider)) class_field
      ++ (error_if (not (text_eq old.name new.name)) class_field
          ++ error_if (not (is_step old.kubernetes_version.minor new.kubernetes_version.minor))
              class_field)

  abbrev pub compare_classes :
      Result Stack.Error Stack.ClusterStack → Result Stack.Error Stack.ClusterStack → Verdict
  compare_classes (err _) new = refused
  compare_classes (ok old) (err _) = refused
  compare_classes (ok old) (ok new) = aggregate_obj_errors (class_errors old new)

  abbrev pub compare_topologies : Option Topology → Option Topology → Verdict
  compare_topologies none new = panicked
  compare_topologies (some old) none = panicked
  compare_topologies (some old) (some new) =
      compare_classes (Stack.new_from_cluster_class_properties old.class)
        (Stack.new_from_cluster_class_properties new.class)

  -- `ValidateUpdate`.
  unfoldable pub validate_update : Cluster → Cluster → Verdict
  validate_update old new = elim (is_version_correct new) [
    | admitted ↦ compare_topologies old.topology new.topology
    | warned ↦ warned
    | refused ↦ refused
    | panicked ↦ panicked
    | invalid fs ↦ invalid fs
    | in_use l ↦ in_use l
  ]
