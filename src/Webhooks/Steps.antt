-- ===== src/Webhooks/Steps.antt =====
-- Which updates of a cluster are admitted.
use cluster_stack_operator.Base.{
  ℕ, suc, ◌+◌, ◌==◌, ==_iff, ◌⊎◌, pos, Bool-cases, true, ◌≡◌, refl, Option, none, some, arith,
  Option-cases, Result-cases, inl, inr, ok,
}
use cluster_stack_operator.Strings.{Text}
use cluster_stack_operator.Strings.Order.{text_eq→eq}
use cluster_stack_operator.ClusterStack as Stack
use cluster_stack_operator.ClusterStack.Parsed.{new_from_class-IsNamed}
use cluster_stack_operator.Api.{Cluster, Topology}
use cluster_stack_operator.Release.{convert_from_cluster_class_to_cluster_stack_format}
use cluster_stack_operator.Webhooks.{
  Verdict, admitted, warned, refused, panicked, invalid, in_use, aggregate_obj_errors,
}
use cluster_stack_operator.Webhooks.Clusters
use cluster_stack_operator.Webhooks.Clusters.{
  is_version_correct, is_topology_correct, class_errors, compare_topologies, compare_classes,
  is_step, next,
}

-- The class of a cluster moves from one cluster stack to another.
pub record Moves (get_version : Text → Option Text) (old new : Cluster) : Type 0 where
  pub old_topology : Topology
  pub new_topology : Topology
  pub old_stack : Stack.ClusterStack
  pub new_stack : Stack.ClusterStack
  pub old_has : old.topology ≡ some old_topology
  pub new_has : new.topology ≡ some new_topology
  pub old_reads : Stack.new_from_cluster_class_properties old_topology.class ≡ ok old_stack
  pub new_reads : Stack.new_from_cluster_class_properties new_topology.class ≡ ok new_stack
  pub same_provider : old_stack.provider ≡ new_stack.provider
  pub same_name : old_stack.name ≡ new_stack.name
  pub old_minor : ℕ
  pub new_minor : ℕ
  pub old_minor_is : old_stack.kubernetes_version.minor ≡ pos old_minor
  pub new_minor_is : new_stack.kubernetes_version.minor ≡ pos new_minor
  pub minor_step : (new_minor ≡ old_minor) ⊎ (new_minor ≡ old_minor + 1)
  pub version_matches :
      get_version (convert_from_cluster_class_to_cluster_stack_format new_topology.class)
      ≡ some new_topology.version

step_up : (a b : ℕ) → is_step (pos a) (pos b) ≡ true → (b ≡ a) ⊎ (b ≡ a + 1)
step_up a b h = elim (Bool-cases (b == a)) [
  | inl e ↦ inl ((==_iff b a).0 e)
  | inr e ↦ inr (omega (arith, (==_iff b (suc a)).0 (ground (arith, h, e))))
]

module _ (get_version : Text → Option Text) where
  topology_correct :
      (t : Topology)
      → is_topology_correct get_version t ≡ admitted
      → get_version (convert_from_cluster_class_to_cluster_stack_format t.class) ≡ some t.version
  unfolding is_topology_correct
  topology_correct t h =
      elim (Option-cases
        (get_version (convert_from_cluster_class_to_cluster_stack_format t.class))) [
          | inl e ↦ absurd (ground (arith, e))
          | inr (want, e) ↦
              let q : t.version ≡ want = text_eq→eq t.version want (ground (arith, e)) in
              rw (e, q) refl
        ]

  classes_equal :
      (old new : Stack.ClusterStack)
      → aggregate_obj_errors (class_errors get_version old new) ≡ admitted
      → (old.provider ≡ new.provider)
        × (old.name ≡ new.name)
        × (is_step old.kubernetes_version.minor new.kubernetes_version.minor ≡ true)
  unfolding class_errors aggregate_obj_errors
  classes_equal old new h = (
    text_eq→eq old.provider new.provider (ground arith),
    text_eq→eq old.name new.name (ground arith),
    ground arith,
  )

  update_splits :
      (old new : Cluster)
      → Clusters.validate_update get_version old new ≡ admitted
      → (is_version_correct get_version new ≡ admitted)
        × (compare_topologies get_version old.topology new.topology ≡ admitted)
  unfolding Clusters.validate_update
  update_splits old new h = go (is_version_correct get_version new) refl h
    where
      go :
          (v : Verdict)
          → is_version_correct get_version new ≡ v
          → Clusters.validate_update get_version old new ≡ admitted
          → (is_version_correct get_version new ≡ admitted)
            × (compare_topologies get_version old.topology new.topology ≡ admitted)
      go admitted e k = (e, rw (e, Clusters.validate_update) at k)
      go warned e k = absurd (ground (arith, e))
      go refused e k = absurd (ground (arith, e))
      go panicked e k = absurd (ground (arith, e))
      go (invalid l) e k = absurd (ground (arith, e))
      go (in_use l) e k = absurd (ground (arith, e))

  -- An update of a cluster that is admitted without a warning keeps the provider and the name of the
  -- cluster stack, keeps its Kubernetes minor version or takes it one up, and sets the Kubernetes version
  -- that the release of the new class has in its status.
  pub cluster_update-Moves :
      (old new : Cluster)
      → Clusters.validate_update get_version old new ≡ admitted
      → Moves get_version old new
  unfolding is_version_correct
  cluster_update-Moves old new h =
      let (a, b) = update_splits old new h in go old.topology new.topology refl refl a b
    where
      go :
          (o n : Option Topology)
          → old.topology ≡ o
          → new.topology ≡ n
          → is_version_correct get_version new ≡ admitted
          → compare_topologies get_version old.topology new.topology ≡ admitted
          → Moves get_version old new
      go none n e f a b = absurd (ground (arith, e))
      go (some t) none e f a b = absurd (ground (arith, e, f))
      go (some t) (some u) e f a b =
          elim (Result-cases (Stack.new_from_cluster_class_properties t.class)) [
            | inl (x, p) ↦ absurd (ground (arith, e, f, p))
            | inr (c, p) ↦ elim (Result-cases (Stack.new_from_cluster_class_properties u.class)) [
              | inl (x, q) ↦ absurd (ground (arith, e, f, p, q))
              | inr (d, q) ↦
                  let (x, y, z) = classes_equal c d (rw (e, f, p, q) at b) in
                  let m = (new_from_class-IsNamed t.class c p).kubernetes_fits.minor_fits in
                  let n = (new_from_class-IsNamed u.class d q).kubernetes_fits.minor_fits in
                  record {
                    old_topology = t;
                    new_topology = u;
                    old_stack = c;
                    new_stack = d;
                    old_has = e;
                    new_has = f;
                    old_reads = p;
                    new_reads = q;
                    same_provider = x;
                    same_name = y;
                    old_minor = m.value;
                    new_minor = n.value;
                    old_minor_is = m.is_pos;
                    new_minor_is = n.is_pos;
                    minor_step = step_up m.value n.value (rw (m.is_pos, n.is_pos) at z);
                    version_matches = topology_correct u (rw (f, is_version_correct) at a);
                  }
            ]
          ]
