-- ===== src/Webhooks/InUse.antt =====
-- Which deletions are admitted, by the clusters.
use cluster_stack_operator.Base.{
  ap, ◌≢◌, true, ◌≡◌, ◌↔◌, refl, List, [], ◌∷◌, ◌++◌, some, arith, All, Bool-cases, Option-cases,
  Result-cases, inl, inr, ok, err, sym, ◌∙◌,
}
use cluster_stack_operator.Strings.{Text, text_eq, split}
use cluster_stack_operator.Strings.Order.{text_eq→eq, text_eq_refl}
use cluster_stack_operator.KubernetesVersion.{string_with_dot}
use cluster_stack_operator.ClusterStack as Stack
use cluster_stack_operator.Api.{ClusterStackSpec, Cluster, Topology}
use cluster_stack_operator.Webhooks.{admitted, warned}
use cluster_stack_operator.Webhooks.Stacks
use cluster_stack_operator.Webhooks.Stacks.{
  is_of_spec, uses_class, uses_stack, clusters_using_stack, in_use_verdict,
}
use cluster_stack_operator.Webhooks.Releases
use cluster_stack_operator.Webhooks.Releases.{same_release, uses_release, clusters_using_release}

-- The class of a cluster reads as a cluster stack.
pub record HasClass (c : Cluster) (k : Stack.ClusterStack) : Type 0 where
  pub topology : Topology
  pub has : c.topology ≡ some topology
  pub reads : Stack.new_from_cluster_class_properties topology.class ≡ ok k

empty_unread : (k : Stack.ClusterStack) → Stack.new_from_cluster_class_properties [] ≢ ok k
unfolding Stack.new_from_cluster_class_properties Stack.from_class_parts split
empty_unread k h = cc

module _ (spec : ClusterStackSpec) where
  uses_of :
      (c : Cluster) (k : Stack.ClusterStack) → HasClass c k → uses_stack spec c ≡ is_of_spec spec k
  unfolding uses_stack uses_class
  uses_of c k h = elim (Bool-cases (text_eq h.topology.class [])) [
    | inl e ↦ absurd (
        empty_unread k (
          ap Stack.new_from_cluster_class_properties (sym (text_eq→eq h.topology.class [] e))
          ∙ h.reads))
    | inr e ↦ rw (h.has, uses_stack, e, uses_class, h.reads) refl
  ]

  of_uses :
      (c : Cluster)
      → uses_stack spec c ≡ true
      → (k : Stack.ClusterStack) × HasClass c k × (is_of_spec spec k ≡ true)
  unfolding uses_stack uses_class
  of_uses c h = elim (Option-cases c.topology) [
    | inl e ↦ absurd (ground (arith, e))
    | inr (t, e) ↦ elim (Result-cases (Stack.new_from_cluster_class_properties t.class)) [
      | inl (x, q) ↦ absurd (ground (arith, e, q))
      | inr (k, q) ↦ (k, record { topology = t; has = e; reads = q }, ground (arith, e, q))
    ]
  ]

  -- The spec is of the cluster stack: its provider, name, channel and Kubernetes version are those of it.
  abbrev pub IsOf : Stack.ClusterStack → Type 0
  IsOf k =
      (spec.provider ≡ k.provider)
      × (spec.name ≡ k.name)
      × (spec.channel ≡ k.version.channel)
      × (spec.kubernetes_version ≡ string_with_dot k.kubernetes_version)

  IsOf-true : (k : Stack.ClusterStack) → IsOf k → is_of_spec spec k ≡ true
  IsOf-true k (p, n, c, v) =
      rw (p, n, c, v)
        (ground (
          arith,
          text_eq_refl k.provider,
          text_eq_refl k.name,
          text_eq_refl k.version.channel,
          text_eq_refl (string_with_dot k.kubernetes_version),
        ))

  IsOf-IsOf : (k : Stack.ClusterStack) → is_of_spec spec k ≡ true → IsOf k
  IsOf-IsOf k h = (
    text_eq→eq spec.provider k.provider (ground (arith, h)),
    text_eq→eq spec.name k.name (ground (arith, h)),
    text_eq→eq spec.channel k.version.channel (ground (arith, h)),
    text_eq→eq spec.kubernetes_version (string_with_dot k.kubernetes_version) (ground (arith, h)),
  )

  -- No cluster of the list is of the spec.
  abbrev pub Unused : List Cluster → Type 0
  Unused = All (λ c. (k : Stack.ClusterStack) → HasClass c k → ¬ IsOf k)

  Unused-of : (l : List Cluster) → clusters_using_stack spec l ≡ [] → Unused l
  unfolding clusters_using_stack
  Unused-of [] h = tt
  Unused-of (c ∷ l) h = elim (Bool-cases (uses_stack spec c)) [
    | inl e ↦ absurd (ground (arith, e))
    | inr e ↦ (
      λ k has of. absurd (cc (uses_of c k has, e, IsOf-true k of)),
      Unused-of l (ground (arith, e)),
    )
  ]

  of_Unused : (l : List Cluster) → Unused l → clusters_using_stack spec l ≡ []
  unfolding clusters_using_stack
  of_Unused [] h = refl
  of_Unused (c ∷ l) (h, hs) = elim (Bool-cases (uses_stack spec c)) [
    | inl e ↦ let (k, has, q) = of_uses c e in absurd (h k has (IsOf-IsOf k q))
    | inr e ↦ rw (e, clusters_using_stack) (of_Unused l hs)
  ]

in_use_nil : (l : List Text) → in_use_verdict l ≡ admitted → l ≡ []
in_use_nil [] h = refl
in_use_nil (x ∷ l) h = cc

-- The deletion of a ClusterStack is admitted exactly if no listed cluster has a class that reads as a
-- cluster stack of its provider, name, channel and Kubernetes version.
pub stack_delete_admitted_iff :
    (spec : ClusterStackSpec) (clusters : List Cluster)
    → (Stacks.validate_delete spec (some clusters) ≡ admitted) ↔ Unused spec clusters
unfolding Stacks.validate_delete
stack_delete_admitted_iff spec clusters = (
  λ h. Unused-of spec clusters (in_use_nil (clusters_using_stack spec clusters) h),
  λ u. rw (of_Unused spec clusters u) refl,
)

module _ (name : Text) where
  using_unreadable :
      (before after : List Cluster) (c : Cluster) (t : Topology) (e : Stack.Error)
      → c.topology ≡ some t
      → Stack.new_from_cluster_class_properties t.class ≡ err e
      → (x : Stack.Error) × (clusters_using_release name (before ++ c ∷ after) ≡ err x)
  unfolding clusters_using_release uses_release
  using_unreadable [] after c t e h k = (e, rw (h, clusters_using_release, k) refl)
  using_unreadable (b ∷ before) after c t e h k =
      let (x, q) = using_unreadable before after c t e h k in
      elim (Option-cases b.topology) [
        | inl n ↦ (x, rw (n, clusters_using_release) q)
        | inr (u, n) ↦ elim (Result-cases (uses_release name u.class)) [
          | inl (y, m) ↦ (y, rw (n, clusters_using_release, m) refl)
          | inr (z, m) ↦ (x, rw (n, clusters_using_release, m, q) refl)
        ]
      ]

  -- Where a listed cluster has a class that is no name of a cluster stack, the deletion of a
  -- ClusterStackRelease is let through with a warning, whatever classes the other clusters have.
  pub release_delete_warned :
      (before after : List Cluster) (c : Cluster) (t : Topology) (e : Stack.Error)
      → c.topology ≡ some t
      → Stack.new_from_cluster_class_properties t.class ≡ err e
      → Releases.validate_delete name (some (before ++ c ∷ after)) ≡ warned
  unfolding Releases.validate_delete
  release_delete_warned before after c t e h k =
      let (x, q) = using_unreadable before after c t e h k in rw (q, Releases.validate_delete) refl
