-- ===== src/ClusterAddon/Create.antt =====
-- internal/controller/clusteraddoncreate_controller.go: the controller that creates the addon of a cluster.
use cluster_stack_operator.Base.{
  Bool, true, false, ◌≡◌, refl, ◌∙◌, ap, List, [], ◌∷◌, none, some, not,
}
use cluster_stack_operator.Strings.{Text, text_eq}
use cluster_stack_operator.Api.{
  Answer, found, not_found, failed, Cluster, ObjectReference, OwnerReference,
}
use cluster_stack_operator.Extension.{addon_name}

-- The metadata of a cluster that the references name.
pub record ClusterObject : Type 0 where
  pub cluster : Cluster
  pub api_version : Text
  pub kind : Text
  pub uid : Text

-- The addon that is created.
pub record NewAddon : Type 0 where
  pub name : Text
  pub namespace : Text
  pub cluster_ref : ObjectReference
  pub owner_references : List OwnerReference

-- The calls of the client, with the namespace and the name; `true` is an error.
pub record CreateEnv (W : Type 0) : Type 0 where
  pub get_cluster : W → Text → Text → Answer ClusterObject
  pub get_addon : W → Text → Text → Answer Unit
  pub create : W → NewAddon → W × Bool

unfoldable pub new_addon : ClusterObject → NewAddon
new_addon c = record {
  name = addon_name c.cluster.name;
  namespace = c.cluster.namespace;
  cluster_ref = record {
    api_version = c.api_version;
    kind = c.kind;
    namespace = c.cluster.namespace;
    name = c.cluster.name;
    uid = c.uid;
  };
  owner_references =
      record { api_version = c.api_version; kind = c.kind; name = c.cluster.name; uid = c.uid }
      ∷ [];
}

module _ {W : Type 0} (env : CreateEnv W) where
  abbrev pub for_cluster : W → ClusterObject → Answer Unit → W × Bool
  for_cluster w c (found _) = (w, false)
  for_cluster w c failed = (w, true)
  for_cluster w c not_found = env.create w (new_addon c)

  abbrev pub with_cluster : W → Answer ClusterObject → W × Bool
  with_cluster w not_found = (w, false)
  with_cluster w failed = (w, true)
  with_cluster w (found c) =
      for_cluster w c (env.get_addon w c.cluster.namespace (addon_name c.cluster.name))

  -- `Reconcile`; `true` is an error.
  unfoldable pub create_addon : W → Text → Text → W × Bool
  create_addon w namespace name = with_cluster w (env.get_cluster w namespace name)

-- `clusterToClusterAddon`: the namespace and the name of the request.
unfoldable pub cluster_to_cluster_addon : Cluster → List (Text × Text)
cluster_to_cluster_addon c = (c.namespace, addon_name c.name) ∷ []

-- The update function of the predicate of the ClusterAddon controller.
unfoldable pub class_changed : Cluster → Cluster → Bool
class_changed old_cluster new_cluster = elim old_cluster.topology [
  | none ↦ false
  | some t ↦ elim new_cluster.topology [ none ↦ false | some u ↦ not (text_eq t.class u.class) ]
]

-- What the documentation promises of the two kinds of objects: a created addon is there, and the cluster is
-- left.
pub record AddonStore {W : Type 0} (env : CreateEnv W) : Type 0 where
  pub there :
      (w : W) (a : NewAddon)
      → (env.create w a).1 ≡ false
      → env.get_addon (env.create w a).0 a.namespace a.name ≡ found tt
  pub kept :
      (w : W) (a : NewAddon) (namespace name : Text)
      → env.get_cluster (env.create w a).0 namespace name ≡ env.get_cluster w namespace name

module _ {W : Type 0} (env : CreateEnv W) (store : AddonStore env) where
  for_cluster_there :
      (w : W) (c : ClusterObject) (a : Answer Unit)
      → env.get_addon w c.cluster.namespace (addon_name c.cluster.name) ≡ a
      → (for_cluster env w c a).1 ≡ false
      → env.get_addon (for_cluster env w c a).0 c.cluster.namespace (addon_name c.cluster.name)
        ≡ found tt
  unfolding new_addon
  for_cluster_there w c (found tt) e h = e
  for_cluster_there w c failed e h = absurd (cc h)
  for_cluster_there w c not_found e h = store.there w (new_addon c) h

  for_cluster_kept :
      (w : W) (c : ClusterObject) (a : Answer Unit) (namespace name : Text)
      → env.get_cluster (for_cluster env w c a).0 namespace name ≡ env.get_cluster w namespace name
  for_cluster_kept w c (found tt) namespace name = refl
  for_cluster_kept w c failed namespace name = refl
  for_cluster_kept w c not_found namespace name = store.kept w (new_addon c) namespace name

  -- If a created addon is found from then on and its creation leaves the clusters as they are, then after
  -- a pass over a cluster that exists and that returns no error, the addon of the cluster is there, under
  -- the name that the hooks ask for, and a second pass changes nothing.
  pub created_once :
      (w : W) (namespace name : Text) (c : ClusterObject)
      → env.get_cluster w namespace name ≡ found c
      → (create_addon env w namespace name).1 ≡ false
      → (env.get_addon
            (create_addon env w namespace name).0
            c.cluster.namespace
            (addon_name c.cluster.name)
          ≡ found tt)
        × (create_addon env (create_addon env w namespace name).0 namespace name
            ≡ ((create_addon env w namespace name).0, false))
  unfolding create_addon
  created_once w namespace name c e h =
      let a = env.get_addon w c.cluster.namespace (addon_name c.cluster.name) in
      let w' = (for_cluster env w c a).0 in
      let there = for_cluster_there w c a refl (rw e at h) in
      let kept : env.get_cluster w' namespace name ≡ found c =
        for_cluster_kept w c a namespace name ∙ e in
      rw e (there, rw kept (ap (λ x. for_cluster env w' c x) there))
