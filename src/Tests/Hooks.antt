-- ===== src/Tests/Hooks.antt =====
-- The theorems on the hook server at concrete values.
use cluster_stack_operator.Base.{ℕ, ◌+◌, ◌≡◌, refl, inl, ok, some, none, [], ◌∷◌, List}
use cluster_stack_operator.Strings.{Text, codes}
use cluster_stack_operator.Api.{Cluster, Topology}
use cluster_stack_operator.ClusterAddon.{ClusterAddon}
use cluster_stack_operator.Extension.{
  HandlerEnv, Handled, Response, unset, success, returns, do_before_cluster_upgrade, serve,
  get_hook_record_key, before_cluster_upgrade_hook, addon_name,
}
use cluster_stack_operator.Extension.Once.{patched_once, hook_status}
use cluster_stack_operator.Tests.Conditions.{table, Table}
use cluster_stack_operator.Tests.Addons.{addon_at}
use cluster_stack_operator.ClusterAddon as Addon

-- A world that counts the patches.
abbrev addon : ClusterAddon Table
addon = record (addon_at Addon.pending) { hook = [] }

abbrev env : HandlerEnv ℕ Table
env = record {
  get = λ w ns n. ok addon;
  new_helper = λ w a. none;
  patch = λ w f a b. (w + 1, none);
}

abbrev topology : Topology
topology = record { class = codes "openstack-ferrol-1-27-v1"; version = codes "v1.27.3" }

abbrev pub cluster : Cluster
cluster = record { name = codes "c"; namespace = codes "default"; topology = some topology }

abbrev fresh : Response
fresh = record { status = unset; message = []; retry_after_seconds = 0 }

abbrev recorded : List (Text × Text)
recorded = (codes "c/default/openstack-ferrol-1-27-v1", before_cluster_upgrade_hook) ∷ []

abbrev answer : Handled ℕ
answer = record {
  world = 1;
  hook_record = recorded;
  response = record { status = success; message = []; retry_after_seconds = 10 };
}

first : do_before_cluster_upgrade table env 0 [] cluster fresh ≡ returns answer
unfolding cluster_stack_operator.Extension.get_hook_record_key
    cluster_stack_operator.Extension.has_already_patched_cluster_addon
    cluster_stack_operator.Extension.patch_hook cluster_stack_operator.Extension.conclude
    cluster_stack_operator.Extension.upgrade_addon
    cluster_stack_operator.Extension.do_before_cluster_upgrade
    cluster_stack_operator.Strings.text_eq
first = refl

later : do_before_cluster_upgrade table env 1 recorded cluster fresh ≡ returns answer
unfolding cluster_stack_operator.Extension.get_hook_record_key
    cluster_stack_operator.Extension.has_already_patched_cluster_addon
    cluster_stack_operator.Extension.conclude cluster_stack_operator.Extension.upgrade_addon
    cluster_stack_operator.Extension.do_before_cluster_upgrade
    cluster_stack_operator.Strings.text_eq
later = refl

between : serve table env [] (1, recorded) ≡ some (1, recorded)
unfolding cluster_stack_operator.Extension.serve
between = refl

patched_once_example : answer.world ≡ 1
unfolding cluster_stack_operator.Strings.text_eq
patched_once_example =
    patched_once table env 0 1 [] recorded cluster cluster topology topology fresh fresh addon
      answer answer [] refl refl refl refl refl refl refl first between later

hook_status_example : answer.response.status ≡ success
hook_status_example = hook_status table env 0 [] cluster fresh answer (inl first)
