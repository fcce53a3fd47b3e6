-- ===== src/ClusterStackController/Progress.antt =====
-- The reconcile loop of a cluster stack gets to its end when the API server grants its calls.
use cluster_stack_operator.Base.{◌≡◌, ◌≢◌, false}
use cluster_stack_operator.Strings.{Text}
use cluster_stack_operator.Api.{ClusterStackRelease}
use cluster_stack_operator.Api.Conditions
use cluster_stack_operator.ClusterStackController.Loops.{
  absent, get_failed, delete_failed, StackEnv,
}

-- The API server answers every read, and grants every deletion of a release, and every creation of one
-- that is absent.
pub record Grants {W C S : Type 0} (env : StackEnv W C S) : Type 0 where
  pub reads : (w : W) (n : Text) → env.get_release w n ≢ get_failed
  pub creates :
      (w : W) (csr : ClusterStackRelease C)
      → env.get_release w csr.name ≡ absent
      → (env.create_release w csr).1 ≡ false
  pub deletes : (w : W) (n : Text) → (env.delete_release w n).1 ≢ delete_failed
