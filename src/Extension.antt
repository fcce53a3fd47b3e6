-- ===== src/Extension.antt =====
-- extension/hooks.go: the answers of the hook server, with the record of the hooks that it keeps.
pub mod Once
use cluster_stack_operator.Base.{
  ℕ, Bool, true, false, not, ◌&&◌, List, [], ◌∷◌, ◌++◌, Option, none, some, if◌then◌else◌, Result,
  ok, err,
}
use cluster_stack_operator.Strings.{Text, codes, text_eq}
use cluster_stack_operator.Api.{Cluster}
use cluster_stack_operator.Api.Conditions.{ConditionsApi, helm_chart_applied}
use cluster_stack_operator.Kube.Template.{set_key}
use cluster_stack_operator.ClusterAddon.{ClusterAddon, lookup}

abbrev pub before_cluster_upgrade_hook : Text
before_cluster_upgrade_hook = codes "BeforeClusterUpgrade"

abbrev pub after_control_plane_initialized_hook : Text
after_control_plane_initialized_hook = codes "AfterControlPlaneInitialized"

-- The status, the message and the seconds of a response of the runtime SDK.
pub data Status : Type 0 where
  unset success failure : Status

pub record Response : Type 0 where
  pub status : Status
  pub message : Text
  pub retry_after_seconds : ℕ

-- `SetStatus` with a failure, and `SetMessage`.
abbrev pub fail : Text → Response → Response
fail e r = record r { status = failure; message = e }

-- The calls of the client; a text is the message of an error. `get` takes the namespace and the name,
-- `patch` the object before and after, and whether it overwrites the conditions.
pub record HandlerEnv (W C : Type 0) : Type 0 where
  pub get : W → Text → Text → Result Text (ClusterAddon C)
  pub new_helper : W → ClusterAddon C → Option Text
  pub patch : W → Bool → ClusterAddon C → ClusterAddon C → W × Option Text

-- The world, `HookRecord`, and the response after a call.
pub record Handled (W : Type 0) : Type 0 where
  pub world : W
  pub hook_record : List (Text × Text)
  pub response : Response

-- A call returns, or panics at a nil pointer.
pub data Call (W : Type 0) : Type 0 where
  panics : Call W
  returns : Handled W → Call W

-- `fmt.Sprintf("cluster-addon-%s", name)`.
abbrev pub addon_name : Text → Text
addon_name name = codes "cluster-addon-" ++ name

-- `getHookRecordKey`, for the class of a topology that is not nil.
unfoldable pub get_hook_record_key : Text → Text → Text → Text
get_hook_record_key name namespace class = name ++ b'/' ∷ namespace ++ b'/' ∷ class

-- `hasAlreadyPatchedClusterAddon`.
unfoldable pub has_already_patched_cluster_addon : List (Text × Text) → Text → Text → Bool
has_already_patched_cluster_addon hook_record key hook = elim (lookup hook_record key) [
  | none ↦ false
  | some val ↦ text_eq val hook
]

module _ (cond : ConditionsApi) {W : Type 0} (env : HandlerEnv W cond.C) where
  -- The patch of an addon.
  pub record Patched : Type 0 where
    pub world : W
    pub addon : ClusterAddon cond.C
    pub response : Response

  abbrev pub with_hook : Text → ClusterAddon cond.C → ClusterAddon cond.C
  with_hook hook addon = record addon {
    hook = hook;
    conditions = cond.delete addon.conditions helm_chart_applied;
  }

  abbrev pub after_patch : ClusterAddon cond.C → Response → W × Option Text → Patched
  after_patch addon response (w, none) = record { world = w; addon = addon; response = response }
  after_patch addon response (w, some e) = record {
    world = w;
    addon = addon;
    response = fail e response;
  }

  -- The body of the if of both hooks. Without a helper the code goes on with a nil pointer: `none`.
  unfoldable pub patch_hook : Bool → Text → W → ClusterAddon cond.C → Response → Option Patched
  patch_hook force hook w addon response = elim (env.new_helper w addon) [
    | some e ↦ none
    | none ↦ some (
        after_patch (with_hook hook addon) response
          (env.patch w force addon (with_hook hook addon)))
  ]

  -- The end of `DoBeforeClusterUpgrade`.
  unfoldable pub conclude : W → List (Text × Text) → ClusterAddon cond.C → Response → Call W
  conclude w hook_record addon response = returns (record {
    world = w;
    hook_record = hook_record;
    response =
        if cond.is_true addon.conditions helm_chart_applied
        then record response { status = success }
        else record response { status = success; retry_after_seconds = 10 };
  })

  abbrev pub after_patched : List (Text × Text) → Option Patched → Call W
  after_patched hook_record none = panics
  after_patched hook_record (some p) = conclude p.world hook_record p.addon p.response

  -- `DoBeforeClusterUpgrade`, from the key of the record on.
  unfoldable pub upgrade_addon :
      W → List (Text × Text) → Text → ClusterAddon cond.C → Response → Call W
  upgrade_addon w hook_record key addon response =
      if not (text_eq addon.hook before_cluster_upgrade_hook)
        && not (has_already_patched_cluster_addon hook_record key before_cluster_upgrade_hook)
      then after_patched (set_key hook_record key before_cluster_upgrade_hook)
          (patch_hook false before_cluster_upgrade_hook w addon response)
      else conclude w hook_record addon response

  -- `DoBeforeClusterUpgrade`.
  unfoldable pub do_before_cluster_upgrade : W → List (Text × Text) → Cluster → Response → Call W
  do_before_cluster_upgrade w hook_record cluster response =
      elim (env.get w cluster.namespace (addon_name cluster.name)) [
        | err e ↦
            returns (record { world = w; hook_record = hook_record; response = fail e response })
        | ok addon ↦ elim cluster.topology [
          | none ↦ panics
          | some t ↦
              upgrade_addon w hook_record
                (get_hook_record_key cluster.name cluster.namespace t.class) addon response
        ]
      ]

  -- `DoAfterClusterUpgrade`.
  unfoldable pub do_after_cluster_upgrade : W → List (Text × Text) → Cluster → Response → Call W
  do_after_cluster_upgrade w hook_record cluster response = returns (record {
    world = w;
    hook_record = hook_record;
    response = record response { status = success };
  })

  abbrev pub initialized : List (Text × Text) → Option Patched → Call W
  initialized hook_record none = panics
  initialized hook_record (some p) = returns (record {
    world = p.world;
    hook_record = hook_record;
    response = record p.response { status = success };
  })

  -- `DoAfterControlPlaneInitialized`; the texts in front of the messages are left out.
  unfoldable pub do_after_control_plane_initialized :
      W → List (Text × Text) → Cluster → Response → Call W
  do_after_control_plane_initialized w hook_record cluster response =
      elim (env.get w cluster.namespace (addon_name cluster.name)) [
        | err e ↦
            returns (record { world = w; hook_record = hook_record; response = fail e response })
        | ok addon ↦
            if text_eq addon.hook after_control_plane_initialized_hook
            then initialized hook_record
                (some (record { world = w; addon = addon; response = response }))
            else initialized hook_record
                (patch_hook true after_control_plane_initialized_hook w addon response)
      ]

  -- The hook server's calls before an upgrade, one after the other, each with a fresh response.
  abbrev pub fresh : Response
  fresh = record { status = unset; message = []; retry_after_seconds = 0 }

  abbrev pub Server : Type 0
  Server = W × List (Text × Text)

  unfoldable pub serve : List Cluster → Server → Option Server
  serve [] s = some s
  serve (c ∷ cs) (w, hook_record) = elim (do_before_cluster_upgrade w hook_record c fresh) [
    | panics ↦ none
    | returns h ↦ serve cs (h.world, h.hook_record)
  ]
