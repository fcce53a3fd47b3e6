-- ===== src/ClusterAddon.antt =====
-- api/v1alpha1/clusteraddon_types.go and pkg/clusteraddon: the addon of a cluster and its stages.
pub mod Execute
pub mod Outcomes
pub mod Rounds
pub mod Phases
pub mod Resources
pub mod Kept
pub mod Untar
pub mod Setup
pub mod Simple
pub mod CleanUp
pub mod Staged
pub mod Reconcile
pub mod Completed
pub mod Hook
pub mod Fresh
pub mod Chart
pub mod Cel
pub mod Observed
pub mod Create
pub mod Paths
pub mod Inside
use cluster_stack_operator.Base.{
  ℕ, Bool, true, false, ◌&&◌, List, [], ◌∷◌, Option, none, some, if◌then◌else◌,
}
use cluster_stack_operator.Strings.{Text, codes, text_eq}
use cluster_stack_operator.Api.{Resource, ObjectReference}

-- `Action` is a string; these are its two constants.
abbrev pub apply_action : Text
apply_action = codes "apply"

abbrev pub delete_action : Text
delete_action = codes "delete"

-- `StagePhase`.
pub data StagePhase : Type 0 where
  phase_none pending waiting_for_pre_condition applying_or_deleting : StagePhase
  waiting_for_post_condition done : StagePhase

-- `StageStatus`.
pub record StageStatus : Type 0 where
  pub name : Text
  pub action : Text
  pub phase : StagePhase

-- `clusteraddon.Object` and `WaitForCondition`.
pub record WaitObject : Type 0 where
  pub key : Text
  pub api_version : Text
  pub name : Text
  pub kind : Text
  pub namespace : Text

-- `nil_objects` tells a nil slice of objects from an empty one, which `reflect.DeepEqual` does too.
pub record WaitForCondition : Type 0 where
  pub objects : List WaitObject
  pub nil_objects : Bool
  pub conditions : Text

-- `clusteraddon.Stage`.
pub record Stage : Type 0 where
  pub name : Text
  pub action : Text
  pub wait_for_pre_condition : WaitForCondition
  pub wait_for_post_condition : WaitForCondition

-- `Config`: the stages of each hook.
pub record Config : Type 0 where
  pub addon_stages : List (Text × List Stage)

-- `ClusterAddon`, with the parts of its spec and its status; a missing map is `none`.
pub record ClusterAddon (C : Type 0) : Type 0 where
  pub name : Text
  pub namespace : Text
  pub finalizers : List Text
  pub deleting : Bool
  pub annotations : Option (List (Text × Text))
  pub cluster_stack : Text
  pub version : Text
  pub hook : Text
  pub cluster_ref : Option ObjectReference
  pub resources : List Resource
  pub stages : List StageStatus
  pub ready : Bool
  pub conditions : C

abbrev pub is_stage : Text → Text → StageStatus → Bool
is_stage name action s = text_eq s.name name && text_eq s.action action

-- `GetStagePhase`.
unfoldable pub phase_in : List StageStatus → Text → Text → StagePhase
phase_in [] name action = phase_none
phase_in (s ∷ l) name action = if is_stage name action s then s.phase else phase_in l name action

abbrev pub get_stage_phase : {C : Type 0} → ClusterAddon C → Text → Text → StagePhase
get_stage_phase r name action = phase_in r.stages name action

-- `SetStagePhase`.
unfoldable pub set_phase_in : List StageStatus → Text → Text → StagePhase → List StageStatus
set_phase_in [] name action phase = []
set_phase_in (s ∷ l) name action phase =
    let rest = set_phase_in l name action phase in
    if is_stage name action s then record s { phase = phase } ∷ rest else s ∷ rest

abbrev pub set_stage_phase :
    {C : Type 0} → ClusterAddon C → Text → Text → StagePhase → ClusterAddon C
set_stage_phase r name action phase = record r { stages = set_phase_in r.stages name action phase }

abbrev pub stage_annotation : Text
stage_annotation = codes "ClusterAddonStage"

abbrev pub lookup : List (Text × Text) → Text → Option Text
lookup [] key = none
lookup ((k, v) ∷ m) key = if text_eq k key then some v else lookup m key

abbrev pub annotations_of : {C : Type 0} → ClusterAddon C → List (Text × Text)
annotations_of r = elim r.annotations [ none ↦ [] | some m ↦ m ]

-- `SetStageAnnotations`.
unfoldable pub set_stage_annotations : {C : Type 0} → ClusterAddon C → Text → ClusterAddon C
set_stage_annotations r value = record r {
  annotations = elim (lookup (annotations_of r) stage_annotation) [
    | some _ ↦ some (annotations_of r)
    | none ↦ some ((stage_annotation, value) ∷ annotations_of r)
  ];
}

-- `HasStageAnnotation`.
unfoldable pub has_stage_annotation : {C : Type 0} → ClusterAddon C → Text → Bool
has_stage_annotation r value = elim (lookup (annotations_of r) stage_annotation) [
  | none ↦ false
  | some v ↦ text_eq v value
]
