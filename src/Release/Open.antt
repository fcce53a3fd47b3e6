-- ===== src/Release/Open.antt =====
-- pkg/release: opening a release, its metadata and its charts. The file system is a parameter.
use cluster_stack_operator.Base.{
  pos, Bool, true, false, not, ◌&&◌, ◌||◌, ◌==◌, List, [], ◌∷◌, ◌++◌, Option, none, some,
  if◌then◌else◌, Result, ok, err, wrap, ◌>>=◌,
}
use cluster_stack_operator.Strings.{Text, codes, text_eq, dash}
use cluster_stack_operator.Version
use cluster_stack_operator.KubernetesVersion
use cluster_stack_operator.ClusterStack as Stack

-- `Metadata`, with its versions and their components.
pub record Metadata : Type 0 where
  pub cluster_stack : Text
  pub kubernetes : Text
  pub cluster_addon : Text
  pub node_image : Text

-- `Release`.
pub record Release : Type 0 where
  pub tag : Text
  pub cluster_stack : Stack.ClusterStack
  pub meta : Metadata
  pub local_download_path : Text

pub data Error : Type 0 where
  empty_release_name empty_download_path empty_version : Error
  parse_failed : Stack.Error → Error
  stat_failed read_failed unmarshal_failed read_dir_failed chart_not_found : Error
  metadata_version_failed : Version.Error → Error
  invalid_version : Version.Error → Error

-- `os.Stat`: present, `IsNotExist`, or another error.
pub data Stat : Type 0 where
  present absent unknown : Stat

-- The metadata file, as it is read and unmarshalled.
pub data MetadataFile : Type 0 where
  unreadable malformed : MetadataFile
  contents : Metadata → MetadataFile

-- What the package reads of the file system; a directory is its names, with whether each is a directory.
pub record Files : Type 0 where
  pub stat : Text → Stat
  pub metadata : Text → MetadataFile
  pub read_dir : Text → Option (List (Text × Bool))

-- `filepath.Join`, for paths that are clean.
abbrev pub join_path : Text → Text → Text
join_path a b = a ++ b'/' ∷ b

-- `Metadata.Validate`.
unfoldable pub validate_metadata : Metadata → Option Error
validate_metadata m =
    if text_eq m.cluster_stack []
    then some empty_version
    else if text_eq m.kubernetes []
    then some empty_version
    else if text_eq m.cluster_addon []
    then some empty_version
    else none

-- `Validate`. The cluster stack of a release is never the zero value, since it has a provider.
unfoldable pub validate : Release → Option Error
validate r =
    if text_eq r.tag []
    then some empty_release_name
    else if text_eq r.local_download_path []
    then some empty_download_path
    else elim (Version.validate r.cluster_stack.version) [
      | some e ↦ some (invalid_version e)
      | none ↦ validate_metadata r.meta
    ]

-- A version of the metadata, from the notation with a dot to that with dashes.
unfoldable pub normalised : Text → Result Error Text
normalised s = do v ← wrap metadata_version_failed (Version.new s); ok (Version.string v)

unfoldable pub normalise : Metadata → Result Error Metadata
normalise m = do
  cluster_stack ← normalised m.cluster_stack
  cluster_addon ← normalised m.cluster_addon
  node_image ← normalised m.node_image
  ok (record m {
    cluster_stack = cluster_stack;
    cluster_addon = cluster_addon;
    node_image = node_image;
  })

module _ (files : Files) where
  -- `ensureMetadata`.
  unfoldable pub ensure_metadata : Text → Result Error Metadata
  ensure_metadata path = elim (files.metadata path) [
    | unreadable ↦ err read_failed
    | malformed ↦ err unmarshal_failed
    | contents m ↦ normalise m
  ]

  abbrev pub validated : Release → Result Error (Release × Bool)
  validated r = elim (validate r) [ some e ↦ err e | none ↦ ok (r, false) ]

  -- `New`, for a tag that reads as a cluster stack.
  unfoldable pub new_from : Text → Stack.ClusterStack → Text → Result Error (Release × Bool)
  new_from tag cs path = elim (files.stat path) [
    | absent ↦ ok (
      record {
        tag = tag;
        cluster_stack = cs;
        meta = record { cluster_stack = []; kubernetes = []; cluster_addon = []; node_image = [] };
        local_download_path = path;
      },
      true,
    )
    | unknown ↦ err stat_failed
    | present ↦ do
      m ← ensure_metadata path
      validated (record { tag = tag; cluster_stack = cs; meta = m; local_download_path = path })
  ]

  -- `New`: the release, and whether it has to be downloaded.
  unfoldable pub new : Text → Text → Result Error (Release × Bool)
  new tag download_path = do
    cs ← wrap parse_failed (Stack.new_from_cluster_stack_release_properties tag)
    new_from tag cs (join_path (join_path download_path (codes "cluster-stacks")) tag)

  abbrev pub version_or_zero : Result Version.Error Version.Version → Version.Version
  version_or_zero (ok v) = v
  version_or_zero (err _) = record { major = pos 0; channel = []; patch = [] }

  abbrev pub chart_name : Release → Text → Text → Text
  chart_name r kind version =
      r.cluster_stack.provider
      ++ dash
        ∷ (r.cluster_stack.name
            ++ dash
              ∷ (KubernetesVersion.string r.cluster_stack.kubernetes_version
                  ++ dash ∷ (kind ++ dash ∷ version)))

  -- `clusterAddonChartName`, which drops the error of the parser.
  unfoldable pub cluster_addon_chart_name : Release → Text
  cluster_addon_chart_name r = chart_name r (codes "cluster-addon") (
      Version.string_with_dot (version_or_zero (Version.parse_version_string r.meta.cluster_addon)))

  -- `clusterClassChartName`.
  unfoldable pub cluster_class_chart_name : Release → Text
  cluster_class_chart_name r =
      chart_name r (codes "cluster-class") (Version.string_with_dot r.cluster_stack.version)

  abbrev pub has_prefix : Text → Text → Bool
  has_prefix s [] = true
  has_prefix [] (b ∷ t) = false
  has_prefix (a ∷ s) (b ∷ t) = a == b && has_prefix s t

  -- `strings.Contains`.
  unfoldable pub contains : Text → Text → Bool
  contains [] t = has_prefix [] t
  contains (a ∷ s) t = has_prefix (a ∷ s) t || contains s t

  -- `filepath.Ext(name) == ".tgz"`.
  unfoldable pub is_tgz : Text → Bool
  is_tgz [] = false
  is_tgz (a ∷ s) = text_eq (a ∷ s) (codes ".tgz") || is_tgz s

  -- The loop of `helmChartNamePath`.
  unfoldable pub find_chart : List (Text × Bool) → Text → Option Text
  find_chart [] name_filter = none
  find_chart ((name, is_dir) ∷ l) name_filter =
      let rest = find_chart l name_filter in
      if not is_dir && not (text_eq name_filter []) && contains name name_filter && is_tgz name
      then some name
      else rest

  abbrev pub chart_path : Text → Option Text → Result Error Text
  chart_path dir none = err chart_not_found
  chart_path dir (some name) = ok (join_path dir name)

  -- `helmChartNamePath`.
  unfoldable pub helm_chart_name_path : Release → Text → Result Error Text
  helm_chart_name_path r name_filter = elim (files.read_dir r.local_download_path) [
    | none ↦ err read_dir_failed
    | some l ↦ chart_path r.local_download_path (find_chart l name_filter)
  ]

  abbrev pub path_or_empty : Result Error Text → Text
  path_or_empty (ok path) = path
  path_or_empty (err _) = []

  -- `ClusterAddonChartPath`, which drops the error, and `ClusterAddonValuesPath`.
  unfoldable pub cluster_addon_chart_path : Release → Text
  cluster_addon_chart_path r = path_or_empty (helm_chart_name_path r (cluster_addon_chart_name r))

  abbrev pub cluster_addon_values_path : Release → Text
  cluster_addon_values_path r = join_path r.local_download_path (codes "cluster-addon-values.yaml")

  abbrev pub verify : Text → Option Error
  verify path = elim (files.stat path) [
    | present ↦ none
    | absent ↦ some stat_failed
    | unknown ↦ some stat_failed
  ]

  abbrev pub verify_optional : Text → Option Error
  verify_optional path = elim (files.stat path) [
    | present ↦ none
    | absent ↦ none
    | unknown ↦ some stat_failed
  ]

  abbrev pub verify_chart : Release → Text → Option Error
  verify_chart r name = elim (helm_chart_name_path r name) [
    | err e ↦ some e
    | ok path ↦ verify path
  ]

  abbrev pub and_then : Option Error → Option Error → Option Error
  and_then (some e) next = some e
  and_then none next = next

  -- `CheckHelmCharts`.
  unfoldable pub check_helm_charts : Release → Option Error
  check_helm_charts r = and_then (verify_chart r (cluster_class_chart_name r)) (
      and_then (verify_optional (join_path r.local_download_path (codes "clusteraddon.yaml")))
        (verify_chart r (cluster_addon_chart_name r)))
