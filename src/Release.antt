-- ===== src/Release.antt =====
-- pkg/release: a release of a cluster stack on disk.
pub mod Convert
pub mod Open
pub mod Opened
use cluster_stack_operator.Base.{Bool, List, [], ◌∷◌, ◌++◌}
use cluster_stack_operator.Strings.{Text, split, dash, dot}

-- `ConvertFromClusterClassToClusterStackFormat`, on the parts.
abbrev pub convert_parts : Text → List Text → Text
convert_parts input (p0 ∷ p1 ∷ []) = p0 ++ dash ∷ p1
convert_parts input _ = input

unfoldable pub convert_from_cluster_class_to_cluster_stack_format : Text → Text
convert_from_cluster_class_to_cluster_stack_format input = convert_parts input (split input dot)
