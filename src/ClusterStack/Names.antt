-- ===== src/ClusterStack/Names.antt =====
-- The parts of the two notations of a cluster stack.
use cluster_stack_operator.Base.{◌≡◌, [], ◌∷◌, ◌++◌, false, append_assoc}
use cluster_stack_operator.Strings.{Text, text_eq, split, join, dash, Lacks}
use cluster_stack_operator.Strings.Parts.{split_step}
use cluster_stack_operator.Strconv.{itoa}
use cluster_stack_operator.KubernetesVersion
use cluster_stack_operator.KubernetesVersion.{KubernetesVersion}
use cluster_stack_operator.KubernetesVersion.RoundTrip.{InRange, itoa-Lacks-dash}
use cluster_stack_operator.Version.Valid.{IsParsed}
use cluster_stack_operator.ClusterStack.{ClusterStack}

-- A cluster stack as the parsers return it: a provider and a name that are not empty and hold no dash,
-- and versions that the version parsers can return.
pub record IsNamed (cs : ClusterStack) : Type 0 where
  pub provider_given : text_eq cs.provider [] ≡ false
  pub provider_plain : Lacks dash cs.provider
  pub name_given : text_eq cs.name [] ≡ false
  pub name_plain : Lacks dash cs.name
  pub kubernetes_fits : InRange cs.kubernetes_version
  pub version_parsed : IsParsed cs.version

module _ (cs : ClusterStack) (w : IsNamed cs) where
  -- The four parts in front of the version, whatever the version's text is.
  pub split_prefix :
      (v : Text)
      → split
          (join
            (cs.provider ∷ cs.name ∷ KubernetesVersion.string cs.kubernetes_version ∷ v ∷ [])
            dash)
          dash
        ≡ cs.provider
          ∷ cs.name
          ∷ itoa cs.kubernetes_version.major
          ∷ itoa cs.kubernetes_version.minor
          ∷ split v dash
  unfolding join KubernetesVersion.string
  split_prefix v = rw (
    append_assoc (itoa cs.kubernetes_version.major) (dash ∷ itoa cs.kubernetes_version.minor)
        (dash ∷ v),
    split_step dash cs.provider
        (cs.name
          ++ dash
            ∷ (itoa cs.kubernetes_version.major
                ++ dash ∷ (itoa cs.kubernetes_version.minor ++ dash ∷ v)))
        w.provider_plain,
    split_step dash cs.name
        (itoa cs.kubernetes_version.major ++ dash ∷ (itoa cs.kubernetes_version.minor ++ dash ∷ v))
        w.name_plain,
    split_step dash (itoa cs.kubernetes_version.major)
        (itoa cs.kubernetes_version.minor ++ dash ∷ v)
        (itoa-Lacks-dash cs.kubernetes_version.major w.kubernetes_fits.major_fits),
    split_step dash (itoa cs.kubernetes_version.minor) v
        (itoa-Lacks-dash cs.kubernetes_version.minor w.kubernetes_fits.minor_fits),
  )
