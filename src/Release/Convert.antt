-- ===== src/Release/Convert.antt =====
-- From the name of a cluster class to the name of its release.
use cluster_stack_operator.Base.{
  ◌≡◌, refl, [], ◌∷◌, ◌++◌, true, false, Bool-cases, inl, inr, append_assoc,
}
use cluster_stack_operator.Strings.{Text, text_eq, join, dash, dot, Lacks}
use cluster_stack_operator.Strings.Parts.{split_last, split_step, Lacks-append}
use cluster_stack_operator.Strconv.{itoa}
use cluster_stack_operator.KubernetesVersion
use cluster_stack_operator.KubernetesVersion.RoundTrip.{itoa-Lacks-dot}
use cluster_stack_operator.Version
use cluster_stack_operator.Version.{Version, channel_stable}
use cluster_stack_operator.Version.Parse.{word_Lacks-dot}
use cluster_stack_operator.Version.RoundTrip.{suffix_words}
use cluster_stack_operator.ClusterStack.{ClusterStack, string, string_with_dot}
use cluster_stack_operator.ClusterStack.Names.{IsNamed}
use cluster_stack_operator.Release.{convert_from_cluster_class_to_cluster_stack_format}

module _ (cs : ClusterStack) (w : IsNamed cs) (lp : Lacks dot cs.provider)
    (ln : Lacks dot cs.name) where
  kubernetes_Lacks : Lacks dot (KubernetesVersion.string cs.kubernetes_version)
  unfolding KubernetesVersion.string
  kubernetes_Lacks =
      Lacks-append dot (itoa cs.kubernetes_version.major) (dash ∷ itoa cs.kubernetes_version.minor)
        (itoa-Lacks-dot cs.kubernetes_version.major w.kubernetes_fits.major_fits)
        (refl, itoa-Lacks-dot cs.kubernetes_version.minor w.kubernetes_fits.minor_fits)

  join-Lacks :
      (v : Text)
      → Lacks dot v
      → Lacks dot (
          join
            (cs.provider ∷ cs.name ∷ KubernetesVersion.string cs.kubernetes_version ∷ v ∷ [])
            dash)
  unfolding join
  join-Lacks v lv =
      Lacks-append dot cs.provider
        (dash ∷ (cs.name ++ dash ∷ (KubernetesVersion.string cs.kubernetes_version ++ dash ∷ v))) lp
        (
          refl,
          Lacks-append dot cs.name
              (dash ∷ (KubernetesVersion.string cs.kubernetes_version ++ dash ∷ v)) ln
              (
                refl,
                Lacks-append dot (KubernetesVersion.string cs.kubernetes_version) (dash ∷ v)
                    kubernetes_Lacks (refl, lv),
              ),
        )

  -- The version up to the channel.
  front : Text
  front = b'v' ∷ (itoa cs.version.major ++ dash ∷ cs.version.channel)

  module _ (custom : text_eq cs.version.channel channel_stable ≡ false) where
    dotted :
        string_with_dot cs
        ≡ join
            (cs.provider ∷ cs.name ∷ KubernetesVersion.string cs.kubernetes_version ∷ front ∷ [])
            dash
          ++ dot ∷ cs.version.patch
    unfolding string_with_dot Version.string_with_dot join front
    dotted = rw custom (simp append_assoc)

    dashed :
        string cs
        ≡ join
            (cs.provider ∷ cs.name ∷ KubernetesVersion.string cs.kubernetes_version ∷ front ∷ [])
            dash
          ++ dash ∷ cs.version.patch
    unfolding string Version.string join front
    dashed = rw custom (simp append_assoc)

    front-Lacks : Lacks dot front
    unfolding front
    front-Lacks = (
      refl,
      Lacks-append dot (itoa cs.version.major) (dash ∷ cs.version.channel)
          (itoa-Lacks-dot cs.version.major w.version_parsed.major_fits)
          (
            refl,
            word_Lacks-dot cs.version.channel (suffix_words cs.version w.version_parsed custom).0,
          ),
    )

    convert_custom :
        convert_from_cluster_class_to_cluster_stack_format (string_with_dot cs) ≡ string cs
    unfolding convert_from_cluster_class_to_cluster_stack_format
    convert_custom =
        let l = join-Lacks front front-Lacks in
        let lp =
          word_Lacks-dot cs.version.patch (suffix_words cs.version w.version_parsed custom).1 in
        rw (
          dotted,
          dashed,
          split_step dot
              (join
                (cs.provider
                  ∷ cs.name
                  ∷ KubernetesVersion.string cs.kubernetes_version
                  ∷ front
                  ∷ [])
                dash)
              cs.version.patch l,
          split_last dot cs.version.patch lp,
        )

  module _ (stable : text_eq cs.version.channel channel_stable ≡ true) where
    convert_stable :
        convert_from_cluster_class_to_cluster_stack_format (string_with_dot cs) ≡ string cs
    unfolding convert_from_cluster_class_to_cluster_stack_format string_with_dot string
        Version.string_with_dot Version.string
    convert_stable = rw (
      stable,
      split_last dot _ (
          join-Lacks (b'v' ∷ itoa cs.version.major)
            (refl, itoa-Lacks-dot cs.version.major w.version_parsed.major_fits)),
    )

  -- The name of a cluster class is converted to the name of the release with the same properties, if
  -- the provider and the name hold no dot.
  pub convert-string_with_dot :
      convert_from_cluster_class_to_cluster_stack_format (string_with_dot cs) ≡ string cs
  convert-string_with_dot = elim (Bool-cases (text_eq cs.version.channel channel_stable)) [
    | inl e ↦ convert_stable e
    | inr e ↦ convert_custom e
  ]
