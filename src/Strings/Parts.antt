-- ===== src/Strings/Parts.antt =====
-- `split` and `join` undo one another.
use mathlib.Core.List.{cons-ne-nil}
use cluster_stack_operator.Base.{
  ap, ==_iff, ℕ, ◌≡◌, ◌≢◌, refl, sym, List, [], ◌∷◌, ◌++◌, append-nil, append_assoc, arith, All,
  inl, inr, Bool-cases, ◌==◌, ◌∙◌,
}
use cluster_stack_operator.Strings.{Text, cut, split, join, Lacks}

pub Lacks-append : (b : ℕ) (p q : Text) → Lacks b p → Lacks b q → Lacks b (p ++ q)
Lacks-append b [] q h k = k
Lacks-append b (c ∷ p) q (h, hs) k = (h, Lacks-append b p q hs k)

module _ (sep : ℕ) where
  cut-Lacks : (p cur : Text) → Lacks sep p → cut sep p cur ≡ (cur ++ p) ∷ []
  unfolding cut
  cut-Lacks [] cur h = rw append-nil
  cut-Lacks (c ∷ p) cur (h, hs) = rw (h, cut) (simp (cut-Lacks p (cur ++ c ∷ []) hs, append_assoc))

  cut_at_sep :
      (p s cur : Text) → Lacks sep p → cut sep (p ++ sep ∷ s) cur ≡ (cur ++ p) ∷ cut sep s []
  unfolding cut
  cut_at_sep [] s cur h = ground (arith, append-nil cur)
  cut_at_sep (c ∷ p) s cur (h, hs) =
      rw (h, cut) (simp (cut_at_sep p s (cur ++ c ∷ []) hs, append_assoc))

  pub split_step : (p s : Text) → Lacks sep p → split (p ++ sep ∷ s) sep ≡ p ∷ split s sep
  unfolding split
  split_step p s h = cut_at_sep p s [] h

  pub split_last : (p : Text) → Lacks sep p → split p sep ≡ p ∷ []
  unfolding split
  split_last p h = cut-Lacks p [] h

  cut_pieces : (s cur : Text) → Lacks sep cur → All (Lacks sep) (cut sep s cur)
  unfolding cut
  cut_pieces [] cur h = (h, tt)
  cut_pieces (c ∷ s) cur h = elim (Bool-cases (c == sep)) [
    | inl e ↦ rw (e, cut) (h, cut_pieces s [] tt)
    | inr e ↦ rw (e, cut) (cut_pieces s (cur ++ c ∷ []) (Lacks-append sep cur (c ∷ []) h (e, tt)))
  ]

  -- No part of a split holds the separator.
  pub split_pieces : (s : Text) → All (Lacks sep) (split s sep)
  unfolding split
  split_pieces s = cut_pieces s [] tt

  cut-ne-nil : (s cur : Text) → cut sep s cur ≢ []
  unfolding cut
  cut-ne-nil [] cur = cons-ne-nil cur []
  cut-ne-nil (c ∷ s) cur = ground (arith, cut-ne-nil s (cur ++ c ∷ []))

  join_cons : (p : Text) (ps : List Text) → ps ≢ [] → join (p ∷ ps) sep ≡ p ++ sep ∷ join ps sep
  unfolding join
  join_cons p [] h = absurd (h refl)
  join_cons p (q ∷ ps) h = refl

  join-cut : (s cur : Text) → join (cut sep s cur) sep ≡ cur ++ s
  unfolding cut
  join-cut [] cur = unfold join in sym (append-nil cur)
  join-cut (c ∷ s) cur = elim (Bool-cases (c == sep)) [
    | inl e ↦
        rw (e, cut)
          (join_cons cur (cut sep s []) (cut-ne-nil s []) ∙ rw (join-cut s [], (==_iff c sep).0 e))
    | inr e ↦ rw (e, cut) (join-cut s (cur ++ c ∷ []) ∙ append_assoc cur (c ∷ []) s)
  ]

  -- Joining the parts of a split gives the text back.
  pub join-split : (s : Text) → join (split s sep) sep ≡ s
  unfolding split
  join-split s = join-cut s []

  cut_twice : (a b cur : Text) → cut sep (a ++ sep ∷ b) cur ≡ cut sep a cur ++ cut sep b []
  unfolding cut
  cut_twice [] b cur = ground arith
  cut_twice (c ∷ a) b cur = elim (Bool-cases (c == sep)) [
    | inl e ↦ rw (e, cut) (ap (λ x. cur ∷ x) (cut_twice a b []))
    | inr e ↦ rw (e, cut) (cut_twice a b (cur ++ c ∷ []))
  ]

  -- Two texts around a separator are split one after the other.
  pub split-append : (a b : Text) → split (a ++ sep ∷ b) sep ≡ split a sep ++ split b sep
  unfolding split
  split-append a b = cut_twice a b []

  -- Parts without the separator are read back from the text that they are joined to.
  pub split-join :
      (p : Text) (ps : List Text)
      → All (Lacks sep) (p ∷ ps)
      → split (join (p ∷ ps) sep) sep ≡ p ∷ ps
  unfolding join
  split-join p [] (h, _) = split_last p h
  split-join p (q ∷ ps) (h, hs) =
      split_step p (join (q ∷ ps) sep) h ∙ ap (λ x. p ∷ x) (split-join q ps hs)
