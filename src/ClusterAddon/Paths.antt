-- ===== src/ClusterAddon/Paths.antt =====
-- `filepath.Clean` and `filepath.Join` on rooted paths: the parts of what they make.
use cluster_stack_operator.Base.{
  Bool, true, false, ◌≡◌, refl, sym, ◌∙◌, ap, List, [], ◌∷◌, ◌++◌, Bool-cases, inl, inr, All,
  append-nil, append_assoc,
}
use cluster_stack_operator.Strings.{Text, codes, text_eq, split, join, Lacks}
use cluster_stack_operator.Strings.Parts.{
  split-append, split-join, split_pieces, split_step, split_last,
}
use cluster_stack_operator.ClusterAddon.Untar.{
  slash, is_rooted, dot_dot, up, clean_parts, reversed, printed, clean, join_clean,
}

-- A part of a clean path below the root.
pub record IsPart (p : Text) : Type 0 where
  pub not_empty : text_eq p [] ≡ false
  pub not_dot : text_eq p (codes ".") ≡ false
  pub not_up : text_eq p dot_dot ≡ false
  pub no_slash : Lacks slash p

abbrev pub NoUp : List Text → Type 0
NoUp = All (λ p. text_eq p dot_dot ≡ false)

-- The parts of a path, the last one in front.
abbrev pub parts_of : Text → List Text
parts_of path = clean_parts (is_rooted path) [] (split path slash)

-- A path that goes on where another one ends.
abbrev pub IsBelow : Text → Text → Type 0
IsBelow dst path = (rest : List Text) × (parts_of path ≡ rest ++ parts_of dst)

reversed_twice : (xs ys zs : List Text) → reversed (reversed xs ys) zs ≡ reversed ys (xs ++ zs)
reversed_twice [] ys zs = refl
reversed_twice (x ∷ xs) ys zs = reversed_twice xs (x ∷ ys) zs

-- Parts without `..` are put in front of the ones that are there.
clean_adds :
    (rooted : Bool) (ps done : List Text)
    → NoUp ps
    → (rest : List Text) × (clean_parts rooted done ps ≡ rest ++ done)
unfolding clean_parts
clean_adds rooted [] done h = ([], refl)
clean_adds rooted (p ∷ ps) done (n, h) = elim (Bool-cases (text_eq p [])) [
  | inl e ↦ rw (e, clean_parts) (clean_adds rooted ps done h)
  | inr e ↦ elim (Bool-cases (text_eq p (codes "."))) [
    | inl f ↦ rw (e, f, clean_parts) (clean_adds rooted ps done h)
    | inr f ↦
        let (rest, same) = clean_adds rooted ps (p ∷ done) h in
        rw (e, f, n, clean_parts) (rest ++ p ∷ [], same ∙ sym (append_assoc rest (p ∷ []) done))
  ]
]

-- What is cleaned from the root on has no empty part and no `.` or `..`.
clean-IsPart :
    (ps done : List Text)
    → All (Lacks slash) ps
    → All IsPart done
    → All IsPart (clean_parts true done ps)
unfolding clean_parts
clean-IsPart [] done l h = h
clean-IsPart (p ∷ ps) done (n, l) h = elim (Bool-cases (text_eq p [])) [
  | inl e ↦ rw (e, clean_parts) (clean-IsPart ps done l h)
  | inr e ↦ elim (Bool-cases (text_eq p (codes "."))) [
    | inl f ↦ rw (e, f, clean_parts) (clean-IsPart ps done l h)
    | inr f ↦ elim (Bool-cases (text_eq p dot_dot)) [
      | inl g ↦ rw (e, f, g, clean_parts) (clean-IsPart ps (up true done) l (up-IsPart done h))
      | inr g ↦
          rw (e, f, g, clean_parts)
            (clean-IsPart ps (p ∷ done) l
              (record { not_empty = e; not_dot = f; not_up = g; no_slash = n }, h))
    ]
  ]
]
  where
    up-IsPart : (done : List Text) → All IsPart done → All IsPart (up true done)
    up-IsPart [] h = tt
    up-IsPart (p ∷ ps) (k, h) = rw (k.not_up) h

-- Parts that are clean are kept.
clean_kept : (ps done : List Text) → All IsPart ps → clean_parts true done ps ≡ reversed ps done
unfolding clean_parts
clean_kept [] done h = refl
clean_kept (p ∷ ps) done (k, h) =
    rw (k.not_empty, k.not_dot, k.not_up, clean_parts) (clean_kept ps (p ∷ done) h)

reversed-All :
    (P : Text → Type 0) (ps qs : List Text) → All P ps → All P qs → All P (reversed ps qs)
reversed-All P [] qs h k = k
reversed-All P (p ∷ ps) qs (a, h) k = reversed-All P ps (p ∷ qs) h (a, k)

All-map : (P Q : Text → Type 0) (ps : List Text) → ((p : Text) → P p → Q p) → All P ps → All Q ps
All-map P Q [] f h = tt
All-map P Q (p ∷ ps) f (a, h) = (f p a, All-map P Q ps f h)

-- The parts of a path that is printed from clean parts below the root.
parts-printed : (qs : List Text) → All IsPart qs → parts_of (printed true qs) ≡ reversed qs []
unfolding clean_parts join text_eq
parts-printed [] h =
    ap (clean_parts true []) (split_step slash [] [] tt ∙ ap (λ x. [] ∷ x) (split_last slash [] tt))
parts-printed (q ∷ qs) h =
    ap (clean_parts true []) (
      split_step slash [] (join (q ∷ qs) slash) tt
      ∙ ap (λ x. [] ∷ x)
          (split-join slash q qs (All-map IsPart (Lacks slash) (q ∷ qs) (λ p k. k.no_slash) h)))
    ∙ clean_kept (q ∷ qs) [] h

-- Cleaning a rooted path keeps its parts, and that it is rooted.
pub parts-clean :
    (path : Text)
    → is_rooted path ≡ true
    → (parts_of (clean path) ≡ parts_of path) × (is_rooted (clean path) ≡ true)
unfolding clean
parts-clean path r = go (is_rooted path) r
  where
    go :
        (b : Bool)
        → b ≡ true
        → (parts_of (printed b (reversed (clean_parts b [] (split path slash)) []))
            ≡ clean_parts b [] (split path slash))
          × (is_rooted (printed b (reversed (clean_parts b [] (split path slash)) [])) ≡ true)
    go false h = absurd (cc h)
    go true h =
        let ps = clean_parts true [] (split path slash) in
        let good = clean-IsPart (split path slash) [] (split_pieces slash path) tt in
        (
          parts-printed (reversed ps []) (reversed-All IsPart ps [] good tt)
              ∙ reversed_twice ps [] []
              ∙ append-nil ps,
          refl,
        )

clean_append :
    (rooted : Bool) (ps qs done : List Text)
    → clean_parts rooted done (ps ++ qs) ≡ clean_parts rooted (clean_parts rooted done ps) qs
unfolding clean_parts
clean_append rooted [] qs done = refl
clean_append rooted (p ∷ ps) qs done = elim (Bool-cases (text_eq p [])) [
  | inl e ↦ rw (e, clean_parts) (clean_append rooted ps qs done)
  | inr e ↦ elim (Bool-cases (text_eq p (codes "."))) [
    | inl f ↦ rw (e, f, clean_parts) (clean_append rooted ps qs done)
    | inr f ↦ elim (Bool-cases (text_eq p dot_dot)) [
      | inl g ↦ rw (e, f, g, clean_parts) (clean_append rooted ps qs (up rooted done))
      | inr g ↦ rw (e, f, g, clean_parts) (clean_append rooted ps qs (p ∷ done))
    ]
  ]
]

-- A joined path goes on where the first one ends.
pub parts-join :
    (dst name : Text)
    → is_rooted dst ≡ true
    → NoUp (split name slash)
    → IsBelow dst (join_clean dst name) × (is_rooted (join_clean dst name) ≡ true)
unfolding join_clean
parts-join [] name r h = absurd (cc r)
parts-join (c ∷ a) [] r h = let (same, rooted) = parts-clean (c ∷ a) r in (([], same), rooted)
parts-join (c ∷ a) (d ∷ b) r h =
    let (same, rooted) = parts-clean (c ∷ a ++ slash ∷ d ∷ b) r in
    let (rest, added) = clean_adds (is_rooted (c ∷ a)) (split (d ∷ b) slash) (parts_of (c ∷ a)) h in
    (
      (
        rest,
        same
            ∙ ap (clean_parts (is_rooted (c ∷ a)) []) (split-append slash (c ∷ a) (d ∷ b))
            ∙ clean_append (is_rooted (c ∷ a)) (split (c ∷ a) slash) (split (d ∷ b) slash) []
            ∙ added,
      ),
      rooted,
    )
