-- ===== src/Kube/Settled.antt =====
-- An `Apply` that asks for no further round has applied every object.
use mathlib.Core.Path.{subst}
use cluster_stack_operator.Base.{
  true, false, ◌≡◌, refl, sym, ◌∙◌, ap, List, [], ◌∷◌, ◌++◌, append-nil, append_assoc, Option, none,
  some, All, All-append, Option-cases, inl, inr,
}
use cluster_stack_operator.Strings.{Text}
use cluster_stack_operator.Api.{Unstructured, Resource, is_synced}
use cluster_stack_operator.Kube.Template.{Error}
use cluster_stack_operator.Kube.Client.{Run, each}

abbrev pub Synced : Resource → Type 0
Synced x = is_synced x.status ≡ true

-- The namespace and the name, of resources and of objects.
abbrev pub names : List Resource → List (Text × Text)
names [] = []
names (x ∷ l) = (x.namespace, x.name) ∷ names l

abbrev pub object_names : List Unstructured → List (Text × Text)
object_names [] = []
object_names (o ∷ l) = (o.namespace, o.name) ∷ object_names l

pub names-append : (xs ys : List Resource) → names (xs ++ ys) ≡ names xs ++ names ys
names-append [] ys = refl
names-append (x ∷ xs) ys = rw (names-append xs ys) refl

-- A run goes on without an error or a request for another round, and adds synced resources.
pub record Advances {W : Type 0} (ns : List (Text × Text)) (r r' : Run W) : Type 0 where
  pub no_error : r.error ≡ none
  pub no_requeue : r.requeue ≡ false
  pub added : List Resource
  pub resources_added : r'.resources ≡ r.resources ++ added
  pub names_added : names added ≡ ns
  pub all_synced : All Synced added

-- What a step does where it neither fails nor asks for another round.
abbrev pub Advancing : {W A : Type 0} → (A → List (Text × Text)) → (A → Run W → Run W) → Type 0
Advancing {W} {A} name f =
    (a : A) (r : Run W)
    → r.error ≡ none
    → (f a r).error ≡ none
    → (f a r).requeue ≡ false
    → Advances (name a) r (f a r)

abbrev pub all_names : {A : Type 0} → (A → List (Text × Text)) → List A → List (Text × Text)
all_names name [] = []
all_names name (a ∷ l) = name a ++ all_names name l

pub both_advance :
    {W : Type 0} (ns ms : List (Text × Text)) (a b c : Run W)
    → Advances ns a b
    → Advances ms b c
    → Advances (ns ++ ms) a c
both_advance ns ms a b c h k = record {
  no_error = h.no_error;
  no_requeue = h.no_requeue;
  added = h.added ++ k.added;
  resources_added =
      rw (k.resources_added, h.resources_added) (append_assoc a.resources h.added k.added);
  names_added = rw (names-append h.added k.added, h.names_added, k.names_added) refl;
  all_synced = All-append Synced h.added k.added h.all_synced k.all_synced;
}

module _ {W A : Type 0} (f : A → Run W → Run W) (a : A) (l : List A) where
  each_going :
      (o : Option Error) (r : Run W)
      → o ≡ none
      → elim o [ some e ↦ r | none ↦ each f l (f a r) ] ≡ each f l (f a r)
  each_going none r h = refl
  each_going (some e) r h = cc

  each_halting :
      (o : Option Error) (x : Error) (r : Run W)
      → o ≡ some x
      → elim o [ some e ↦ r | none ↦ each f l (f a r) ] ≡ r
  each_halting none x r h = cc
  each_halting (some e) x r h = refl

  -- A step is made where there is no error.
  pub each_cons : (r : Run W) → r.error ≡ none → each f (a ∷ l) r ≡ each f l (f a r)
  unfolding each
  each_cons r h = each_going r.error r h

-- An error ends the loop.
pub each_stopped :
    {W A : Type 0} (f : A → Run W → Run W) (l : List A) (r : Run W) (x : Error)
    → r.error ≡ some x
    → each f l r ≡ r
unfolding each
each_stopped f [] r x h = refl
each_stopped f (a ∷ l) r x h = each_halting f a l r.error x r h

module _ {W A : Type 0} (name : A → List (Text × Text)) (f : A → Run W → Run W)
    (step : Advancing name f) where
  pub each-Advances :
      (l : List A) (r : Run W)
      → r.error ≡ none
      → (each f l r).error ≡ none
      → (each f l r).requeue ≡ false
      → Advances (all_names name l) r (each f l r)
  each-Advances [] r h e q =
      unfold each in
      record {
        no_error = h;
        no_requeue = q;
        added = [];
        resources_added = sym (append-nil r.resources);
        names_added = refl;
        all_synced = tt;
      }
  each-Advances (a ∷ l) r h e q =
      let c = each_cons f a l r h in
      let e' : (each f l (f a r)).error ≡ none = ap (λ x. x.error) (sym c) ∙ e in
      let q' : (each f l (f a r)).requeue ≡ false = ap (λ x. x.requeue) (sym c) ∙ q in
      elim (Option-cases (f a r).error) [
        | inr (x, k) ↦ absurd (cc (k, ap (λ y. y.error) (each_stopped f l (f a r) x k), e'))
        | inl k ↦
            let rest = each-Advances l (f a r) k e' q' in
            subst (λ x. Advances (all_names name (a ∷ l)) r x) (sym c)
              (both_advance (name a) (all_names name l) r (f a r) (each f l (f a r))
                (step a r h k rest.no_requeue) rest)
      ]
