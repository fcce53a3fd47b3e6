-- ===== src/ClusterStackController/Provider.antt =====
-- The object of the provider for a release: `generateProviderObject` and its caller.
use cluster_stack_operator.Base.{
  Bool, true, false, List, [], ◌∷◌, Option, none, some, if◌then◌else◌, Result, ok, err,
}
use cluster_stack_operator.Strings.{Text, codes, trim_suffix}
use cluster_stack_operator.Api.{ObjectReference, ClusterStack, Answer, found, not_found, failed}
use cluster_stack_operator.Kube.Template.{set_key}

-- The answer of a write: an error is not found, or another one.
pub data Written : Type 0 where
  written write_not_found write_failed : Written

-- What `unstructured.NestedMap` finds: a value that is no map, nothing, or a map.
pub data Field (A : Type 0) : Type 0 where
  malformed missing : Field A
  present : A → Field A

-- What the code reads or writes of a provider's object; `S` is the type of maps at `spec`.
pub record ProviderObject (S : Type 0) : Type 0 where
  pub api_version : Text
  pub kind : Text
  pub namespace : Text
  pub name : Text
  pub uid : Text
  pub self_link : Text
  pub resource_version : Text
  pub finalizers : List Text
  pub annotations : List (Text × Text)
  pub labels : List (Text × Text)
  pub spec : Field S

-- A template, with the object at `spec.template`.
pub record Template (S : Type 0) : Type 0 where
  pub api_version : Text
  pub kind : Text
  pub template : Field (ProviderObject S)

-- `generateProviderObjectInput`, the fields that are read.
pub record GenerateInput (S : Type 0) : Type 0 where
  pub existing_object : Option (ProviderObject S)
  pub template : Template S
  pub namespace : Text
  pub name : Text
  pub labels : List (Text × Text)
  pub annotations : List (Text × Text)

pub data GenerateError : Type 0 where
  template_malformed template_missing spec_malformed spec_missing : GenerateError

-- The loops that set the entries of a map: a range has no order, and here the last entry comes first.
unfoldable pub set_all : List (Text × Text) → List (Text × Text) → List (Text × Text)
set_all [] m = m
set_all ((key, value) ∷ l) m = set_key (set_all l m) key value

abbrev pub or_else : Text → Text → Text
or_else [] t = t
or_else (c ∷ s) t = c ∷ s

abbrev pub template_suffix : Text
template_suffix = codes "Template"

module _ {S : Type 0} where
  abbrev pub spec_of : ProviderObject S → Result GenerateError S
  spec_of o = elim o.spec [
    | malformed ↦ err spec_malformed
    | missing ↦ err spec_missing
    | present s ↦ ok s
  ]

  -- The end of `generateProviderObject`: annotations, labels, version and kind.
  unfoldable pub dress : GenerateInput S → ProviderObject S → ProviderObject S
  dress input to = record to {
    annotations = set_all input.annotations to.annotations;
    labels = set_all input.labels to.labels;
    api_version = or_else to.api_version input.template.api_version;
    kind = or_else to.kind (trim_suffix input.template.kind template_suffix);
  }

  -- A new object is the template without what a server sets.
  unfoldable pub as_new : GenerateInput S → ProviderObject S → ProviderObject S
  as_new input to = record to {
    resource_version = [];
    finalizers = [];
    uid = [];
    self_link = [];
    name = input.name;
    namespace = input.namespace;
  }

  -- `reflect.DeepEqual` on the maps at `spec`.
  module _ (deep_equal : S → S → Bool) where
    -- `unstructuredSpecEqual`.
    unfoldable pub unstructured_spec_equal :
        ProviderObject S → ProviderObject S → Result GenerateError (S × Bool)
    unstructured_spec_equal old_obj new_obj = elim (spec_of old_obj) [
      | err e ↦ err e
      | ok old_spec ↦ elim (spec_of new_obj) [
        | err e ↦ err e
        | ok new_spec ↦ ok (new_spec, deep_equal old_spec new_spec)
      ]
    ]

    -- `generateProviderObject`: the object, and whether its spec was replaced.
    unfoldable pub generate_provider_object :
        GenerateInput S → Result GenerateError (ProviderObject S × Bool)
    generate_provider_object input = elim input.template.template [
      | malformed ↦ err template_malformed
      | missing ↦ err template_missing
      | present template ↦ elim input.existing_object [
        | none ↦ ok (dress input (as_new input template), false)
        | some o ↦ elim (unstructured_spec_equal o template) [
          | err e ↦ err e
          | ok p ↦
              if p.1
              then ok (dress input o, false)
              else ok (dress input (record o { spec = present p.0 }), true)
        ]
      ]
    ]

-- The calls for the provider's objects: `external.Get` of a template and of an object, each in a
-- namespace, `Update`, `Create`, and `external.GetObjectReference`.
pub record ProviderEnv (W S : Type 0) : Type 0 where
  pub deep_equal : S → S → Bool
  pub get_template : W → ObjectReference → Text → Answer (Template S)
  pub get_object : W → ObjectReference → Text → Answer (ProviderObject S)
  pub update : W → ProviderObject S → W × Written
  pub create : W → ProviderObject S → W × Written
  pub object_reference : ProviderObject S → ObjectReference

-- An error of a call that is, or wraps, not found, another one, or the panic at a nil reference.
pub data ProviderError : Type 0 where
  provider_not_found provider_failed no_reference : ProviderError
  generate_failed : GenerateError → ProviderError

abbrev pub after_write :
    {W : Type 0} → ObjectReference → W × Written → W × Result ProviderError ObjectReference
after_write ref (w, written) = (w, ok ref)
after_write ref (w, write_not_found) = (w, err provider_not_found)
after_write ref (w, write_failed) = (w, err provider_failed)

-- The reference of the object that belongs to a template.
abbrev pub reference : {S : Type 0} → Template S → Text → ObjectReference
reference from name = record {
  api_version = from.api_version;
  kind = trim_suffix from.kind template_suffix;
  namespace = [];
  name = name;
  uid = [];
}

abbrev pub input_of :
    {S C : Type 0}
    → Template S
    → Option (ProviderObject S)
    → Text
    → ClusterStack C
    → GenerateInput S
input_of from existing name stack = record {
  existing_object = existing;
  template = from;
  namespace = stack.namespace;
  name = name;
  labels = stack.labels;
  annotations = stack.annotations;
}

module _ {W S : Type 0} (env : ProviderEnv W S) where
  abbrev pub updated_with :
      W → Result GenerateError (ProviderObject S × Bool) → W × Result ProviderError ObjectReference
  updated_with w (err e) = (w, err (generate_failed e))
  updated_with w (ok (o, true)) = after_write (env.object_reference o) (env.update w o)
  updated_with w (ok (o, false)) = (w, ok (env.object_reference o))

  abbrev pub created_with :
      W → Result GenerateError (ProviderObject S × Bool) → W × Result ProviderError ObjectReference
  created_with w (err e) = (w, err (generate_failed e))
  created_with w (ok (o, _)) = after_write (env.object_reference o) (env.create w o)

  -- An object that exists is updated where its spec differs, and one that does not exist is created.
  unfoldable pub with_existing :
      {C : Type 0}
      → W
      → Template S
      → Text
      → ClusterStack C
      → Answer (ProviderObject S)
      → W × Result ProviderError ObjectReference
  with_existing w from name stack failed = (w, err provider_failed)
  with_existing w from name stack not_found =
      created_with w (generate_provider_object env.deep_equal (input_of from none name stack))
  with_existing w from name stack (found o) =
      updated_with w (generate_provider_object env.deep_equal (input_of from (some o) name stack))

  unfoldable pub with_template :
      {C : Type 0}
      → W
      → Text
      → ClusterStack C
      → Answer (Template S)
      → W × Result ProviderError ObjectReference
  with_template w name stack not_found = (w, err provider_not_found)
  with_template w name stack failed = (w, err provider_failed)
  with_template w name stack (found from) =
      with_existing w from name stack (env.get_object w (reference from name) stack.namespace)

  -- `createOrUpdateProviderClusterStackRelease`.
  unfoldable pub create_or_update_provider :
      {C : Type 0} → W → Text → ClusterStack C → W × Result ProviderError ObjectReference
  create_or_update_provider w name stack = elim stack.spec.provider_ref [
    | none ↦ (w, err no_reference)
    | some ref ↦ with_template w name stack (env.get_template w ref stack.namespace)
  ]
