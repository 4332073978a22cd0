-- ===== src/Checkpoint/Whole.antt =====
-- src/checkpoint_binding.cpp: a complete binding, by the names and the entries of both catalogues.
use ninfer_nvfp4_glm_5_3_fla.Prelude.{
  ℕ, ◌+◌, ◌≡◌, ◌↔◌, inl, inr, refl, sym, ap, ◌∙◌, Bool, true, List, [], ◌∷◌, some, map, arith,
  Bytes, length, All, Bool-cases,
}
use mathlib.Core.Path.{subst}
use ninfer_nvfp4_glm_5_3_fla.Schema.{ExpectedTensor}
use ninfer_nvfp4_glm_5_3_fla.Schema.Distinct.{AllDistinct, IsEntry, validate_parameter_catalog_iff}
use ninfer_nvfp4_glm_5_3_fla.Schema.Validate.{has, validate_parameter_catalog}
use ninfer_nvfp4_glm_5_3_fla.Checkpoint.{
  CheckpointKind, ObservedTensor, TensorCatalog, has_key, lookup,
}
use ninfer_nvfp4_glm_5_3_fla.Checkpoint.Bind.{find_source, bind_catalog}
use ninfer_nvfp4_glm_5_3_fla.Checkpoint.Faults.{bound_faults, entry_faults}
use ninfer_nvfp4_glm_5_3_fla.Checkpoint.Seen.{names_of}
use ninfer_nvfp4_glm_5_3_fla.Checkpoint.Complete.{
  Fits, bound_faults_iff, catalog_faults_iff, bind_catalog-faults, missing_iff,
}
use ninfer_nvfp4_glm_5_3_fla.Checkpoint.Found.{
  plain_entry, find_source-All, FoundBy, find_source_self, find_source-has, find_source-known,
  lookup-entry, lookup-has_key, lookup_self,
}

entry-found :
    (expected : List ExpectedTensor) (required : Bool) (name : Bytes) (o : ObservedTensor) {i : ℕ}
    {t : ExpectedTensor}
    → find_source name 0 expected ≡ some (i, t)
    → entry_faults expected required (name, o) ≡ bound_faults required t o
entry-found expected required name o f = rw (f, entry_faults) refl

entry-known :
    (expected : List ExpectedTensor) (required : Bool) (entry : Bytes × ObservedTensor)
    → entry_faults expected required entry ≡ 0
    → has (names_of expected) entry.0 ≡ true
entry-known expected required (name, o) h = elim (Bool-cases (has (names_of expected) name)) [
  | inl e ↦ e
  | inr e ↦
      let f = find_source-has name 0 expected e in
      let h' = rw (f, entry_faults) at h in absurd (omega (arith, h'))
]

-- A tensor that the catalogue has, with what is expected of it.
pub record Present (required : Bool) (observed : TensorCatalog) (t : ExpectedTensor) : Type 0 where
  pub tensor : ObservedTensor
  pub found : lookup t.source_name observed ≡ some tensor
  pub fits : Fits required t tensor

module _ (expected : List ExpectedTensor) (observed : TensorCatalog) (required : Bool) where
  All-known :
      (entries : TensorCatalog)
      → All (λ entry. entry_faults expected required entry ≡ 0) entries
      → All (λ entry. has (names_of expected) entry.0 ≡ true) entries
  All-known [] h = tt
  All-known (entry ∷ entries) h = (entry-known expected required entry h.0, All-known entries h.1)

  All-Present :
      (others : List ExpectedTensor)
      → All (λ entry. entry_faults expected required entry ≡ 0) observed
      → All IsEntry others
      → All (FoundBy expected 0) others
      → All (λ t. has_key t.source_name observed ≡ true) others
      → All (Present required observed) others
  All-Present [] bound valid found there = tt
  All-Present (t ∷ others) bound valid found there =
      let (o, at, free) =
        lookup-entry (λ entry. entry_faults expected required entry ≡ 0) t.source_name observed
          bound there.0 in
      let (i, f) = found.0 in
      let none_against = sym (entry-found expected required t.source_name o f) ∙ free in
      let (id, name, passes) = valid.0 in
      let fits = (bound_faults_iff required t o (plain_entry t passes)).0 none_against in
      (
        record { tensor = o; found = at; fits = fits },
        All-Present others bound valid.1 found.1 there.1,
      )

  All-there :
      (others : List ExpectedTensor)
      → All (Present required observed) others
      → All (λ t. has_key t.source_name observed ≡ true) others
  All-there [] h = tt
  All-there (t ∷ others) h = (lookup-has_key t.source_name observed h.0.found, All-there others h.1)

  -- Entries and their presence together.
  both :
      (others : List ExpectedTensor)
      → All IsEntry others
      → All (Present required observed) others
      → All (λ t. IsEntry t × Present required observed t) others
  both [] h k = tt
  both (t ∷ others) h k = ((h.0, k.0), both others h.1 k.1)

  All-bound :
      (entries : TensorCatalog)
      → All (λ t. IsEntry t × Present required observed t) expected
      → All (λ entry. lookup entry.0 observed ≡ some entry.1) entries
      → All (λ entry. has (names_of expected) entry.0 ≡ true) entries
      → All (λ entry. entry_faults expected required entry ≡ 0) entries
  All-bound [] present found known = tt
  All-bound ((name, o) ∷ entries) present found known =
      let (i, t, f) = find_source-known name 0 expected known.0 in
      let ((valid, there), same) =
        find_source-All (λ t. IsEntry t × Present required observed t) name 0 expected present f in
      let at : lookup name observed ≡ some there.tensor =
        subst (λ n. lookup n observed ≡ some there.tensor) same there.found in
      let tensor : there.tensor ≡ o = cc (at, found.0) in
      let fits : Fits required t o = subst (Fits required t) tensor there.fits in
      let (id, named, passes) = valid in
      (
        entry-found expected required name o f
            ∙ (bound_faults_iff required t o (plain_entry t passes)).1 fits,
        All-bound entries present found.1 known.1,
      )

three_zero : (a b c : ℕ) → a + b + c ≡ 0 → (a ≡ 0) × (b ≡ 0) × (c ≡ 0)
three_zero a b c h = omega arith

no_errors : (errors : List Bytes) → length errors ≡ 0 → errors ≡ []
no_errors [] h = refl
no_errors (e ∷ errors) h = absurd (omega arith)

-- Of a catalogue of observed tensors without repeated names, the binding is complete exactly when the
-- expected catalogue is valid, every expected tensor is observed under its source name, with its type
-- and shape where there is metadata, which may only be missing where it is not required, and every
-- observed name is the source name of an expected tensor.
pub bind_catalog-complete_iff :
    (kind : CheckpointKind) (expected : List ExpectedTensor) (observed : TensorCatalog)
    (required : Bool)
    → AllDistinct (map (λ entry. entry.0) observed)
    → ((bind_catalog kind expected observed required).complete ≡ true) ↔ (
        (validate_parameter_catalog expected ≡ [])
        × All (Present required observed) expected
        × All (λ entry. has (names_of expected) entry.0 ≡ true) observed)
bind_catalog-complete_iff kind expected observed required distinct =
    let counts = bind_catalog-faults kind expected observed required in
    (
      λ complete.
          let (errors, catalog, missing) = three_zero _ _ _ (counts.0 complete) in
          let valid = no_errors (validate_parameter_catalog expected) errors in
          let (all, ids, names) = (validate_parameter_catalog_iff expected).0 valid in
          let bound = (catalog_faults_iff expected required observed).0 catalog in
          let there = (missing_iff kind expected observed required names).0 missing in
          (
            valid,
            All-Present expected observed required expected bound all
                (find_source_self 0 expected names) there,
            All-known expected observed required observed bound,
          ),
      λ (valid, present, known).
          let (all, ids, names) = (validate_parameter_catalog_iff expected).0 valid in
          let bound =
            All-bound expected observed required observed
              (both expected observed required expected all present) (lookup_self observed distinct)
              known in
          let catalog = (catalog_faults_iff expected required observed).1 bound in
          let there = All-there expected observed required expected present in
          let missing = (missing_iff kind expected observed required names).1 there in
          counts.1 (omega (arith, ap length valid, catalog, missing)),
    )
