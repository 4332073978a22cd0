-- ===== src/Checkpoint/Seen.antt =====
-- src/checkpoint_binding.cpp: which expected tensors `bind_catalog` marks as seen.
use ninfer_nvfp4_glm_5_3_fla.Prelude.{
  ℕ, suc, ◌+◌, ◌-◌, ◌≤◌, ◌≡◌, ◌≢◌, ◌↔◌, inl, inr, refl, sym, ap, ◌∙◌, Bool, true, false, ◌||◌, List,
  [], ◌∷◌, Option, none, some, map, arith, if◌then◌else◌, Bytes, eq_list, eq_list_iff, length,
  replicate, set, All, Bool-cases, Option-cases,
}
use mathlib.Core.Path.{subst}
use ninfer_nvfp4_glm_5_3_fla.Schema.{ExpectedTensor}
use ninfer_nvfp4_glm_5_3_fla.Schema.Distinct.{AllDistinct}
use ninfer_nvfp4_glm_5_3_fla.Checkpoint.{ObservedTensor, TensorCatalog, BindingReport, has_key}
use ninfer_nvfp4_glm_5_3_fla.Checkpoint.Bind.{find_source, bind_entry, bind_entries}
use ninfer_nvfp4_glm_5_3_fla.Checkpoint.Faults.{missing_faults}

abbrev pub names_of : List ExpectedTensor → List Bytes
names_of expected = map (λ tensor. tensor.source_name) expected

-- The marks of the tensors of one name added.
unfoldable pub mark : Bytes → List ExpectedTensor → List Bool → List Bool
mark name [] seen = seen
mark name (t ∷ expected) [] = []
mark name (t ∷ expected) (b ∷ seen) = (eq_list name t.source_name || b) ∷ mark name expected seen

abbrev mark_found : Option (ℕ × ExpectedTensor) → ℕ → List Bool → List Bool
mark_found none k seen = seen
mark_found (some (i, t)) k seen = set seen (i - k) true

pub find_source-ge :
    (name : Bytes) (k : ℕ) (expected : List ExpectedTensor) {i : ℕ} {t : ExpectedTensor}
    → find_source name k expected ≡ some (i, t)
    → k ≤ i
unfolding find_source
find_source-ge name k [] h = absurd (cc)
find_source-ge name k (s ∷ expected) h = elim (Bool-cases (eq_list name s.source_name)) [
  | inl e ↦ let h' = rw e at h in ground (arith, h')
  | inr e ↦ let h' = rw e at h in omega (arith, find_source-ge name (k + 1) expected h')
]

mark-none :
    (name : Bytes) (expected : List ExpectedTensor) (seen : List Bool)
    → All (λ y. name ≢ y) (names_of expected)
    → mark name expected seen ≡ seen
unfolding mark
mark-none name [] seen h = refl
mark-none name (t ∷ expected) [] h = refl
mark-none name (t ∷ expected) (b ∷ seen) h = elim (Bool-cases (eq_list name t.source_name)) [
  | inl e ↦ absurd (h.0 ((eq_list_iff name t.source_name).0 e))
  | inr e ↦ rw (e, mark-none name expected seen h.1) refl
]

mark_found-nil : (o : Option (ℕ × ExpectedTensor)) (k : ℕ) → mark_found o k [] ≡ []
mark_found-nil none k = refl
mark_found-nil (some (i, t)) k = refl

-- A tensor that is found further on is marked further on.
mark_found-next :
    (name : Bytes) (k : ℕ) (expected : List ExpectedTensor) (b : Bool) (seen : List Bool)
    → mark_found (find_source name (k + 1) expected) k (b ∷ seen)
      ≡ b ∷ mark_found (find_source name (k + 1) expected) (k + 1) seen
mark_found-next name k expected b seen = elim (Option-cases (find_source name (k + 1) expected)) [
  | inl e ↦ rw e refl
  | inr ((i, t), e) ↦
      let far = find_source-ge name (k + 1) expected e in
      let next : i - k ≡ suc (i - (k + 1)) = omega (arith, far) in rw (e, mark_found, next) refl
]

mark_found-mark :
    (name : Bytes) (k : ℕ) (expected : List ExpectedTensor) (seen : List Bool)
    → AllDistinct (names_of expected)
    → mark_found (find_source name k expected) k seen ≡ mark name expected seen
unfolding find_source mark AllDistinct
mark_found-mark name k [] seen d = refl
mark_found-mark name k (t ∷ expected) [] d = mark_found-nil (find_source name k (t ∷ expected)) k
mark_found-mark name k (t ∷ expected) (b ∷ seen) d =
    elim (Bool-cases (eq_list name t.source_name)) [
      | inl e ↦
          let same = (eq_list_iff name t.source_name).0 e in
          let apart : All (λ y. name ≢ y) (names_of expected) =
            subst (λ n. All (λ y. n ≢ y) (names_of expected)) (sym same) d.0 in
          let here : k - k ≡ 0 = omega arith in
          rw (e, mark_found, here, mark-none name expected seen apart) refl
      | inr e ↦ rw e (
          mark_found-next name k expected b seen
          ∙ ap (λ s. b ∷ s) (mark_found-mark name (k + 1) expected seen d.1))
    ]

abbrev pub marks : TensorCatalog → List ExpectedTensor → List Bool → List Bool
marks [] expected seen = seen
marks ((name, o) ∷ catalog) expected seen = marks catalog expected (mark name expected seen)

bind_entry-mark :
    (expected : List ExpectedTensor) (required : Bool) (name : Bytes) (o : ObservedTensor)
    (r : BindingReport) (seen : List Bool)
    → (bind_entry expected required name o (r, seen)).1
      ≡ mark_found (find_source name 0 expected) 0 seen
unfolding bind_entry
bind_entry-mark expected required name o r seen =
    elim (Option-cases (find_source name 0 expected)) [
      | inl e ↦ rw (e, bind_entry) refl
      | inr ((i, t), e) ↦ rw (e, bind_entry) (ap (λ j. set seen j true) (omega arith))
    ]

pub bind_entries-marks :
    (expected : List ExpectedTensor) (required : Bool) (catalog : TensorCatalog)
    (state : BindingReport × List Bool)
    → AllDistinct (names_of expected)
    → (bind_entries expected required catalog state).1 ≡ marks catalog expected state.1
unfolding bind_entries
bind_entries-marks expected required [] state d = refl
bind_entries-marks expected required ((name, o) ∷ catalog) (r, seen) d =
    bind_entries-marks expected required catalog (bind_entry expected required name o (r, seen)) d
    ∙ ap (marks catalog expected)
        (bind_entry-mark expected required name o r seen ∙ mark_found-mark name 0 expected seen d)

eq_list_comm : (xs ys : Bytes) → eq_list xs ys ≡ eq_list ys xs
unfolding eq_list
eq_list_comm [] [] = refl
eq_list_comm [] (y ∷ ys) = refl
eq_list_comm (x ∷ xs) [] = refl
eq_list_comm (x ∷ xs) (y ∷ ys) = ground (arith, eq_list_comm xs ys)

merge : (a n b : Bool) → a || (n || b) ≡ (if n then true else a) || b
merge a n b = ground arith

-- Tensor by tensor: it is marked if the catalogue has its name.
marks-cons :
    (catalog : TensorCatalog) (t : ExpectedTensor) (expected : List ExpectedTensor) (b : Bool)
    (seen : List Bool)
    → marks catalog (t ∷ expected) (b ∷ seen)
      ≡ (has_key t.source_name catalog || b) ∷ marks catalog expected seen
unfolding has_key mark
marks-cons [] t expected b seen = refl
marks-cons ((name, o) ∷ catalog) t expected b seen =
    marks-cons catalog t expected (eq_list name t.source_name || b) (mark name expected seen)
    ∙ ap (λ x. x ∷ marks catalog expected (mark name expected seen))
        (rw (eq_list_comm name t.source_name)
          (merge (has_key t.source_name catalog) (eq_list t.source_name name) b))

pub missing_marks :
    (catalog : TensorCatalog) (expected : List ExpectedTensor)
    → (missing_faults expected (marks catalog expected (replicate (length expected) false)) ≡ 0)
      ↔ All (λ t. has_key t.source_name catalog ≡ true) expected
missing_marks catalog [] = (λ h. tt, λ h. refl)
missing_marks catalog (t ∷ expected) =
    rw (marks-cons catalog t expected false (replicate (length expected) false))
      (ground (arith, missing_marks catalog expected))
