-- ===== src/Checkpoint/Found.antt =====
-- src/checkpoint_binding.cpp: what the maps of `bind_catalog` find.
use ninfer_nvfp4_glm_5_3_fla.Prelude.{
  ℕ, ◌+◌, ◌≡◌, ◌≢◌, inl, inr, refl, sym, ap, ◌∙◌, true, false, List, [], ◌∷◌, ◌++◌, none, some, map,
  arith, Bytes, eq_list, eq_list_iff, All, Bool-cases, failures, failures_iff, append_empty,
}
use mathlib.Core.Path.{subst}
use ninfer_nvfp4_glm_5_3_fla.Schema.{ExpectedTensor}
use ninfer_nvfp4_glm_5_3_fla.Schema.Distinct.{AllDistinct}
use ninfer_nvfp4_glm_5_3_fla.Schema.Validate.{
  has, entry_errors, dim_errors, shape_checks, storage_checks,
}
use ninfer_nvfp4_glm_5_3_fla.Checkpoint.{Table, has_key, lookup}
use ninfer_nvfp4_glm_5_3_fla.Checkpoint.Bind.{find_source}
use ninfer_nvfp4_glm_5_3_fla.Checkpoint.Seen.{names_of}

pub plain_entry : (t : ExpectedTensor) → entry_errors t ≡ [] → t.mcg_payload ≡ false
unfolding entry_errors
plain_entry t h =
    let (front, stored) =
      append_empty (failures (shape_checks t) ++ dim_errors t.logical_id t.shape)
        (failures (storage_checks t)) h in
    ((failures_iff (storage_checks t)).0 stored).0

pub find_source-All {ℓ} :
    (P : ExpectedTensor → Type ℓ) (name : Bytes) (k : ℕ) (expected : List ExpectedTensor) {i : ℕ}
    {t : ExpectedTensor}
    → All P expected
    → find_source name k expected ≡ some (i, t)
    → P t × (t.source_name ≡ name)
unfolding find_source
find_source-All P name k [] all h = absurd (cc)
find_source-All P name k (s ∷ expected) all h = elim (Bool-cases (eq_list name s.source_name)) [
  | inl e ↦
      let h' = rw e at h in
      let found : s ≡ _ = ap (λ o. elim o [ none ↦ s | some r ↦ r.1 ]) h' in
      (
        subst P found all.0,
        ap (λ u. u.source_name) (sym found) ∙ sym ((eq_list_iff name s.source_name).0 e),
      )
  | inr e ↦ let h' = rw e at h in find_source-All P name (k + 1) expected all.1 h'
]

-- A tensor of a catalogue without repeated names is found by its name.
abbrev pub FoundBy : List ExpectedTensor → ℕ → ExpectedTensor → Type 0
FoundBy expected k t = (i : ℕ) × (find_source t.source_name k expected ≡ some (i, t))

find_source-skip :
    (k : ℕ) (s : ExpectedTensor) (expected others : List ExpectedTensor)
    → All (λ y. s.source_name ≢ y) (names_of others)
    → All (FoundBy expected (k + 1)) others
    → All (FoundBy (s ∷ expected) k) others
unfolding find_source
find_source-skip k s expected [] apart found = tt
find_source-skip k s expected (t ∷ others) apart found =
    elim (Bool-cases (eq_list t.source_name s.source_name)) [
      | inl e ↦ absurd (apart.0 (sym ((eq_list_iff t.source_name s.source_name).0 e)))
      | inr e ↦
          let (i, h) = found.0 in
          ((i, rw e h), find_source-skip k s expected others apart.1 found.1)
    ]

pub find_source_self :
    (k : ℕ) (expected : List ExpectedTensor)
    → AllDistinct (names_of expected)
    → All (FoundBy expected k) expected
unfolding AllDistinct find_source
find_source_self k [] d = tt
find_source_self k (t ∷ expected) d = (
  (k, rw ((eq_list_iff t.source_name t.source_name).1 refl) refl),
  find_source-skip k t expected expected d.0 (find_source_self (k + 1) expected d.1),
)

pub find_source-has :
    (name : Bytes) (k : ℕ) (expected : List ExpectedTensor)
    → has (names_of expected) name ≡ false
    → find_source name k expected ≡ none
unfolding find_source has
find_source-has name k [] h = refl
find_source-has name k (t ∷ expected) h = ground (arith, find_source-has name (k + 1) expected)

pub find_source-known :
    (name : Bytes) (k : ℕ) (expected : List ExpectedTensor)
    → has (names_of expected) name ≡ true
    → (i : ℕ) × (t : ExpectedTensor) × (find_source name k expected ≡ some (i, t))
unfolding find_source has
find_source-known name k [] h = absurd (cc)
find_source-known name k (t ∷ expected) h = elim (Bool-cases (eq_list name t.source_name)) [
  | inl e ↦ (k, t, rw e refl)
  | inr e ↦ let (i, u, f) = find_source-known name (k + 1) expected (rw e at h) in (i, u, rw e f)
]

module _ {V : Type 0} where
  -- What is found under a key that is there.
  pub lookup-entry {ℓ} :
      (P : Bytes × V → Type ℓ) (key : Bytes) (table : Table V)
      → All P table
      → has_key key table ≡ true
      → (v : V) × (lookup key table ≡ some v) × P (key, v)
  unfolding lookup has_key
  lookup-entry P key [] all h = absurd (cc)
  lookup-entry P key ((k, v) ∷ table) all h = elim (Bool-cases (eq_list key k)) [
    | inl e ↦ (v, rw e refl, subst (λ n. P (n, v)) (sym ((eq_list_iff key k).0 e)) all.0)
    | inr e ↦ let (w, found, p) = lookup-entry P key table all.1 (rw e at h) in (w, rw e found, p)
  ]

  pub lookup-has_key :
      (key : Bytes) (table : Table V) {v : V} → lookup key table ≡ some v → has_key key table ≡ true
  unfolding lookup has_key
  lookup-has_key key [] h = absurd (cc)
  lookup-has_key key ((k, w) ∷ table) h = elim (Bool-cases (eq_list key k)) [
    | inl e ↦ rw e refl
    | inr e ↦ rw e (lookup-has_key key table (rw e at h))
  ]

  lookup-skip :
      (k : Bytes) (w : V) (table others : Table V)
      → All (λ y. k ≢ y) (map (λ e. e.0) others)
      → All (λ e. lookup e.0 table ≡ some e.1) others
      → All (λ e. lookup e.0 ((k, w) ∷ table) ≡ some e.1) others
  unfolding lookup
  lookup-skip k w table [] apart found = tt
  lookup-skip k w table ((j, v) ∷ others) apart found = elim (Bool-cases (eq_list j k)) [
    | inl e ↦ absurd (apart.0 (sym ((eq_list_iff j k).0 e)))
    | inr e ↦ (rw e found.0, lookup-skip k w table others apart.1 found.1)
  ]

  -- An entry of a table without repeated keys is found under its key.
  pub lookup_self :
      (table : Table V)
      → AllDistinct (map (λ e. e.0) table)
      → All (λ e. lookup e.0 table ≡ some e.1) table
  unfolding AllDistinct lookup
  lookup_self [] d = tt
  lookup_self ((k, v) ∷ table) d =
      (rw ((eq_list_iff k k).1 refl) refl, lookup-skip k v table table d.0 (lookup_self table d.1))
