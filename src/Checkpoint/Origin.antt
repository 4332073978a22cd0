-- ===== src/Checkpoint/Origin.antt =====
-- src/checkpoint_binding.cpp: the files that the entries of a gathered catalogue come from.
use ninfer_nvfp4_glm_5_3_fla.Prelude.{
  ◌≡◌, ◌⊎◌, inl, inr, refl, ap, Bool, true, false, not, ◌||◌, List, [], ◌∷◌, ◌++◌, Option, some,
  if◌then◌else◌, text, Bytes, All, Bool-cases, Option-cases, Result, ok, threw, ok-injective, arith,
  Exception,
}
use mathlib.Core.Path.{subst}
use ninfer_nvfp4_glm_5_3_fla.Checkpoint.{
  ObservedTensor, blank_observed, Table, TensorCatalog, has_key, emplace, BindingReport,
}
use ninfer_nvfp4_glm_5_3_fla.Checkpoint.Header.{parse_weight_map}
use ninfer_nvfp4_glm_5_3_fla.Checkpoint.Shard.{io_error, read_bytes, read_shard}
use ninfer_nvfp4_glm_5_3_fla.Checkpoint.Gather.{what, merge_catalog, given_back, named_catalog}
use ninfer_nvfp4_glm_5_3_fla.Checkpoint.Directory.{Files, safe_relative_shard_name, read_shards}

abbrev pub Entry : Type 0
Entry = Bytes × ObservedTensor

abbrev pub index_name : Bytes
index_name = text "model.safetensors.index.json"

pub data Among {A : Type 0} (x : A) : List A → Type 0 where
  here : {xs : List A} → Among x (x ∷ xs)
  there : {y : A} {xs : List A} → Among x xs → Among x (y ∷ xs)

All-Among : {A : Type 0} (P : A → Type 0) (xs : List A) → ((x : A) → Among x xs → P x) → All P xs
All-Among P [] h = tt
All-Among P (x ∷ xs) h = (h x here, All-Among P xs (λ y among. h y (there among)))

-- A name that the index file of the directory lists, with its shard and nothing else.
pub record FromIndex (files : Files) (entry : Entry) : Type 0 where
  pub bytes : Bytes
  pub weight_map : Table Bytes
  pub shard : Bytes
  pub is_file : files.is_regular index_name ≡ true
  pub contents : files.contents index_name ≡ some bytes
  pub parsed : parse_weight_map bytes ≡ ok weight_map
  pub listed : Among (entry.0, shard) weight_map
  pub is_blank : entry.1 ≡ record blank_observed { shard = shard }

-- A tensor that was read from a shard, a file of the directory with a safe name.
pub record FromShard (files : Files) (names_only : Bool) (entry : Entry) : Type 0 where
  pub shard : Bytes
  pub file : Bytes
  pub tensors : TensorCatalog
  pub before : Option BindingReport
  pub after : Option BindingReport
  pub is_safe : safe_relative_shard_name shard ≡ true
  pub is_file : files.is_regular shard ≡ true
  pub contents : files.contents shard ≡ some file
  pub read : read_bytes file shard (not names_only) before ≡ ok (tensors, after)
  pub held : Among entry tensors

abbrev pub Origin : Files → Bool → Entry → Type 0
Origin files names_only entry =
    ((names_only ≡ true) × FromIndex files entry) ⊎ FromShard files names_only entry

All-append : {A : Type 0} (P : A → Type 0) (xs ys : List A) → All P xs → All P ys → All P (xs ++ ys)
All-append P [] ys h k = k
All-append P (x ∷ xs) ys h k = (h.0, All-append P xs ys h.1 k)

module _ (P : Entry → Type 0) where
  emplace-All :
      (name : Bytes) (o : ObservedTensor) (catalog : TensorCatalog)
      → P (name, o)
      → All P catalog
      → All P (emplace name o catalog)
  unfolding emplace
  emplace-All name o catalog h k = elim (Bool-cases (has_key name catalog)) [
    | inl e ↦ rw e k
    | inr e ↦ rw e (All-append P catalog ((name, o) ∷ []) k (h, tt))
  ]

  merge_catalog-All :
      (tensors catalog : TensorCatalog) (report : BindingReport)
      → All P tensors
      → All P catalog
      → All P (merge_catalog tensors (catalog, report)).0
  unfolding merge_catalog
  merge_catalog-All [] catalog report h k = k
  merge_catalog-All ((name, o) ∷ tensors) catalog report h k =
      merge_catalog-All tensors (emplace name o catalog) _ h.1 (emplace-All name o catalog h.0 k)

  pub named_catalog-All :
      (weight_map : Table Bytes)
      → ((name shard : Bytes)
          → Among (name, shard) weight_map
          → P (name, record blank_observed { shard = shard }))
      → All P (named_catalog weight_map)
  unfolding named_catalog
  named_catalog-All [] h = tt
  named_catalog-All ((name, shard) ∷ weight_map) h =
      (h name shard here, named_catalog-All weight_map (λ n s among. h n s (there among)))

pub Result-cases :
    {A : Type 0} (m : Result A) → ((a : A) × (m ≡ ok a)) ⊎ ((e : Exception) × (m ≡ threw e))
Result-cases (ok a) = inl (a, refl)
Result-cases (threw e) = inr (e, refl)

pub if-cases :
    {S : Type 0} (P : S → Type 0) (b : Bool) (u v : S)
    → (b ≡ true → P u)
    → (b ≡ false → P v)
    → P (if b then u else v)
if-cases P true u v h k = h refl
if-cases P false u v h k = k refl

module _ (files : Files) (names_only : Bool) where
  -- What one shard holds.
  read_shard-Origin :
      (shard : Bytes) (report : BindingReport) (tensors : TensorCatalog)
      (back : Option BindingReport)
      → safe_relative_shard_name shard ≡ true
      → files.is_regular shard ≡ true
      → read_shard shard (files.contents shard) shard (not names_only) (some report)
        ≡ ok (tensors, back)
      → All (Origin files names_only) tensors
  unfolding read_shard
  read_shard-Origin shard report tensors back safe regular h =
      elim (Option-cases (files.contents shard)) [
        | inl e ↦
            let h' = rw (e, read_shard) at h in
            subst (All (Origin files names_only)) (ap (λ r. r.0) (ok-injective h')) tt
        | inr (file, e) ↦ All-Among (Origin files names_only) tensors λ entry held. inr (record {
          shard = shard;
          file = file;
          tensors = tensors;
          before = some report;
          after = back;
          is_safe = safe;
          is_file = regular;
          contents = e;
          read = rw (e, read_shard) at h;
          held = held;
        })
      ]

  -- A catalogue whose entries come from the files, with the report.
  abbrev pub Gathered : TensorCatalog × BindingReport → Type 0
  Gathered state = All (Origin files names_only) state.0

  merged-Gathered :
      (catalog : TensorCatalog) (report : BindingReport)
      (m : Result (TensorCatalog × Option BindingReport))
      → ((tensors : TensorCatalog) (back : Option BindingReport)
          → m ≡ ok (tensors, back)
          → All (Origin files names_only) tensors)
      → Gathered (catalog, report)
      → Gathered (elim m [
        | threw error ↦ (catalog, io_error report (what error))
        | ok (tensors, back) ↦ merge_catalog tensors (catalog, given_back back report)
      ])
  merged-Gathered catalog report (threw error) h k = k
  merged-Gathered catalog report (ok (tensors, back)) h k =
      merge_catalog-All (Origin files names_only) tensors catalog (given_back back report)
        (h tensors back refl) k

  pub read_shards-Origin :
      (shards : List Bytes) (state : TensorCatalog × BindingReport)
      → Gathered state
      → Gathered (read_shards files names_only shards state)
  unfolding read_shards
  read_shards-Origin [] state h = h
  read_shards-Origin (shard ∷ shards) (catalog, report) h =
      let skipped = not (safe_relative_shard_name shard) || not (files.is_regular shard) in
      read_shards-Origin shards _ (
        if-cases Gathered skipped (catalog, report) _ (λ e. h)
          λ e.
            let (safe, regular) : (safe_relative_shard_name shard ≡ true)
                × (files.is_regular shard ≡ true) =
              ground arith in
            merged-Gathered catalog report
              (read_shard shard (files.contents shard) shard (not names_only) (some report))
              (λ tensors back r. read_shard-Origin shard report tensors back safe regular r) h)
