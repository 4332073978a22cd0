-- ===== src/Checkpoint/Covered.antt =====
-- src/checkpoint_binding.cpp: a gathered catalogue leaves nothing out that was read.
use ninfer_nvfp4_glm_5_3_fla.Prelude.{
  ◌≡◌, ◌⊎◌, inl, inr, refl, Bool, true, false, not, ◌&&◌, ◌||◌, List, [], ◌∷◌, ◌++◌, Option, some,
  ltb, ◌==◌, Bytes, eq_list, eq_list_iff, length, All, Bool-cases, Exception, Result, ok, threw,
  arith,
}
use ninfer_nvfp4_glm_5_3_fla.Checkpoint.{
  ObservedTensor, Table, TensorCatalog, has_key, emplace, BindingReport,
}
use ninfer_nvfp4_glm_5_3_fla.Checkpoint.Shard.{io_error, read_shard}
use ninfer_nvfp4_glm_5_3_fla.Checkpoint.Gather.{what, merge_catalog, given_back, named_catalog}
use ninfer_nvfp4_glm_5_3_fla.Checkpoint.Origin.{Entry, if-cases}
use ninfer_nvfp4_glm_5_3_fla.Checkpoint.Directory.{
  Files, safe_relative_shard_name, read_shards, gather_catalog,
}

abbrev pub Has : TensorCatalog → Entry → Type 0
Has catalog entry = has_key entry.0 catalog ≡ true

has_key-append :
    (name : Bytes) (xs ys : TensorCatalog) → has_key name xs ≡ true → has_key name (xs ++ ys) ≡ true
unfolding has_key
has_key-append name [] ys h = absurd (cc)
has_key-append name ((k, v) ∷ xs) ys h = elim (Bool-cases (eq_list name k)) [
  | inl e ↦ rw e refl
  | inr e ↦ rw e (has_key-append name xs ys (rw e at h))
]

has_key-last :
    (name : Bytes) (o : ObservedTensor) (xs : TensorCatalog)
    → has_key name (xs ++ (name, o) ∷ []) ≡ true
unfolding has_key
has_key-last name o [] = rw ((eq_list_iff name name).1 refl) refl
has_key-last name o ((k, v) ∷ xs) = elim (Bool-cases (eq_list name k)) [
  | inl e ↦ rw e refl
  | inr e ↦ rw e (has_key-last name o xs)
]

emplace-keeps :
    (name key : Bytes) (o : ObservedTensor) (catalog : TensorCatalog)
    → has_key name catalog ≡ true
    → has_key name (emplace key o catalog) ≡ true
unfolding emplace
emplace-keeps name key o catalog h =
    if-cases (λ c. has_key name c ≡ true) (has_key key catalog) catalog (catalog ++ (key, o) ∷ [])
      (λ e. h) (λ e. has_key-append name catalog ((key, o) ∷ []) h)

emplace_there :
    (name : Bytes) (o : ObservedTensor) (catalog : TensorCatalog)
    → has_key name (emplace name o catalog) ≡ true
unfolding emplace
emplace_there name o catalog =
    if-cases (λ c. has_key name c ≡ true) (has_key name catalog) catalog (catalog ++ (name, o) ∷ [])
      (λ e. e) (λ e. has_key-last name o catalog)

merge_catalog-keeps :
    (name : Bytes) (tensors catalog : TensorCatalog) (report : BindingReport)
    → has_key name catalog ≡ true
    → has_key name (merge_catalog tensors (catalog, report)).0 ≡ true
unfolding merge_catalog
merge_catalog-keeps name [] catalog report h = h
merge_catalog-keeps name ((k, o) ∷ tensors) catalog report h =
    merge_catalog-keeps name tensors (emplace k o catalog) _ (emplace-keeps name k o catalog h)

merge_catalog-Has :
    (tensors catalog : TensorCatalog) (report : BindingReport)
    → All (Has (merge_catalog tensors (catalog, report)).0) tensors
unfolding merge_catalog
merge_catalog-Has [] catalog report = tt
merge_catalog-Has ((k, o) ∷ tensors) catalog report = (
  merge_catalog-keeps k tensors (emplace k o catalog) _ (emplace_there k o catalog),
  merge_catalog-Has tensors (emplace k o catalog) _,
)

All-weaken :
    {A : Type 0} (P Q : A → Type 0) (xs : List A) → ((x : A) → P x → Q x) → All P xs → All Q xs
All-weaken P Q [] h k = tt
All-weaken P Q (x ∷ xs) h k = (h x k.0, All-weaken P Q xs h k.1)

-- What becomes of a shard: it is passed over, for its name or because it is no file, its reading
-- throws, or the catalogue has all its tensors.
pub data Covered (files : Files) (names_only : Bool) (catalog : TensorCatalog) (shard : Bytes)
    : Type 0 where
  passed_over :
      (safe_relative_shard_name shard && files.is_regular shard) ≡ false
      → Covered files names_only catalog shard
  refused :
      (before : Option BindingReport) (error : Exception)
      → read_shard shard (files.contents shard) shard (not names_only) before ≡ threw error
      → Covered files names_only catalog shard
  joined :
      (before back : Option BindingReport) (tensors : TensorCatalog)
      → read_shard shard (files.contents shard) shard (not names_only) before ≡ ok (tensors, back)
      → All (Has catalog) tensors
      → Covered files names_only catalog shard

module _ (files : Files) (names_only : Bool) where
  merged_step :
      (catalog : TensorCatalog) (report : BindingReport)
      (m : Result (TensorCatalog × Option BindingReport))
      → let state : TensorCatalog × BindingReport = elim m [
        | threw error ↦ (catalog, io_error report (what error))
        | ok (tensors, back) ↦ merge_catalog tensors (catalog, given_back back report)
      ] in
        ((name : Bytes) → has_key name catalog ≡ true → has_key name state.0 ≡ true)
        × (((error : Exception) × (m ≡ threw error))
            ⊎ ((tensors : TensorCatalog) × (back : Option BindingReport) × (m ≡ ok (tensors, back))
                × All (Has state.0) tensors))
  merged_step catalog report (threw error) = (λ name h. h, inl (error, refl))
  merged_step catalog report (ok (tensors, back)) = (
    λ name h. merge_catalog-keeps name tensors catalog (given_back back report) h,
    inr (tensors, back, refl, merge_catalog-Has tensors catalog (given_back back report)),
  )

  read_shards-keeps :
      (name : Bytes) (shards : List Bytes) (state : TensorCatalog × BindingReport)
      → has_key name state.0 ≡ true
      → has_key name (read_shards files names_only shards state).0 ≡ true
  unfolding read_shards
  read_shards-keeps name [] state h = h
  read_shards-keeps name (shard ∷ shards) (catalog, report) h =
      let skipped = not (safe_relative_shard_name shard) || not (files.is_regular shard) in
      read_shards-keeps name shards _ (
        if-cases (λ (s : TensorCatalog × BindingReport). has_key name s.0 ≡ true) skipped
          (catalog, report) _ (λ e. h)
          λ e.
            (merged_step catalog report
                (read_shard shard (files.contents shard) shard (not names_only) (some report))).0
              name h)

  read_shards-Covered :
      (shards : List Bytes) (state : TensorCatalog × BindingReport)
      → All (Covered files names_only (read_shards files names_only shards state).0) shards
  unfolding read_shards
  read_shards-Covered [] state = tt
  read_shards-Covered (shard ∷ shards) (catalog, report) = (
    if-cases
        (λ (s : TensorCatalog × BindingReport).
          Covered files names_only (read_shards files names_only shards s).0 shard)
        (not (safe_relative_shard_name shard) || not (files.is_regular shard)) (catalog, report) _
        (λ e. passed_over (ground arith))
        (λ e.
          let (keeps, outcome) =
            merged_step catalog report
              (read_shard shard (files.contents shard) shard (not names_only) (some report)) in
          elim outcome [
            | inl (error, r) ↦ refused (some report) error r
            | inr (tensors, back, r, has) ↦ joined (some report) back tensors r (
                All-weaken (Has _) (Has _) tensors (λ entry h. read_shards-keeps entry.0 shards _ h)
                  has)
          ]),
    read_shards-Covered shards _,
  )

named-keeps :
    (name key shard : Bytes) (entries : Table Bytes)
    → has_key name (named_catalog entries) ≡ true
    → has_key name (named_catalog ((key, shard) ∷ entries)) ≡ true
unfolding named_catalog has_key
named-keeps name key shard entries h = elim (Bool-cases (eq_list name key)) [
  | inl e ↦ rw e refl
  | inr e ↦ rw e h
]

named_catalog-Has :
    (entries : Table Bytes) → All (λ entry. has_key entry.0 (named_catalog entries) ≡ true) entries
unfolding named_catalog has_key
named_catalog-Has [] = tt
named_catalog-Has ((name, shard) ∷ entries) = (
  rw ((eq_list_iff name name).1 refl) refl,
  All-weaken (λ entry. has_key entry.0 (named_catalog entries) ≡ true)
      (λ entry. has_key entry.0 (named_catalog ((name, shard) ∷ entries)) ≡ true) entries
      (λ entry h. named-keeps entry.0 name shard entries h) (named_catalog-Has entries),
)

-- The catalogue has every name of the weight map, where only names are asked for and there are any,
-- or what was read of every shard.
abbrev pub IsWhole : Files → Bool → Table Bytes → List Bytes → TensorCatalog → Type 0
IsWhole files names_only weight_map shards catalog =
    ((names_only ≡ true) × All (λ entry. has_key entry.0 catalog ≡ true) weight_map)
    ⊎ All (Covered files names_only catalog) shards

no_shards :
    (files : Files) (names_only : Bool) (shards : List Bytes)
    → ltb 0 (length shards) ≡ false
    → All (Covered files names_only []) shards
no_shards files names_only [] h = tt
no_shards files names_only (shard ∷ shards) h = absurd (ground arith)

pub gather_catalog-IsWhole :
    (files : Files) (names_only : Bool) (weight_map : Table Bytes) (shards : List Bytes)
    (report : BindingReport)
    → IsWhole files names_only weight_map shards
        (gather_catalog files names_only weight_map shards report).0
unfolding gather_catalog
gather_catalog-IsWhole files names_only weight_map shards report =
    if-cases (λ (s : TensorCatalog × BindingReport). IsWhole files names_only weight_map shards s.0)
      (names_only && ltb 0 (length weight_map)) (named_catalog weight_map, report) _
      (λ e. inl (ground arith, named_catalog-Has weight_map))
      λ e.
        if-cases
          (λ (s : TensorCatalog × BindingReport). IsWhole files names_only weight_map shards s.0)
          (report.io_errors == 0 || ltb 0 (length shards)) _ ([], report)
          (λ f. inr (read_shards-Covered files names_only shards ([], report)))
          (λ f. inr (no_shards files names_only shards (ground arith)))
