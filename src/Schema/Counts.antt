-- ===== src/Schema/Counts.antt =====
-- src/parameter_schema.cpp: the catalogue of the model, counted and checked entry by entry.
use ninfer_nvfp4_glm_5_3_fla.Prelude.{
  append_empty, ℕ, zero, suc, ◌+◌, ◌*◌, ◌≡◌, refl, ◌∙◌, Bool, true, false, List, [], ◌∷◌, ◌++◌,
  arith, Bytes, length, length-append, failures, Result, ok, ◌>>=◌,
}
use ninfer_nvfp4_glm_5_3_fla.ModelSpec.{
  MixerKind, kda, sparse_mla, FfnKind, dense, sparse_moe, glm53_flash_spec,
}
use ninfer_nvfp4_glm_5_3_fla.ModelSpec.Pinned.{pinned}
use ninfer_nvfp4_glm_5_3_fla.Schema.{ExpectedTensor}
use ninfer_nvfp4_glm_5_3_fla.Schema.Tensors.{add_nvfp4}
use ninfer_nvfp4_glm_5_3_fla.Schema.Layers.{
  add_expert, add_experts, add_moe, add_ffn, moe_shared, layer_front, nextn_tensors,
}
use ninfer_nvfp4_glm_5_3_fla.Schema.Mixers.{add_kda, add_sparse_mla, add_mhc}
use ninfer_nvfp4_glm_5_3_fla.Schema.Validate.{eq_dtype, eq_storage, dim_errors, entry_errors}

-- What the checks of shape and storage report on the entries of a catalogue.
unfoldable pub shape_errors : List ExpectedTensor → List Bytes
shape_errors [] = []
shape_errors (tensor ∷ tensors) = entry_errors tensor ++ shape_errors tensors

-- A call that returns so many tensors, each of which passes those checks.
pub record Yields (result : Result (List ExpectedTensor)) (count : ℕ) : Type 0 where
  pub tensors : List ExpectedTensor
  pub returns : result ≡ ok tensors
  pub counted : length tensors ≡ count
  pub passes : shape_errors tensors ≡ []

pub shape_errors-append :
    (xs ys : List ExpectedTensor)
    → shape_errors xs ≡ []
    → shape_errors ys ≡ []
    → shape_errors (xs ++ ys) ≡ []
unfolding shape_errors
shape_errors-append [] ys h k = k
shape_errors-append (x ∷ xs) ys h k =
    let (h1, h2) = append_empty (entry_errors x) (shape_errors xs) h in
    rw (h1, shape_errors-append xs ys h2 k) refl

-- Two calls whose tensors are put together.
pub both-Yields :
    (first : Result (List ExpectedTensor)) (m : ℕ) (second : Result (List ExpectedTensor)) (n : ℕ)
    → Yields first m
    → Yields second n
    → Yields (first >>= λ xs. second >>= λ ys. ok (xs ++ ys)) (m + n)
both-Yields first m second n x y = record {
  tensors = x.tensors ++ y.tensors;
  returns = rw (x.returns, y.returns) refl;
  counted = length-append x.tensors y.tensors ∙ omega (arith, x.counted, y.counted);
  passes = shape_errors-append x.tensors y.tensors x.passes y.passes;
}

-- A call whose tensors are put between others.
pub between-Yields :
    (front back : List ExpectedTensor) (k l : ℕ) (result : Result (List ExpectedTensor)) (n : ℕ)
    → (length front ≡ k) × (shape_errors front ≡ [])
    → (length back ≡ l) × (shape_errors back ≡ [])
    → Yields result n
    → Yields (result >>= λ ys. ok ((front ++ ys) ++ back)) ((k + n) + l)
between-Yields front back k l result n f b y = record {
  tensors = (front ++ y.tensors) ++ back;
  returns = rw (y.returns) refl;
  counted =
      length-append (front ++ y.tensors) back
      ∙ omega (arith, length-append front y.tensors, f.0, b.0, y.counted);
  passes =
      shape_errors-append (front ++ y.tensors) back
        (shape_errors-append front y.tensors f.1 y.passes) b.1;
}

expert-Yields :
    (checkpoint logical source : Bytes) (expert : ℕ)
    → Yields (add_expert (pinned checkpoint) logical source false expert) 12
unfolding add_expert add_nvfp4 glm53_flash_spec shape_errors entry_errors dim_errors failures
    eq_storage eq_dtype
expert-Yields checkpoint logical source expert = record {
  tensors = _;
  returns = refl;
  counted = refl;
  passes = refl;
}

next_expert-Yields :
    (checkpoint logical source : Bytes) (expert : ℕ)
    → Yields (add_expert (pinned checkpoint) logical source true expert) 3
unfolding add_expert add_nvfp4 glm53_flash_spec shape_errors entry_errors dim_errors failures
    eq_storage eq_dtype
next_expert-Yields checkpoint logical source expert = record {
  tensors = _;
  returns = refl;
  counted = refl;
  passes = refl;
}

-- The numbers of tensors of a layer in front of its FFN and in its FFN.
abbrev pub front_count : MixerKind → ℕ
front_count kda = 23
front_count sparse_mla = 22

abbrev pub ffn_count : FfnKind → ℕ
ffn_count dense = 12
ffn_count sparse_moe = 3461

module _ (checkpoint logical source : Bytes) where
  experts-Yields :
      (nextn : Bool) (each : ℕ)
      → ((expert : ℕ) → Yields (add_expert (pinned checkpoint) logical source nextn expert) each)
      → (rounds expert : ℕ)
      → Yields (add_experts (pinned checkpoint) logical source nextn rounds expert) (rounds * each)
  unfolding add_experts shape_errors
  experts-Yields nextn each h zero expert = record {
    tensors = [];
    returns = refl;
    counted = omega arith;
    passes = refl;
  }
  experts-Yields nextn each h (suc rounds) expert =
      let y =
        both-Yields (add_expert (pinned checkpoint) logical source nextn expert) each _
          (rounds * each) (h expert) (experts-Yields nextn each h rounds (expert + 1)) in
      record {
        tensors = y.tensors;
        returns = y.returns;
        counted = y.counted ∙ grind arith;
        passes = y.passes;
      }

  front-Yields :
      (front : List ExpectedTensor) (k : ℕ) (result : Result (List ExpectedTensor)) (n : ℕ)
      → (length front ≡ k) × (shape_errors front ≡ [])
      → Yields result n
      → Yields (result >>= λ ys. ok (front ++ ys)) (k + n)
  front-Yields front k result n f y = record {
    tensors = front ++ y.tensors;
    returns = rw (y.returns) refl;
    counted = length-append front y.tensors ∙ omega (arith, f.0, y.counted);
    passes = shape_errors-append front y.tensors f.1 y.passes;
  }

  shared_passes :
      (length (moe_shared (pinned checkpoint) logical source) ≡ 5)
      × (shape_errors (moe_shared (pinned checkpoint) logical source) ≡ [])
  unfolding glm53_flash_spec shape_errors entry_errors dim_errors failures eq_storage eq_dtype
  shared_passes = (refl, refl)

  moe-Yields : Yields (add_moe (pinned checkpoint) logical source false) 3461
  unfolding add_moe glm53_flash_spec
  moe-Yields =
      front-Yields (moe_shared (pinned checkpoint) logical source) 5 _ 3456 shared_passes
        (experts-Yields false 12 (expert-Yields checkpoint logical source) 288 0)

  pub next_moe-Yields : Yields (add_moe (pinned checkpoint) logical source true) 869
  unfolding add_moe glm53_flash_spec
  next_moe-Yields =
      front-Yields (moe_shared (pinned checkpoint) logical source) 5 _ 864 shared_passes
        (experts-Yields true 3 (next_expert-Yields checkpoint logical source) 288 0)

  pub ffn-Yields :
      (ffn : FfnKind)
      → Yields (add_ffn (pinned checkpoint) logical source false ffn) (ffn_count ffn)
  unfolding add_nvfp4 glm53_flash_spec shape_errors entry_errors dim_errors failures eq_storage
      eq_dtype
  ffn-Yields dense = record { tensors = _; returns = refl; counted = refl; passes = refl }
  ffn-Yields sparse_moe = moe-Yields

  pub front_passes :
      (mixer : MixerKind)
      → (length (layer_front (pinned checkpoint) logical source false mixer) ≡ front_count mixer)
        × (shape_errors (layer_front (pinned checkpoint) logical source false mixer) ≡ [])
  unfolding add_mhc add_kda add_sparse_mla glm53_flash_spec shape_errors entry_errors dim_errors
      failures eq_storage eq_dtype
  front_passes kda = (refl, refl)
  front_passes sparse_mla = (refl, refl)

  pub next_front_passes :
      (length (layer_front (pinned checkpoint) logical source true sparse_mla) ≡ 16)
      × (shape_errors (layer_front (pinned checkpoint) logical source true sparse_mla) ≡ [])
  unfolding add_sparse_mla glm53_flash_spec shape_errors entry_errors dim_errors failures eq_storage
      eq_dtype
  next_front_passes = (refl, refl)

  pub next_back_passes :
      (length (nextn_tensors (pinned checkpoint) logical source) ≡ 4)
      × (shape_errors (nextn_tensors (pinned checkpoint) logical source) ≡ [])
  unfolding glm53_flash_spec shape_errors entry_errors dim_errors failures eq_storage eq_dtype
  next_back_passes = (refl, refl)
