-- ===== src/Checkpoint/Payload.antt =====
-- src/checkpoint_binding.cpp: where the tensors of a shard that is read have their bytes.
use ninfer_nvfp4_glm_5_3_fla.Prelude.{
  ℕ, ◌+◌, ◌-◌, ◌≤◌, ◌<◌, ◌≡◌, ◌⊎◌, inl, inr, refl, sym, ◌∙◌, ap, Bool, true, false, not, ◌||◌, List,
  [], ◌∷◌, Option, some, arith, ltb, leb, ◌==◌, if◌then◌else◌, Bytes, length, take, drop, All,
  Bool-cases, Option-cases, ok, guard, bind-eq-ok, ok-injective, Exception,
}
use mathlib.Core.Path.{subst}
use ninfer_nvfp4_glm_5_3_fla.Schema.{ℤ, pos, negsuc}
use ninfer_nvfp4_glm_5_3_fla.Checkpoint.{TensorCatalog, BindingReport}
use ninfer_nvfp4_glm_5_3_fla.Checkpoint.Header.{
  ParsedTensor, offsets, expected_tensor_bytes, validate_tensor_offsets, parse_safetensors_header,
}
use ninfer_nvfp4_glm_5_3_fla.Checkpoint.Shard.{
  little_endian, sort_ranges, overlapping, payload_ranges, read_tensors, read_bytes,
  max_safetensors_header,
}
use ninfer_nvfp4_glm_5_3_fla.Checkpoint.Ranges.{
  Range, IsFull, RangeApart, AllApart, sort_ranges-AllApart,
}

-- The bytes of a tensor lie in the payload, and are as many as its type and shape need.
pub record IsPlaced (payload : ℕ) (tensor : ParsedTensor) : Type 0 where
  pub first : ℕ
  pub last : ℕ
  pub begins : tensor.data_begin ≡ pos first
  pub ends : tensor.data_end ≡ pos last
  pub ordered : first ≤ last
  pub inside : last ≤ payload
  pub sized : expected_tensor_bytes tensor ≡ ok (last - first)

-- A byte of the payload belongs to a tensor.
abbrev pub Covers : ParsedTensor → ℕ → Type 0
Covers tensor p =
    (b : ℕ) × (e : ℕ) × (tensor.data_begin ≡ pos b) × (tensor.data_end ≡ pos e) × (b ≤ p) × (p < e)

-- No byte belongs to two tensors of the list.
unfoldable pub NoShare : List ParsedTensor → Type 0
NoShare [] = Unit
NoShare (t ∷ tensors) = All (λ u. (p : ℕ) → Covers t p → ¬ Covers u p) tensors × NoShare tensors

guard-ok : (b : Bool) (e : Exception) {u : Unit {0}} → guard b e ≡ ok u → b ≡ true
guard-ok true e h = refl
guard-ok false e h = absurd (cc)

offsets-some :
    (b e : ℤ) {r : Range} → offsets b e ≡ some r → (b ≡ pos r.0) × (e ≡ pos r.1) × (r.0 ≤ r.1)
unfolding offsets
offsets-some (pos b) (pos e) h = elim (Bool-cases (ltb e b)) [
  | inl t ↦ let h' = rw t at h in absurd (cc)
  | inr t ↦ let h' = rw t at h in (cc, cc, ground (arith, t, h'))
]
offsets-some (pos b) (negsuc e) h = absurd (cc)
offsets-some (negsuc b) e h = absurd (cc)

validate-IsPlaced :
    (tensor : ParsedTensor) (payload : ℕ) {r : Range}
    → validate_tensor_offsets tensor payload ≡ ok r
    → (placed : IsPlaced payload tensor) × (r ≡ (placed.first, placed.last))
unfolding validate_tensor_offsets
validate-IsPlaced tensor payload h =
    elim (Option-cases (offsets tensor.data_begin tensor.data_end)) [
      | inl none_there ↦ let h' = rw (none_there, validate_tensor_offsets) at h in absurd (cc)
      | inr (q, found) ↦
          let h' = rw (found, validate_tensor_offsets) at h in
          let (expected, sized, h1) = bind-eq-ok (expected_tensor_bytes tensor) _ h' in
          let (u, same, h2) = bind-eq-ok (guard (q.1 - q.0 == expected) _) _ h1 in
          let (v, fits, h3) = bind-eq-ok (guard (not (ltb payload q.1)) _) _ h2 in
          let (begins, ends, ordered) = offsets-some tensor.data_begin tensor.data_end found in
          let size : expected ≡ q.1 - q.0 =
            ground (arith, guard-ok (q.1 - q.0 == expected) _ same) in
          (
            record {
              first = q.0;
              last = q.1;
              begins = begins;
              ends = ends;
              ordered = ordered;
              inside = ground (arith, guard-ok (not (ltb payload q.1)) _ fits);
              sized = sized ∙ ap (λ n. ok n) size;
            },
            sym (ok-injective h3),
          )
    ]

-- The ranges that the loop collects: those of the tensors that have bytes.
payload_ranges-IsPlaced :
    (payload : ℕ) (tensors : List ParsedTensor) {ranges : List Range}
    → payload_ranges payload tensors ≡ ok ranges
    → All (IsPlaced payload) tensors × All IsFull ranges
unfolding payload_ranges
payload_ranges-IsPlaced payload [] h = (tt, subst (All IsFull) (ok-injective h) tt)
payload_ranges-IsPlaced payload (t ∷ tensors) h =
    let (r, valid, h1) = bind-eq-ok (validate_tensor_offsets t payload) _ h in
    let (rest, loop, h2) = bind-eq-ok (payload_ranges payload tensors) _ h1 in
    let (placed, same) = validate-IsPlaced t payload valid in
    let (all, full) = payload_ranges-IsPlaced payload tensors loop in
    let ordered : r.0 ≤ r.1 = subst (λ (q : Range). q.0 ≤ q.1) (sym same) placed.ordered in
    let collected : All IsFull (if r.0 == r.1 then rest else r ∷ rest) =
      elim (Bool-cases (r.0 == r.1)) [
        | inl e ↦ rw e full
        | inr e ↦ rw e (ground (arith, e, ordered), full)
      ] in
    ((placed, all), subst (All IsFull) (ok-injective h2) collected)

pos-injective : {m n : ℕ} → pos m ≡ pos n → m ≡ n
pos-injective h = cc

-- The byte that a placed tensor covers lies in its range.
Covers-range :
    {payload : ℕ} (tensor : ParsedTensor) (p : ℕ) {r : Range} (placed : IsPlaced payload tensor)
    → r ≡ (placed.first, placed.last)
    → Covers tensor p
    → (r.0 ≤ p) × (p < r.1)
Covers-range tensor p placed same (b, e, begins, ends, at, before) =
    let first : b ≡ placed.first = pos-injective (sym begins ∙ placed.begins) in
    let last : e ≡ placed.last = pos-injective (sym ends ∙ placed.ends) in
    rw same (omega (arith, first, at), omega (arith, last, before))

-- A tensor of the list covers no byte of a range that is apart from all that were collected.
apart_from :
    (payload : ℕ) (r : Range) (tensors : List ParsedTensor) {ranges : List Range}
    → payload_ranges payload tensors ≡ ok ranges
    → All (RangeApart r) ranges
    → All (λ u. (p : ℕ) → r.0 ≤ p → p < r.1 → ¬ Covers u p) tensors
unfolding payload_ranges
apart_from payload r [] h apart = tt
apart_from payload r (t ∷ tensors) {ranges} h apart =
    let (q, valid, h1) = bind-eq-ok (validate_tensor_offsets t payload) _ h in
    let (rest, loop, h2) = bind-eq-ok (payload_ranges payload tensors) _ h1 in
    let (placed, same) = validate-IsPlaced t payload valid in
    let split : (RangeApart r q ⊎ (q.0 ≡ q.1)) × All (RangeApart r) rest =
      elim (Bool-cases (q.0 == q.1)) [
        | inl e ↦
            let h3 = rw e at h2 in
            (inr (ground arith), subst (All (RangeApart r)) (sym (ok-injective h3)) apart)
        | inr e ↦
            let h3 = rw e at h2 in
            let both = subst (All (RangeApart r)) (sym (ok-injective h3)) apart in
            (inl both.0, both.1)
      ] in
    let here : (p : ℕ) → r.0 ≤ p → p < r.1 → ¬ Covers t p = λ p low high covers.
      let (at, before) = Covers-range t p placed same covers in
      elim split.0 [
        | inl (inl a) ↦ omega (arith, a, at, before, low, high)
        | inl (inr a) ↦ omega (arith, a, at, before, low, high)
        | inr a ↦ omega (arith, a, at, before, low, high)
      ] in
    (here, apart_from payload r tensors loop split.1)

-- A range that the loop collects covers what its tensor covers.
weaken_apart :
    {payload : ℕ} (t : ParsedTensor) {r : Range} (placed : IsPlaced payload t)
    → r ≡ (placed.first, placed.last)
    → (tensors : List ParsedTensor) → All (λ u. (p : ℕ) → r.0 ≤ p → p < r.1 → ¬ Covers u p) tensors
    → All (λ u. (p : ℕ) → Covers t p → ¬ Covers u p) tensors
weaken_apart t placed same [] h = tt
weaken_apart t placed same (u ∷ tensors) h = (
  λ p covers. let (low, high) = Covers-range t p placed same covers in h.0 p low high,
  weaken_apart t placed same tensors h.1,
)

-- An empty tensor covers nothing.
empty_apart :
    {payload : ℕ} (t : ParsedTensor) {r : Range} (placed : IsPlaced payload t)
    → r ≡ (placed.first, placed.last)
    → r.0 ≡ r.1
    → (tensors : List ParsedTensor) → All (λ u. (p : ℕ) → Covers t p → ¬ Covers u p) tensors
empty_apart t placed same empty [] = tt
empty_apart t placed same empty (u ∷ tensors) = (
  λ p covers.
      let (low, high) = Covers-range t p placed same covers in
      absurd (omega (arith, low, high, empty)),
  empty_apart t placed same empty tensors,
)

payload_ranges-NoShare :
    (payload : ℕ) (tensors : List ParsedTensor) {ranges : List Range}
    → payload_ranges payload tensors ≡ ok ranges
    → AllApart ranges
    → NoShare tensors
unfolding payload_ranges NoShare AllApart
payload_ranges-NoShare payload [] h apart = tt
payload_ranges-NoShare payload (t ∷ tensors) h apart =
    let (q, valid, h1) = bind-eq-ok (validate_tensor_offsets t payload) _ h in
    let (rest, loop, h2) = bind-eq-ok (payload_ranges payload tensors) _ h1 in
    let (placed, same) = validate-IsPlaced t payload valid in
    elim (Bool-cases (q.0 == q.1)) [
      | inl e ↦
          let h3 = rw e at h2 in
          let rest_apart = subst AllApart (sym (ok-injective h3)) apart in
          (
            empty_apart t placed same (ground arith) tensors,
            payload_ranges-NoShare payload tensors loop rest_apart,
          )
      | inr e ↦
          let h3 = rw e at h2 in
          let (own, rest_apart) : AllApart (q ∷ rest) =
            subst AllApart (sym (ok-injective h3)) apart in
          (
            weaken_apart t placed same tensors (apart_from payload q tensors loop own),
            payload_ranges-NoShare payload tensors loop rest_apart,
          )
    ]

abbrev pub header_length : Bytes → ℕ
header_length file = little_endian (take 8 file)

-- When a shard is read from the bytes of a file, its header parses, every tensor of it has its bytes
-- inside the payload behind the header, as many as its type and shape need, and no byte belongs to
-- two tensors.
pub read_bytes-NoShare :
    (file shard_name : Bytes) (load : Bool) (report : Option BindingReport)
    (r : TensorCatalog × Option BindingReport)
    → read_bytes file shard_name load report ≡ ok r
    → (tensors : List ParsedTensor) × (parse_safetensors_header
          (take (header_length file) (drop 8 file))
        ≡ ok tensors)
      × All (IsPlaced (length file - (8 + header_length file))) tensors
      × NoShare tensors
unfolding read_bytes read_tensors
read_bytes-NoShare file shard_name load report r h =
    let (u1, long, h1) = bind-eq-ok (guard (leb 8 (length file)) _) _ h in
    let (u2, valid, h2) =
      bind-eq-ok
        (guard (not (header_length file == 0 || ltb max_safetensors_header (header_length file))) _)
        _ h1 in
    let (u3, whole, h3) = bind-eq-ok (guard (leb (8 + header_length file) (length file)) _) _ h2 in
    let (tensors, parsed, h4) =
      bind-eq-ok (parse_safetensors_header (take (header_length file) (drop 8 file))) _ h3 in
    let payload = length file - (8 + header_length file) in
    let (ranges, loop, h5) = bind-eq-ok (payload_ranges payload tensors) _ h4 in
    let (u4, apart, h6) = bind-eq-ok (guard (not (overlapping (sort_ranges ranges))) _) _ h5 in
    let (placed, full) = payload_ranges-IsPlaced payload tensors loop in
    let clear : overlapping (sort_ranges ranges) ≡ false =
      ground (arith, guard-ok (not (overlapping (sort_ranges ranges))) _ apart) in
    (
      tensors,
      parsed,
      placed,
      payload_ranges-NoShare payload tensors loop (sort_ranges-AllApart ranges full clear),
    )
