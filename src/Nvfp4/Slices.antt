-- ===== src/Nvfp4/Slices.antt =====
-- src/nvfp4_decode.cpp: a slice of a valid view is a valid view of the same elements.
use Prim.Native.Nat.add
use ninfer_nvfp4_glm_5_3_fla.Prelude.{
  ℕ, zero, suc, ◌+◌, ◌-◌, ◌*◌, ◌/◌, ◌%◌, ◌≤◌, ◌<◌, ◌≡◌, ◌≢◌, ◌⊎◌, refl, ap, ◌∙◌, List, [], ◌∷◌,
  arith, text, invalid_argument, out_of_range, ok, threw, get_or, length, take, drop, length-take,
  length-drop, All,
}
use ninfer_nvfp4_glm_5_3_fla.Nvfp4.Sizes.{offset, subspan}
use ninfer_nvfp4_glm_5_3_fla.Nvfp4.View.{Arithmetic, MatrixView, element, at, slice}
use ninfer_nvfp4_glm_5_3_fla.Nvfp4.Bounds.{IsValid, offset_in_bounds}

get_or-take : (n i : ℕ) (xs : List ℕ) (d : ℕ) → i < n → get_or (take n xs) i d ≡ get_or xs i d
get_or-take zero i xs d h = absurd (omega arith)
get_or-take (suc n) i [] d h = refl
get_or-take (suc n) zero (x ∷ xs) d h = refl
get_or-take (suc n) (suc i) (x ∷ xs) d h = get_or-take n i xs d (omega arith)

get_or-drop : (n i : ℕ) (xs : List ℕ) (d : ℕ) → get_or (drop n xs) i d ≡ get_or xs (n + i) d
get_or-drop zero i xs d = rw add.zero
get_or-drop (suc n) i [] d = refl
get_or-drop (suc n) i (x ∷ xs) d = rw (add.suc n i) (get_or-drop n i xs d)

get_or-slice :
    (n from i : ℕ) (xs : List ℕ) (d : ℕ)
    → i < n
    → get_or (take n (drop from xs)) i d ≡ get_or xs (from + i) d
get_or-slice n from i xs d h = get_or-take n i (drop from xs) d h ∙ get_or-drop from i xs d

module _ (P : ℕ → Type 0) where
  All-drop : (n : ℕ) (xs : List ℕ) → All P xs → All P (drop n xs)
  All-drop zero xs h = h
  All-drop (suc n) [] h = tt
  All-drop (suc n) (x ∷ xs) h = All-drop n xs h.1

  All-take : (n : ℕ) (xs : List ℕ) → All P xs → All P (take n xs)
  All-take zero xs h = tt
  All-take (suc n) [] h = tt
  All-take (suc n) (x ∷ xs) h = (h.0, All-take n xs h.1)

mul_mono_right : (a b c : ℕ) → a ≤ b → a * c ≤ b * c
mul_mono_right a b c h = grind arith

slice_room :
    (row rows all column width all_width stride room : ℕ)
    → 0 < rows
    → row + rows ≤ all
    → column + width ≤ all_width
    → (all - 1) * stride + all_width ≤ room
    → (row * stride + column) + ((rows - 1) * stride + width) ≤ room
slice_room row rows all column width all_width stride room pos hr hc h =
    omega (arith, mul_mono_right (row + (rows - 1)) (all - 1) stride (omega arith))

-- Two steps along rows and columns add up.
offset_add :
    (row i column j stride : ℕ)
    → (row * stride + column) + (i * stride + j) ≡ (row + i) * stride + (column + j)
offset_add row i column j stride = grind arith

module _ {Float Double : Type 0} (ops : Arithmetic Float Double) where
  -- The part of a view that a slice names.
  pub record InRange (view : MatrixView Float) (row rows col cols : ℕ) : Type 0 where
    pub rows_pos : 0 < rows
    pub cols_pos : 0 < cols
    pub row_end : row + rows ≤ view.rows
    pub col_end : col + cols ≤ view.cols
    pub col_group : col % 16 ≡ 0
    pub cols_group : cols % 16 ≡ 0

  abbrev sliced : MatrixView Float → ℕ → ℕ → ℕ → ℕ → MatrixView Float
  sliced view row rows col cols = record {
    packed =
        subspan view.packed (offset row view.packed_stride (col / 2))
          (offset (rows - 1) view.packed_stride (cols / 2));
    scales =
        subspan view.scales (offset row view.scale_stride (col / 16))
          (offset (rows - 1) view.scale_stride (cols / 16));
    global_scale = view.global_scale;
    rows = rows;
    cols = cols;
    packed_stride = view.packed_stride;
    scale_stride = view.scale_stride;
  }

  slice_returns :
      (view : MatrixView Float) (row rows col cols : ℕ)
      → InRange view row rows col cols
      → slice view row rows col cols ≡ ok (sliced view row rows col cols)
  unfolding slice
  slice_returns view row rows col cols r = ground (arith, r)

  -- The offsets that a slice computes do not wrap.
  record Exact (view : MatrixView Float) (row rows col cols : ℕ) : Type 0 where
    packed_from : offset row view.packed_stride (col / 2) ≡ row * view.packed_stride + col / 2
    packed_length :
        offset (rows - 1) view.packed_stride (cols / 2) ≡ (rows - 1) * view.packed_stride + cols / 2
    packed_end :
        (row * view.packed_stride + col / 2) + ((rows - 1) * view.packed_stride + cols / 2)
        ≤ length view.packed.items
    scale_from : offset row view.scale_stride (col / 16) ≡ row * view.scale_stride + col / 16
    scale_length :
        offset (rows - 1) view.scale_stride (cols / 16) ≡ (rows - 1) * view.scale_stride + cols / 16
    scale_end :
        (row * view.scale_stride + col / 16) + ((rows - 1) * view.scale_stride + cols / 16)
        ≤ length view.scales.items

  exact :
      (view : MatrixView Float) (row rows col cols : ℕ)
      → IsValid ops view
      → InRange view row rows col cols
      → Exact view row rows col cols
  unfolding offset
  exact view row rows col cols v r =
      let p =
        slice_room row rows view.rows (col / 2) (cols / 2) (view.cols / 2) view.packed_stride
          (length view.packed.items) r.rows_pos r.row_end
          (omega (arith, r.col_end, r.col_group, r.cols_group)) v.packed_room in
      let q =
        slice_room row rows view.rows (col / 16) (cols / 16) (view.cols / 16) view.scale_stride
          (length view.scales.items) r.rows_pos r.row_end
          (omega (arith, r.col_end, r.col_group, r.cols_group)) v.scale_room in
      record {
        packed_from = omega (arith, v.packed_size);
        packed_length = omega (arith, v.packed_size);
        packed_end = p;
        scale_from = omega (arith, v.scale_size);
        scale_length = omega (arith, v.scale_size);
        scale_end = q;
      }

  sliced-IsValid :
      (view : MatrixView Float) (row rows col cols : ℕ)
      → IsValid ops view
      → InRange view row rows col cols
      → IsValid ops (sliced view row rows col cols)
  sliced-IsValid view row rows col cols v r =
      let x = exact view row rows col cols v r in
      let po = offset row view.packed_stride (col / 2) in
      let pl = offset (rows - 1) view.packed_stride (cols / 2) in
      let so = offset row view.scale_stride (col / 16) in
      let sl = offset (rows - 1) view.scale_stride (cols / 16) in
      let packed_count = length-take {0} pl (drop po view.packed.items) in
      let packed_rest = length-drop {0} po view.packed.items in
      let scale_count = length-take {0} sl (drop so view.scales.items) in
      let scale_rest = length-drop {0} so view.scales.items in
      record {
        rows_pos = r.rows_pos;
        cols_pos = r.cols_pos;
        groups = r.cols_group;
        packed_width = omega (arith, v.packed_width, r.col_end);
        scale_width = omega (arith, v.scale_width, r.col_end);
        packed_room = omega (arith, x.packed_from, x.packed_length, x.packed_end);
        scale_room = omega (arith, x.scale_from, x.scale_length, x.scale_end);
        packed_size = omega (arith, v.packed_size);
        scale_size = omega (arith, v.scale_size);
        scales_ok =
            All-take _ sl (drop so view.scales.items) (All-drop _ so view.scales.items v.scales_ok);
      }

  sliced-element :
      (view : MatrixView Float) (row rows col cols i j : ℕ)
      → IsValid ops view
      → InRange view row rows col cols
      → i < rows
      → j < cols
      → element ops (sliced view row rows col cols) i j ≡ element ops view (row + i) (col + j)
  unfolding element
  sliced-element view row rows col cols i j v r hi hj =
      let x = exact view row rows col cols v r in
      let w = sliced-IsValid view row rows col cols v r in
      let (ep, bp, es, bs) = offset_in_bounds ops (sliced view row rows col cols) i j w hi hj in
      let (fp, cp, fs, cs) =
        offset_in_bounds ops view (row + i) (col + j) v (omega (arith, r.row_end))
          (omega (arith, r.col_end)) in
      let half : (col + j) / 2 ≡ col / 2 + j / 2 = omega (arith, r.col_group) in
      let group : (col + j) / 16 ≡ col / 16 + j / 16 = omega (arith, r.col_group) in
      let parity : (col + j) % 2 ≡ j % 2 = omega (arith, r.col_group) in
      let po = offset row view.packed_stride (col / 2) in
      let pl = offset (rows - 1) view.packed_stride (cols / 2) in
      let so = offset row view.scale_stride (col / 16) in
      let sl = offset (rows - 1) view.scale_stride (cols / 16) in
      let pi = offset i view.packed_stride (j / 2) in
      let si = offset i view.scale_stride (j / 16) in
      let packed_sum : po + pi ≡ offset (row + i) view.packed_stride ((col + j) / 2) =
        omega (arith, x.packed_from, ep, fp, half) in
      let scale_sum : so + si ≡ offset (row + i) view.scale_stride ((col + j) / 16) =
        omega (arith, x.scale_from, es, fs, group) in
      let byte =
        get_or-slice pl po pi view.packed.items 0
          (omega (arith, bp, length-take {0} pl (drop po view.packed.items)))
        ∙ ap (λ k. get_or view.packed.items k 0) packed_sum in
      let scale =
        get_or-slice sl so si view.scales.items 0
          (omega (arith, bs, length-take {0} sl (drop so view.scales.items)))
        ∙ ap (λ k. get_or view.scales.items k 0) scale_sum in
      rw (byte, element, scale, parity)

  -- A slice of whole groups inside a valid view succeeds, is valid again, and shows the elements of
  -- the view at the shifted positions.
  pub slice_lem :
      (view : MatrixView Float) (row rows col cols : ℕ)
      → IsValid ops view
      → InRange view row rows col cols
      → (part : MatrixView Float) × (slice view row rows col cols ≡ ok part)
        × IsValid ops part
        × ((i j : ℕ) → i < rows → j < cols → at ops part i j ≡ at ops view (row + i) (col + j))
  unfolding at
  slice_lem view row rows col cols v r = (
    sliced view row rows col cols,
    slice_returns view row rows col cols r,
    sliced-IsValid view row rows col cols v r,
    λ i j hi hj. ground (arith, sliced-element view row rows col cols i j v r hi hj, r),
  )

  -- A slice that is empty or leaves the view throws out of range, and one inside it whose first
  -- column or width splits a group throws an invalid argument.
  pub slice_refused :
      (view : MatrixView Float) (row rows col cols : ℕ)
      → (((rows ≡ 0) ⊎ (cols ≡ 0) ⊎ (view.rows < row + rows) ⊎ (view.cols < col + cols))
          → slice view row rows col cols ≡ threw (out_of_range (text "NVFP4 slice outside view")))
        × (0 < rows
            → 0 < cols
            → row + rows ≤ view.rows
            → col + cols ≤ view.cols
            → (col % 16 ≢ 0) ⊎ (cols % 16 ≢ 0)
            → slice view row rows col cols
              ≡ threw (invalid_argument (text "NVFP4 K slices must preserve groups of 16")))
  unfolding slice
  slice_refused view row rows col cols = (λ h. ground arith, λ hr hc er ec h. ground arith)
