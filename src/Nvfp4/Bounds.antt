-- ===== src/Nvfp4/Bounds.antt =====
-- src/nvfp4_decode.cpp: the invariant of a matrix view. What the constructor accepts has it, and it
-- keeps every read inside the spans.
use mathlib.Core.Path.{subst}
use ninfer_nvfp4_glm_5_3_fla.Prelude.{
  get_elem?, get_or, get_elem?-get_or, some, ◌||◌, leb, if◌then◌else◌, ℕ, zero, suc, ◌+◌, ◌-◌, ◌*◌,
  ◌/◌, ◌%◌, ◌≤◌, ◌<◌, ◌≡◌, refl, Bool, true, false, List, [], ◌∷◌, arith, ◌==◌, ok, guard,
  bind-eq-ok, length, take, length-take, All, Exception, ==_iff, ◌≢◌, sym, ◌∙◌, ap, ◌↔◌,
  ok-injective,
}
use ninfer_nvfp4_glm_5_3_fla.Nvfp4.Sizes.{
  size_mod, offset, checked_mul, checked_mul_lem, checked_mul-fits, elements, Span, require_size,
  first, elements_lem, require_size_lem, elements-fits, require_size-fits,
}
use ninfer_nvfp4_glm_5_3_fla.Nvfp4.Formats.{e2m1, fp8_e4m3_to_f32}
use ninfer_nvfp4_glm_5_3_fla.Nvfp4.View.{
  Arithmetic, MatrixView, check_scale, check_scales, make_view, element, at,
}

-- `row * stride + column` is inside a store with room for `rows` rows, the last one of `width`.
pub cell_in_bounds :
    (row rows column width stride room : ℕ)
    → row < rows
    → column < width
    → (rows - 1) * stride + width ≤ room
    → row * stride + column < room
cell_in_bounds row rows column width stride room hr hc h = grind arith

mul_mono : (a b c : ℕ) → b ≤ c → a * b ≤ a * c
mul_mono a b c h = grind arith

row_room : (rows width : ℕ) → 0 < rows → (rows - 1) * width + width ≡ rows * width
row_room zero width h = absurd (omega arith)
row_room (suc rows) width h = grind arith

guard_lem : (b : Bool) (e : Exception) {u : Unit {0}} → guard b e ≡ ok u → b ≡ true
guard_lem true e h = refl
guard_lem false e h = cc

module _ {Float Double : Type 0} (ops : Arithmetic Float Double) where
  pub record IsValid (view : MatrixView Float) : Type 0 where
    pub rows_pos : 0 < view.rows
    pub cols_pos : 0 < view.cols
    pub groups : view.cols % 16 ≡ 0
    pub packed_width : view.cols / 2 ≤ view.packed_stride
    pub scale_width : view.cols / 16 ≤ view.scale_stride
    pub packed_room :
        (view.rows - 1) * view.packed_stride + view.cols / 2 ≤ length view.packed.items
    pub scale_room : (view.rows - 1) * view.scale_stride + view.cols / 16 ≤ length view.scales.items
    pub packed_size : length view.packed.items < size_mod
    pub scale_size : length view.scales.items < size_mod
    pub scales_ok :
        All (λ b. check_scale ops view.global_scale (fp8_e4m3_to_f32 b) ≡ ok tt) view.scales.items

  check_scales-All :
      (global : Float) (items : List ℕ)
      → check_scales ops global items ≡ ok tt
      → All (λ b. check_scale ops global (fp8_e4m3_to_f32 b) ≡ ok tt) items
  unfolding check_scales
  check_scales-All global [] h = tt
  check_scales-All global (b ∷ items) h =
      let (u, h1, h2) = bind-eq-ok (check_scale ops global (fp8_e4m3_to_f32 b)) _ h in
      (h1, check_scales-All global items h2)

  All-check_scales :
      (global : Float) (items : List ℕ)
      → All (λ b. check_scale ops global (fp8_e4m3_to_f32 b) ≡ ok tt) items
      → check_scales ops global items ≡ ok tt
  unfolding check_scales
  All-check_scales global [] h = refl
  All-check_scales global (b ∷ items) h = rw (h.0, check_scales) (All-check_scales global items h.1)

  -- The arguments that the constructor accepts.
  pub record Accepts (packed scales : Span ℕ) (global : Float) (rows cols : ℕ) : Type 0 where
    pub rows_pos : 0 < rows
    pub cols_pos : 0 < cols
    pub fits : rows * cols < size_mod
    pub groups : cols % 16 ≡ 0
    pub packed_memory : (packed.address ≢ 0) × (rows * (cols / 2) ≤ length packed.items)
    pub scale_memory : (scales.address ≢ 0) × (rows * (cols / 16) ≤ length scales.items)
    pub usable : ops.is_usable_scale global ≡ true
    pub scales_ok :
        All
          (λ b. check_scale ops global (fp8_e4m3_to_f32 b) ≡ ok tt)
          (take (rows * (cols / 16)) scales.items)

  abbrev pub view_over : Span ℕ → Span ℕ → Float → ℕ → ℕ → MatrixView Float
  view_over packed scales global rows cols = record {
    packed = first packed (rows * (cols / 2));
    scales = first scales (rows * (cols / 16));
    global_scale = global;
    rows = rows;
    cols = cols;
    packed_stride = cols / 2;
    scale_stride = cols / 16;
  }

  -- The constructor returns only on arguments that it accepts.
  make_view-Accepts :
      (packed scales : Span ℕ) (global : Float) (rows cols : ℕ) (view : MatrixView Float)
      → make_view ops packed scales global rows cols ≡ ok view
      → (view ≡ view_over packed scales global rows cols) × Accepts packed scales global rows cols
  unfolding make_view
  make_view-Accepts packed scales global rows cols view h =
      let (n, h1, k1) = bind-eq-ok (elements rows cols) _ h in
      let (u2, h2, k2) = bind-eq-ok (guard (cols % 16 == 0) _) _ k1 in
      let (p, h3, k3) = bind-eq-ok (checked_mul rows (cols / 2)) _ k2 in
      let (q, h4, k4) = bind-eq-ok (checked_mul rows (cols / 16)) _ k3 in
      let (u5, h5, k5) = bind-eq-ok (require_size 1 packed p) _ k4 in
      let (u6, h6, k6) = bind-eq-ok (require_size 1 scales q) _ k5 in
      let (u7, h7, k7) = bind-eq-ok (guard (ops.is_usable_scale global) _) _ k6 in
      let (u8, h8, k8) = bind-eq-ok (check_scales ops global (first scales q).items) _ k7 in
      let positive = elements_lem rows cols h1 in
      let ep = (checked_mul_lem rows (cols / 2) h3).0 in
      let eq = (checked_mul_lem rows (cols / 16) h4).0 in
      (
        sym (ok-injective k8) ∙ rw (ep, eq),
        record {
          rows_pos = positive.0;
          cols_pos = positive.1;
          fits = positive.3;
          groups = (==_iff _ _).0 (guard_lem _ _ h2);
          packed_memory = rw ep at (require_size_lem 1 packed p h5);
          scale_memory = rw eq at (require_size_lem 1 scales q h6);
          usable = guard_lem _ _ h7;
          scales_ok = rw eq at (check_scales-All global (first scales q).items h8);
        },
      )

  -- And it returns on all of those.
  make_view_returns :
      (packed scales : Span ℕ) (global : Float) (rows cols : ℕ)
      → Accepts packed scales global rows cols
      → make_view ops packed scales global rows cols ≡ ok (view_over packed scales global rows cols)
  unfolding make_view
  make_view_returns packed scales global rows cols a =
      let half = mul_mono rows (cols / 2) cols (omega arith) in
      let group = mul_mono rows (cols / 16) cols (omega arith) in
      let fits = a.fits in
      rw (
        elements-fits rows cols a.rows_pos a.cols_pos a.fits,
        a.groups,
        checked_mul-fits rows (cols / 2) (omega arith),
        checked_mul-fits rows (cols / 16) (omega arith),
        require_size-fits 1 packed (rows * (cols / 2)) a.packed_memory.0 a.packed_memory.1
            (omega arith),
        require_size-fits 1 scales (rows * (cols / 16)) a.scale_memory.0 a.scale_memory.1
            (omega arith),
        a.usable,
        All-check_scales global (take (rows * (cols / 16)) scales.items) a.scales_ok,
      )

  view_over-IsValid :
      (packed scales : Span ℕ) (global : Float) (rows cols : ℕ)
      → Accepts packed scales global rows cols
      → IsValid (view_over packed scales global rows cols)
  view_over-IsValid packed scales global rows cols a =
      let packed_length = length-take {0} (rows * (cols / 2)) packed.items in
      let scales_length = length-take {0} (rows * (cols / 16)) scales.items in
      let half = row_room rows (cols / 2) a.rows_pos in
      let group = row_room rows (cols / 16) a.rows_pos in
      record {
        rows_pos = a.rows_pos;
        cols_pos = a.cols_pos;
        groups = a.groups;
        packed_width = omega arith;
        scale_width = omega arith;
        packed_room = omega (arith, a.packed_memory);
        scale_room = omega (arith, a.scale_memory);
        packed_size = omega (arith, a.fits, mul_mono rows (cols / 2) cols (omega arith));
        scale_size = omega (arith, a.fits, mul_mono rows (cols / 16) cols (omega arith));
        scales_ok = a.scales_ok;
      }

  -- Inside a valid view, the indices do not wrap and lie inside both spans.
  pub offset_in_bounds :
      (view : MatrixView Float) (row col : ℕ)
      → IsValid view
      → row < view.rows
      → col < view.cols
      → (offset row view.packed_stride (col / 2) ≡ row * view.packed_stride + col / 2)
        × (offset row view.packed_stride (col / 2) < length view.packed.items)
        × (offset row view.scale_stride (col / 16) ≡ row * view.scale_stride + col / 16)
        × (offset row view.scale_stride (col / 16) < length view.scales.items)
  unfolding offset
  offset_in_bounds view row col v hr hc =
      let p =
        cell_in_bounds row view.rows (col / 2) (view.cols / 2) view.packed_stride
          (length view.packed.items) hr (omega (arith, v.groups)) v.packed_room in
      let q =
        cell_in_bounds row view.rows (col / 16) (view.cols / 16) view.scale_stride
          (length view.scales.items) hr (omega (arith, v.groups)) v.scale_room in
      (
        omega (arith, v.packed_size),
        omega (arith, v.packed_size),
        omega (arith, v.scale_size),
        omega (arith, v.scale_size),
      )

  -- Inside a valid view, a read returns and takes its bytes from inside both spans: the byte of the
  -- row and the pair of columns, of which an even column has the low four bits, and the scale of the
  -- row and the group of sixteen columns.
  pub at_in_bounds :
      (view : MatrixView Float) (row col : ℕ)
      → IsValid view
      → row < view.rows
      → col < view.cols
      → (byte scale : ℕ) × (get_elem? view.packed.items (row * view.packed_stride + col / 2)
          ≡ some byte)
        × (get_elem? view.scales.items (row * view.scale_stride + col / 16) ≡ some scale)
        × (at ops view row col
            ≡ ok (
                ops.dequant
                  (e2m1 (if col % 2 == 0 then byte % 16 else byte / 16))
                  (fp8_e4m3_to_f32 scale)
                  view.global_scale))
  unfolding at element
  at_in_bounds view row col v hr hc =
      let (ep, bp, es, bs) = offset_in_bounds view row col v hr hc in
      let inside : (leb view.rows row || leb view.cols col) ≡ false = ground arith in
      (
        get_or view.packed.items (row * view.packed_stride + col / 2) 0,
        get_or view.scales.items (row * view.scale_stride + col / 16) 0,
        get_elem?-get_or view.packed.items (row * view.packed_stride + col / 2) 0
            (omega (arith, ep, bp)),
        get_elem?-get_or view.scales.items (row * view.scale_stride + col / 16) 0
            (omega (arith, es, bs)),
        rw (inside, element, ep, es) refl,
      )

  -- The constructor returns exactly for a positive shape that fits `std::size_t` in whole groups of
  -- sixteen columns, allocated spans with room for it, a usable global scale and block scales that
  -- pass their check, and then it returns the view over the first bytes of both spans.
  pub make_view_iff :
      (packed scales : Span ℕ) (global : Float) (rows cols : ℕ) (view : MatrixView Float)
      → (make_view ops packed scales global rows cols ≡ ok view) ↔ (
          (view ≡ view_over packed scales global rows cols)
          × Accepts packed scales global rows cols)
  make_view_iff packed scales global rows cols view = (
    make_view-Accepts packed scales global rows cols view,
    λ (e, a). make_view_returns packed scales global rows cols a ∙ ap ok (sym e),
  )

  -- The view that the constructor returns has rows and columns, whole groups, strides and spans with
  -- room for all its elements and of sizes below 2 ^ 64, and scales that passed their check.
  pub make_view-IsValid :
      (packed scales : Span ℕ) (global : Float) (rows cols : ℕ) (view : MatrixView Float)
      → make_view ops packed scales global rows cols ≡ ok view
      → IsValid view
  make_view-IsValid packed scales global rows cols view h =
      let (e, a) = make_view-Accepts packed scales global rows cols view h in
      subst IsValid (sym e) (view_over-IsValid packed scales global rows cols a)
