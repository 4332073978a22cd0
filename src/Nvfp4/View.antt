-- ===== src/Nvfp4/View.antt =====
-- src/nvfp4_decode.cpp: `Nvfp4MatrixView`. The float arithmetic of the host is a parameter.
use ninfer_nvfp4_glm_5_3_fla.Prelude.{
  ℕ, ◌-◌, ◌/◌, ◌%◌, Bool, not, ◌&&◌, ◌||◌, List, [], ◌∷◌, ltb, leb, ◌==◌, if◌then◌else◌, text,
  invalid_argument, out_of_range, Result, ok, threw, guard, ◌>>=◌, ◌>>◌, get_or,
}
use ninfer_nvfp4_glm_5_3_fla.Nvfp4.Sizes.{
  offset, checked_mul, elements, Span, require_size, first, subspan,
}
use ninfer_nvfp4_glm_5_3_fla.Nvfp4.Formats.{Dyadic, Fp8, nan, finite, e2m1, fp8_e4m3_to_f32}

-- The operations on `float` and `double` that the code calls, rounding included.
pub record Arithmetic (Float Double : Type 0) : Type 0 where
  -- `isfinite(s) && !(s < numeric_limits<float>::min())`
  pub is_usable_scale : Float → Bool
  -- `6.0 * scale * global > numeric_limits<float>::max()`
  pub overflows : Dyadic → Float → Bool
  -- `(float)((double)e2m1 * (double)scale * (double)global)`
  pub dequant : Dyadic → Fp8 → Float → Float
  pub zero_sum : Double
  -- `sum + (double)weight * (double)x`
  pub mul_add : Double → Float → Float → Double
  pub to_float : Double → Float
  -- A value for reads that no span covers.
  pub unread : Float

pub record MatrixView (Float : Type 0) : Type 0 where
  pub packed : Span ℕ
  pub scales : Span ℕ
  pub global_scale : Float
  pub rows : ℕ
  pub cols : ℕ
  pub packed_stride : ℕ
  pub scale_stride : ℕ

module _ {Float Double : Type 0} (ops : Arithmetic Float Double) where
  open ops use {is_usable_scale, overflows, dequant}

  -- One round of the loop over the block scales.
  unfoldable pub check_scale : Float → Fp8 → Result (Unit {0})
  check_scale global (nan s) =
      threw (invalid_argument (text "NVFP4 block scales must be finite and nonnegative"))
  check_scale global (finite d) =
      if d.negative && not (d.units == 0)
      then threw (invalid_argument (text "NVFP4 block scales must be finite and nonnegative"))
      else guard (not (overflows d global))
          (invalid_argument (text "NVFP4 dequantized scale overflows float"))

  unfoldable pub check_scales : Float → List ℕ → Result (Unit {0})
  check_scales global [] = ok tt
  check_scales global (bits ∷ rest) =
      check_scale global (fp8_e4m3_to_f32 bits) >> check_scales global rest

  -- The public constructor.
  unfoldable pub make_view : Span ℕ → Span ℕ → Float → ℕ → ℕ → Result (MatrixView Float)
  make_view packed scales global_scale rows cols = do
    _ ← elements rows cols
    guard (cols % 16 == 0) (invalid_argument (text "NVFP4 K must be a multiple of 16"))
    packed_size ← checked_mul rows (cols / 2)
    scale_size ← checked_mul rows (cols / 16)
    require_size 1 packed packed_size
    require_size 1 scales scale_size
    guard (is_usable_scale global_scale) (
        invalid_argument
          (text "NVFP4 global scale must be finite and at least the minimum normal float"))
    check_scales global_scale (first scales scale_size).items
    ok (record {
      packed = first packed packed_size;
      scales = first scales scale_size;
      global_scale = global_scale;
      rows = rows;
      cols = cols;
      packed_stride = cols / 2;
      scale_stride = cols / 16;
    })

  -- The element at a position inside the view.
  unfoldable pub element : MatrixView Float → ℕ → ℕ → Float
  element view row col =
      let byte = get_or view.packed.items (offset row view.packed_stride (col / 2)) 0 in
      let nibble = if col % 2 == 0 then byte % 16 else byte / 16 in
      let scale =
        fp8_e4m3_to_f32 (get_or view.scales.items (offset row view.scale_stride (col / 16)) 0) in
      dequant (e2m1 nibble) scale view.global_scale

  unfoldable pub at : MatrixView Float → ℕ → ℕ → Result Float
  at view row col =
      if leb view.rows row || leb view.cols col
      then threw (out_of_range (text "NVFP4 element outside view"))
      else ok (element view row col)

-- `rows > rows_ - row` is evaluated only where `row < rows_`.
unfoldable pub slice :
    {Float : Type 0} → MatrixView Float → ℕ → ℕ → ℕ → ℕ → Result (MatrixView Float)
slice view row rows col cols = do
  guard
      (not (
        rows == 0
        || cols == 0
        || leb view.rows row
        || leb view.cols col
        || ltb (view.rows - row) rows
        || ltb (view.cols - col) cols))
      (out_of_range (text "NVFP4 slice outside view"))
  guard (col % 16 == 0 && cols % 16 == 0)
      (invalid_argument (text "NVFP4 K slices must preserve groups of 16"))
  ok (record {
    packed =
        subspan view.packed (offset row view.packed_stride (col / 2))
          (offset (rows - 1) view.packed_stride (cols / 2));
    scales =
        subspan view.scales (offset row view.scale_stride (col / 16))
          (offset (rows - 1) view.scale_stride (cols / 16));
    global_scale = view.global_scale;
    rows = rows;
    cols = cols;
    packed_stride = view.packed_stride;
    scale_stride = view.scale_stride;
  })
