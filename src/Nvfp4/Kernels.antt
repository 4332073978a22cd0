-- ===== src/Nvfp4/Kernels.antt =====
-- src/nvfp4_decode.cpp: `nvfp4_dequantize`, `nvfp4_gemv` and `nvfp4_packed_gemv`.
use ninfer_nvfp4_glm_5_3_fla.Prelude.{
  ℕ, zero, suc, ◌+◌, ◌*◌, Bool, not, ◌||◌, List, [], ◌∷◌, ◌++◌, text, invalid_argument, Result, ok,
  guard, ◌>>=◌, ◌>>◌, get_or, set, length, drop, leb, ltb, ◌&&◌, ◌-◌, ◌/◌, if◌then◌else◌,
}
use ninfer_nvfp4_glm_5_3_fla.Nvfp4.Sizes.{offset, elements, Span, require_size, overlaps}
use ninfer_nvfp4_glm_5_3_fla.Nvfp4.View.{Arithmetic, MatrixView, make_view, element}

abbrev pub float_size : ℕ
float_size = 4

-- `overlaps(as_bytes(out.first(count)), as_bytes(packed))`, or with the scales.
abbrev pub overlaps_storage : {Float : Type 0} → MatrixView Float → ℕ → ℕ → Bool
overlaps_storage view address count =
    overlaps address (count * float_size) view.packed.address (length view.packed.items)
    || overlaps address (count * float_size) view.scales.address (length view.scales.items)

module _ {Float : Type 0} where
  -- The floats of a span from `address` on, when those of `weight` have been written since. Pointers
  -- to float are apart by a multiple of four.
  unfoldable pub reread_items : Span Float → ℕ → List Float → List Float
  reread_items weight address [] = []
  reread_items weight address (value ∷ items) =
      let rest = reread_items weight (address + 4) items in
      let written =
        leb weight.address address && ltb address (weight.address + length weight.items * 4) in
      if written
      then get_or weight.items ((address - weight.address) / 4) value ∷ rest
      else value ∷ rest

  unfoldable pub reread : Span Float → Span Float → Span Float
  reread weight x = record x { items = reread_items weight x.address x.items }

module _ {Float Double : Type 0} (ops : Arithmetic Float Double) where
  open ops use {zero_sum, mul_add, to_float, unread}

  -- The inner loop of `nvfp4_dequantize`, with `rounds` columns to go from `col`.
  unfoldable pub fill_row : (ℕ → Float) → ℕ → ℕ → ℕ → ℕ → List Float → List Float
  fill_row value row cols zero col weight = weight
  fill_row value row cols (suc rounds) col weight =
      fill_row value row cols rounds (col + 1) (set weight (offset row cols col) (value col))

  unfoldable pub fill_rows : MatrixView Float → ℕ → ℕ → List Float → List Float
  fill_rows view zero row weight = weight
  fill_rows view (suc rounds) row weight =
      fill_rows view rounds (row + 1)
        (fill_row (element ops view row) row view.cols view.cols 0 weight)

  -- `view.at(row, col)` does not throw inside the loops.
  unfoldable pub nvfp4_dequantize : MatrixView Float → Span Float → Result (Span Float)
  nvfp4_dequantize view weight = do
    count ← elements view.rows view.cols
    require_size float_size weight count
    guard (not (overlaps_storage view weight.address count))
        (invalid_argument (text "dequantization output overlaps packed storage"))
    ok (record weight { items = fill_rows view view.rows 0 weight.items })

  -- The overload over plain memory.
  unfoldable pub dequantize_storage :
      Span ℕ → Span ℕ → Float → ℕ → ℕ → Span Float → Result (Span Float)
  dequantize_storage packed scales global_scale rows cols weight = do
    view ← make_view ops packed scales global_scale rows cols
    nvfp4_dequantize view weight

  -- `for (col = …) sum += weight * x[col];` over the weights of one row.
  unfoldable pub row_sum : (ℕ → Float) → List Float → ℕ → ℕ → Double → Double
  row_sum value x zero col sum = sum
  row_sum value x (suc rounds) col sum =
      row_sum value x rounds (col + 1) (mul_add sum (value col) (get_or x col unread))

  -- The vector `result`.
  unfoldable pub products : (ℕ → ℕ → Float) → List Float → ℕ → ℕ → ℕ → List Float
  products value x cols zero row = []
  products value x cols (suc rounds) row =
      to_float (row_sum (value row) x cols 0 zero_sum) ∷ products value x cols rounds (row + 1)

  -- `std::copy(result.begin(), result.end(), y.begin());`
  abbrev pub copy_result : List Float → Span Float → Span Float
  copy_result result y = record y { items = result ++ drop (length result) y.items }

  unfoldable pub nvfp4_gemv : Span Float → Span Float → ℕ → ℕ → Span Float → Result (Span Float)
  nvfp4_gemv x weight rows cols y = do
    count ← elements rows cols
    require_size float_size weight count
    require_size float_size x cols
    require_size float_size y rows
    ok (
        copy_result
          (products (λ row col. get_or weight.items (offset row cols col) unread) x.items cols rows
            0)
          y)

  unfoldable pub nvfp4_packed_gemv :
      MatrixView Float → Span Float → Span Float → Result (Span Float)
  nvfp4_packed_gemv view x y = do
    require_size float_size x view.cols
    require_size float_size y view.rows
    guard (not (overlaps_storage view y.address view.rows))
        (invalid_argument (text "GEMV output overlaps packed storage"))
    ok (copy_result (products (element ops view) x.items view.cols view.rows 0) y)
