-- ===== src/Nvfp4/Oracles.antt =====
-- src/nvfp4_decode.cpp: the dequantization of a matrix, and the product over packed storage against
-- the product over the dequantized weights.
use ninfer_nvfp4_glm_5_3_fla.Prelude.{
  leb, ltb, ◌&&◌, List, [], ◌∷◌, ℕ, ◌+◌, ◌*◌, ◌≤◌, ◌<◌, ◌≡◌, ◌≢◌, refl, ap, ◌∙◌, false, arith, ok,
  bind, get_or, length,
}
use ninfer_nvfp4_glm_5_3_fla.Nvfp4.Sizes.{
  overlaps, size_mod, offset, Span, require_size, elements-fits, require_size-fits,
}
use ninfer_nvfp4_glm_5_3_fla.Nvfp4.View.{Arithmetic, MatrixView, element}
use ninfer_nvfp4_glm_5_3_fla.Nvfp4.Bounds.{IsValid}
use ninfer_nvfp4_glm_5_3_fla.Nvfp4.Kernels.{
  float_size, overlaps_storage, fill_rows, nvfp4_dequantize, nvfp4_gemv, reread_items, reread,
  nvfp4_packed_gemv,
}
use ninfer_nvfp4_glm_5_3_fla.Nvfp4.Loops.{
  length-fill_rows, fill_rows_hit, fill_rows_behind, products_cong,
}

-- A buffer of floats with room for `count` of them, whose size in bytes fits `std::size_t`.
pub record HasRoom {Float : Type 0} (buffer : Span Float) (count : ℕ) : Type 0 where
  pub allocated : buffer.address ≢ 0
  pub room : count ≤ length buffer.items
  pub bytes : count * float_size < size_mod

-- Such a buffer apart from the storage of a view.
pub record IsOutput {Float : Type 0} (view : MatrixView Float) (buffer : Span Float) (count : ℕ)
    : Type 0 where
  pub has_room : HasRoom buffer count
  pub apart : overlaps_storage view buffer.address count ≡ false

room-accepted :
    {Float : Type 0} (buffer : Span Float) (count : ℕ)
    → HasRoom buffer count
    → require_size float_size buffer count ≡ ok tt
room-accepted buffer count h = require_size-fits float_size buffer count h.allocated h.room h.bytes

-- The last cell of a row lies before the end.
row_end : (r c rows cols : ℕ) → r < rows → c < cols → r * cols + c < rows * cols
row_end r c rows cols hr hc = grind arith

module _ {Float Double : Type 0} (ops : Arithmetic Float Double) where
  nvfp4_dequantize_returns :
      (view : MatrixView Float) (weight : Span Float)
      → IsValid ops view
      → IsOutput view weight (view.rows * view.cols)
      → nvfp4_dequantize ops view weight
        ≡ ok (record weight { items = fill_rows ops view view.rows 0 weight.items })
  unfolding nvfp4_dequantize
  nvfp4_dequantize_returns view weight v w =
      let bytes = w.has_room.bytes in
      rw (
        elements-fits view.rows view.cols v.rows_pos v.cols_pos (omega arith),
        room-accepted weight (view.rows * view.cols) w.has_room,
        w.apart,
      )

  -- Into an output apart from the storage, a valid view is dequantized row by row: the cell of
  -- row r and column c gets the element there, and what follows the last row is kept.
  pub nvfp4_dequantize_lem :
      (view : MatrixView Float) (weight : Span Float)
      → IsValid ops view
      → IsOutput view weight (view.rows * view.cols)
      → (out : Span Float) × (nvfp4_dequantize ops view weight ≡ ok out)
        × (out.address ≡ weight.address)
        × (length out.items ≡ length weight.items)
        × ((r c : ℕ) (d : Float)
            → r < view.rows
            → c < view.cols
            → get_or out.items (r * view.cols + c) d ≡ element ops view r c)
        × ((i : ℕ) (d : Float)
            → view.rows * view.cols ≤ i
            → get_or out.items i d ≡ get_or weight.items i d)
  nvfp4_dequantize_lem view weight v w =
      let bytes = w.has_room.bytes in
      let room = w.has_room.room in
      (
        record weight { items = fill_rows ops view view.rows 0 weight.items },
        nvfp4_dequantize_returns view weight v w,
        refl,
        length-fill_rows ops view view.rows 0 weight.items,
        λ r c d hr hc.
            fill_rows_hit ops view view.rows 0 r c weight.items d (omega arith) (omega arith)
              (omega arith) (omega arith) hc,
        λ i d h. fill_rows_behind ops view view.rows 0 i weight.items d (omega arith) (omega arith),
      )

  reread_items-apart :
      (weight : Span Float) (address : ℕ) (items : List Float)
      → overlaps address (length items * 4) weight.address (length weight.items * 4) ≡ false
      → reread_items weight address items ≡ items
  unfolding reread_items overlaps
  reread_items-apart weight address [] h = refl
  reread_items-apart weight address (value ∷ items) h =
      let rest = reread_items-apart weight (address + 4) items (ground arith) in
      let outside : (leb weight.address address
            && ltb address (weight.address + length weight.items * 4))
          ≡ false =
        ground arith in
      rw outside (ap (λ xs. value ∷ xs) rest)

  -- The product with the packed weights is the product with the dequantized ones, for a valid view,
  -- weights and a result with room that are apart from its storage, and an x with room that shares no
  -- memory with the weights: dequantization writes them before the product reads x.
  pub nvfp4_packed_gemv-dequantize :
      (view : MatrixView Float) (x weight y : Span Float)
      → IsValid ops view
      → IsOutput view weight (view.rows * view.cols)
      → HasRoom x view.cols
      → IsOutput view y view.rows
      → overlaps x.address (length x.items * 4) weight.address (length weight.items * 4) ≡ false
      → bind
          (nvfp4_dequantize ops view weight)
          (λ w. nvfp4_gemv ops (reread w x) w view.rows view.cols y)
        ≡ nvfp4_packed_gemv ops view x y
  unfolding nvfp4_gemv nvfp4_packed_gemv offset reread
  nvfp4_packed_gemv-dequantize view x weight y v w hx hy apart =
      let bytes = w.has_room.bytes in
      let room = w.has_room.room in
      let written = fill_rows ops view view.rows 0 weight.items in
      let length_written = length-fill_rows ops view view.rows 0 weight.items in
      let accepted : require_size float_size (record weight { items = written })
            (view.rows * view.cols)
          ≡ ok tt =
        room-accepted (record weight { items = written }) (view.rows * view.cols)
          (record {
            allocated = w.has_room.allocated;
            room = omega arith;
            bytes = w.has_room.bytes;
          }) in
      let out : Span Float = record weight { items = written } in
      let unchanged : reread_items out x.address x.items ≡ x.items =
        reread_items-apart out x.address x.items (rw length_written apart) in
      let same =
        products_cong ops (λ row col. get_or written (offset row view.cols col) ops.unread)
          (element ops view) x.items view.cols view.rows 0
          (λ r c hr hc.
            ap (λ i. get_or written i ops.unread)
              (omega (arith, row_end r c view.rows view.cols (omega arith) hc))
            ∙ fill_rows_hit ops view view.rows 0 r c weight.items ops.unread (omega arith)
                (omega arith) (omega arith) (omega arith) hc) in
      rw (
        nvfp4_dequantize_returns view weight v w,
        unchanged,
        nvfp4_gemv,
        elements-fits view.rows view.cols v.rows_pos v.cols_pos (omega arith),
        accepted,
        room-accepted x view.cols hx,
        room-accepted y view.rows hy.has_room,
        nvfp4_packed_gemv,
        hy.apart,
        same,
      )
