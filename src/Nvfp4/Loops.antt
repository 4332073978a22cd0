-- ===== src/Nvfp4/Loops.antt =====
-- src/nvfp4_decode.cpp: what the loops of the oracles write and read.
use native.Mathlib.Decide.{ℕ_discrete}
use ninfer_nvfp4_glm_5_3_fla.Prelude.{
  ℕ, zero, suc, ◌+◌, ◌*◌, ◌≤◌, ◌<◌, ◌≡◌, refl, ap, ◌∙◌, List, arith, get_or, set, length,
  length-set, get_or-set_self, get_or-set_ne,
}
use ninfer_nvfp4_glm_5_3_fla.Nvfp4.Sizes.{size_mod, offset}
use ninfer_nvfp4_glm_5_3_fla.Nvfp4.View.{Arithmetic, MatrixView, element}
use ninfer_nvfp4_glm_5_3_fla.Nvfp4.Kernels.{fill_row, fill_rows, row_sum, products}

next_row : (row cols : ℕ) → (row + 1) * cols ≡ row * cols + cols
next_row row cols = grind arith

next_rows : (row rounds cols : ℕ) → ((row + 1) + rounds) * cols ≡ (row + suc rounds) * cols
next_rows row rounds cols = ap (λ n. n * cols) (omega arith)

rows_end : (row rounds cols : ℕ) → row * cols + cols ≤ (row + suc rounds) * cols
rows_end row rounds cols = grind arith

module _ {Float Double : Type 0} (ops : Arithmetic Float Double) where
  length-fill_row :
      (value : ℕ → Float) (row cols rounds col : ℕ) (weight : List Float)
      → length (fill_row ops value row cols rounds col weight) ≡ length weight
  unfolding fill_row
  length-fill_row value row cols zero col weight = refl
  length-fill_row value row cols (suc rounds) col weight =
      length-fill_row value row cols rounds (col + 1) (set weight (offset row cols col) (value col))
      ∙ length-set weight (offset row cols col) (value col)

  -- The loop writes no cell before its first column.
  fill_row_before :
      (value : ℕ → Float) (row cols rounds col i : ℕ) (weight : List Float) (d : Float)
      → row * cols + (col + rounds) < size_mod
      → i < row * cols + col
      → get_or (fill_row ops value row cols rounds col weight) i d ≡ get_or weight i d
  unfolding fill_row offset
  fill_row_before value row cols zero col i weight d fits h = refl
  fill_row_before value row cols (suc rounds) col i weight d fits h =
      fill_row_before value row cols rounds (col + 1) i
        (set weight (offset row cols col) (value col)) d (omega arith) (omega arith)
      ∙ get_or-set_ne weight (offset row cols col) i (value col) d (omega arith)

  -- Nor one behind its last column.
  fill_row_behind :
      (value : ℕ → Float) (row cols rounds col i : ℕ) (weight : List Float) (d : Float)
      → row * cols + (col + rounds) < size_mod
      → row * cols + (col + rounds) ≤ i
      → get_or (fill_row ops value row cols rounds col weight) i d ≡ get_or weight i d
  unfolding fill_row offset
  fill_row_behind value row cols zero col i weight d fits h = refl
  fill_row_behind value row cols (suc rounds) col i weight d fits h =
      fill_row_behind value row cols rounds (col + 1) i
        (set weight (offset row cols col) (value col)) d (omega arith) (omega arith)
      ∙ get_or-set_ne weight (offset row cols col) i (value col) d (omega arith)

  fill_row_hit :
      (value : ℕ → Float) (row cols rounds col c : ℕ) (weight : List Float) (d : Float)
      → row * cols + (col + rounds) < size_mod
      → row * cols + (col + rounds) ≤ length weight
      → col ≤ c
      → c < col + rounds
      → get_or (fill_row ops value row cols rounds col weight) (row * cols + c) d ≡ value c
  unfolding fill_row offset
  fill_row_hit value row cols zero col c weight d fits room le lt = absurd (omega arith)
  fill_row_hit value row cols (suc rounds) col c weight d fits room le lt =
      elim (ℕ_discrete col c) [
        | yes e ↦
            let exact : offset row cols col ≡ row * cols + c = omega arith in
            fill_row_before value row cols rounds (col + 1) (row * cols + c)
              (set weight (offset row cols col) (value col)) d (omega arith) (omega arith)
            ∙ rw (exact, ← e)
                (get_or-set_self weight (row * cols + col) (value col) d (omega arith))
        | no ne ↦
            fill_row_hit value row cols rounds (col + 1) c
              (set weight (offset row cols col) (value col)) d (omega arith)
              (omega (arith, length-set {0} weight (offset row cols col) (value col))) (omega arith)
              (omega arith)
      ]

  pub length-fill_rows :
      (view : MatrixView Float) (rounds row : ℕ) (weight : List Float)
      → length (fill_rows ops view rounds row weight) ≡ length weight
  unfolding fill_rows
  length-fill_rows view zero row weight = refl
  length-fill_rows view (suc rounds) row weight =
      length-fill_rows view rounds (row + 1)
        (fill_row ops (element ops view row) row view.cols view.cols 0 weight)
      ∙ length-fill_row (element ops view row) row view.cols view.cols 0 weight

  fill_rows_before :
      (view : MatrixView Float) (rounds row i : ℕ) (weight : List Float) (d : Float)
      → (row + rounds) * view.cols < size_mod
      → i < row * view.cols
      → get_or (fill_rows ops view rounds row weight) i d ≡ get_or weight i d
  unfolding fill_rows
  fill_rows_before view zero row i weight d fits h = refl
  fill_rows_before view (suc rounds) row i weight d fits h =
      let step = next_row row view.cols in
      let past = rows_end row rounds view.cols in
      fill_rows_before view rounds (row + 1) i
        (fill_row ops (element ops view row) row view.cols view.cols 0 weight) d
        (omega (arith, next_rows row rounds view.cols)) (omega arith)
      ∙ fill_row_before (element ops view row) row view.cols view.cols 0 i weight d (omega arith)
          (omega arith)

  pub fill_rows_behind :
      (view : MatrixView Float) (rounds row i : ℕ) (weight : List Float) (d : Float)
      → (row + rounds) * view.cols < size_mod
      → (row + rounds) * view.cols ≤ i
      → get_or (fill_rows ops view rounds row weight) i d ≡ get_or weight i d
  unfolding fill_rows
  fill_rows_behind view zero row i weight d fits h = refl
  fill_rows_behind view (suc rounds) row i weight d fits h =
      let past = rows_end row rounds view.cols in
      fill_rows_behind view rounds (row + 1) i
        (fill_row ops (element ops view row) row view.cols view.cols 0 weight) d
        (omega (arith, next_rows row rounds view.cols))
        (omega (arith, next_rows row rounds view.cols))
      ∙ fill_row_behind (element ops view row) row view.cols view.cols 0 i weight d (omega arith)
          (omega arith)

  pub fill_rows_hit :
      (view : MatrixView Float) (rounds row r c : ℕ) (weight : List Float) (d : Float)
      → (row + rounds) * view.cols < size_mod
      → (row + rounds) * view.cols ≤ length weight
      → row ≤ r
      → r < row + rounds
      → c < view.cols
      → get_or (fill_rows ops view rounds row weight) (r * view.cols + c) d ≡ element ops view r c
  unfolding fill_rows
  fill_rows_hit view zero row r c weight d fits room le lt hc = absurd (omega arith)
  fill_rows_hit view (suc rounds) row r c weight d fits room le lt hc =
      let step = next_row row view.cols in
      let past = rows_end row rounds view.cols in
      let next = next_rows row rounds view.cols in
      let written = fill_row ops (element ops view row) row view.cols view.cols 0 weight in
      let kept = length-fill_row (element ops view row) row view.cols view.cols 0 weight in
      elim (ℕ_discrete row r) [
        | yes e ↦ rw (← e) (
            fill_rows_before view rounds (row + 1) (row * view.cols + c) written d (omega arith)
              (omega arith)
            ∙ fill_row_hit (element ops view row) row view.cols view.cols 0 c weight d (omega arith)
                (omega arith) (omega arith) (omega arith))
        | no ne ↦
            fill_rows_hit view rounds (row + 1) r c written d (omega arith) (omega arith)
              (omega arith) (omega arith) hc
      ]

  -- Equal weights give equal sums.
  row_sum_cong :
      (f g : ℕ → Float) (x : List Float) (rounds col : ℕ) (sum : Double)
      → ((c : ℕ) → c < col + rounds → f c ≡ g c)
      → row_sum ops f x rounds col sum ≡ row_sum ops g x rounds col sum
  unfolding row_sum
  row_sum_cong f g x zero col sum h = refl
  row_sum_cong f g x (suc rounds) col sum h = rw (h col (omega arith)) (
      row_sum_cong f g x rounds (col + 1) (ops.mul_add sum (g col) (get_or x col ops.unread))
        (λ c hc. h c (omega arith)))

  pub products_cong :
      (f g : ℕ → ℕ → Float) (x : List Float) (cols rounds row : ℕ)
      → ((r c : ℕ) → r < row + rounds → c < cols → f r c ≡ g r c)
      → products ops f x cols rounds row ≡ products ops g x cols rounds row
  unfolding products
  products_cong f g x cols zero row h = refl
  products_cong f g x cols (suc rounds) row h = rw (
    row_sum_cong (f row) (g row) x cols 0 ops.zero_sum
        (λ c hc. h row c (omega arith) (omega arith)),
    products_cong f g x cols rounds (row + 1) (λ r c hr hc. h r c (omega arith) hc),
  )
