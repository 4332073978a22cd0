-- ===== src/TextForward/Gathered.antt =====
-- src/text_forward.cpp: two ranks that exchange their halves both hold the whole product.
use ninfer_nvfp4_glm_5_3_fla.Prelude.{
  take-whole, take-front, drop-front, drop-all, ℕ, zero, suc, ◌+◌, ◌-◌, ◌/◌, ◌≤◌, ◌<◌, ◌≡◌, refl,
  sym, ap, ◌∙◌, true, false, some, List, [], ◌∷◌, ◌++◌, arith, length, take, drop, set,
  append_assoc, append-nil, length-append, length-take, length-drop, take-append-drop, ==_iff, ◌==◌,
}
use ninfer_nvfp4_glm_5_3_fla.TextForward.Rows.{
  gemv_bf16, apply_rows, gather_rows, meet, linear_rows,
}

module _ {A : Type 0} where
  -- The products of `n` rows from `row` on.
  unfoldable pub table : (ℕ → A) → ℕ → ℕ → List A
  table dot row zero = []
  table dot row (suc n) = dot row ∷ table dot (row + 1) n

  length-table : (dot : ℕ → A) (row n : ℕ) → length (table dot row n) ≡ n
  unfolding table
  length-table dot row zero = refl
  length-table dot row (suc n) = ap suc (length-table dot (row + 1) n)

  table-add :
      (dot : ℕ → A) (row m n : ℕ) → table dot row (m + n) ≡ table dot row m ++ table dot (row + m) n
  unfolding table
  table-add dot row zero n =
      let same : row + 0 ≡ row = omega arith in
      let none_more : 0 + n ≡ n = omega arith in rw (same, none_more) refl
  table-add dot row (suc m) n =
      let rest = table-add dot (row + 1) m n in
      let next : row + 1 + m ≡ row + suc m = omega arith in
      let more : suc m + n ≡ suc (m + n) = omega arith in
      rw more (ap (λ t. dot row ∷ t) (rw next at rest))

  set-front :
      (front back : List A) (x v : A) → set (front ++ x ∷ back) (length front) v ≡ front ++ v ∷ back
  set-front [] back x v = refl
  set-front (y ∷ front) back x v = ap (λ ys. y ∷ ys) (set-front front back x v)

  -- The loop writes the table in place of the rows.
  gemv_bf16-table :
      (dot : ℕ → A) (front rows back : List A)
      → gemv_bf16 dot (length front) (length rows) (front ++ (rows ++ back))
        ≡ front ++ (table dot (length front) (length rows) ++ back)
  unfolding gemv_bf16 table
  gemv_bf16-table dot front [] back = refl
  gemv_bf16-table dot front (x ∷ rows) back =
      let v = dot (length front) in
      let size : length (front ++ v ∷ []) ≡ length front + 1 = length-append front (v ∷ []) in
      let rest = gemv_bf16-table dot (front ++ v ∷ []) rows back in
      ap (gemv_bf16 dot (length front + 1) (length rows)) (set-front front (rows ++ back) x v)
      ∙ (rw
          (
            size,
            append_assoc front (v ∷ []) (rows ++ back),
            append_assoc front (v ∷ []) (table dot (length front + 1) (length rows) ++ back),
          )
          at rest)

  -- The loop over all rows from the first or up to the last.
  gemv_bf16-low :
      (dot : ℕ → A) (mid : ℕ) (y : List A)
      → mid ≤ length y
      → gemv_bf16 dot 0 mid y ≡ table dot 0 mid ++ drop mid y
  gemv_bf16-low dot mid y h =
      let size : length (take mid y) ≡ mid = omega (arith, length-take mid y) in
      rw (size, take-append-drop mid y) at (gemv_bf16-table dot [] (take mid y) (drop mid y))

  gemv_bf16-high :
      (dot : ℕ → A) (mid n : ℕ) (y : List A)
      → mid + n ≡ length y
      → gemv_bf16 dot mid n y ≡ take mid y ++ table dot mid n
  gemv_bf16-high dot mid n y h =
      let low : length (take mid y) ≡ mid = omega (arith, length-take mid y) in
      let high : length (drop mid y) ≡ n = omega (arith, length-drop mid y) in
      rw (low, high, append-nil (drop mid y), append-nil (table dot mid n), take-append-drop mid y)
        at (gemv_bf16-table dot (take mid y) (drop mid y) [])

  -- Two ranks that have their halves meet, and both end with the two halves side by side.
  meet_halves :
      (lo hi lo' hi' : List A)
      → length lo' ≡ length lo
      → length hi' ≡ length hi
      → 0 < length lo + length hi
      → (length lo + length hi) / 2 ≡ length lo
      → meet 2
          (gather_rows true 0 (lo ++ hi') (length lo + length hi))
          (gather_rows true 1 (lo' ++ hi) (length lo + length hi))
        ≡ some (lo ++ hi, lo ++ hi)
  unfolding gather_rows meet
  meet_halves lo hi lo' hi' same_lo same_hi some_rows half =
      let some_left : (length lo + length hi == 0) ≡ false = ground arith in
      let other : length lo + length hi - length lo ≡ length hi = omega arith in
      let here : (length lo == length lo) ≡ true = (==_iff _ _).1 refl in
      let there : (length hi == length hi) ≡ true = (==_iff _ _).1 refl in
      let kept : take (length lo) (lo ++ hi') ≡ lo = take-front lo hi' in
      let behind : drop (length lo + length hi) (lo ++ hi') ≡ [] =
        drop-all (length lo + length hi) (lo ++ hi') (omega (arith, length-append {0} lo hi')) in
      let start : 0 + length lo ≡ length lo' = omega arith in
      let taken : drop (0 + length lo) (lo' ++ hi) ≡ hi =
        ap (λ n. drop n (lo' ++ hi)) start ∙ drop-front lo' hi in
      let sent : take (length hi) (drop (length lo) (lo ++ hi)) ≡ hi =
        ap (take (length hi)) (drop-front lo hi) ∙ take-whole hi in
      rw (half, some_left, other, kept)
        (rw here (rw taken (rw sent (rw there (rw behind (rw (append-nil hi) refl))))))

  -- A rank on its own fills the whole table, in one part or in two.
  apply_rows-one :
      (dot : ℕ → A) (rows : ℕ) (y : List A)
      → length y ≡ rows
      → apply_rows false 0 1 dot rows y ≡ table dot 0 rows
  unfolding apply_rows
  apply_rows-one dot rows y h = gemv_bf16-high dot 0 rows y (omega arith)

  halves :
      (dot : ℕ → A) (rows : ℕ)
      → table dot 0 (rows / 2) ++ table dot (rows / 2) (rows - rows / 2) ≡ table dot 0 rows
  halves dot rows =
      let mid = rows / 2 in
      let sum : mid + (rows - mid) ≡ rows = omega arith in
      let start : 0 + mid ≡ mid = omega arith in
      rw (start, sum) at (sym (table-add dot 0 mid (rows - mid)))

  apply_rows-two :
      (dot : ℕ → A) (rows : ℕ) (y : List A)
      → length y ≡ rows
      → apply_rows false 0 2 dot rows y ≡ table dot 0 rows
  unfolding apply_rows
  apply_rows-two dot rows y h =
      let mid = rows / 2 in
      let below : mid ≤ rows = omega arith in
      let size : length (table dot 0 mid) ≡ mid = length-table dot 0 mid in
      let long : mid + (rows - mid) ≡ length (table dot 0 mid ++ drop mid y) =
        omega (arith, size, length-drop mid y, length-append {0} (table dot 0 mid) (drop mid y)) in
      let kept : take mid (table dot 0 mid ++ drop mid y) ≡ table dot 0 mid =
        ap (λ n. take n (table dot 0 mid ++ drop mid y)) (sym size)
        ∙ take-front (table dot 0 mid) (drop mid y) in
      let sum : mid + (rows - mid) ≡ rows = omega arith in
      ap (gemv_bf16 dot mid (rows - mid)) (gemv_bf16-low dot mid y (omega arith))
      ∙ gemv_bf16-high dot mid (rows - mid) (table dot 0 mid ++ drop mid y) long
      ∙ ap (λ t. t ++ table dot mid (rows - mid)) kept
      ∙ halves dot rows

  -- Ranks on a link fill their own halves.
  apply_rows-low :
      (dot : ℕ → A) (rows : ℕ) (y : List A)
      → length y ≡ rows
      → apply_rows true 0 1 dot rows y ≡ table dot 0 (rows / 2) ++ drop (rows / 2) y
  unfolding apply_rows
  apply_rows-low dot rows y h = gemv_bf16-low dot (rows / 2) y (omega arith)

  apply_rows-high :
      (dot : ℕ → A) (rows : ℕ) (y : List A)
      → length y ≡ rows
      → apply_rows true 1 1 dot rows y ≡ take (rows / 2) y ++ table dot (rows / 2) (rows - rows / 2)
  unfolding apply_rows
  apply_rows-high dot rows y h = gemv_bf16-high dot (rows / 2) (rows - rows / 2) y (omega arith)

  -- Two ranks on a link each fill their half of the rows, of which there is one at least, in buffers
  -- of so many numbers, and exchange them. They do not wait for each other, and both end with the
  -- rows that one rank alone computes, or one process in a world of two, whatever stood in their
  -- buffers.
  pub linear_rows-gathered :
      (dot : ℕ → A) (rows : ℕ) (y y0 y1 : List A)
      → 0 < rows
      → length y ≡ rows
      → length y0 ≡ rows
      → length y1 ≡ rows
      → let whole = apply_rows false 0 1 dot rows y in
        (meet 2 (linear_rows true 0 1 dot rows y0) (linear_rows true 1 1 dot rows y1)
          ≡ some (whole, whole))
        × (apply_rows false 0 2 dot rows y ≡ whole)
  linear_rows-gathered dot rows y y0 y1 some_rows h h0 h1 =
      let mid = rows / 2 in
      let whole = apply_rows-one dot rows y h in
      let lo = table dot 0 mid in
      let hi = table dot mid (rows - mid) in
      let size_lo : length lo ≡ mid = length-table dot 0 mid in
      let size_hi : length hi ≡ rows - mid = length-table dot mid (rows - mid) in
      let sum : length lo + length hi ≡ rows = omega (arith, size_lo, size_hi) in
      let low = apply_rows-low dot rows y0 h0 in
      let high = apply_rows-high dot rows y1 h1 in
      let met =
        meet_halves lo hi (take mid y1) (drop mid y0) (omega (arith, size_lo, length-take mid y1))
          (omega (arith, size_hi, length-drop mid y0)) (omega (arith, sum))
          (rw sum (sym size_lo)) in
      (
        rw (low, high, whole) (rw (sum, halves dot rows) at met),
        apply_rows-two dot rows y h ∙ sym whole,
      )
