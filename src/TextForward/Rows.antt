-- ===== src/TextForward/Rows.antt =====
-- src/text_forward.cpp: the rows of a product over two ranks, and the exchange of their halves.
use ninfer_nvfp4_glm_5_3_fla.Prelude.{
  ℕ, zero, suc, ◌+◌, ◌-◌, ◌/◌, Bool, ◌||◌, Option, none, some, List, ◌++◌, ◌==◌, not, if◌then◌else◌,
  length, take, drop, set,
}

module _ {A : Type 0} where
  -- The loop over `left` rows from `row` on; `dot` is the product of a row, which the host computes.
  unfoldable pub gemv_bf16 : (ℕ → A) → ℕ → ℕ → List A → List A
  gemv_bf16 dot row zero y = y
  gemv_bf16 dot row (suc left) y = gemv_bf16 dot (row + 1) left (set y row (dot row))

  -- A rank with a link fills its own half. One without fills all rows, in two parts in a world of
  -- two.
  unfoldable pub apply_rows : Bool → ℕ → ℕ → (ℕ → A) → ℕ → List A → List A
  apply_rows linked rank world dot rows y =
      let mid = rows / 2 in
      if linked
      then (if rank == 0 then gemv_bf16 dot 0 mid y else gemv_bf16 dot mid (rows - mid) y)
      else if world == 1
      then gemv_bf16 dot 0 rows y
      else gemv_bf16 dot mid (rows - mid) (gemv_bf16 dot 0 mid y)

-- What a rank does on the link, `send_all` and `recv_all` of so many numbers one after another, up to
-- its outcome.
pub data Exchange (A R : Type 0) : Type 0 where
  done : R → Exchange A R
  sending : List A → Exchange A R → Exchange A R
  receiving : ℕ → (List A → Exchange A R) → Exchange A R

-- Two ranks on a link that holds nothing back: a send waits for the receive of as many numbers.
-- `none` is two ranks that wait for each other, or a rank that waits for one that is done.
unfoldable pub meet : {A R : Type 0} → ℕ → Exchange A R → Exchange A R → Option (R × R)
meet fuel (done u) (done v) = some (u, v)
meet (suc fuel) (sending numbers p) (receiving n q) =
    let rest = meet fuel p (q numbers) in if length numbers == n then rest else none
meet (suc fuel) (receiving n p) (sending numbers q) =
    let rest = meet fuel (p numbers) q in if length numbers == n then rest else none
meet _ _ _ = none

module _ {A : Type 0} where
  abbrev slice_of : ℕ → ℕ → List A → List A
  slice_of begin count values = take count (drop begin values)

  abbrev put : ℕ → List A → List A → List A
  put begin numbers values = take begin values ++ (numbers ++ drop (begin + length numbers) values)

  unfoldable pub gather_rows : Bool → ℕ → List A → ℕ → Exchange A (List A)
  gather_rows linked rank values rows =
      let mid = rows / 2 in
      if not linked || rows == 0
      then done values
      else if rank == 0
      then sending (slice_of 0 mid values)
          (receiving (rows - mid) λ numbers. done (put mid numbers values))
      else receiving mid λ numbers.
        sending (slice_of mid (rows - mid) (put 0 numbers values)) (done (put 0 numbers values))

  -- What `linear_bf16` does with its rows, up to the exchange.
  abbrev pub linear_rows : Bool → ℕ → ℕ → (ℕ → A) → ℕ → List A → Exchange A (List A)
  linear_rows linked rank world dot rows y =
      gather_rows linked rank (apply_rows linked rank world dot rows y) rows
