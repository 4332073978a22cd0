-- ===== src/Nvfp4/Sizes.antt =====
-- src/nvfp4_decode.cpp: `std::size_t` arithmetic with its checks, and `std::span`.
use native.Mathlib.Decide.{dec_le}
use native.Mathlib.Nat.{le-div_iff_mul-le}
use ninfer_nvfp4_glm_5_3_fla.Prelude.{
  ℕ, zero, suc, ◌+◌, ◌-◌, ◌*◌, ◌/◌, ◌%◌, ◌^◌, ◌≤◌, ◌<◌, ◌≡◌, ◌↔◌, Bool, true, false, not, ◌&&◌,
  ◌||◌, List, arith, ltb, leb, ◌==◌, if◌then◌else◌, text, overflow_error, invalid_argument, Result,
  ok, threw, bind, length, take, drop, ◌≢◌, ◌∙◌, ap, sym,
}

abbrev pub size_mod : ℕ
size_mod = 2 ^ 64

-- `row * stride + column` on `std::size_t`, which wraps.
unfoldable pub offset : ℕ → ℕ → ℕ → ℕ
offset row stride column = (row * stride + column) % size_mod

unfoldable pub checked_mul : ℕ → ℕ → Result ℕ
checked_mul a b =
    if not (b == 0) && ltb ((size_mod - 1) / b) a
    then threw (overflow_error (text "NVFP4 size overflow"))
    else ok (a * b % size_mod)

unfoldable pub elements : ℕ → ℕ → Result ℕ
elements rows cols =
    if rows == 0 || cols == 0
    then threw (invalid_argument (text "matrix dimensions must be positive"))
    else checked_mul rows cols

-- The memory at an address; the address 0 is `nullptr`.
pub record Span (A : Type 0) : Type 0 where
  pub address : ℕ
  pub items : List A

module _ {A : Type 0} where
  -- `sizeof(T)` is an argument.
  unfoldable pub require_size : ℕ → Span A → ℕ → Result (Unit {0})
  require_size width buffer n =
      if buffer.address == 0 || ltb (length buffer.items) n
      then threw (invalid_argument (text "matrix buffer is too short"))
      else bind (checked_mul n width) λ _. ok tt

  abbrev pub first : Span A → ℕ → Span A
  first buffer n = record buffer { items = take n buffer.items }

  -- `buffer.subspan(from, n)` of elements of one byte.
  abbrev pub subspan : Span A → ℕ → ℕ → Span A
  subspan buffer from n = record {
    address = buffer.address + from;
    items = take n (drop from buffer.items);
  }

-- `overlaps` over the addresses and lengths in bytes of two ranges.
unfoldable pub overlaps : ℕ → ℕ → ℕ → ℕ → Bool
overlaps a a_size b b_size =
    if a_size == 0 || b_size == 0
    then false
    else if leb a b
    then ltb (b - a) a_size
    else ltb (a - b) b_size

pub checked_mul_lem : (a b : ℕ) {p : ℕ} → checked_mul a b ≡ ok p → (p ≡ a * b) × (a * b < size_mod)
unfolding checked_mul
checked_mul_lem a zero h = ground arith
checked_mul_lem a (suc b) h =
    ground (arith, le-div_iff_mul-le {k = suc b} {x = a} {y = size_mod - 1} (omega arith))

pub checked_mul-fits : (a b : ℕ) → a * b < size_mod → checked_mul a b ≡ ok (a * b)
unfolding checked_mul
checked_mul-fits a zero h = ground arith
checked_mul-fits a (suc b) h =
    ground (arith, le-div_iff_mul-le {k = suc b} {x = a} {y = size_mod - 1} (omega arith))

-- A product is given exactly when it fits `std::size_t`, and then it is the product.
pub checked_mul_iff : (a b p : ℕ) → (checked_mul a b ≡ ok p) ↔ ((p ≡ a * b) × (a * b < size_mod))
checked_mul_iff a b p =
    (λ h. checked_mul_lem a b {p = p} h, λ (e, fits). checked_mul-fits a b fits ∙ ap ok (sym e))

-- Two ranges overlap exactly when they share an address.
pub overlaps_iff :
    (a m b n : ℕ)
    → (overlaps a m b n ≡ true) ↔ ((x : ℕ) × (a ≤ x) × (x < a + m) × (b ≤ x) × (x < b + n))
unfolding overlaps
overlaps_iff a m b n = (
  λ h. elim (dec_le a b) [
    | yes le ↦ (b, ground arith, ground arith, ground arith, ground arith)
    | no gt ↦ (a, ground arith, ground arith, ground arith, ground arith)
  ],
  λ (x, h1, h2, h3, h4). ground arith,
)

pub elements_lem :
    (rows cols : ℕ) {n : ℕ}
    → elements rows cols ≡ ok n
    → (0 < rows) × (0 < cols) × (n ≡ rows * cols) × (rows * cols < size_mod)
unfolding elements
elements_lem rows cols {n} h = ground (arith, checked_mul_lem rows cols {p = n})

pub require_size_lem :
    {A : Type 0} (width : ℕ) (buffer : Span A) (n : ℕ)
    → require_size width buffer n ≡ ok tt
    → (buffer.address ≢ 0) × (n ≤ length buffer.items)
unfolding require_size
require_size_lem width buffer n h = ground arith

pub elements-fits :
    (rows cols : ℕ)
    → 0 < rows
    → 0 < cols
    → rows * cols < size_mod
    → elements rows cols ≡ ok (rows * cols)
unfolding elements
elements-fits rows cols hr hc h = ground (arith, checked_mul-fits rows cols h)

pub require_size-fits :
    {A : Type 0} (width : ℕ) (buffer : Span A) (n : ℕ)
    → buffer.address ≢ 0
    → n ≤ length buffer.items
    → n * width < size_mod
    → require_size width buffer n ≡ ok tt
unfolding require_size
require_size-fits width buffer n ha hn h = ground (arith, checked_mul-fits n width h)
