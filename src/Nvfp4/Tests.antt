-- ===== src/Nvfp4/Tests.antt =====
-- src/nvfp4_decode.cpp on small matrices, with whole numbers in place of floats.
use ninfer_nvfp4_glm_5_3_fla.Prelude.{
  ℕ, ◌+◌, ◌*◌, ◌/◌, ◌≤◌, ◌<◌, ◌≡◌, ◌≢◌, ◌↔◌, refl, true, [], ◌∷◌, arith, text, out_of_range,
  invalid_argument, ok, threw, bind, length, get_elem?, some, get_or, ltb, replicate, ◌++◌, ◌⊎◌,
  ◌%◌, false,
}
use ninfer_nvfp4_glm_5_3_fla.Nvfp4.Sizes.{
  checked_mul, elements, Span, require_size, overlaps, overlaps_iff,
}
use ninfer_nvfp4_glm_5_3_fla.Nvfp4.Formats.{
  Fp8, e2m1, nan, finite, fp8_e4m3_to_f32, magnitude, fp8_e4m3_to_f32_mono,
}
use ninfer_nvfp4_glm_5_3_fla.Nvfp4.View.{
  Arithmetic, MatrixView, check_scale, check_scales, make_view, element, at, slice,
}
use ninfer_nvfp4_glm_5_3_fla.Nvfp4.Bounds.{
  IsValid, Accepts, view_over, make_view_iff, make_view-IsValid, at_in_bounds,
}
use ninfer_nvfp4_glm_5_3_fla.Nvfp4.Slices.{InRange, slice_lem, slice_refused}
use ninfer_nvfp4_glm_5_3_fla.Nvfp4.Kernels.{reread, nvfp4_dequantize, nvfp4_gemv, nvfp4_packed_gemv}
use ninfer_nvfp4_glm_5_3_fla.Nvfp4.Oracles.{
  IsOutput, nvfp4_dequantize_lem, nvfp4_packed_gemv-dequantize,
}

abbrev scale_units : Fp8 → ℕ
scale_units (nan s) = 0
scale_units (finite d) = d.units

abbrev toy : Arithmetic ℕ ℕ
toy = record {
  is_usable_scale = λ s. ltb 0 s;
  overflows = λ d s. ltb 1000000 (d.units * s);
  dequant = λ code scale global. code.units * scale_units scale * global;
  zero_sum = 0;
  mul_add = λ sum w x. sum + w * x;
  to_float = λ sum. sum;
  unread = 0;
}

abbrev packed_bytes : Span ℕ
packed_bytes = record { address = 1000; items = replicate 16 33 ++ replicate 16 67 }

abbrev scale_bytes : Span ℕ
scale_bytes = record { address = 2000; items = 56 ∷ 57 ∷ 58 ∷ 59 ∷ [] }

abbrev small : MatrixView ℕ
small = view_over toy packed_bytes scale_bytes 1 2 32

small_made : make_view toy packed_bytes scale_bytes 1 2 32 ≡ ok small
unfolding make_view elements checked_mul require_size check_scales check_scale fp8_e4m3_to_f32
small_made = refl

make_view-IsValid_example : IsValid toy small
make_view-IsValid_example = make_view-IsValid toy packed_bytes scale_bytes 1 2 32 small small_made

small-IsValid : IsValid toy small
small-IsValid = make_view-IsValid toy packed_bytes scale_bytes 1 2 32 small small_made

make_view_iff_example : (make_view toy packed_bytes scale_bytes 1 2 32 ≡ ok small) ↔ (
    (small ≡ view_over toy packed_bytes scale_bytes 1 2 32)
    × Accepts toy packed_bytes scale_bytes 1 2 32)
make_view_iff_example = make_view_iff toy packed_bytes scale_bytes 1 2 32 small

lower_right : InRange toy small 1 1 16 16
lower_right = record {
  rows_pos = omega arith;
  cols_pos = omega arith;
  row_end = omega arith;
  col_end = omega arith;
  col_group = refl;
  cols_group = refl;
}

slice_lem_example :
    (part : MatrixView ℕ) × (slice small 1 1 16 16 ≡ ok part)
    × IsValid toy part
    × ((i j : ℕ) → i < 1 → j < 16 → at toy part i j ≡ at toy small (1 + i) (16 + j))
slice_lem_example = slice_lem toy small 1 1 16 16 small-IsValid lower_right

abbrev floats : ℕ → ℕ → Span ℕ
floats address count = record { address = address; items = replicate count 7 }

apart-IsOutput : IsOutput small (floats 4000 70) 64
unfolding overlaps
apart-IsOutput = record {
  has_room = record { allocated = omega arith; room = omega arith; bytes = omega arith };
  apart = refl;
}

result-IsOutput : IsOutput small (floats 5000 3) 2
unfolding overlaps
result-IsOutput = record {
  has_room = record { allocated = omega arith; room = omega arith; bytes = omega arith };
  apart = refl;
}

nvfp4_dequantize_lem_example :
    (out : Span ℕ) × (nvfp4_dequantize toy small (floats 4000 70) ≡ ok out)
    × (out.address ≡ 4000)
    × (length out.items ≡ 70)
    × ((r c : ℕ) (d : ℕ) → r < 2 → c < 32 → get_or out.items (r * 32 + c) d ≡ element toy small r c)
    × ((i : ℕ) (d : ℕ) → 64 ≤ i → get_or out.items i d ≡ get_or (floats 4000 70).items i d)
nvfp4_dequantize_lem_example =
    nvfp4_dequantize_lem toy small (floats 4000 70) small-IsValid apart-IsOutput

x_apart : overlaps 6000 128 4000 280 ≡ false
unfolding overlaps
x_apart = refl

nvfp4_packed_gemv-dequantize_example :
    bind
      (nvfp4_dequantize toy small (floats 4000 70))
      (λ w. nvfp4_gemv toy (reread w (floats 6000 32)) w 2 32 (floats 5000 3))
    ≡ nvfp4_packed_gemv toy small (floats 6000 32) (floats 5000 3)
nvfp4_packed_gemv-dequantize_example =
    nvfp4_packed_gemv-dequantize toy small (floats 6000 32) (floats 4000 70) (floats 5000 3)
      small-IsValid apart-IsOutput
      (record { allocated = omega arith; room = omega arith; bytes = omega arith }) result-IsOutput
      x_apart

overlaps_iff_example :
    (overlaps 10 4 12 6 ≡ true) ↔ ((x : ℕ) × (10 ≤ x) × (x < 10 + 4) × (12 ≤ x) × (x < 12 + 6))
overlaps_iff_example = overlaps_iff 10 4 12 6

slice_refused_example :
    (((◌≡◌ {A = ℕ} 1 0) ⊎ (◌≡◌ {A = ℕ} 16 0) ⊎ (2 < 0 + 1) ⊎ (32 < 8 + 16))
      → slice small 0 1 8 16 ≡ threw (out_of_range (text "NVFP4 slice outside view")))
    × (0 < 1
        → 0 < 16
        → 0 + 1 ≤ 2
        → 8 + 16 ≤ 32
        → (8 % 16 ≢ 0) ⊎ (16 % 16 ≢ 0)
        → slice small 0 1 8 16
          ≡ threw (invalid_argument (text "NVFP4 K slices must preserve groups of 16")))
slice_refused_example = slice_refused toy small 0 1 8 16

fp8_e4m3_to_f32_mono_example : magnitude (fp8_e4m3_to_f32 7) < magnitude (fp8_e4m3_to_f32 8)
fp8_e4m3_to_f32_mono_example = fp8_e4m3_to_f32_mono 7 8 (omega arith) (omega arith)

at_in_bounds_example :
    (byte scale : ℕ) × (get_elem? small.packed.items (1 * 16 + 31 / 2) ≡ some byte)
    × (get_elem? small.scales.items (1 * 2 + 31 / 16) ≡ some scale)
    × (at toy small 1 31
        ≡ ok (toy.dequant (e2m1 (byte / 16)) (fp8_e4m3_to_f32 scale) small.global_scale))
at_in_bounds_example = at_in_bounds toy small 1 31 small-IsValid (omega arith) (omega arith)
