-- ===== src/Nvfp4.antt =====
-- src/nvfp4_decode.cpp and include/ninfer_glm53/nvfp4_decode.hpp: the ModelOpt NVFP4 formats, the
-- checked matrix view, and the CPU oracles over it.
pub mod Sizes
pub mod Formats
pub mod View
pub mod Kernels
pub mod Bounds
pub mod Slices
pub mod Loops
pub mod Oracles
mod Tests
