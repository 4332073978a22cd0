-- ===== src/Lib.antt =====
-- The verification library of NInfer GLM-5.3-Flash: the host-side logic that decides what may run
-- and what is committed, of the tensor-parallel runtime for two DGX Sparks.
--
-- The parts of the program and the files that model them:
--
-- * src/speculative.cpp and include/ninfer_glm53/speculative.hpp, the commit of a verified DFlash
--   round to both ranks: Speculative. `commit_same_tokens` and `commit_dflash2` keep their names; a
--   pointer that may be null is an option, and the rank records are passed in and returned.
-- * include/ninfer_glm53/dflash_loop.hpp, the loop that proposes, verifies, commits and steps:
--   DflashLoop. The template parameters `Model` and `Propose` are the record `Target`; a call passes
--   the state of the model on, also when it throws. The parts of the template's one function are
--   definitions of their own: `verify_round` is the `try` block, `verify_restored` adds the snapshot
--   and both restores, `emit_round` is what follows the commit, `speculate` all of a round behind
--   the end tests, `loop_body` the body of the loop. The loop has `new_tokens + 1` rounds of fuel;
--   each round that does not break emits a token, so the fuel does not run out on a model with the
--   laws of DflashLoop/Interface. DflashLoop/Greedy has the specification, plain greedy decoding.
-- * src/nvfp4_decode.cpp and include/ninfer_glm53/nvfp4_decode.hpp, the views of NVFP4 matrices and
--   the host oracles: Nvfp4. Sizes are `std::size_t` and wrap at 2 ^ 64; a span is an address with
--   its elements. `reread` gives what a span shows once another one, which may overlap it, has been
--   written. An FP4 or FP8 code decodes to an exact value, its sign and its magnitude in units
--   of 2 ^ -1 or 2 ^ -9. What is rounded, the arithmetic on `float` and `double`, is the parameter
--   `Arithmetic`. `element` is `at` behind its range check.
-- * src/model_spec.cpp and include/ninfer_glm53/model_spec.hpp: ModelSpec. A `double` is its sign
--   and the other 63 bits (Prelude/Doubles), with the comparisons of IEEE 754.
-- * src/deployment_contract.cpp and include/ninfer_glm53/deployment_contract.hpp: Deployment. The
--   bytes of the environment file are an argument of `parse_env_file`, and `std::stod` is a
--   parameter of `parse_double`. The map of the keys is an association list.
-- * src/execution_plan.cpp and include/ninfer_glm53/execution_plan.hpp: ExecutionPlan. A validator
--   is a list of checks, each a test with the message that it reports (Prelude/Reports).
-- * src/parameter_schema.cpp and include/ninfer_glm53/parameter_schema.hpp: Schema. A function that
--   appends tensors to a catalogue gives the list of those that it appends; Schema/Validate checks a
--   catalogue. Dimensions are `std::int64_t` in a catalogue and natural numbers where the schema
--   computes them. The digest of a catalogue stands in Checkpoint/Bind.
-- * src/sha256.hpp, the incremental hash: Sha256. The hasher keeps the first `block_len_` bytes of
--   `block_`, and no byte behind them is read. The 64 rounds of padding suffice, since the block
--   passes every length.
-- * src/json_scan.hpp, the cursor on a JSON text: JsonScan. The cursor is the text that is left; its
--   offset is the size of the text less the length of that. The depth is the room that is left for
--   containers. The fuel of a loop is the length of the text, of which each round takes a byte. A
--   loop that spent it before the text would throw a `logic_error`, which the scanner never throws.
--   JsonScan/Values has the values as they are written.
-- * src/checkpoint_binding.cpp and include/ninfer_glm53/checkpoint_binding.hpp: Checkpoint. An
--   `std::unordered_map` is the list of its entries in the order in which it is walked, a file its
--   bytes, `std::sort` an insertion sort, and `std::filesystem` the record `Files` of
--   Checkpoint/Directory. A report that the code changes in place is passed in and returned.
-- * src/text_forward.cpp and include/ninfer_glm53/text_forward.hpp, above the arithmetic of the
--   layers: TextForward. The model is the record `Target` of the continuation loop. An `int` on the
--   link between the ranks is its 32-bit pattern. Sockets and processes are the record `World` of
--   TextForward/Generate; there, a link is the words that the other rank sends, and the data of an empty
--   vector is null, as in libstdc++. The exchanges of rows (TextForward/Rows) and of the tokens of two
--   machines (TextForward/Peer) run both ranks on a link that buffers nothing. The deadline of a transfer is
--   left out: a link that ends early throws.
--
-- The parts interact as the code lets them: the loop calls the commit, the plan calls the validation
-- of the model and reads the deployment contract, which the environment file gives, and the binding
-- of a checkpoint scans JSON, hashes files and compares what it observes with the schema. The text
-- forward pass runs the loop on each rank and commits the tokens of both.
--
-- Texts are lists of bytes; `text` gives those of an ASCII literal. An exception is a value of
-- `Result`, with its kind and message. Numbers are natural numbers: the sizes of NVFP4 matrices wrap
-- at 2 ^ 64, sums and products that the code computes on 32 bits at 2 ^ 32, and the `int` counts of
-- the loop are taken to fit.
--
-- Not modelled: the layers of the forward pass on floats (in src/text_forward.cpp, with the store of
-- its tensors and the loops over sockets, and src/tiny_layer.cpp), whose model enters the loop as a
-- parameter; `sha256_file`, which reads a stream; the command line programs under apps, the scripts
-- and the tests.
pub mod Prelude
pub mod Speculative
pub mod DflashLoop
pub mod Nvfp4
pub mod ModelSpec
pub mod Deployment
pub mod ExecutionPlan
pub mod Schema
pub mod JsonScan
pub mod Checkpoint
pub mod Sha256
pub mod TextForward
