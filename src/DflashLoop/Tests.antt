-- ===== src/DflashLoop/Tests.antt =====
-- The continuation of include/ninfer_glm53/dflash_loop.hpp on a small model, in which the next token
-- is a function of the number of cached tokens.
use ninfer_nvfp4_glm_5_3_fla.Prelude.{
  ℕ, ◌+◌, ◌%◌, ◌≡◌, refl, Bool, true, false, inr, List, [], ◌∷◌, ◌++◌, arith, ok, threw, text,
  runtime_error, length, Exception, if◌then◌else◌, ◌==◌,
}
use ninfer_nvfp4_glm_5_3_fla.Speculative.{Token}
use ninfer_nvfp4_glm_5_3_fla.DflashLoop.{
  Target, blank_output, generate_dflash_continuation, verify_restored,
}
use ninfer_nvfp4_glm_5_3_fla.DflashLoop.Interface.{Decodes}
use ninfer_nvfp4_glm_5_3_fla.DflashLoop.Continuation.{Continues}
use ninfer_nvfp4_glm_5_3_fla.DflashLoop.Equivalence.{generate_dflash_continuation-greedy}
use ninfer_nvfp4_glm_5_3_fla.DflashLoop.Errors.{verify_restored-history}

-- The cached tokens, and whether the last logits are theirs.
abbrev pub Cache : Type 0
Cache = List Token × Bool

abbrev pub counting_next : List Token → Token
counting_next h = 100 + length h % 1000

-- The proposer is right about two tokens.
abbrev guesses : Token → List Token
guesses a = (a + 1) ∷ (a + 2) ∷ 999 ∷ 999 ∷ 999 ∷ 999 ∷ 999 ∷ []

abbrev pub counting : Target Cache (List Token)
counting = record {
  set_capture = λ b s. s;
  step = λ t s. (ok tt, (s.0 ++ t ∷ [], true));
  argmax = λ s. (ok (counting_next s.0), s);
  save = λ s. s.0;
  restore = λ snapshot s. (snapshot, false);
  propose = λ a s. (ok (guesses (a % 1200)), s);
}

abbrev pub cached_tokens : Cache → List Token
cached_tokens s = s.0

abbrev pub IsFresh : Cache → Type 0
IsFresh s = s.1 ≡ true

pub counting-Decodes : (limit : ℕ) → Decodes counting cached_tokens IsFresh counting_next 2000 limit
counting-Decodes limit = record {
  step_runs = λ t s hv hl. ((s.0 ++ t ∷ [], true), refl, refl, refl);
  argmax_runs = λ s fresh. (s, refl, refl, fresh);
  next_in_vocab = λ h. omega arith;
  capture_keeps = λ b s. refl;
  capture_ready = λ b s fresh. fresh;
  restore_save = λ s s'. refl;
  propose_runs = λ a s. (guesses (a % 1200), s, refl, refl, omega arith, refl);
}

abbrev pub empty_cache : Cache
empty_cache = ([], false)

generate_dflash_continuation-greedy_example :
    Continues cached_tokens counting_next blank_output
      (11 ∷ 22 ∷ [])
      8
      (generate_dflash_continuation counting (11 ∷ 22 ∷ []) 8 empty_cache)
generate_dflash_continuation-greedy_example =
    generate_dflash_continuation-greedy counting cached_tokens IsFresh counting_next 2000 16
      (counting-Decodes 16) (11 ∷ 22 ∷ []) 8 empty_cache (omega arith) (inr (λ e. cc e))
      (omega arith)

-- A target whose step throws at token 999.
abbrev failure : Exception
failure = runtime_error (text "prompt token is outside the vocabulary")

abbrev fragile : Target Cache (List Token)
fragile = record counting {
  step = λ t s. (if t == 999 then threw failure else ok tt, (s.0 ++ t ∷ [], true));
}

verify_restored-history_example :
    (verify_restored fragile 102 (guesses 102) (11 ∷ 22 ∷ [], true)).1.0 ≡ 11 ∷ 22 ∷ []
verify_restored-history_example =
    verify_restored-history fragile cached_tokens (λ s s'. refl) 102 (guesses 102)
      (11 ∷ 22 ∷ [], true)
