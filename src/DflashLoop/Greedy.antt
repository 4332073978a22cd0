-- ===== src/DflashLoop/Greedy.antt =====
-- The specification of include/ninfer_glm53/dflash_loop.hpp: plain greedy decoding by a next-token
-- function of the history, as `greedy_tokens` of src/text_forward.cpp does it.
use Prim.Native.Nat.add
use ninfer_nvfp4_glm_5_3_fla.Prelude.{
  arith, ℕ, zero, suc, ◌+◌, ◌≡◌, refl, ap, false, List, [], ◌∷◌, ◌++◌, if◌then◌else◌, Bool-cases,
  inl, inr, length, append-nil, append_assoc,
}
use ninfer_nvfp4_glm_5_3_fla.Speculative.{Token}
use ninfer_nvfp4_glm_5_3_fla.DflashLoop.{is_generation_eos, cut_at_eos, ends_eos}

module _ (next : List Token → Token) where
  -- The next `n` tokens after the history, with no regard to the end of the sequence.
  unfoldable pub chain : ℕ → List Token → List Token
  chain zero history = []
  chain (suc n) history = next history ∷ chain n (history ++ next history ∷ [])

  -- At most `n` tokens, the last one the first end-of-sequence token.
  unfoldable pub greedy : ℕ → List Token → List Token
  greedy zero history = []
  greedy (suc n) history =
      next history
      ∷ (if is_generation_eos (next history) then [] else greedy n (history ++ next history ∷ []))

  pub length-chain : (n : ℕ) (history : List Token) → length (chain n history) ≡ n
  unfolding chain
  length-chain zero history = refl
  length-chain (suc n) history = ap suc (length-chain n (history ++ next history ∷ []))

pub ends_eos-cons :
    (t : Token) (ts : List Token) → is_generation_eos t ≡ false → ends_eos (t ∷ ts) ≡ ends_eos ts
unfolding ends_eos
ends_eos-cons t [] h = h
ends_eos-cons t (u ∷ ts) h = refl

module _ (next : List Token → Token) where
  -- Greedy decoding of `j + k` tokens is that of `j`, and of `k` more if no end was met.
  pub greedy-add :
      (j k : ℕ) (history : List Token)
      → let round = cut_at_eos (chain next j history) in
        greedy next (j + k) history
        ≡ round ++ (if ends_eos round then [] else greedy next k (history ++ round))
  unfolding greedy chain cut_at_eos ends_eos
  greedy-add zero k history = rw (add.zero, append-nil)
  greedy-add (suc j) k history =
      let t = next history in
      let rest = cut_at_eos (chain next j (history ++ t ∷ [])) in
      elim (Bool-cases (is_generation_eos t)) [
        | inl e ↦ rw (add.suc j k) (ground arith)
        | inr e ↦ rw (
          add.suc j k,
          greedy,
          e,
          ends_eos-cons t rest e,
          greedy-add j k (history ++ t ∷ []),
          append_assoc history (t ∷ []) rest,
        )
      ]
