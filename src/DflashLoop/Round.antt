-- ===== src/DflashLoop/Round.antt =====
-- include/ninfer_glm53/dflash_loop.hpp: the tokens of a round, cut to the budget and at the end of the
-- sequence, and what is emitted and stepped of them.
use Prim.Native.Nat.{min}
use ninfer_nvfp4_glm_5_3_fla.Prelude.{
  ℕ, zero, suc, ◌+◌, ◌-◌, ◌≤◌, ◌<◌, ◌≡◌, ◌≢◌, refl, sym, ap, ◌∙◌, Bool, false, ◌||◌, List, [], ◌∷◌,
  ◌++◌, arith, inl, inr, length, All, ok, take, if◌then◌else◌, leb, Bool-cases, length-take,
}
use ninfer_nvfp4_glm_5_3_fla.Speculative.{Token}
use ninfer_nvfp4_glm_5_3_fla.DflashLoop.{
  Target, DflashOutput, eos, budget, is_generation_eos, cut_at_eos, ends_eos, fit_budget,
  materialize_count, emit_round,
}
use ninfer_nvfp4_glm_5_3_fla.DflashLoop.Greedy.{chain, ends_eos-cons}
use ninfer_nvfp4_glm_5_3_fla.DflashLoop.Interface.{Decodes, materialize_runs}

pub take_of_le : (n : ℕ) (xs : List Token) → length xs ≤ n → take n xs ≡ xs
take_of_le zero [] h = refl
take_of_le zero (x ∷ xs) h = absurd (omega arith)
take_of_le (suc n) [] h = refl
take_of_le (suc n) (x ∷ xs) h = ap (◌∷◌ x) (take_of_le n xs (omega arith))

pub fit_budget-eq-take :
    (emitted n : ℕ) (round : List Token)
    → emitted ≤ n
    → fit_budget emitted n round ≡ take (n - emitted) round
unfolding fit_budget
fit_budget-eq-take emitted n round h = ground (arith, take_of_le (n - emitted) round)

module _ (vocab : ℕ) where
  All-take : (n : ℕ) (xs : List Token) → All (λ t. t < vocab) xs → All (λ t. t < vocab) (take n xs)
  All-take zero xs h = tt
  All-take (suc n) [] h = tt
  All-take (suc n) (x ∷ xs) h = (h.0, All-take n xs h.1)

  pub All-cut_at_eos :
      (xs : List Token) → All (λ t. t < vocab) xs → All (λ t. t < vocab) (cut_at_eos xs)
  unfolding cut_at_eos
  All-cut_at_eos [] h = tt
  All-cut_at_eos (x ∷ xs) h = elim (Bool-cases (is_generation_eos x)) [
    | inl e ↦ rw e (h.0, tt)
    | inr e ↦ rw e (h.0, All-cut_at_eos xs h.1)
  ]

module _ (next : List Token → Token) where
  pub take-chain : (j n : ℕ) (h : List Token) → take j (chain next n h) ≡ chain next (min j n) h
  unfolding chain
  take-chain zero n h = let e : min zero n ≡ 0 = omega arith in rw e
  take-chain (suc j) zero h = let e : min (suc j) zero ≡ 0 = omega arith in rw e
  take-chain (suc j) (suc n) h =
      let e : min (suc j) (suc n) ≡ suc (min j n) = omega arith in
      rw e (ap (◌∷◌ (next h)) (take-chain j n (h ++ next h ∷ [])))

  pub All-chain :
      (vocab n : ℕ) (h : List Token)
      → ((g : List Token) → next g < vocab)
      → All (λ t. t < vocab) (chain next n h)
  unfolding chain
  All-chain vocab zero h p = tt
  All-chain vocab (suc n) h p = (p h, All-chain vocab n (h ++ next h ∷ []) p)

pub length-cut_at_eos-le : (xs : List Token) → length (cut_at_eos xs) ≤ length xs
unfolding cut_at_eos
length-cut_at_eos-le [] = omega arith
length-cut_at_eos-le (x ∷ xs) = ground (arith, length-cut_at_eos-le xs)

ends_eos-single : (t : Token) → ends_eos (t ∷ []) ≡ is_generation_eos t
unfolding ends_eos
ends_eos-single t = refl

-- A round that does not end in an end-of-sequence token was not cut.
pub cut_at_eos-uncut : (xs : List Token) → ends_eos (cut_at_eos xs) ≡ false → cut_at_eos xs ≡ xs
unfolding cut_at_eos
cut_at_eos-uncut [] h = refl
cut_at_eos-uncut (x ∷ xs) h = elim (Bool-cases (is_generation_eos x)) [
  | inl e ↦ cc (ends_eos-single x, h, e)
  | inr e ↦
      let h' : ends_eos (x ∷ cut_at_eos xs) ≡ false = rw e at h in
      rw e (ap (◌∷◌ x) (cut_at_eos-uncut xs (sym (ends_eos-cons x (cut_at_eos xs) e) ∙ h')))
]

module _ {State Snapshot : Type 0} (model : Target State Snapshot) (history : State → List Token)
    (Ready : State → Type 0) (next : List Token → Token) (vocab limit : ℕ)
    (laws : Decodes model history Ready next vocab limit) where
  -- The tokens of a round that are stepped.
  abbrev pub stepped : Bool → List Token → List Token
  stepped terminal round = take (materialize_count terminal (length round)) round

  pub emit_round_runs :
      (n m : ℕ) (round : List Token) (out : DflashOutput) (s : State) (h : List Token)
      → history s ≡ h
      → All (λ t. t < vocab) round
      → length h + length round ≤ limit
      → let done = ends_eos round in
        let terminal = done || leb n (length out.tokens + length round) in
        (s' : State) × (emit_round model n m round out s ≡ (
          ok (
            terminal,
            record {
              tokens = out.tokens ++ round;
              finish = if terminal then (if done then eos else budget) else out.finish;
              accepted_drafts = out.accepted_drafts + m;
              verify_rounds = out.verify_rounds + 1;
              last_proposals = out.last_proposals;
              materialized_generated = out.materialized_generated ++ stepped terminal round;
            },
          ),
          s',
        ))
        × (history s' ≡ h ++ stepped terminal round)
        × (stepped terminal round ≢ [] → Ready s')
  unfolding emit_round
  emit_round_runs n m round out s h e hv hl =
      let done = ends_eos round in
      let terminal = done || leb n (length out.tokens + length round) in
      let count = materialize_count terminal (length round) in
      let (s', run, after, ready) =
        materialize_runs model history Ready next vocab limit laws (take count round)
          (record out {
            tokens = out.tokens ++ round;
            accepted_drafts = out.accepted_drafts + m;
            verify_rounds = out.verify_rounds + 1;
          })
          s h e (All-take vocab count round hv) (omega (arith, length-take {0} count round)) in
      (s', rw run, after, λ ne. ready (inr ne))
