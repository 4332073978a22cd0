-- ===== src/DflashLoop/Interface.antt =====
-- What include/ninfer_glm53/dflash_loop.hpp relies on in its template parameters, and what its loops
-- over `model.step` do with it.
use ninfer_nvfp4_glm_5_3_fla.Prelude.{
  ℕ, ◌+◌, ◌≤◌, ◌<◌, ◌≡◌, ◌≢◌, refl, sym, ap, ◌∙◌, Bool, List, [], ◌∷◌, ◌++◌, arith, ◌⊎◌, inl, inr,
  length, length-append, append-nil, append_assoc, All, ok,
}
use ninfer_nvfp4_glm_5_3_fla.Speculative.{Token, dflash_proposals}
use ninfer_nvfp4_glm_5_3_fla.DflashLoop.{Target, DflashOutput, step_all, materialize}

-- The documented behaviour of a model with a token cache. `history` is the list of the cached
-- tokens. A state is `Ready` if its last logits are those of its history: after a step, and no
-- longer after `restore`, which brings back the caches alone. A step needs a token of the
-- vocabulary and room in the cache.
pub record Decodes {State Snapshot : Type 0} (model : Target State Snapshot)
    (history : State → List Token) (Ready : State → Type 0) (next : List Token → Token)
    (vocab limit : ℕ) : Type 0 where
  pub step_runs :
      (t : Token) (s : State)
      → t < vocab
      → length (history s) < limit
      → (s' : State) × (model.step t s ≡ (ok tt, s'))
        × (history s' ≡ history s ++ t ∷ [])
        × Ready s'
  pub argmax_runs :
      (s : State)
      → Ready s
      → (s' : State) × (model.argmax s ≡ (ok (next (history s)), s'))
        × (history s' ≡ history s)
        × Ready s'
  pub next_in_vocab : (h : List Token) → next h < vocab
  pub capture_keeps : (b : Bool) (s : State) → history (model.set_capture b s) ≡ history s
  pub capture_ready : (b : Bool) (s : State) → Ready s → Ready (model.set_capture b s)
  pub restore_save : (s s' : State) → history (model.restore (model.save s) s') ≡ history s
  pub propose_runs :
      (anchor : Token) (s : State)
      → (proposals : List Token) × (s' : State) × (model.propose anchor s ≡ (ok proposals, s'))
        × (length proposals ≡ dflash_proposals)
        × All (λ t. t < vocab) proposals
        × (history s' ≡ history s)

module _ {State Snapshot : Type 0} (model : Target State Snapshot) (history : State → List Token)
    (Ready : State → Type 0) (next : List Token → Token) (vocab limit : ℕ)
    (laws : Decodes model history Ready next vocab limit) where
  -- One step from a known history.
  pub step_from :
      (t : Token) (s : State) (h : List Token)
      → history s ≡ h
      → t < vocab
      → length h < limit
      → (s' : State) × (model.step t s ≡ (ok tt, s')) × (history s' ≡ h ++ t ∷ []) × Ready s'
  step_from t s h e hv hl =
      let (s', run, after, ready) = laws.step_runs t s hv (rw e hl) in
      (s', run, after ∙ ap (λ p. p ++ t ∷ []) e, ready)

  pub step_all_runs :
      (ts : List Token) (s : State) (h : List Token)
      → history s ≡ h
      → All (λ t. t < vocab) ts
      → length h + length ts ≤ limit
      → (s' : State) × (step_all model ts s ≡ (ok tt, s'))
        × (history s' ≡ h ++ ts)
        × (Ready s ⊎ (ts ≢ []) → Ready s')
  unfolding step_all
  step_all_runs [] s h e hv hl = (
    s,
    refl,
    e ∙ sym (append-nil h),
    λ r. elim r [ inl ready ↦ ready | inr ne ↦ absurd (ne refl) ],
  )
  step_all_runs (t ∷ ts) s h e hv hl =
      let (s1, run1, after1, ready1) = step_from t s h e hv.0 (omega arith) in
      let (s2, run2, after2, ready2) =
        step_all_runs ts s1 (h ++ t ∷ []) after1 hv.1
          (omega (arith, length-append {0} h (t ∷ []))) in
      (s2, rw run1 run2, after2 ∙ append_assoc h (t ∷ []) ts, λ _. ready2 (inl ready1))

  pub materialize_runs :
      (ts : List Token) (out : DflashOutput) (s : State) (h : List Token)
      → history s ≡ h
      → All (λ t. t < vocab) ts
      → length h + length ts ≤ limit
      → (s' : State) × (materialize model ts out s
          ≡ (ok (record out { materialized_generated = out.materialized_generated ++ ts }), s'))
        × (history s' ≡ h ++ ts)
        × (Ready s ⊎ (ts ≢ []) → Ready s')
  unfolding materialize
  materialize_runs [] out s h e hv hl = (
    s,
    rw append-nil,
    e ∙ sym (append-nil h),
    λ r. elim r [ inl ready ↦ ready | inr ne ↦ absurd (ne refl) ],
  )
  materialize_runs (t ∷ ts) out s h e hv hl =
      let (s1, run1, after1, ready1) = step_from t s h e hv.0 (omega arith) in
      let (s2, run2, after2, ready2) =
        materialize_runs ts
          (record out { materialized_generated = out.materialized_generated ++ t ∷ [] }) s1
          (h ++ t ∷ []) after1 hv.1 (omega (arith, length-append {0} h (t ∷ []))) in
      (
        s2,
        rw run1 (rw (append_assoc out.materialized_generated (t ∷ []) ts) at run2),
        after2 ∙ append_assoc h (t ∷ []) ts,
        λ _. ready2 (inl ready1),
      )
