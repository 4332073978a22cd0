-- ===== src/TextForward/Agreement.antt =====
-- src/text_forward.cpp: when two ranks are taken to agree, and what a result then holds.
use ninfer_nvfp4_glm_5_3_fla.Prelude.{
  List, [], ◌∷◌, ◌≢◌, ◌∙◌, inl, inr, ℕ, ◌≤◌, ◌≡◌, refl, sym, ap, ◌↔◌, Bool, true, false, not, ◌&&◌,
  ◌||◌, arith, length, take, ==_iff, eq_list, eq_list_iff, some, Bool-cases, inl, inr, text, Bytes,
}
use ninfer_nvfp4_glm_5_3_fla.Speculative.{Token, blank_rank, view_of, write_rank, slots}
use ninfer_nvfp4_glm_5_3_fla.Speculative.Commit.{
  commit_same_tokens-agreed, commit_same_tokens-whole, commit_same_tokens-null,
}
use ninfer_nvfp4_glm_5_3_fla.TextForward.Link.{Produced, Reply}
use ninfer_nvfp4_glm_5_3_fla.TextForward.Generate.{
  GenerateResult, pair_commit, commit_vectors, vector_view, is_agreed, conclude_pair, both_ranks,
  committed_of, drafted, is_done,
}

-- A commit of two vectors goes through exactly if they hold the same tokens, one at least and no
-- more than sixteen.
commit_vectors_iff :
    (xs ys : List Token)
    → ((commit_vectors xs ys).0 ≡ true) ↔ ((xs ≡ ys) × (length xs ≤ slots) × (xs ≢ []))
commit_vectors_iff [] ys =
    let refused =
      commit_same_tokens-null (vector_view []) (vector_view ys) (some blank_rank) (some blank_rank)
        (inl refl) in
    (λ h. absurd (cc (h, refused)), λ h. absurd (h.2 refl))
commit_vectors_iff (x ∷ xs) [] =
    let refused =
      commit_same_tokens-null (vector_view (x ∷ xs)) (vector_view []) (some blank_rank)
        (some blank_rank) (inr refl) in
    (λ h. absurd (cc (h, refused)), λ h. absurd (cc (h.0)))
commit_vectors_iff (x ∷ xs) (y ∷ ys) =
    let whole = commit_same_tokens-whole (x ∷ xs) (y ∷ ys) blank_rank blank_rank in
    (λ h. let (same, fits) = whole.0 h in (same, fits, λ e. cc e), λ h. whole.1 (h.0, h.1))

-- What it writes then: the count of the tokens to both ranks.
commit_vectors-written :
    (xs ys : List Token)
    → (commit_vectors xs ys).0 ≡ true
    → commit_vectors xs ys ≡ (
      true,
      some (write_rank (vector_view xs) xs blank_rank),
      some (write_rank (vector_view ys) ys blank_rank),
    )
commit_vectors-written [] ys h = absurd (((commit_vectors_iff [] ys).0 h).2 refl)
commit_vectors-written (x ∷ xs) [] h = absurd (cc (((commit_vectors_iff (x ∷ xs) []).0 h).0))
commit_vectors-written (x ∷ xs) (y ∷ ys) h =
    let (same, fits, filled) = (commit_vectors_iff (x ∷ xs) (y ∷ ys)).0 h in
    commit_same_tokens-agreed (view_of (x ∷ xs)) (view_of (y ∷ ys)) (x ∷ xs) (y ∷ ys) blank_rank
      blank_rank
      (record {
        view0 = refl;
        view1 = refl;
        counts = ap length same;
        fits = fits;
        same = ap (take (length (x ∷ xs))) same;
      })

count-vector_view : (xs : List Token) → (vector_view xs).count ≡ length xs
count-vector_view [] = refl
count-vector_view (x ∷ xs) = refl

-- The ranks agree if rank 1 exits with 0 after a whole reply, with the drafts, the count and the tokens
-- of rank 0, of which there is one.
pub record Agrees (p : Produced) (reply : Reply) (child_ok : Bool) : Type 0 where
  pub exits : child_ok ≡ true
  pub whole : reply.payload_ok ≡ true
  pub tokens : p.tokens ≡ reply.child
  pub fits : length p.tokens ≤ slots
  pub filled : p.tokens ≢ []
  pub drafts : p.drafts ≡ reply.child_draft
  pub accepted : p.accepted ≡ reply.child_accept

pub and-true : (a b : Bool) → (a && b ≡ true) ↔ ((a ≡ true) × (b ≡ true))
and-true true b = (λ h. (refl, h), λ h. h.1)
and-true false b = (λ h. cc, λ h. cc)

pub is_agreed_iff :
    (p : Produced) (reply : Reply) (child_ok : Bool)
    → (is_agreed p reply child_ok ≡ true) ↔ Agrees p reply child_ok
unfolding is_agreed
is_agreed_iff p reply child_ok = (
  λ h.
      let (exits, h1) = (and-true _ _).0 h in
      let (whole, h2) = (and-true _ _).0 h1 in
      let (committed, h3) = (and-true _ _).0 h2 in
      let (drafts, accepted) = (and-true _ _).0 h3 in
      let (tokens, fits, filled) = (commit_vectors_iff p.tokens reply.child).0 committed in
      record {
        exits = exits;
        whole = whole;
        tokens = tokens;
        fits = fits;
        filled = filled;
        drafts = (eq_list_iff _ _).0 drafts;
        accepted = (==_iff _ _).0 accepted;
      },
  λ a.
      let committed = (commit_vectors_iff p.tokens reply.child).1 (a.tokens, a.fits, a.filled) in
      (and-true _ _).1 (
        a.exits,
        (and-true _ _).1 (
          a.whole,
          (and-true _ _).1 (
            committed,
            (and-true _ _).1 ((eq_list_iff _ _).1 a.drafts, (==_iff _ _).1 a.accepted),
          ),
        ),
      ),
)

-- What a caller may rely on in a result: one that is not good has committed nothing on any rank; a good one has
-- committed all of its tokens on rank 0, and in a world of two on rank 1 as well.
pub record IsSound (r : GenerateResult) : Type 0 where
  pub refused :
      r.is_ok ≡ false → (r.committed ≡ 0) × (r.rank0_committed ≡ 0) × (r.rank1_committed ≡ 0)
  pub counted : r.is_ok ≡ true → r.committed ≡ length r.token_ids
  pub rank0 : r.is_ok ≡ true → (r.rank0_tokens ≡ r.token_ids) × (r.rank0_committed ≡ r.committed)
  pub rank1 :
      r.is_ok ≡ true
      → r.world_size ≡ 2
      → (r.rank1_tokens ≡ r.token_ids) × (r.rank1_committed ≡ r.committed)

-- A result that has committed nothing yet.
pub record IsBlank (r : GenerateResult) : Type 0 where
  pub bad : r.is_ok ≡ false
  pub none_committed : r.committed ≡ 0
  pub rank0_none : r.rank0_committed ≡ 0
  pub rank1_none : r.rank1_committed ≡ 0

pub blank-IsSound : (r : GenerateResult) → IsBlank r → IsSound r
blank-IsSound r blank = record {
  refused = λ _. (blank.none_committed, blank.rank0_none, blank.rank1_none);
  counted = λ h. cc (h, blank.bad);
  rank0 = λ h. cc (h, blank.bad);
  rank1 = λ h _. cc (h, blank.bad);
}

both_ranks-IsSound :
    (p : Produced) (reply : Reply) (child_ok : Bool) (result : GenerateResult)
    → Agrees p reply child_ok
    → let commit = pair_commit p reply in
      IsSound (both_ranks p reply (committed_of commit.1) (committed_of commit.2) result)
both_ranks-IsSound p reply child_ok result a =
    let committed = (commit_vectors_iff p.tokens reply.child).1 (a.tokens, a.fits, a.filled) in
    let written = commit_vectors-written p.tokens reply.child committed in
    record {
      refused = λ h. cc;
      counted = λ h. refl;
      rank0 = λ h. (refl, rw written (count-vector_view p.tokens));
      rank1 = λ h _.
          (sym a.tokens, rw written (count-vector_view reply.child ∙ ap length (sym a.tokens)));
    }

-- Whether rank 0 reports the pair as good.
abbrev pub passes : Bytes → ℕ → Produced → Reply → Bool → Bool
passes mode new_tokens p reply child_ok =
    is_agreed p reply child_ok && (not (eq_list mode (text "dflash")) || is_done new_tokens p)

pub conclude_pair-is_ok :
    (mode : Bytes) (new_tokens : ℕ) (p : Produced) (reply : Reply) (child_ok : Bool)
    (result : GenerateResult)
    → (conclude_pair mode new_tokens p reply child_ok result).is_ok
      ≡ passes mode new_tokens p reply child_ok
unfolding conclude_pair
conclude_pair-is_ok mode new_tokens p reply child_ok result = ground arith

pub conclude_pair-token_ids :
    (mode : Bytes) (new_tokens : ℕ) (p : Produced) (reply : Reply) (child_ok : Bool)
    (result : GenerateResult)
    → (conclude_pair mode new_tokens p reply child_ok result).token_ids ≡ p.tokens
unfolding conclude_pair
conclude_pair-token_ids mode new_tokens p reply child_ok result = ground arith

pub conclude_pair-IsSound :
    (mode : Bytes) (new_tokens : ℕ) (p : Produced) (reply : Reply) (child_ok : Bool)
    (result : GenerateResult)
    → IsBlank result
    → IsSound (conclude_pair mode new_tokens p reply child_ok result)
unfolding conclude_pair
conclude_pair-IsSound mode new_tokens p reply child_ok result blank =
    elim (Bool-cases (is_agreed p reply child_ok)) [
      | inr apart ↦ rw apart (
          blank-IsSound _ (record {
            bad = refl;
            none_committed = refl;
            rank0_none = blank.rank0_none;
            rank1_none = blank.rank1_none;
          }))
      | inl agreed ↦
          let a = (is_agreed_iff p reply child_ok).0 agreed in
          elim (Bool-cases (eq_list mode (text "dflash"))) [
            | inr plain ↦ rw (agreed, plain) (both_ranks-IsSound p reply child_ok result a)
            | inl draft ↦ elim (Bool-cases (is_done new_tokens p)) [
              | inr open_end ↦
                  rw (agreed, draft, open_end)
                    (blank-IsSound _ (record {
                      bad = refl;
                      none_committed = refl;
                      rank0_none = blank.rank0_none;
                      rank1_none = blank.rank1_none;
                    }))
              | inl done ↦
                  rw (agreed, draft, done)
                    (both_ranks-IsSound p reply child_ok (drafted p result) a)
            ]
          ]
    ]
