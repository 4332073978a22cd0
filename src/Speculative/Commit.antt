-- ===== src/Speculative/Commit.antt =====
-- src/speculative.cpp: what `commit_same_tokens` and `commit_dflash2` return and write.
use ninfer_nvfp4_glm_5_3_fla.Prelude.{
  inl, inr, take-front, drop-front, Bool-cases, take-whole, get_or, ℕ, zero, suc, ◌≤◌, ◌<◌, ◌≡◌,
  ◌↔◌, ◌∙◌, refl, sym, ap, Bool, true, false, ◌⊎◌, List, [], ◌∷◌, ◌++◌, Option, none, some, arith,
  eq_list_iff, length, take, drop, length-take,
}
use ninfer_nvfp4_glm_5_3_fla.Speculative.{
  Token, RankRecord, CommitView, blank_result, slots, copy_prefix, write_rank, view_of,
  match_prefix, commit_same_tokens, commit_dflash2, commit_accepted,
}
use ninfer_nvfp4_glm_5_3_fla.Speculative.Prefix.{
  IsLongestMatch, match_prefix-IsLongestMatch, accepted_tokens-eq-take,
}

abbrev pub Ranks : Type 0
Ranks = Bool × Option RankRecord × Option RankRecord

-- A call that returns false leaves both ranks as they were.
pub commit_same_tokens-refused :
    (v0 v1 : CommitView) (r0 r1 : Option RankRecord)
    → (commit_same_tokens v0 v1 r0 r1).0 ≡ false
    → commit_same_tokens v0 v1 r0 r1 ≡ (false, r0, r1)
unfolding commit_same_tokens
commit_same_tokens-refused v0 v1 r0 r1 h = ground arith

-- Two views of the same tokens, at most sixteen.
pub record IsAgreement (v0 v1 : CommitView) (from0 from1 : List Token) : Type 0 where
  pub view0 : v0.tokens ≡ some from0
  pub view1 : v1.tokens ≡ some from1
  pub counts : v0.count ≡ v1.count
  pub fits : v0.count ≤ slots
  pub same : take v0.count from0 ≡ take v0.count from1

-- The writes of a call that goes through.
pub commit_same_tokens-agreed :
    (v0 v1 : CommitView) (from0 from1 : List Token) (r0 r1 : RankRecord)
    → IsAgreement v0 v1 from0 from1
    → commit_same_tokens v0 v1 (some r0) (some r1)
      ≡ (true, some (write_rank v0 from0 r0), some (write_rank v1 from1 r1))
unfolding commit_same_tokens
commit_same_tokens-agreed v0 v1 from0 from1 r0 r1 h =
    ground (arith, eq_list_iff (take v0.count from0) (take v0.count from1))

-- A rank after a commit of `count` tokens: it has the count and the tokens, and what stood behind.
pub record Holds (count : ℕ) (from : List Token) (before after : RankRecord) : Type 0 where
  pub counted : after.committed ≡ count
  pub tokens : take count after.tokens ≡ take count from
  pub kept : drop count after.tokens ≡ drop count before.tokens

write_rank-Holds :
    (view : CommitView) (from : List Token) (rank : RankRecord)
    → view.count ≤ length from
    → Holds view.count from rank (write_rank view from rank)
write_rank-Holds view from rank h =
    let size : length (take view.count from) ≡ view.count =
      omega (arith, length-take {0} view.count from) in
    record {
      counted = refl;
      tokens = rw size at (take-front (take view.count from) (drop view.count rank.tokens));
      kept = rw size at (drop-front (take view.count from) (drop view.count rank.tokens));
    }

-- For two views of memory with so many tokens as they count, and two ranks, the call either returns
-- true, the views have the same count, sixteen at most, and the same tokens, and each rank has the
-- count and the tokens, with what stood behind them; or it returns false, the views do not, and both
-- ranks are as before.
pub commit_same_tokens_lem :
    (count0 count1 : ℕ) (from0 from1 : List Token) (r0 r1 : RankRecord)
    → count0 ≤ length from0
    → count1 ≤ length from1
    → let Same = (count0 ≡ count1) × (count0 ≤ 16) × (take count0 from0 ≡ take count1 from1) in
      let call =
        commit_same_tokens
          (record { tokens = some from0; count = count0 })
          (record { tokens = some from1; count = count1 })
          (some r0)
          (some r1) in
      (Same
        × (t0 t1 : RankRecord) × (call ≡ (true, some t0, some t1))
        × Holds count0 from0 r0 t0
        × Holds count1 from1 r1 t1)
      ⊎ ((¬ Same) × (call ≡ (false, some r0, some r1)))
unfolding commit_same_tokens
commit_same_tokens_lem count0 count1 from0 from1 r0 r1 h0 h1 =
    let v0 : CommitView = record { tokens = some from0; count = count0 } in
    let v1 : CommitView = record { tokens = some from1; count = count1 } in
    elim (Bool-cases (commit_same_tokens v0 v1 (some r0) (some r1)).0) [
      | inl passed ↦
          let (counts, fits, same) : (count0 ≡ count1)
              × (count0 ≤ 16)
              × (take count0 from0 ≡ take count0 from1) =
            ground (arith, eq_list_iff (take count0 from0) (take count0 from1)) in
          inl (
            (counts, fits, same ∙ ap (λ n. take n from1) counts),
            write_rank v0 from0 r0,
            write_rank v1 from1 r1,
            commit_same_tokens-agreed v0 v1 from0 from1 r0 r1
                (record { view0 = refl; view1 = refl; counts = counts; fits = fits; same = same }),
            write_rank-Holds v0 from0 r0 h0,
            write_rank-Holds v1 from1 r1 h1,
          )
      | inr failed ↦ inr (
        λ (counts, fits, same). absurd (
            ground (
              arith,
              eq_list_iff (take count0 from0) (take count0 from1),
              same ∙ ap (λ n. take n from1) (sym counts),
            )),
        commit_same_tokens-refused v0 v1 (some r0) (some r1) failed,
      )
    ]

take-take : (n : ℕ) (xs : List Token) → take n (take n xs) ≡ take n xs
take-take zero xs = refl
take-take (suc n) [] = refl
take-take (suc n) (x ∷ xs) = ap (◌∷◌ x) (take-take n xs)

drop-nil : (n : ℕ) → drop {A = Token} n [] ≡ []
drop-nil zero = refl
drop-nil (suc n) = refl

length-take_of_le : (n : ℕ) (xs : List Token) → n ≤ length xs → length (take n xs) ≡ n
length-take_of_le n xs h = omega (arith, length-take {0} n xs)

-- Whole lists that were committed are the same list, of sixteen tokens at most.
pub commit_same_tokens-whole :
    (from0 from1 : List Token) (r0 r1 : RankRecord)
    → ((commit_same_tokens (view_of from0) (view_of from1) (some r0) (some r1)).0 ≡ true)
      ↔ ((from0 ≡ from1) × (length from0 ≤ slots))
unfolding commit_same_tokens
commit_same_tokens-whole from0 from1 r0 r1 = (
  λ h.
      let (counts, fits, same) : (length from0 ≡ length from1)
          × (length from0 ≤ slots)
          × (take (length from0) from0 ≡ take (length from0) from1) =
        ground (arith, eq_list_iff (take (length from0) from0) (take (length from0) from1)) in
      (sym (take-whole from0) ∙ same ∙ ap (λ n. take n from1) counts ∙ take-whole from1, fits),
  λ h.
      ap (λ r. r.0)
        (commit_same_tokens-agreed (view_of from0) (view_of from1) from0 from1 r0 r1 (record {
          view0 = refl;
          view1 = refl;
          counts = ap length h.0;
          fits = h.1;
          same = ap (take (length from0)) h.0;
        })),
)

-- A null pointer is refused.
pub commit_same_tokens-null :
    (v0 v1 : CommitView) (r0 r1 : Option RankRecord)
    → (v0.tokens ≡ none) ⊎ (v1.tokens ≡ none)
    → (commit_same_tokens v0 v1 r0 r1).0 ≡ false
unfolding commit_same_tokens
commit_same_tokens-null v0 v1 r0 r1 h = ground arith

-- The array after a copy: its first `n` entries are those of the source.
pub take-copy_prefix :
    (m n : ℕ) (xs ys : List Token)
    → m ≤ n
    → n ≤ length xs
    → take m (copy_prefix n xs ys) ≡ take m xs
take-copy_prefix zero n xs ys hm hn = refl
take-copy_prefix (suc m) zero xs ys hm hn = absurd (omega arith)
take-copy_prefix (suc m) (suc n) [] ys hm hn = absurd (omega arith)
take-copy_prefix (suc m) (suc n) (x ∷ xs) [] hm hn =
    ap (◌∷◌ x) (rw (← drop-nil n) (take-copy_prefix m n xs [] (omega arith) (omega arith)))
take-copy_prefix (suc m) (suc n) (x ∷ xs) (y ∷ ys) hm hn =
    ap (◌∷◌ x) (take-copy_prefix m n xs ys (omega arith) (omega arith))

pub get_or-copy_prefix :
    (m n : ℕ) (xs ys : List Token)
    → m < n
    → n ≤ length xs
    → get_or (copy_prefix n xs ys) m 0 ≡ get_or xs m 0
get_or-copy_prefix m zero xs ys hm hn = absurd (omega arith)
get_or-copy_prefix m (suc n) [] ys hm hn = absurd (omega arith)
get_or-copy_prefix zero (suc n) (x ∷ xs) ys hm hn = refl
get_or-copy_prefix (suc m) (suc n) (x ∷ xs) [] hm hn =
    rw (← drop-nil n) (get_or-copy_prefix m n xs [] (omega arith) (omega arith))
get_or-copy_prefix (suc m) (suc n) (x ∷ xs) (y ∷ ys) hm hn =
    get_or-copy_prefix m n xs ys (omega arith) (omega arith)

-- `copy_prefix` reads no more of the source than it copies.
copy_prefix-take : (n : ℕ) (xs ys : List Token) → copy_prefix n (take n xs) ys ≡ copy_prefix n xs ys
copy_prefix-take n xs ys = ap (λ p. p ++ drop n ys) (take-take n xs)

abbrev pub written : ℕ → List Token → RankRecord → RankRecord
written n target rank = record { tokens = copy_prefix n target rank.tokens; committed = n }

-- The commit of the first `n` target tokens on both ranks.
commit_accepted-take :
    (n : ℕ) (target : List Token) (r0 r1 : RankRecord)
    → n ≤ length target
    → n ≤ slots
    → commit_accepted (take n target) (some r0) (some r1) ≡ (
      record {
        tokens = copy_prefix n target blank_result.tokens;
        committed = n;
        ranks_agree = true;
      },
      some (written n target r0),
      some (written n target r1),
    )
unfolding commit_accepted
commit_accepted-take n target r0 r1 h fits = rw (
  commit_same_tokens-agreed (view_of (take n target)) (view_of (take n target)) (take n target)
      (take n target) r0 r1
      (record {
        view0 = refl;
        view1 = refl;
        counts = refl;
        fits = omega (arith, length-take_of_le n target h);
        same = refl;
      }),
  length-take_of_le n target h,
  copy_prefix-take n target blank_result.tokens,
  copy_prefix-take n target r0.tokens,
  copy_prefix-take n target r1.tokens,
)

module _ (k : ℕ) (draft target : List Token) where
  -- With one to eight proposals, and one token more in the target, the call commits the target's
  -- tokens up to and including the first that differs from the draft, or all and the bonus token, to
  -- the result and to both ranks.
  pub commit_dflash2_lem :
      (r0 r1 : RankRecord)
      → 0 < k
      → k ≤ 8
      → k ≤ length draft
      → k < length target
      → (m : ℕ) × IsLongestMatch k m draft target
        × (commit_dflash2 (some draft) k (some target) (some r0) (some r1) ≡ (
          record {
            tokens = copy_prefix (suc m) target blank_result.tokens;
            committed = suc m;
            ranks_agree = true;
          },
          some (written (suc m) target r0),
          some (written (suc m) target r1),
        ))
  unfolding commit_dflash2
  commit_dflash2_lem r0 r1 pos small hd ht =
      let h = match_prefix-IsLongestMatch k draft target hd (omega arith) in
      let m = match_prefix k draft target in
      (
        m,
        h,
        ground (
          arith,
          accepted_tokens-eq-take m draft target h.agrees (omega (arith, h.within)),
          commit_accepted-take (suc m) target r0 r1 (omega (arith, h.within))
              (omega (arith, h.within)),
        ),
      )

-- Without a draft, a target or a rank, or with no or more than eight proposals, the call commits
-- nothing and leaves both ranks alone.
pub commit_dflash2-refused :
    (draft target : Option (List Token)) (k : ℕ) (r0 r1 : Option RankRecord)
    → (draft ≡ none) ⊎ (target ≡ none) ⊎ (k ≡ 0) ⊎ (8 < k) ⊎ (r0 ≡ none) ⊎ (r1 ≡ none)
    → commit_dflash2 draft k target r0 r1 ≡ (blank_result, r0, r1)
unfolding commit_dflash2 commit_same_tokens
commit_dflash2-refused draft target k r0 r1 h = ground arith
