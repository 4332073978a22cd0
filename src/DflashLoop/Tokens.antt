-- ===== src/DflashLoop/Tokens.antt =====
-- The token lists of include/ninfer_glm53/dflash_loop.hpp: the cut round, and what is stepped of it.
use ninfer_nvfp4_glm_5_3_fla.Prelude.{
  ℕ, zero, suc, ◌+◌, ◌-◌, ◌≤◌, ◌<◌, ◌≡◌, ◌≢◌, refl, ap, ◌∙◌, true, false, List, [], ◌∷◌, ◌++◌,
  arith, length, take, if◌then◌else◌,
}
use ninfer_nvfp4_glm_5_3_fla.Speculative.{Token}
use ninfer_nvfp4_glm_5_3_fla.DflashLoop.{
  Finish, eos, budget, is_generation_eos, cut_at_eos, ends_eos, materialize_count,
}
use ninfer_nvfp4_glm_5_3_fla.DflashLoop.Greedy.{chain, greedy, greedy-add, length-chain}
use ninfer_nvfp4_glm_5_3_fla.DflashLoop.Round.{cut_at_eos-uncut, take_of_le}

-- All tokens but the last.
abbrev pub all_but_last : List Token → List Token
all_but_last [] = []
all_but_last (t ∷ []) = []
all_but_last (t ∷ u ∷ ts) = t ∷ all_but_last (u ∷ ts)

pub all_but_last-append :
    (xs ys : List Token) → ys ≢ [] → all_but_last (xs ++ ys) ≡ xs ++ all_but_last ys
all_but_last-append [] ys h = refl
all_but_last-append (x ∷ []) [] h = absurd (h refl)
all_but_last-append (x ∷ []) (y ∷ ys) h = refl
all_but_last-append (x ∷ x' ∷ xs) ys h = ap (◌∷◌ x) (all_but_last-append (x' ∷ xs) ys h)

pub take-all_but_last : (xs : List Token) → take (length xs - 1) xs ≡ all_but_last xs
take-all_but_last [] = ground arith
take-all_but_last (x ∷ []) = ground arith
take-all_but_last (x ∷ y ∷ xs) =
    let e : suc (suc (length xs)) - 1 ≡ suc (suc (length xs) - 1) = omega arith in
    rw e (ap (◌∷◌ x) (take-all_but_last (y ∷ xs)))

pub ends_eos-append : (xs ys : List Token) → ys ≢ [] → ends_eos (xs ++ ys) ≡ ends_eos ys
unfolding ends_eos
ends_eos-append [] ys h = refl
ends_eos-append (x ∷ []) [] h = absurd (h refl)
ends_eos-append (x ∷ []) (y ∷ ys) h = refl
ends_eos-append (x ∷ x' ∷ xs) ys h = ends_eos-append (x' ∷ xs) ys h

-- `finish` after a run that had `r` tokens to give and gave `tokens`.
abbrev pub finish_of : Finish → ℕ → List Token → Finish
finish_of before zero tokens = before
finish_of before (suc r) tokens = if ends_eos tokens then eos else budget

pub materialize_count-last : (n : ℕ) → materialize_count true n ≡ n - 1
unfolding materialize_count
materialize_count-last n = ground arith

pub greedy-ne-nil :
    (next : List Token → Token) (r : ℕ) (h : List Token) → 0 < r → greedy next r h ≢ []
unfolding greedy
greedy-ne-nil next zero h p = absurd (omega arith)
greedy-ne-nil next (suc r) h p = λ e. cc e

pub finish_of-append :
    (a b : Finish) (r k : ℕ) (xs ys : List Token)
    → 0 < r
    → 0 < k
    → ys ≢ []
    → finish_of b k ys ≡ finish_of a r (xs ++ ys)
finish_of-append a b zero k xs ys hr hk ne = absurd (omega arith)
finish_of-append a b (suc r) zero xs ys hr hk ne = absurd (omega arith)
finish_of-append a b (suc r) (suc k) xs ys hr hk ne = rw (ends_eos-append xs ys ne)

pub stepped_all : (round : List Token) → take (materialize_count false (length round)) round ≡ round
unfolding materialize_count
stepped_all round = take_of_le (length round) round (omega arith)

pub greedy-split :
    (next : List Token → Token) (j r : ℕ) (h : List Token)
    → j ≤ r
    → let round = cut_at_eos (chain next j h) in
      greedy next r h ≡ round ++ (if ends_eos round then [] else greedy next (r - j) (h ++ round))
greedy-split next j r h le =
    let e : r ≡ j + (r - j) = omega arith in
    ap (λ k. greedy next k h) e ∙ greedy-add next j (r - j) h

pub greedy-zero : (next : List Token → Token) (h : List Token) → greedy next 0 h ≡ []
unfolding greedy
greedy-zero next h = refl

pub greedy-eos :
    (next : List Token → Token) (r : ℕ) (h : List Token)
    → is_generation_eos (next h) ≡ true
    → greedy next (suc r) h ≡ next h ∷ []
unfolding greedy
greedy-eos next r h e = rw e

pub greedy-one : (next : List Token → Token) (h : List Token) → greedy next 1 h ≡ next h ∷ []
unfolding greedy
greedy-one next h = ground arith

pub length-uncut :
    (next : List Token → Token) (j : ℕ) (h : List Token)
    → ends_eos (cut_at_eos (chain next j h)) ≡ false
    → length (cut_at_eos (chain next j h)) ≡ j
length-uncut next j h e = ap length (cut_at_eos-uncut (chain next j h) e) ∙ length-chain next j h
