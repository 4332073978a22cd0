-- ===== src/TextForward/Mirror.antt =====
-- src/text_forward.cpp: the two machines of a pair come to the same verdict.
use ninfer_nvfp4_glm_5_3_fla.Prelude.{
  ℕ, ◌≤◌, ◌≡◌, ◌≢◌, refl, ◌↔◌, true, false, ◌&&◌, List, [], ◌∷◌, arith, ok, length, eq_list,
  eq_list_iff, text, some, zero, suc, ◌+◌, Result, ==_iff, ◌==◌, ◌∙◌,
}
use ninfer_nvfp4_glm_5_3_fla.Schema.{pos}
use ninfer_nvfp4_glm_5_3_fla.Speculative.{Token}
use ninfer_nvfp4_glm_5_3_fla.TextForward.{fixed_prompt_tokens}
use ninfer_nvfp4_glm_5_3_fla.TextForward.Link.{Produced}
use ninfer_nvfp4_glm_5_3_fla.TextForward.Rows.{done, sending, receiving, meet}
use ninfer_nvfp4_glm_5_3_fla.TextForward.Wire.{is_count-true}
use ninfer_nvfp4_glm_5_3_fla.TextForward.Generate.{GenerateResult, blank_generated}
use ninfer_nvfp4_glm_5_3_fla.TextForward.Agreement.{and-true}
use ninfer_nvfp4_glm_5_3_fla.TextForward.Paired.{budgeted}
use ninfer_nvfp4_glm_5_3_fla.TextForward.Peer.{
  PeerRun, exchange_ids, is_nonempty, send_ids, recv_ids, peer_result, run_peer, peer_checked,
  peer_prompt, generate_text_peer,
}

abbrev started : GenerateResult
started = record blank_generated { prompt_text = text "Hi"; prompt_tokens = 13041 ∷ [] }

meet_done :
    (fuel : ℕ) (u v : Result GenerateResult) → meet {A = ℕ} fuel (done u) (done v) ≡ some (u, v)
unfolding meet
meet_done zero u v = refl
meet_done (suc fuel) u v = refl

-- A send meets the receive of as many words.
meet_sent :
    (m : ℕ) (words : List ℕ) (next : PeerRun) (q : List ℕ → PeerRun)
    → (meet (suc m) (sending words next) (receiving (length words) q) ≡ meet m next (q words))
      × (meet (suc m) (receiving (length words) q) (sending words next) ≡ meet m (q words) next)
unfolding meet
meet_sent m words next q =
    let same : (length words == length words) ≡ true = (==_iff _ _).1 refl in
    (rw same refl, rw same refl)

-- A rank that sends its tokens meets one that receives so many at most, and both go on; and so the
-- other way round.
send_ids-recv_ids :
    (n : ℕ) (ids : List Token) (fuel m : ℕ) (next : PeerRun) (other : List Token → PeerRun)
    {r : Result GenerateResult × Result GenerateResult}
    → n ≤ 8
    → length ids ≤ n
    → ((k : ℕ) → fuel ≤ k → meet k next (other ids) ≡ some r)
    → fuel + 2 ≤ m
    → meet m (send_ids ids next) (recv_ids n other) ≡ some r
unfolding send_ids recv_ids meet
send_ids-recv_ids n [] fuel zero next other small h go enough = absurd (omega arith)
send_ids-recv_ids n [] fuel (suc m) next other small h go enough =
    rw (is_count-true n 0 (omega arith) h) (go m (omega arith))
send_ids-recv_ids n (t ∷ ids) fuel zero next other small h go enough = absurd (omega arith)
send_ids-recv_ids n (t ∷ ids) fuel (suc zero) next other small h go enough = absurd (omega arith)
send_ids-recv_ids n (t ∷ ids) fuel (suc (suc m)) next other small h go enough =
    let some_ids : (length (t ∷ ids) == 0) ≡ false = ground arith in
    rw (is_count-true n (length (t ∷ ids)) (omega arith) h)
      (rw some_ids ((meet_sent m (t ∷ ids) next other).0 ∙ go m (omega arith)))

recv_ids-send_ids :
    (n : ℕ) (ids : List Token) (fuel m : ℕ) (next : PeerRun) (other : List Token → PeerRun)
    {r : Result GenerateResult × Result GenerateResult}
    → n ≤ 8
    → length ids ≤ n
    → ((k : ℕ) → fuel ≤ k → meet k (other ids) next ≡ some r)
    → fuel + 2 ≤ m
    → meet m (recv_ids n other) (send_ids ids next) ≡ some r
unfolding send_ids recv_ids meet
recv_ids-send_ids n [] fuel zero next other small h go enough = absurd (omega arith)
recv_ids-send_ids n [] fuel (suc m) next other small h go enough =
    rw (is_count-true n 0 (omega arith) h) (go m (omega arith))
recv_ids-send_ids n (t ∷ ids) fuel zero next other small h go enough = absurd (omega arith)
recv_ids-send_ids n (t ∷ ids) fuel (suc zero) next other small h go enough = absurd (omega arith)
recv_ids-send_ids n (t ∷ ids) fuel (suc (suc m)) next other small h go enough =
    let some_ids : (length (t ∷ ids) == 0) ≡ false = ground arith in
    rw (is_count-true n (length (t ∷ ids)) (omega arith) h)
      (rw some_ids ((meet_sent m (t ∷ ids) next other).1 ∙ go m (omega arith)))

generate_text_peer-meets :
    (n : ℕ) (p q : Produced)
    → 1 ≤ n
    → n ≤ 8
    → length p.tokens ≤ n
    → length q.tokens ≤ n
    → meet 4
        (generate_text_peer (ok p) 0 (text "fixed-text-v1") (pos n))
        (generate_text_peer (ok q) 1 (text "fixed-text-v1") (pos n))
      ≡ some (ok (peer_result 0 p q.tokens started), ok (peer_result 1 q p.tokens started))
unfolding generate_text_peer peer_prompt fixed_prompt_tokens eq_list text peer_checked run_peer
    exchange_ids
generate_text_peer-meets n p q low high hp hq = rw (budgeted n low high) (
    send_ids-recv_ids n p.tokens 2 4 _ _ high hp
      (λ k le.
        recv_ids-send_ids n q.tokens 0 k _ _ high hq (λ j pos. meet_done j _ _) (omega arith))
      (omega arith))

agree_iff :
    (xs ys : List Token) → (eq_list xs ys && is_nonempty xs ≡ true) ↔ ((xs ≡ ys) × (xs ≢ []))
agree_iff [] ys =
    (λ h. absurd (cc (((and-true (eq_list [] ys) false).0 h).1)), λ h. absurd (h.1 refl))
agree_iff (x ∷ xs) ys = (
  λ h. ((eq_list_iff _ _).0 ((and-true _ _).0 h).0, λ e. cc),
  λ h. (and-true _ _).1 ((eq_list_iff _ _).1 h.0, refl),
)

-- Two machines that both decode the fixed prompt, for one to eight tokens and no more than asked for,
-- exchange what they decoded on a link that holds nothing back: they do not wait for each other, and
-- both return. They report the same tokens for rank 0 and for rank 1, those that the ranks decoded,
-- and the same verdict: the run is good exactly if both decoded the same tokens and at least one.
pub generate_text_peer-mirrors :
    (n : ℕ) (p0 p1 : Produced)
    → 1 ≤ n
    → n ≤ 8
    → length p0.tokens ≤ n
    → length p1.tokens ≤ n
    → (r0 r1 : GenerateResult) × (meet 4
          (generate_text_peer (ok p0) 0 (text "fixed-text-v1") (pos n))
          (generate_text_peer (ok p1) 1 (text "fixed-text-v1") (pos n))
        ≡ some (ok r0, ok r1))
      × (r0.rank0_tokens ≡ p0.tokens)
      × (r1.rank0_tokens ≡ p0.tokens)
      × (r0.rank1_tokens ≡ p1.tokens)
      × (r1.rank1_tokens ≡ p1.tokens)
      × (r0.is_ok ≡ r1.is_ok)
      × ((r0.is_ok ≡ true) ↔ ((p0.tokens ≡ p1.tokens) × (p0.tokens ≢ [])))
unfolding peer_result
generate_text_peer-mirrors n p0 p1 low high h0 h1 = (
  peer_result 0 p0 p1.tokens started,
  peer_result 1 p1 p0.tokens started,
  generate_text_peer-meets n p0 p1 low high h0 h1,
  refl,
  refl,
  refl,
  refl,
  refl,
  agree_iff p0.tokens p1.tokens,
)
