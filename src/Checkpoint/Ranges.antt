-- ===== src/Checkpoint/Ranges.antt =====
-- src/checkpoint_binding.cpp: the test that the sorted ranges of a shard do not overlap.
use ninfer_nvfp4_glm_5_3_fla.Prelude.{
  ℕ, ◌≤◌, ◌<◌, ◌≡◌, ◌⊎◌, inl, inr, refl, false, ◌&&◌, ◌||◌, List, [], ◌∷◌, arith, ltb, leb, ◌==◌,
  All, Bool-cases, either,
}
use ninfer_nvfp4_glm_5_3_fla.Checkpoint.Shard.{insert_range, sort_ranges, overlapping}

abbrev pub Range : Type 0
Range = ℕ × ℕ

abbrev pub IsFull : Range → Type 0
IsFull r = r.0 < r.1

abbrev pub RangeApart : Range → Range → Type 0
RangeApart r q = (r.1 ≤ q.0) ⊎ (q.1 ≤ r.0)

-- Any two are apart.
unfoldable pub AllApart : List Range → Type 0
AllApart [] = Unit
AllApart (r ∷ ranges) = All (RangeApart r) ranges × AllApart ranges

All-insert_range {ℓ} :
    (P : Range → Type ℓ) (r : Range) (ranges : List Range)
    → All P (insert_range r ranges)
    → P r × All P ranges
unfolding insert_range
All-insert_range P r [] h = (h.0, tt)
All-insert_range P r (q ∷ ranges) h = elim (Bool-cases (ltb r.0 q.0 || r.0 == q.0 && leb r.1 q.1)) [
  | inl e ↦ let h' = rw e at h in (h'.0, h'.1)
  | inr e ↦
      let h' = rw e at h in let (p, rest) = All-insert_range P r ranges h'.1 in (p, (h'.0, rest))
]

insert_range-All {ℓ} :
    (P : Range → Type ℓ) (r : Range) (ranges : List Range)
    → P r
    → All P ranges
    → All P (insert_range r ranges)
unfolding insert_range
insert_range-All P r [] p h = (p, tt)
insert_range-All P r (q ∷ ranges) p h =
    elim (Bool-cases (ltb r.0 q.0 || r.0 == q.0 && leb r.1 q.1)) [
      | inl e ↦ rw e (p, h)
      | inr e ↦ rw e (h.0, insert_range-All P r ranges p h.1)
    ]

-- In ranges of which none overlaps the next, all later ones start behind the first.
later_ranges :
    (n : ℕ) (r : Range) (ranges : List Range)
    → n ≤ r.1
    → All IsFull ranges
    → overlapping (r ∷ ranges) ≡ false
    → All (λ q. n ≤ q.0) ranges
unfolding overlapping
later_ranges n r [] le full h = tt
later_ranges n r (q ∷ ranges) le full h =
    let (here, rest) = either (ltb q.0 r.1) (overlapping (q ∷ ranges)) h in
    let behind : n ≤ q.0 = ground arith in
    (behind, later_ranges n q ranges (omega (arith, behind, full.0)) full.1 rest)

tail_ranges :
    (r : Range) (ranges : List Range)
    → overlapping (r ∷ ranges) ≡ false
    → overlapping ranges ≡ false
unfolding overlapping
tail_ranges r [] h = refl
tail_ranges r (q ∷ ranges) h = (either (ltb q.0 r.1) (overlapping (q ∷ ranges)) h).1

cons_ranges :
    (r : Range) (ranges : List Range)
    → All (λ q. r.1 ≤ q.0) ranges
    → overlapping ranges ≡ false
    → overlapping (r ∷ ranges) ≡ false
unfolding overlapping
cons_ranges r [] h k = refl
cons_ranges r (q ∷ ranges) h k = ground (arith, h.0, k)

All-behind :
    (r q : Range) (ranges : List Range)
    → r.1 ≤ q.0
    → All (λ s. q.0 ≤ s.0) ranges
    → All (RangeApart r) ranges
All-behind r q [] le h = tt
All-behind r q (s ∷ ranges) le h = (inl (omega (arith, h.0)), All-behind r q ranges le h.1)

insert_range-apart :
    (r : Range) (ranges : List Range)
    → IsFull r
    → All IsFull ranges
    → overlapping (insert_range r ranges) ≡ false
    → (overlapping ranges ≡ false) × All (RangeApart r) ranges
unfolding insert_range
insert_range-apart r [] full all h = unfold overlapping in (refl, tt)
insert_range-apart r (q ∷ ranges) full all h =
    elim (Bool-cases (ltb r.0 q.0 || r.0 == q.0 && leb r.1 q.1)) [
      | inl e ↦
          let h' = rw e at h in
          let behind = later_ranges r.1 r (q ∷ ranges) (omega arith) all h' in
          let rest = tail_ranges r (q ∷ ranges) h' in
          let later = later_ranges q.0 q ranges (omega (arith, all.0)) all.1 rest in
          (rest, (inl behind.0, All-behind r q ranges behind.0 later))
      | inr e ↦
          let h' = rw e at h in
          let fulls = insert_range-All IsFull r ranges full all.1 in
          let (own, rest) =
            insert_range-apart r ranges full all.1 (tail_ranges q (insert_range r ranges) h') in
          let (me, others) =
            All-insert_range (λ s. q.1 ≤ s.0) r ranges
              (later_ranges q.1 q (insert_range r ranges) (omega arith) fulls h') in
          (cons_ranges q ranges others own, (inr me, rest))
    ]

All-sort_ranges {ℓ} :
    (P : Range → Type ℓ) (ranges : List Range) → All P (sort_ranges ranges) → All P ranges
unfolding sort_ranges
All-sort_ranges P [] h = tt
All-sort_ranges P (r ∷ ranges) h =
    let (p, rest) = All-insert_range P r (sort_ranges ranges) h in
    (p, All-sort_ranges P ranges rest)

sort_ranges-All {ℓ} :
    (P : Range → Type ℓ) (ranges : List Range) → All P ranges → All P (sort_ranges ranges)
unfolding sort_ranges
sort_ranges-All P [] h = tt
sort_ranges-All P (r ∷ ranges) h =
    insert_range-All P r (sort_ranges ranges) h.0 (sort_ranges-All P ranges h.1)

-- Where no sorted range overlaps the next, no two ranges overlap.
pub sort_ranges-AllApart :
    (ranges : List Range)
    → All IsFull ranges
    → overlapping (sort_ranges ranges) ≡ false
    → AllApart ranges
unfolding sort_ranges AllApart
sort_ranges-AllApart [] full h = tt
sort_ranges-AllApart (r ∷ ranges) full h =
    let (rest, apart) =
      insert_range-apart r (sort_ranges ranges) full.0 (sort_ranges-All IsFull ranges full.1) h in
    (All-sort_ranges (RangeApart r) ranges apart, sort_ranges-AllApart ranges full.1 rest)
