-- ===== src/JsonScan/TooDeep.antt =====
-- src/json_scan.hpp: `skip_value` skips what nests up to the greatest depth, and refuses what nests deeper.
use ninfer_nvfp4_glm_5_3_fla.Prelude.{
  ℕ, zero, suc, ◌-◌, ◌≤◌, ◌<◌, ◌≡◌, refl, sym, ap, ◌∙◌, false, [], ◌∷◌, ◌++◌, append_assoc, arith,
  Bytes, length, length-append, Result, ok,
}
use native.Mathlib.Decide.{dec_lt}
use ninfer_nvfp4_glm_5_3_fla.Checkpoint.Escape.{json_escape}
use ninfer_nvfp4_glm_5_3_fla.JsonScan.{fail, front}
use ninfer_nvfp4_glm_5_3_fla.JsonScan.Skip.{
  skip_members, skip_elements, skip_object, skip_array, skip_kind, too_deep, skip_nested,
  skip_value,
}
use ninfer_nvfp4_glm_5_3_fla.JsonScan.Numbers.{goes_on, peek-front}
use ninfer_nvfp4_glm_5_3_fla.JsonScan.Values.{
  Json, null, bool, num, str, arr, obj, Items, nil, cons, Fields, end, field, quoted, print,
  print_items, more_items, print_fields, more_fields, nesting, nesting_items, nesting_fields,
}
use ninfer_nvfp4_glm_5_3_fla.JsonScan.Printed.{
  Starts, print-Starts, more_items-front, more_fields-front, after_item, after_field,
  after_item-cons, after_field-field, parse_string-quoted, expect-front,
}
use ninfer_nvfp4_glm_5_3_fla.JsonScan.Nested.{
  skip_array-cons, skip_object-field, skip_nested-arr, skip_nested-obj, print-length, regroup,
  field-longer, skip_nested-print,
}
use ninfer_nvfp4_glm_5_3_fla.Prelude.{◌↔◌}

module _ (size : ℕ) where
  -- A call that refuses the depth, wherever in the text.
  abbrev pub Refuses : Result Bytes → Type 0
  Refuses r = (t : Bytes) × (r ≡ too_deep size t)

  Refuses-≡ : {r r' : Result Bytes} → r ≡ r' → Refuses r' → Refuses r
  Refuses-≡ e (t, h) = (t, e ∙ h)

  skip_nested-zero_arr : (s : Bytes) → Refuses (skip_nested size zero (91 ∷ s))
  unfolding skip_nested skip_kind
  skip_nested-zero_arr s = (91 ∷ s, rw (peek-front size 91 s refl) refl)

  skip_nested-zero_obj : (s : Bytes) → Refuses (skip_nested size zero (123 ∷ s))
  unfolding skip_nested skip_kind
  skip_nested-zero_obj s = (123 ∷ s, rw (peek-front size 123 s refl) refl)

  module _ (skip : Bytes → Result Bytes) where
    skip_array-Refuses :
        (s : Bytes) → Starts size s → Refuses (skip s) → Refuses (skip_array size skip (91 ∷ s))
    unfolding skip_array skip_elements fail
    skip_array-Refuses s (c, u, e, space, bracket, brace) (t, h) =
        let h' : skip (c ∷ u) ≡ too_deep size t = ap skip (sym e) ∙ h in
        (t, rw (e, expect-front size 91 (c ∷ u) refl, peek-front size c u space, bracket, h') refl)

    skip_object-Refuses :
        (key s : Bytes)
        → Refuses (skip s)
        → Refuses (skip_object size skip (123 ∷ (quoted key ++ 58 ∷ s)))
    unfolding skip_object skip_members fail
    skip_object-Refuses key s (t, h) = (
      t,
      rw
          (
            expect-front size 123 (quoted key ++ 58 ∷ s) refl,
            peek-front size 34 ((json_escape key ++ 34 ∷ []) ++ 58 ∷ s) refl,
            parse_string-quoted size key (58 ∷ s),
            expect-front size 58 s refl,
            h,
          )
          refl,
    )

    after_item-Refuses :
        (n : ℕ) (s : Bytes) → Refuses (skip s) → Refuses (after_item size skip (suc n) (44 ∷ s))
    unfolding skip_elements fail
    after_item-Refuses n s (t, h) = (t, rw (peek-front size 44 s refl, h) refl)

    after_field-Refuses :
        (n : ℕ) (key s : Bytes)
        → Refuses (skip s)
        → Refuses (after_field size skip (suc n) (44 ∷ (quoted key ++ 58 ∷ s)))
    unfolding skip_members fail
    after_field-Refuses n key s (t, h) = (
      t,
      rw
          (
            peek-front size 44 (quoted key ++ 58 ∷ s) refl,
            parse_string-quoted size key (58 ∷ s),
            expect-front size 58 s refl,
            h,
          )
          refl,
    )

  mutual
    unfolding print nesting

    skip_nested-Refuses :
        (v : Json) (room : ℕ) (rest : Bytes)
        → room < nesting v
        → Refuses (skip_nested size room (print v ++ rest))
    skip_nested-Refuses null room rest h = absurd (omega arith)
    skip_nested-Refuses (bool b) room rest h = absurd (omega arith)
    skip_nested-Refuses (num x) room rest h = absurd (omega arith)
    skip_nested-Refuses (str s) room rest h = absurd (omega arith)
    skip_nested-Refuses (arr xs) zero rest h = skip_nested-zero_arr (print_items xs ++ rest)
    skip_nested-Refuses (obj fs) zero rest h = skip_nested-zero_obj (print_fields fs ++ rest)
    skip_nested-Refuses (arr nil) (suc room) rest h = absurd (omega arith)
    skip_nested-Refuses (obj end) (suc room) rest h = absurd (omega arith)
    skip_nested-Refuses (arr (cons x xs)) (suc room) rest h =
        let t = more_items xs ++ rest in
        let skip = skip_nested size room in
        rw (append_assoc (print x) (more_items xs) rest) (
          Refuses-≡ (skip_nested-arr size room (print x ++ t)) (elim (dec_lt room (nesting x)) [
            | yes deep ↦
                skip_array-Refuses skip (print x ++ t) (print-Starts size x t)
                  (skip_nested-Refuses x room t deep)
            | no fits ↦
                let first =
                  skip_nested-print size x room t (omega arith) (more_items-front size xs rest) in
                Refuses-≡ (skip_array-cons size skip (print x ++ t) t (print-Starts size x t) first)
                  (skip_items-Refuses xs room (length (print x ++ t) - 1) rest (omega arith)
                    (omega (arith, print-length size x, length-append {0} (print x) t)))
          ]))
    skip_nested-Refuses (obj (field key x fs)) (suc room) rest h =
        let t = more_fields fs ++ rest in
        let skip = skip_nested size room in
        Refuses-≡
          (ap (λ s. skip_nested size (suc room) (123 ∷ s))
              (regroup size key (print x) (more_fields fs) rest)
            ∙ skip_nested-obj size room (quoted key ++ 58 ∷ (print x ++ t)))
          (elim (dec_lt room (nesting x)) [
            | yes deep ↦
                skip_object-Refuses skip key (print x ++ t) (skip_nested-Refuses x room t deep)
            | no fits ↦
                let first =
                  skip_nested-print size x room t (omega arith) (more_fields-front size fs rest) in
                Refuses-≡ (skip_object-field size skip key (print x ++ t) t first) (
                  skip_fields-Refuses fs room (length (json_escape key ++ 34 ∷ 58 ∷ (print x ++ t)))
                    rest (omega arith) (omega (arith, field-longer size key (print x) t)))
          ])

    skip_items-Refuses :
        (xs : Items) (room n : ℕ) (rest : Bytes)
        → room < nesting_items xs
        → length (more_items xs ++ rest) ≤ n
        → Refuses (after_item size (skip_nested size room) n (more_items xs ++ rest))
    skip_items-Refuses nil room n rest h k = absurd (omega arith)
    skip_items-Refuses (cons x xs) room zero rest h k = absurd (omega arith)
    skip_items-Refuses (cons x xs) room (suc n) rest h k =
        let t = more_items xs ++ rest in
        let skip = skip_nested size room in
        let shorter : length t ≤ n = omega (
          arith,
          k,
          ap length (append_assoc (print x) (more_items xs) rest),
          length-append {0} (print x) t,
        ) in
        rw (append_assoc (print x) (more_items xs) rest) (elim (dec_lt room (nesting x)) [
          | yes deep ↦ after_item-Refuses skip n (print x ++ t) (skip_nested-Refuses x room t deep)
          | no fits ↦
              let first =
                skip_nested-print size x room t (omega arith) (more_items-front size xs rest) in
              Refuses-≡ (after_item-cons size skip n (print x ++ t) t first)
                (skip_items-Refuses xs room n rest (omega arith) shorter)
        ])

    skip_fields-Refuses :
        (fs : Fields) (room n : ℕ) (rest : Bytes)
        → room < nesting_fields fs
        → length (more_fields fs ++ rest) ≤ n
        → Refuses (after_field size (skip_nested size room) n (more_fields fs ++ rest))
    skip_fields-Refuses end room n rest h k = absurd (omega arith)
    skip_fields-Refuses (field key x fs) room zero rest h k = absurd (omega arith)
    skip_fields-Refuses (field key x fs) room (suc n) rest h k =
        let t = more_fields fs ++ rest in
        let skip = skip_nested size room in
        let whole = regroup size key (print x) (more_fields fs) rest in
        let shorter : length t ≤ n = omega (
          arith,
          k,
          ap length whole,
          field-longer size key (print x) t,
          length-append {0} (json_escape key) (34 ∷ 58 ∷ (print x ++ t)),
          length-append {0} (quoted key) (58 ∷ (print x ++ t)),
          length-append {0} (json_escape key) (34 ∷ []),
        ) in
        Refuses-≡ (ap (λ s. after_field size skip (suc n) (44 ∷ s)) whole)
          (elim (dec_lt room (nesting x)) [
            | yes deep ↦
                after_field-Refuses skip n key (print x ++ t) (skip_nested-Refuses x room t deep)
            | no fits ↦
                let first =
                  skip_nested-print size x room t (omega arith) (more_fields-front size fs rest) in
                Refuses-≡ (after_field-field size skip n key (print x ++ t) t first)
                  (skip_fields-Refuses fs room n rest (omega arith) shorter)
          ])

-- A value that nests deeper than 64 containers, written without spaces and strings escaped, is refused
-- with the message on the nesting depth, whatever follows it.
pub skip_value-Refuses :
    (size : ℕ) (v : Json) (rest : Bytes)
    → 64 < nesting v
    → Refuses size (skip_value size (print v ++ rest))
skip_value-Refuses size v rest h = skip_nested-Refuses size v 64 rest h

-- A value that is written without spaces and strings escaped, whose numbers may have a sign, a
-- fraction and an exponent, is skipped up to what follows it exactly if it nests no deeper than 64
-- containers, where what follows does not go on with a number.
pub skip_value-print_iff :
    (size : ℕ) (v : Json) (rest : Bytes)
    → goes_on (front rest) ≡ false
    → (skip_value size (print v ++ rest) ≡ ok rest) ↔ (nesting v ≤ 64)
unfolding fail
skip_value-print_iff size v rest h = (
  λ skipped. elim (dec_lt 64 (nesting v)) [
    | yes deep ↦ let (t, refused) = skip_nested-Refuses size v 64 rest deep in absurd (cc)
    | no fits ↦ omega arith
  ],
  λ fits. skip_nested-print size v 64 rest fits h,
)
