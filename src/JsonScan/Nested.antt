-- ===== src/JsonScan/Nested.antt =====
-- src/json_scan.hpp: `skip_value` on values that hold values, up to the greatest depth and past it.
use ninfer_nvfp4_glm_5_3_fla.Prelude.{
  ℕ, zero, suc, ◌+◌, ◌-◌, ◌≤◌, ◌<◌, ◌≡◌, refl, sym, ap, ◌∙◌, false, [], ◌∷◌, ◌++◌, append_assoc,
  arith, Bytes, length, length-append, Result, ok, bind,
}
use ninfer_nvfp4_glm_5_3_fla.Checkpoint.Escape.{json_escape}
use ninfer_nvfp4_glm_5_3_fla.JsonScan.{front, peek}
use ninfer_nvfp4_glm_5_3_fla.JsonScan.Skip.{
  skip_members, skip_elements, skip_object, skip_array, skip_kind, too_deep, skip_nested,
}
use ninfer_nvfp4_glm_5_3_fla.JsonScan.Numbers.{goes_on, peek-front}
use ninfer_nvfp4_glm_5_3_fla.JsonScan.Values.{
  Json, null, bool, num, str, arr, obj, Items, nil, cons, Fields, end, field, quoted, print,
  more_items, more_fields, nesting, nesting_items, nesting_fields,
}
use ninfer_nvfp4_glm_5_3_fla.JsonScan.Printed.{
  dispatch-null, dispatch-bool, dispatch-str, dispatch-num, Starts, print-Starts, more_items-front,
  more_fields-front, after_item, after_field, after_item-nil, after_item-cons, after_field-end,
  after_field-field, parse_string-quoted, expect-front,
}

module _ (size : ℕ) where
  module _ (skip : Bytes → Result Bytes) where
    skip_array-nil : (rest : Bytes) → skip_array size skip (91 ∷ 93 ∷ rest) ≡ ok rest
    unfolding skip_array
    skip_array-nil rest =
        rw (expect-front size 91 (93 ∷ rest) refl, peek-front size 93 rest refl) refl

    -- Behind its bracket, an array goes on as behind its first entry, with fuel for what is left.
    pub skip_array-cons :
        (s t : Bytes)
        → Starts size s
        → skip s ≡ ok t
        → skip_array size skip (91 ∷ s) ≡ after_item size skip (length s - 1) t
    unfolding skip_array skip_elements
    skip_array-cons s t (c, u, e, space, bracket, brace) h =
        let h' : skip (c ∷ u) ≡ ok t = ap skip (sym e) ∙ h in
        rw (e, expect-front size 91 (c ∷ u) refl, peek-front size c u space, bracket, h')
          (ap (λ n. after_item size skip n t) (omega arith))

    skip_object-end : (rest : Bytes) → skip_object size skip (123 ∷ 125 ∷ rest) ≡ ok rest
    unfolding skip_object
    skip_object-end rest =
        rw (expect-front size 123 (125 ∷ rest) refl, peek-front size 125 rest refl) refl

    pub skip_object-field :
        (key s t : Bytes)
        → skip s ≡ ok t
        → skip_object size skip (123 ∷ (quoted key ++ 58 ∷ s))
          ≡ after_field size skip (length (json_escape key ++ 34 ∷ 58 ∷ s)) t
    unfolding skip_object skip_members
    skip_object-field key s t h =
        rw
          (
            expect-front size 123 (quoted key ++ 58 ∷ s) refl,
            peek-front size 34 ((json_escape key ++ 34 ∷ []) ++ 58 ∷ s) refl,
            parse_string-quoted size key (58 ∷ s),
            expect-front size 58 s refl,
            h,
          )
          (ap (λ n. after_field size skip n t)
            (ap length (append_assoc (json_escape key) (34 ∷ []) (58 ∷ s))))

  pub skip_nested-arr :
      (room : ℕ) (s : Bytes)
      → skip_nested size (suc room) (91 ∷ s) ≡ skip_array size (skip_nested size room) (91 ∷ s)
  unfolding skip_nested skip_kind
  skip_nested-arr room s = rw (peek-front size 91 s refl) refl

  pub skip_nested-obj :
      (room : ℕ) (s : Bytes)
      → skip_nested size (suc room) (123 ∷ s) ≡ skip_object size (skip_nested size room) (123 ∷ s)
  unfolding skip_nested skip_kind
  skip_nested-obj room s = rw (peek-front size 123 s refl) refl

  -- What every depth does alike.
  at_room :
      (room : ℕ) (s : Bytes) (r : Result Bytes)
      → ((object array : Bytes → Result Bytes)
          → bind (peek size s) (λ next. skip_kind size object array next.0 next.1) ≡ r)
      → skip_nested size room s ≡ r
  unfolding skip_nested
  at_room zero s r h = h (too_deep size) (too_deep size)
  at_room (suc room) s r h =
      h (skip_object size (skip_nested size room)) (skip_array size (skip_nested size room))

  pub print-length : (v : Json) → 0 < length (print v)
  print-length v =
      let (c, t, e, a, b, d) = print-Starts size v [] in
      omega (arith, ap length e, length-append {0} (print v) [])

  pub regroup :
      (key a b rest : Bytes)
      → (quoted key ++ 58 ∷ (a ++ b)) ++ rest ≡ quoted key ++ 58 ∷ (a ++ (b ++ rest))
  regroup key a b rest =
      append_assoc (quoted key) (58 ∷ (a ++ b)) rest
      ∙ ap (λ u. quoted key ++ 58 ∷ u) (append_assoc a b rest)

  pub field-longer :
      (key s t : Bytes) → length s + length t < length (json_escape key ++ 34 ∷ 58 ∷ (s ++ t))
  field-longer key s t =
      omega (arith, length-append {0} (json_escape key) (34 ∷ 58 ∷ (s ++ t)), length-append {0} s t)

  mutual
    unfolding print nesting

    pub skip_nested-print :
        (v : Json) (room : ℕ) (rest : Bytes)
        → nesting v ≤ room
        → goes_on (front rest) ≡ false
        → skip_nested size room (print v ++ rest) ≡ ok rest
    skip_nested-print null room rest h k = at_room room _ _ (λ o a. dispatch-null size o a rest)
    skip_nested-print (bool b) room rest h k =
        at_room room _ _ (λ o a. dispatch-bool size o a b rest)
    skip_nested-print (num x) room rest h k =
        at_room room _ _ (λ o a. dispatch-num size o a x rest k)
    skip_nested-print (str s) room rest h k = at_room room _ _ (λ o a. dispatch-str size o a s rest)
    skip_nested-print (arr xs) zero rest h k = absurd (omega arith)
    skip_nested-print (obj fs) zero rest h k = absurd (omega arith)
    skip_nested-print (arr nil) (suc room) rest h k =
        skip_nested-arr room _ ∙ skip_array-nil (skip_nested size room) rest
    skip_nested-print (arr (cons x xs)) (suc room) rest h k =
        let t = more_items xs ++ rest in
        let first = skip_nested-print x room t (omega arith) (more_items-front size xs rest) in
        rw (append_assoc (print x) (more_items xs) rest) (
          skip_nested-arr room (print x ++ t)
          ∙ skip_array-cons (skip_nested size room) (print x ++ t) t (print-Starts size x t) first
          ∙ skip_items-print xs room (length (print x ++ t) - 1) rest (omega arith)
              (omega (arith, print-length x, length-append {0} (print x) t)))
    skip_nested-print (obj end) (suc room) rest h k =
        skip_nested-obj room _ ∙ skip_object-end (skip_nested size room) rest
    skip_nested-print (obj (field key x fs)) (suc room) rest h k =
        let t = more_fields fs ++ rest in
        let first = skip_nested-print x room t (omega arith) (more_fields-front size fs rest) in
        ap (λ s. skip_nested size (suc room) (123 ∷ s))
          (regroup key (print x) (more_fields fs) rest)
        ∙ skip_nested-obj room (quoted key ++ 58 ∷ (print x ++ t))
        ∙ skip_object-field (skip_nested size room) key (print x ++ t) t first
        ∙ skip_fields-print fs room (length (json_escape key ++ 34 ∷ 58 ∷ (print x ++ t))) rest
            (omega arith) (omega (arith, field-longer key (print x) t))

    skip_items-print :
        (xs : Items) (room n : ℕ) (rest : Bytes)
        → nesting_items xs ≤ room
        → length (more_items xs ++ rest) ≤ n
        → after_item size (skip_nested size room) n (more_items xs ++ rest) ≡ ok rest
    skip_items-print nil room n rest h k = after_item-nil size (skip_nested size room) n rest
    skip_items-print (cons x xs) room zero rest h k = absurd (omega arith)
    skip_items-print (cons x xs) room (suc n) rest h k =
        let t = more_items xs ++ rest in
        let first = skip_nested-print x room t (omega arith) (more_items-front size xs rest) in
        let shorter : length t ≤ n = omega (
          arith,
          k,
          ap length (append_assoc (print x) (more_items xs) rest),
          length-append {0} (print x) t,
        ) in
        rw (append_assoc (print x) (more_items xs) rest) (
          after_item-cons size (skip_nested size room) n (print x ++ t) t first
          ∙ skip_items-print xs room n rest (omega arith) shorter)

    skip_fields-print :
        (fs : Fields) (room n : ℕ) (rest : Bytes)
        → nesting_fields fs ≤ room
        → length (more_fields fs ++ rest) ≤ n
        → after_field size (skip_nested size room) n (more_fields fs ++ rest) ≡ ok rest
    skip_fields-print end room n rest h k = after_field-end size (skip_nested size room) n rest
    skip_fields-print (field key x fs) room zero rest h k = absurd (omega arith)
    skip_fields-print (field key x fs) room (suc n) rest h k =
        let t = more_fields fs ++ rest in
        let first = skip_nested-print x room t (omega arith) (more_fields-front size fs rest) in
        let whole = regroup key (print x) (more_fields fs) rest in
        let shorter : length t ≤ n = omega (
          arith,
          k,
          ap length whole,
          field-longer key (print x) t,
          length-append {0} (json_escape key) (34 ∷ 58 ∷ (print x ++ t)),
          length-append {0} (quoted key) (58 ∷ (print x ++ t)),
          length-append {0} (json_escape key) (34 ∷ []),
        ) in
        ap (λ s. after_field size (skip_nested size room) (suc n) (44 ∷ s)) whole
        ∙ after_field-field size (skip_nested size room) n key (print x ++ t) t first
        ∙ skip_fields-print fs room n rest (omega arith) shorter
