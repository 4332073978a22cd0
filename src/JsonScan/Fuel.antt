-- ===== src/JsonScan/Fuel.antt =====
-- src/json_scan.hpp: every loop takes characters, and with the length of the rest as fuel it
-- comes to its own end.
use ninfer_nvfp4_glm_5_3_fla.Prelude.{
  ℕ, zero, suc, ◌+◌, ◌*◌, ◌≤◌, ◌<◌, ◌≡◌, inl, inr, refl, Bool, ◌||◌, [], ◌∷◌, ◌++◌, arith, ltb,
  ◌==◌, text, Bytes, length, length-drop, Bool-cases, Option-cases, Result, ok, bind, ◌⊎◌,
  runtime_error, invalid_argument, logic_error, out_of_range, overflow_error, threw, if◌then◌else◌,
  true, false, Exception, ap,
}
use ninfer_nvfp4_glm_5_3_fla.JsonScan.{
  fail, skip_ws, peek_at, peek, get, expect, hex_value, hex_code, append_unicode, unescape,
  string_body, parse_string,
}
use ninfer_nvfp4_glm_5_3_fla.JsonScan.Skip.{skip_digits}

-- What `fail` throws.
abbrev pub IsRuntime : Exception → Type 0
IsRuntime (runtime_error message) = Unit
IsRuntime (invalid_argument message) = ⊥
IsRuntime (logic_error message) = ⊥
IsRuntime (out_of_range message) = ⊥
IsRuntime (overflow_error message) = ⊥

IsRuntime-message : (e : Exception) → IsRuntime e → (message : Bytes) × (e ≡ runtime_error message)
IsRuntime-message (runtime_error message) h = (message, refl)
IsRuntime-message (invalid_argument message) h = elim h [ ]
IsRuntime-message (logic_error message) h = elim h [ ]
IsRuntime-message (out_of_range message) h = elim h [ ]
IsRuntime-message (overflow_error message) h = elim h [ ]

-- A call ends if it returns what `P` holds of, or throws a `runtime_error`.
abbrev pub Ends {ℓ} : {A : Type ℓ} → (A → Type 0) → Result A → Type 0
Ends P (ok a) = P a
Ends P (threw e) = IsRuntime e

pub Ends-bind {ℓ κ} :
    {A : Type ℓ} {B : Type κ} (P : A → Type 0) (Q : B → Type 0) (m : Result A) (f : A → Result B)
    → Ends P m
    → ((a : A) → P a → Ends Q (f a))
    → Ends Q (bind m f)
Ends-bind P Q (ok a) f p k = k a p
Ends-bind P Q (threw e) f p k = p

pub Ends-weaken {ℓ} :
    {A : Type ℓ} (P : A → Type 0) (Q : A → Type 0) (m : Result A)
    → Ends P m
    → ((a : A) → P a → Q a)
    → Ends Q m
Ends-weaken P Q (ok a) p k = k a p
Ends-weaken P Q (threw e) p k = p

pub Ends-if {ℓ} :
    {A : Type ℓ} (P : A → Type 0) (b : Bool) (m n : Result A)
    → Ends P m
    → Ends P n
    → Ends P (if b then m else n)
Ends-if P true m n p q = p
Ends-if P false m n p q = q

pub Ends-cases {ℓ} :
    {A : Type ℓ} (P : A → Type 0) (m : Result A)
    → Ends P m
    → ((a : A) × (m ≡ ok a) × P a) ⊎ ((message : Bytes) × (m ≡ threw (runtime_error message)))
Ends-cases P (ok a) p = inl (a, refl, p)
Ends-cases P (threw e) p =
    let (message, same) = IsRuntime-message e p in inr (message, ap threw same)

pub skip_ws-le : (s : Bytes) → length (skip_ws s) ≤ length s
unfolding skip_ws
skip_ws-le [] = omega arith
skip_ws-le (ch ∷ s) = ground (arith, skip_ws-le s)

pub skip_digits-le : (s : Bytes) → length (skip_digits s) ≤ length s
unfolding skip_digits
skip_digits-le [] = omega arith
skip_digits-le (ch ∷ s) = ground (arith, skip_digits-le s)

-- At most so many bytes are left.
abbrev pub Within {ℓ} : {A : Type ℓ} → ℕ → A × Bytes → Type 0
Within n r = length r.1 ≤ n

abbrev pub Peeked : ℕ → ℕ × Bytes → Type 0
Peeked n r = (length r.1 ≤ n) × (0 < length r.1)

peek_at-Peeked : (size : ℕ) (s : Bytes) → Ends (Peeked (length s)) (peek_at size s)
unfolding fail
peek_at-Peeked size [] = tt
peek_at-Peeked size (ch ∷ s) = omega arith

-- `peek` leaves what is not empty, and `get` what is shorter.
pub peek-Peeked : (size : ℕ) (s : Bytes) → Ends (Peeked (length s)) (peek size s)
unfolding peek
peek-Peeked size s =
    Ends-weaken (Peeked (length (skip_ws s))) _ (peek_at size (skip_ws s))
      (peek_at-Peeked size (skip_ws s)) (λ r h. omega (arith, h, skip_ws-le s))

-- Some bytes have been taken.
abbrev pub Taken {ℓ} : {A : Type ℓ} → ℕ → A × Bytes → Type 0
Taken n r = length r.1 < n

pub get-Taken : (size : ℕ) (s : Bytes) → Ends (Taken (length s)) (get size s)
unfolding get
get-Taken size s =
    Ends-bind (Peeked (length s)) _ (peek size s) _ (peek-Peeked size s)
      (λ r h. omega (arith, h, length-drop {0} 1 r.1))

abbrev pub Shorter : ℕ → Bytes → Type 0
Shorter n s = length s < n

pub expect-Shorter : (size ch : ℕ) (s : Bytes) → Ends (Shorter (length s)) (expect size ch s)
unfolding expect fail
expect-Shorter size ch s =
    Ends-bind (Taken (length s)) _ (get size s) _ (get-Taken size s)
      (λ r h. elim (Bool-cases (r.0 == ch)) [ inl e ↦ rw e h | inr e ↦ rw e tt ])

hex_code-Within : (size n unit : ℕ) (s : Bytes) → Ends (Within (length s)) (hex_code size n unit s)
unfolding hex_code fail
hex_code-Within size zero unit s = omega arith
hex_code-Within size (suc n) unit [] = tt
hex_code-Within size (suc n) unit (c ∷ s) = elim (Option-cases (hex_value c)) [
  | inl e ↦ rw (e, hex_code) tt
  | inr (v, e) ↦
      rw (e, hex_code)
        (Ends-weaken (Within (length s)) _ _ (hex_code-Within size n (unit * 16 + v) s)
          (λ r h. omega (arith, h)))
]

unescape-Within : (size : ℕ) (s : Bytes) → Ends (Within (length s)) (unescape size s)
unfolding unescape append_unicode fail
unescape-Within size [] = tt
unescape-Within size (c ∷ s) =
    let P = Within {A = Bytes} (suc (length s)) in
    let unicode =
      Ends-bind (Within {A = ℕ} (length s)) P (hex_code size 4 0 s) _ (hex_code-Within size 4 0 s)
        (λ r h. omega (arith, h)) in
    let simple = λ (b : Bool) (e : ℕ) (m : Result (Bytes × Bytes)) (h : Ends P m).
      Ends-if P b (ok (e ∷ [], s)) m (omega arith) h in
    let invalid : Ends P (fail size (text "invalid escape") s) = tt in
    let marked =
      Ends-if P (c == 117) _ _
        (Ends-if P (ltb (length s) 4) (fail size (text "truncated unicode escape") s) _ tt unicode)
        invalid in
    simple (c == 34 || c == 92 || c == 47) c _ (
      simple (c == 98) 8 _ (
        simple (c == 102) 12 _
          (simple (c == 110) 10 _ (simple (c == 114) 13 _ (simple (c == 116) 9 _ marked)))))

string_body-Within :
    (size n : ℕ) (out s : Bytes)
    → length s ≤ n
    → Ends (Within (length s)) (string_body size n out s)
unfolding string_body fail
string_body-Within size zero out [] fuel = tt
string_body-Within size zero out (c ∷ s) fuel = absurd (omega arith)
string_body-Within size (suc n) out [] fuel = tt
string_body-Within size (suc n) out (c ∷ s) fuel =
    let P = Within {A = Bytes} (suc (length s)) in
    let escape : Ends P (bind (unescape size s) (λ r. string_body size n (out ++ r.0) r.1)) =
      Ends-bind (Within (length s)) P (unescape size s) _ (unescape-Within size s) (λ r h.
        Ends-weaken (Within (length r.1)) P _
          (string_body-Within size n (out ++ r.0) r.1 (omega arith))
          (λ q k. omega (arith, h, k))) in
    let plain : Ends P (string_body size n (out ++ c ∷ []) s) =
      Ends-weaken (Within (length s)) P _
        (string_body-Within size n (out ++ c ∷ []) s (omega arith)) (λ q k. omega (arith, k)) in
    elim (Bool-cases (c == 34)) [
      | inl e ↦ rw e (omega arith)
      | inr e ↦ rw e (Ends-if P (c == 92) _ _ escape plain)
    ]

pub parse_string-Taken : (size : ℕ) (s : Bytes) → Ends (Taken (length s)) (parse_string size s)
unfolding parse_string fail
parse_string-Taken size s = Ends-bind (Taken (length s)) _ (get size s) _ (get-Taken size s) (λ r h.
    elim (Bool-cases (r.0 == 34)) [
      | inl e ↦ rw e (
          Ends-weaken (Within (length r.1)) _ _
            (string_body-Within size (length r.1) [] r.1 (omega arith))
            (λ q w. omega (arith, w, h)))
      | inr e ↦ rw e tt
    ])
