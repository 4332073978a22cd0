-- ===== src/Prelude/Results.antt =====
-- What a call that may throw gives: a value, or the exception with its kind and message.
use mathlib.Core.Path.{◌≡◌, refl, subst}
use mathlib.Core.Bool.{Bool, true, false}
use ninfer_nvfp4_glm_5_3_fla.Prelude.Tests.{if◌then◌else◌}
use ninfer_nvfp4_glm_5_3_fla.Prelude.Texts.{Bytes}

pub data Exception : Type 0 where
  runtime_error invalid_argument logic_error out_of_range overflow_error : Bytes → Exception

pub data Result {ℓ} (A : Type ℓ) : Type ℓ where
  ok : A → Result A
  threw : Exception → Result A

abbrev pub bind {ℓ κ} : {A : Type ℓ} {B : Type κ} → Result A → (A → Result B) → Result B
bind (ok a) f = f a
bind (threw e) f = threw e

infixl 5 ◌>>=◌ ◌>>◌
abbrev pub ◌>>=◌ {ℓ κ} : {A : Type ℓ} {B : Type κ} → Result A → (A → Result B) → Result B
m >>= f = bind m f

abbrev pub ◌>>◌ {ℓ} : {B : Type ℓ} → Result (Unit {0}) → Result B → Result B
m >> k = m >>= λ _. k

-- `if (!test) throw error;`
abbrev pub guard : Bool → Exception → Result (Unit {0})
guard true e = ok tt
guard false e = threw e

pub bind-eq-ok {ℓ κ} :
    {A : Type ℓ} {B : Type κ} (m : Result A) (f : A → Result B) {b : B}
    → bind m f ≡ ok b
    → (a : A) × (m ≡ ok a) × (f a ≡ ok b)
bind-eq-ok (ok a) f h = (a, refl, h)
bind-eq-ok (threw e) f h = cc

pub ok-injective {ℓ} : {A : Type ℓ} {a b : A} → ok a ≡ ok b → a ≡ b
ok-injective h = cc

-- What holds of the value that a call returns, if it returns.
abbrev pub Ensures {ℓ κ} : {A : Type ℓ} → (A → Type κ) → Result A → Type κ
Ensures P (ok a) = P a
Ensures P (threw e) = Unit

pub Ensures-bind {ℓ κ μ ν} :
    {A : Type ℓ} {B : Type κ} (P : A → Type μ) (Q : B → Type ν) (m : Result A) (f : A → Result B)
    → Ensures P m
    → ((a : A) → P a → Ensures Q (f a))
    → Ensures Q (bind m f)
Ensures-bind P Q (ok a) f p k = k a p
Ensures-bind P Q (threw e) f p k = tt

-- The same where nothing is known of the first call.
pub Ensures-bind_any {ℓ κ ν} :
    {A : Type ℓ} {B : Type κ} (Q : B → Type ν) (m : Result A) (f : A → Result B)
    → ((a : A) → Ensures Q (f a))
    → Ensures Q (bind m f)
Ensures-bind_any Q (ok a) f k = k a
Ensures-bind_any Q (threw e) f k = tt

pub Ensures-weaken {ℓ κ μ} :
    {A : Type ℓ} (P : A → Type κ) (Q : A → Type μ) (m : Result A)
    → Ensures P m
    → ((a : A) → P a → Q a)
    → Ensures Q m
Ensures-weaken P Q (ok a) p k = k a p
Ensures-weaken P Q (threw e) p k = tt

pub Ensures-if {ℓ κ} :
    {A : Type ℓ} (P : A → Type κ) (b : Bool) (m n : Result A)
    → Ensures P m
    → Ensures P n
    → Ensures P (if b then m else n)
Ensures-if P true m n p q = p
Ensures-if P false m n p q = q

pub Ensures-ok {ℓ κ} :
    {A : Type ℓ} (P : A → Type κ) (m : Result A) {a : A} → Ensures P m → m ≡ ok a → P a
Ensures-ok P (ok b) p h = subst P (ok-injective h) p
Ensures-ok P (threw e) p h = absurd (cc)

-- Two continuations that agree on what the first call ensures.
pub bind-congr {ℓ κ μ} :
    {A : Type ℓ} {B : Type κ} (P : A → Type μ) (m : Result A) (f g : A → Result B)
    → Ensures P m
    → ((a : A) → P a → f a ≡ g a)
    → bind m f ≡ bind m g
bind-congr P (ok a) f g p k = k a p
bind-congr P (threw e) f g p k = refl
