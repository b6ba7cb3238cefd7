-- ===== src/Prelude/Outcome.antt =====
-- What running a piece of C gives: a result, or undefined behaviour.

use mathlib.Core.Path.{◌≡◌, subst}

-- `fault` is undefined behaviour: a read of freed memory, or past the end of an array.
pub data Run {ℓ} (A : Type ℓ) : Type ℓ where
  done : A → Run A
  fault : Run A

infixl 5 ◌>>=◌
abbrev pub ◌>>=◌ {ℓ κ} : {A : Type ℓ} {B : Type κ} → Run A → (A → Run B) → Run B
done a >>= f = f a
fault >>= f = fault

-- What holds of the result, if there is one.
abbrev pub IfDone {ℓ κ} : {A : Type ℓ} → (A → Type κ) → Run A → Type κ
IfDone P (done x) = P x
IfDone P fault = Unit

pub IfDone->>= {ℓ κ} :
    {A : Type ℓ} {B : Type ℓ} (P : A → Type κ) (Q : B → Type κ) (m : Run A) (f : A → Run B)
    → IfDone P m
    → ((x : A) → P x → IfDone Q (f x))
    → IfDone Q (m >>= f)
IfDone->>= P Q (done x) f h k = k x h
IfDone->>= P Q fault f h k = tt

pub IfDone-all {ℓ κ} : {A : Type ℓ} (P : A → Type κ) (m : Run A) → ((x : A) → P x) → IfDone P m
IfDone-all P (done x) h = h x
IfDone-all P fault h = tt

pub IfDone-done {ℓ κ} :
    {A : Type ℓ} (P : A → Type κ) (m : Run A) (x : A) → IfDone P m → m ≡ done x → P x
IfDone-done P m x h e = subst (IfDone P) e h

-- What each continuation gives holds, whatever came before.
pub IfDone-any {ℓ κ} :
    {A : Type ℓ} {B : Type ℓ} (Q : B → Type κ) (m : Run A) (f : A → Run B)
    → ((x : A) → IfDone Q (f x))
    → IfDone Q (m >>= f)
IfDone-any Q (done x) f k = k x
IfDone-any Q fault f k = tt
