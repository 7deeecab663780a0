-- ===== src/Base/Run.antt =====
-- Code that may bring the process down, by a null pointer or a write out of bounds.
use mathlib.Core.Path.{◌≡◌, refl}
use mathlib.Core.Bool.{Bool, true, false}
use svnsrv.Base.Tests.{if◌then◌else◌}

pub data Run {ℓ} (A : Type ℓ) : Type ℓ where
  done : A → Run A
  crash : Run A

infixl 5 ◌>>=◌
abbrev pub ◌>>=◌ {ℓ κ} : {A : Type ℓ} {B : Type κ} → Run A → (A → Run B) → Run B
done a >>= f = f a
crash >>= f = crash

-- The code does not crash, and its result satisfies the predicate.
abbrev pub Ensures {ℓ} : {A : Type ℓ} → (A → Type 0) → Run A → Type 0
Ensures P (done a) = P a
Ensures P crash = ⊥

pub bind-Ensures {ℓ κ} :
    {A : Type ℓ} {B : Type κ} (P : A → Type 0) (Q : B → Type 0) (m : Run A) (f : A → Run B)
    → Ensures P m
    → ((a : A) → P a → Ensures Q (f a))
    → Ensures Q (m >>= f)
bind-Ensures P Q (done a) f h k = k a h
bind-Ensures P Q crash f h k = absurd h

pub Ensures-result {ℓ} :
    {A : Type ℓ} (P : A → Type 0) (m : Run A) → Ensures P m → (a : A) × (m ≡ done a) × P a
Ensures-result P (done a) h = (a, refl, h)
Ensures-result P crash h = absurd h

pub bind_crash {ℓ κ} :
    {A : Type ℓ} {B : Type κ} (m : Run A) (f : A → Run B) → m ≡ crash → (m >>= f) ≡ crash
bind_crash m f e = rw e

pub bind_crash_after {ℓ κ} :
    {A : Type ℓ} {B : Type κ} (m : Run A) (f : A → Run B)
    → ((a : A) → f a ≡ crash)
    → (m >>= f) ≡ crash
bind_crash_after (done a) f h = h a
bind_crash_after crash f h = refl

pub Ensures-mono {ℓ} :
    {A : Type ℓ} (P Q : A → Type 0) (m : Run A) → Ensures P m → ((a : A) → P a → Q a) → Ensures Q m
Ensures-mono P Q (done a) h k = k a h
Ensures-mono P Q crash h k = absurd h

-- If the code returns, its result satisfies the predicate.
abbrev pub Whenever {ℓ} : {A : Type ℓ} → (A → Type 0) → Run A → Type 0
Whenever P (done a) = P a
Whenever P crash = Unit

pub bind-Whenever {ℓ κ} :
    {A : Type ℓ} {B : Type κ} (Q : B → Type 0) (m : Run A) (f : A → Run B)
    → ((a : A) → m ≡ done a → Whenever Q (f a))
    → Whenever Q (m >>= f)
bind-Whenever Q (done a) f k = k a refl
bind-Whenever Q crash f k = tt

pub Whenever-if {ℓ} :
    {A : Type ℓ} (P : A → Type 0) (b : Bool) (x y : Run A)
    → (b ≡ true → Whenever P x)
    → (b ≡ false → Whenever P y)
    → Whenever P (if b then x else y)
Whenever-if P true x y p q = p refl
Whenever-if P false x y p q = q refl
