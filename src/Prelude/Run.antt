-- ===== src/Prelude/Run.antt =====
-- Code that may panic: `expect` on a missing value, `clamp` with its bounds the wrong way round.
use kvmshare.Prelude.Tests.{if◌then◌else◌}
use mathlib.Core.Path.{◌≡◌, refl}
use mathlib.Core.Option.{Option, none, some}
use mathlib.Core.Bool.{Bool, true, false}

pub data Run {ℓ} (A : Type ℓ) : Type ℓ where
  done : A → Run A
  panic : Run A

infixl 5 ◌>>=◌
abbrev pub ◌>>=◌ {ℓ κ} : {A : Type ℓ} {B : Type κ} → Run A → (A → Run B) → Run B
done a >>= f = f a
panic >>= f = panic

-- `Option::expect`.
abbrev pub expect {ℓ} : {A : Type ℓ} → Option A → Run A
expect (some a) = done a
expect none = panic

-- The code does not panic, and its result has the property.
abbrev pub Ensures : {A : Type 0} → (A → Type 0) → Run A → Type 0
Ensures P (done a) = P a
Ensures P panic = ⊥

pub Ensures->>= :
    {A B : Type 0} (P : A → Type 0) (Q : B → Type 0) (m : Run A) (f : A → Run B)
    → Ensures P m
    → ((a : A) → P a → Ensures Q (f a))
    → Ensures Q (m >>= f)
Ensures->>= P Q (done a) f p q = q a p
Ensures->>= P Q panic f p q = p

pub Ensures-map :
    {A : Type 0} (P Q : A → Type 0) (m : Run A) → Ensures P m → ((a : A) → P a → Q a) → Ensures Q m
Ensures-map P Q (done a) p q = q a p
Ensures-map P Q panic p q = p

-- Either arm of a test keeps a property.
pub Ensures-if :
    {A : Type 0} (P : A → Type 0) (c : Bool) (m k : Run A)
    → Ensures P m
    → Ensures P k
    → Ensures P (if c then m else k)
Ensures-if P true m k p q = p
Ensures-if P false m k p q = q

-- The same, where the first arm may use that the test holds.
pub Ensures-test :
    {A : Type 0} (P : A → Type 0) (c : Bool) (m k : Run A)
    → (c ≡ true → Ensures P m)
    → Ensures P k
    → Ensures P (if c then m else k)
Ensures-test P true m k p q = p refl
Ensures-test P false m k p q = q

pub Ensures-left :
    {A : Type 0} (P : A → Type 0) (c : Bool) (m k : Run A)
    → c ≡ true
    → Ensures P m
    → Ensures P (if c then m else k)
Ensures-left P true m k h p = p
Ensures-left P false m k h p = cc
