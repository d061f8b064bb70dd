-- ===== src/Prelude/Options.antt =====
-- The option monad, in which `none` is a run-time panic (an index out of range, a nil pointer).
use mathlib.Core.Path.{◌≡◌}
use mathlib.Core.Option.{Option, none, some}

infixl 5 ◌>>=◌
abbrev pub ◌>>=◌ {ℓ κ} : {A : Type ℓ} {B : Type κ} → Option A → (A → Option B) → Option B
none >>= f = none
some a >>= f = f a

-- No panic, and the result has the property.
abbrev pub Ensures {ℓ} : {A : Type ℓ} → (A → Type 0) → Option A → Type 0
Ensures P none = ⊥
Ensures P (some a) = P a

-- The rule for a bind.
pub Ensures-bind {ℓ κ} :
    {A : Type ℓ} {B : Type κ} (P : A → Type 0) (Q : B → Type 0) (m : Option A) (f : A → Option B)
    → Ensures P m
    → ((a : A) → P a → Ensures Q (f a))
    → Ensures Q (m >>= f)
Ensures-bind P Q none f h k = absurd h
Ensures-bind P Q (some a) f h k = k a h

-- A weaker property.
pub Ensures-mono {ℓ} :
    {A : Type ℓ} (P Q : A → Type 0) (m : Option A)
    → Ensures P m
    → ((a : A) → P a → Q a)
    → Ensures Q m
Ensures-mono P Q none h k = h
Ensures-mono P Q (some a) h k = k a h

-- A result that is known has the property.
pub Ensures-apply {ℓ} :
    {A : Type ℓ} (P : A → Type 0) (m : Option A) {a : A} → Ensures P m → m ≡ some a → P a
Ensures-apply P m h e = rw e at h

pub Ensures-and {ℓ} :
    {A : Type ℓ} (P Q : A → Type 0) (m : Option A)
    → Ensures P m
    → Ensures Q m
    → Ensures (λ a. P a × Q a) m
Ensures-and P Q none h k = h
Ensures-and P Q (some a) h k = (h, k)
