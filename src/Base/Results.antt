-- ===== src/Base/Results.antt =====
-- Chains of steps that may fail, as `do` blocks over `Option`. `none` is a fault: a read through
-- NULL, or a loop that did not end within its fuel.
use mathlib.Core.Path.{◌≡◌, refl}
use mathlib.Core.Option.{Option, none, some}

infixl 5 ◌>>=◌
abbrev pub ◌>>=◌ {ℓ κ} : {A : Type ℓ} {B : Type κ} → Option A → (A → Option B) → Option B
none >>= f = none
some a >>= f = f a

pub bind_none {ℓ κ} :
    {A : Type ℓ} {B : Type κ} (o : Option A) (f : A → Option B)
    → ((a : A) → f a ≡ none)
    → o >>= f ≡ none
bind_none none f h = refl
bind_none (some a) f h = h a

pub bind_assoc {ℓ κ μ} :
    {A : Type ℓ} {B : Type κ} {C : Type μ} (o : Option A) (f : A → Option B) (g : B → Option C)
    → (o >>= f) >>= g ≡ o >>= (λ a. f a >>= g)
bind_assoc none f g = refl
bind_assoc (some a) f g = refl
