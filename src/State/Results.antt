-- ===== src/State/Results.antt =====
-- Results that may be errors: how they chain.
use agent_loop_snapshot.Prelude.{◌≡◌, refl, ap, ◌⊎◌, inl, inr}
use mathlib.Core.Path.{subst}
use agent_loop_snapshot.State.Pointer.{StateError, Result, ok, err, ◌>>=◌}

pub bind_ext :
    {A B : Type 0} (m : Result A) {f g : A → Result B}
    → ((a : A) → f a ≡ g a)
    → (m >>= f) ≡ (m >>= g)
bind_ext (ok a) h = h a
bind_ext (err e) h = refl

pub bind_assoc :
    {A B C : Type 0} (m : Result A) (f : A → Result B) (g : B → Result C)
    → ((m >>= f) >>= g) ≡ (m >>= λ a. f a >>= g)
bind_assoc (ok a) f g = refl
bind_assoc (err e) f g = refl

pub Result-cases :
    {A : Type 0} (r : Result A) → ((a : A) × (r ≡ ok a)) ⊎ ((e : StateError) × (r ≡ err e))
Result-cases (ok a) = inl (a, refl)
Result-cases (err e) = inr (e, refl)

pub bind_same :
    {A B : Type 0} (m : Result A) (f : A → B) (g : B → A)
    → ((a : A) → g (f a) ≡ a)
    → ((m >>= λ a. ok (f a)) >>= λ b. ok (g b)) ≡ m
bind_same (ok a) f g h = ap ok (h a)
bind_same (err e) f g h = refl

pub ok_injective : {A : Type 0} (a b : A) → ok a ≡ ok b → a ≡ b
ok_injective a b h = cc

-- A chain that succeeds has succeeded at its first part.
pub bind_ok :
    {A B : Type 0} (step : Result A) (next : A → Result B) (end : B)
    → (step >>= next) ≡ ok end
    → (a : A) × (step ≡ ok a) × (next a ≡ ok end)
bind_ok (err e) next end made = cc
bind_ok (ok a) next end made = (a, refl, made)

-- What a result holds, where it is not an error.
abbrev pub Holds {ℓ} : {A : Type 0} (P : A → Type ℓ) → Result A → Type ℓ
Holds P (ok a) = P a
Holds P (err e) = Unit

pub bind-Holds {ℓ κ} :
    {A B : Type 0} (P : A → Type ℓ) (Q : B → Type κ) (m : Result A) (f : A → Result B)
    → Holds P m
    → ((a : A) → P a → Holds Q (f a))
    → Holds Q (m >>= f)
bind-Holds P Q (ok a) f p h = h a p
bind-Holds P Q (err e) f p h = tt

pub Holds-ok {ℓ} : {A : Type 0} (P : A → Type ℓ) (m : Result A) (a : A) → m ≡ ok a → Holds P m → P a
Holds-ok P m a e h = subst (Holds P) e h

pub anything : {A : Type 0} (m : Result A) → Holds (λ _. Unit {0}) m
anything (ok a) = tt
anything (err e) = tt

pub itself : {A : Type 0} (m : Result A) → Holds (λ a. m ≡ ok a) m
itself (ok a) = refl
itself (err e) = tt
