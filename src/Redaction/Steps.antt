-- ===== src/Redaction/Steps.antt =====
-- What a step of the redaction leaves in the memory and returns (packages/recorder/src/redaction.ts).
use mathlib.Core.Path.{subst}
use agent_loop_snapshot.Prelude.{◌≡◌, refl, Bool, true, false, if◌then◌else◌}
use agent_loop_snapshot.Redaction.Rules.{
  ErrorCode, Outcome, failed, done, Memory, Step, give, continue, refuse_if,
}

-- The error that cannot be.
abbrev pub Never : Memory → Type 0
Never _ = ⊥

module _ (Error Inv : Memory → Type 0) where
  -- After an error the memory satisfies `Error`; otherwise it satisfies `Inv`, and the
  -- result `Q`.
  abbrev pub Ensures : {A : Type 0} → (A → Type 0) → Outcome A × Memory → Type 0
  Ensures Q (failed _, m) = Error m
  Ensures Q (done a, m) = Inv m × Q a

  pub continue-Ensures :
      {A B : Type 0} (Q : A → Type 0) (R : B → Type 0) (next : A → Step B) (x : Outcome A × Memory)
      → Ensures Q x
      → ((a : A) (m : Memory) → Inv m → Q a → Ensures R (next a m))
      → Ensures R (continue next x)
  continue-Ensures Q R next (failed _, m) h k = h
  continue-Ensures Q R next (done a, m) h k = k a m h.0 h.1

  pub Ensures-weaken :
      {A : Type 0} (Q R : A → Type 0) (x : Outcome A × Memory)
      → ((a : A) → Q a → R a)
      → Ensures Q x
      → Ensures R x
  Ensures-weaken Q R (failed _, m) k h = h
  Ensures-weaken Q R (done a, m) k h = (h.0, k a h.1)

-- A step that cannot fail gives a result.
pub Ensures-total :
    {A : Type 0} (Inv : Memory → Type 0) (Q : A → Type 0) (x : Outcome A × Memory)
    → Ensures Never Inv Q x
    → (a : A) × (m : Memory) × (x ≡ (done a, m)) × Q a
Ensures-total Inv Q (failed _, n) h = elim h [ ]
Ensures-total Inv Q (done b, n) h = (b, n, refl, h.1)

-- Nothing is asked of a memory.
abbrev pub Anything : Memory → Type 0
Anything _ = Unit {0}

-- What the last step ensures, whatever came before.
pub last-Ensures :
    {A B : Type 0} (R : B → Type 0) (next : A → Step B) (x : Outcome A × Memory)
    → ((a : A) (m : Memory) → Ensures Anything Anything R (next a m))
    → Ensures Anything Anything R (continue next x)
last-Ensures R next (failed _, n) h = tt
last-Ensures R next (done a, n) h = h a n

pub Ensures-done :
    {A : Type 0} (Q : A → Type 0) (x : Outcome A × Memory) (a : A) (n : Memory)
    → x ≡ (done a, n)
    → Ensures Anything Anything Q x
    → Q a
Ensures-done Q x a n e h = (subst (Ensures Anything Anything Q) e h).1

module _ (Inv : Memory → Type 0) where
  pub Ensures-memory :
      {A : Type 0} (Q : A → Type 0) (x : Outcome A × Memory) → Ensures Inv Inv Q x → Inv x.1
  Ensures-memory Q (failed _, m) h = h
  Ensures-memory Q (done a, m) h = h.0

  abbrev pub Keeps : {A : Type 0} → Step A → Type 0
  Keeps step = (m : Memory) → Inv m → Ensures Inv Inv (λ _. Unit {0}) (step m)

  pub bind-Keeps :
      {A B : Type 0} (step : Step A) (next : A → Step B)
      → Keeps step
      → ((a : A) → Keeps (next a))
      → Keeps (λ m. continue next (step m))
  bind-Keeps step next h k m i =
      continue-Ensures Inv Inv (λ _. Unit {0}) (λ _. Unit {0}) next (step m) (h m i)
        (λ a n j _. k a n j)

  pub give-Keeps : {A : Type 0} (a : A) → Keeps (give a)
  give-Keeps a m i = (i, tt)

  pub refuse_if-Keeps : (b : Bool) (e : ErrorCode) → Keeps (refuse_if b e)
  refuse_if-Keeps true e m i = i
  refuse_if-Keeps false e m i = (i, tt)

  pub if-Keeps :
      {A : Type 0} (b : Bool) (x y : Step A) → Keeps x → Keeps y → Keeps (if b then x else y)
  if-Keeps true x y hx hy = hx
  if-Keeps false x y hx hy = hy

  pub Ensures-forget :
      {A : Type 0} (Q : A → Type 0) (x : Outcome A × Memory)
      → Ensures Never Inv Q x
      → Ensures Inv Inv (λ _. Unit {0}) x
  Ensures-forget Q (failed _, m) h = elim h [ ]
  Ensures-forget Q (done a, m) h = (h.0, tt)
