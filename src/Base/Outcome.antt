-- ===== src/Base/Outcome.antt =====
-- What a Go function returns: a value, an error with its text, or a panic.
use Prim.Native.Nat.{ℕ}
use mathlib.Core.List.{List}
use mathlib.Core.Logic.{◌⊎◌, inl, inr}
use mathlib.Core.Path.{◌≡◌, refl}

-- `(A, error)` of a library call: the error is the text of `err.Error()`.
pub data Fallible {ℓ} (A : Type ℓ) : Type ℓ where
  done : A → Fallible A
  fail : List ℕ → Fallible A

infixl 5 ◌>>=◌
abbrev pub ◌>>=◌ {ℓ κ} : {A : Type ℓ} {B : Type κ} → Fallible A → (A → Fallible B) → Fallible B
done a >>= f = f a
fail e >>= f = fail e

-- A chain that succeeds has a first step that succeeds.
pub bind-done {ℓ κ} :
    {A : Type ℓ} {B : Type κ} (m : Fallible A) (f : A → Fallible B) {b : B}
    → (m >>= f) ≡ done b
    → (a : A) × (m ≡ done a) × (f a ≡ done b)
bind-done (done a) f h = (a, refl, h)
bind-done (fail e) f h = absurd (cc h)

pub Fallible-cases {ℓ} :
    {A : Type ℓ} (m : Fallible A) → ((a : A) × (m ≡ done a)) ⊎ ((e : List ℕ) × (m ≡ fail e))
Fallible-cases (done a) = inl (a, refl)
Fallible-cases (fail e) = inr (e, refl)
