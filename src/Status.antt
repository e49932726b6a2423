-- ===== src/Status.antt =====
-- What a gRPC handler of the services returns: a response, a status error (`status.Error` of
-- google.golang.org/grpc, its code and its message), or a Go panic, which ends the process.
use kube_pfs.Base.{◌≡◌, refl, ◌⊎◌, inl, inr, Bool, true, false, Option, none, some}
use kube_pfs.Text.{Text}

-- The codes of google.golang.org/grpc/codes that the services use.
pub data Code : Type 0 where
  invalid_argument not_found already_exists failed_precondition internal : Code

pub data Result {ℓ} (A : Type ℓ) : Type ℓ where
  ok : A → Result A
  err : Code → Text → Result A
  panic : Result A

infixl 5 ◌>>=◌ ◌>>◌
abbrev pub ◌>>=◌ {ℓ κ} : {A : Type ℓ} {B : Type κ} → Result A → (A → Result B) → Result B
ok a >>= f = f a
err c m >>= f = err c m
panic >>= f = panic

abbrev pub ◌>>◌ {ℓ} : {B : Type ℓ} → Result (Unit {0}) → Result B → Result B
m >> k = m >>= λ _. k

-- `if bad { return nil, status.Error(c, m) }`
abbrev pub refuse_if : Bool → Code → Text → Result (Unit {0})
refuse_if true c m = err c m
refuse_if false c m = ok tt

-- `v, ok := ...; if !ok { return nil, status.Error(c, m) }`
abbrev pub or_refuse {ℓ} : {A : Type ℓ} → Option A → Code → Text → Result A
or_refuse none c m = err c m
or_refuse (some a) c m = ok a

pub Result-cases {ℓ} :
    {A : Type ℓ} (r : Result A)
    → ((a : A) × (r ≡ ok a)) ⊎ ((c : Code) × (m : Text) × (r ≡ err c m)) ⊎ (r ≡ panic)
Result-cases (ok a) = inl (a, refl)
Result-cases (err c m) = inr (inl (c, m, refl))
Result-cases panic = inr (inr refl)

pub ok-injective {ℓ} : {A : Type ℓ} {a b : A} → ok a ≡ ok b → a ≡ b
ok-injective h = cc
