-- ===== src/Text/Decimal.antt =====
-- `fmt.Sprintf("%d", n)` of a number that is not negative. The fuel is `n + 1`: a round divides by
-- ten, so it is enough.
use kube_pfs.Base.{
  ℕ, zero, suc, ◌+◌, ◌-◌, ◌*◌, ◌/◌, ◌%◌, ◌≤◌, ◌<◌, ◌≡◌, refl, ap, ◌∙◌, sym, ◌++◌, inl, inr, [], ◌∷◌,
  arith, ltb, Bool-cases, if◌then◌else◌, All,
}
use kube_pfs.Text.Equality.{Text}

digits : ℕ → ℕ → Text → Text
digits zero n out = out
digits (suc fuel) n out =
    let more = digits fuel (n / 10) ((48 + n % 10) ∷ out) in
    if ltb n 10 then (48 + n) ∷ out else more

unfoldable pub decimal : ℕ → Text
unfolding digits
decimal n = digits (suc n) n []

-- The number that a text of digits spells, read behind `n`.
abbrev pub spelled : Text → ℕ → ℕ
spelled [] n = n
spelled (c ∷ s) n = spelled s (n * 10 + (c - 48))

spelled-digits :
    (fuel n : ℕ) (out : Text) → n < fuel → spelled (digits fuel n out) 0 ≡ spelled out n
unfolding digits
spelled-digits zero n out h = elim h [ ]
spelled-digits (suc fuel) n out h = elim (Bool-cases (ltb n 10)) [
  | inl small ↦ rw small (ap (spelled out) (omega arith))
  | inr large ↦ rw large (
      spelled-digits fuel (n / 10) ((48 + n % 10) ∷ out) (ground arith)
      ∙ ap (spelled out) (omega arith))
]

pub spelled-decimal : (n : ℕ) → spelled (decimal n) 0 ≡ n
unfolding decimal
spelled-decimal n = spelled-digits (suc n) n [] (omega arith)

-- Two numbers with one print are equal.
pub decimal_injective : (m n : ℕ) → decimal m ≡ decimal n → m ≡ n
decimal_injective m n e = sym (spelled-decimal m) ∙ ap (λ s. spelled s 0) e ∙ spelled-decimal n

abbrev pub IsDigit : ℕ → Type 0
IsDigit c = (48 ≤ c) × (c ≤ 57)

digits-IsDigit : (fuel n : ℕ) (out : Text) → All IsDigit out → All IsDigit (digits fuel n out)
unfolding digits
digits-IsDigit zero n out h = h
digits-IsDigit (suc fuel) n out h = elim (Bool-cases (ltb n 10)) [
  | inl small ↦ rw small (ground arith, h)
  | inr large ↦ rw large (digits-IsDigit fuel (n / 10) ((48 + n % 10) ∷ out) ((omega arith), h))
]

pub decimal-IsDigit : (n : ℕ) → All IsDigit (decimal n)
unfolding decimal
decimal-IsDigit n = digits-IsDigit (suc n) n [] tt

decimal_runs : decimal 1234 ++ decimal 0 ≡ 49 ∷ 50 ∷ 51 ∷ 52 ∷ 48 ∷ []
unfolding decimal
decimal_runs = refl
