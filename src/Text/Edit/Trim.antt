-- ===== src/Text/Edit/Trim.antt =====
-- Trimming stops at a character that is no space.

use kube_pfs.Base.{ℕ, ◌≡◌, ◌∙◌, refl, ap, false, [], ◌∷◌, ◌++◌, arith}
use kube_pfs.Text.Edit.{is_space, trim_left, trim_right, trim_space, drop_space, replace_char}
use kube_pfs.Text.Equality.{Text}

module _ (c : ℕ) (solid : is_space c ≡ false) where
  trim_left-append : (x y : Text) → trim_left (x ++ c ∷ y) ≡ trim_left x ++ c ∷ y
  unfolding trim_left
  trim_left-append [] y = ground arith
  trim_left-append (d ∷ x) y = ground (arith, trim_left-append x y)

  drop_space_solid : (s : Text) → drop_space c s ≡ c ∷ s
  drop_space_solid [] = ground arith
  drop_space_solid (d ∷ s) = refl

  drop_space-append : (d : ℕ) (x z : Text) → drop_space d (x ++ c ∷ z) ≡ d ∷ (x ++ c ∷ z)
  drop_space-append d [] z = refl
  drop_space-append d (e ∷ x) z = refl

  pub trim_right-append : (x y : Text) → trim_right (x ++ c ∷ y) ≡ x ++ c ∷ trim_right y
  unfolding trim_right
  trim_right-append [] y = drop_space_solid (trim_right y)
  trim_right-append (d ∷ x) y =
      ap (drop_space d) (trim_right-append x y) ∙ drop_space-append d x (trim_right y)

  pub trim_space-append : (x y : Text) → trim_space (x ++ c ∷ y) ≡ trim_left x ++ c ∷ trim_right y
  unfolding trim_space
  trim_space-append x y = ap trim_right (trim_left-append x y) ∙ trim_right-append (trim_left x) y

-- Replacing a character forgets which of the two it was.
pub replace_char-append :
    (a b : ℕ) (x y : Text) → replace_char a b (x ++ a ∷ y) ≡ replace_char a b (x ++ b ∷ y)
unfolding replace_char
replace_char-append a b [] y = ground arith
replace_char-append a b (c ∷ x) y = ground (arith, replace_char-append a b x y)
