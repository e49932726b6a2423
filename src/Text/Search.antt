-- ===== src/Text/Search.antt =====
-- strings.Contains(s, c) and strings.SplitN(s, c, 2), for a separator of one character.
use kube_pfs.Base.{
  ℕ, ◌≡◌, ◌≢◌, refl, Bool, true, false, ◌||◌, ◌&&◌, Option, none, some, List, [], ◌∷◌, ◌++◌, arith,
  ◌==◌, if◌then◌else◌, All, drop, length,
}
use kube_pfs.Text.Equality.{Text}

unfoldable pub contains : ℕ → Text → Bool
contains c [] = false
contains c (d ∷ s) = d == c || contains c s

-- No character of the text is `c`.
abbrev pub Lacks : ℕ → Text → Type 0
Lacks c = All (λ d. d ≢ c)

pub contains-Lacks : (c : ℕ) (s : Text) → contains c s ≡ false → Lacks c s
unfolding contains
contains-Lacks c [] h = tt
contains-Lacks c (d ∷ s) h = (ground arith, contains-Lacks c s (ground arith))

pub Lacks-contains : (c : ℕ) (s : Text) → Lacks c s → contains c s ≡ false
unfolding contains
Lacks-contains c [] h = refl
Lacks-contains c (d ∷ s) h = ground (arith, Lacks-contains c s h.1)

-- What stands before and behind the first `c`: `parts[0], parts[1]` of SplitN; `none` says that
-- `len(parts)` is 1.
unfoldable pub split_two : ℕ → Text → Option (Text × Text)
split_two c [] = none
split_two c (d ∷ s) =
    if d == c
    then some ([], s)
    else elim (split_two c s) [ none ↦ none | some (a, b) ↦ some (d ∷ a, b) ]

-- Text joined by a separator that the first part lacks is split into its two parts.
pub split_two-append : (c : ℕ) (a b : Text) → Lacks c a → split_two c (a ++ c ∷ b) ≡ some (a, b)
unfolding split_two
split_two-append c [] b h = ground arith
split_two-append c (d ∷ a) b h = ground (arith, split_two-append c a b h.1)

-- strings.Split(s, c), for a separator of one character
unfoldable pub split_on : ℕ → Text → List Text
split_on c [] = [] ∷ []
split_on c (d ∷ s) =
    let rest = split_on c s in
    if d == c then [] ∷ rest else elim rest [ [] ↦ (d ∷ []) ∷ [] | p ∷ ps ↦ (d ∷ p) ∷ ps ]

pub split_on-Lacks : (c : ℕ) (s : Text) → Lacks c s → split_on c s ≡ s ∷ []
unfolding split_on
split_on-Lacks c [] h = refl
split_on-Lacks c (d ∷ s) h = ground (arith, split_on-Lacks c s h.1)

-- What stands before the first separator is the first part.
pub split_on-append : (c : ℕ) (a b : Text) → Lacks c a → split_on c (a ++ c ∷ b) ≡ a ∷ split_on c b
unfolding split_on
split_on-append c [] b h = ground arith
split_on-append c (d ∷ a) b h = ground (arith, split_on-append c a b h.1)

-- strings.HasPrefix(s, prefix), given the prefix first
unfoldable pub has_prefix : Text → Text → Bool
has_prefix [] s = true
has_prefix (c ∷ p) [] = false
has_prefix (c ∷ p) (d ∷ s) = c == d && has_prefix p s

-- A text that starts with a prefix is the prefix and what is left behind it.
pub has_prefix-drop : (p s : Text) → has_prefix p s ≡ true → s ≡ p ++ drop (length p) s
unfolding has_prefix
has_prefix-drop [] s h = refl
has_prefix-drop (c ∷ p) [] h = absurd (ground (arith, h))
has_prefix-drop (c ∷ p) (d ∷ s) h = ground (arith, has_prefix-drop p s, h)
