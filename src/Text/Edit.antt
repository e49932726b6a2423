-- ===== src/Text/Edit.antt =====
-- strings.TrimSpace, strings.ReplaceAll and strings.ToLower.
pub mod Trim
use kube_pfs.Base.{
  ℕ, ◌+◌, ◌-◌, ◌≡◌, ◌≢◌, refl, Bool, true, false, ◌&&◌, ◌||◌, List, [], ◌∷◌, ◌++◌, map, arith, ◌==◌,
  leb, ltb, if◌then◌else◌, All,
}
use kube_pfs.Text.Equality.{Text}
use kube_pfs.Text.Search.{Lacks}

-- unicode.IsSpace
unfoldable pub is_space : ℕ → Bool
is_space c =
    (leb 9 c && leb c 13)
    || c == 32
    || c == 0x85
    || c == 0xa0
    || c == 0x1680
    || (leb 0x2000 c && leb c 0x200a)
    || c == 0x2028
    || c == 0x2029
    || c == 0x202f
    || c == 0x205f
    || c == 0x3000

unfoldable pub trim_left : Text → Text
unfolding is_space
trim_left [] = []
trim_left (c ∷ s) = let rest = trim_left s in if is_space c then rest else c ∷ s

abbrev drop_space : ℕ → Text → Text
drop_space c [] = if is_space c then [] else c ∷ []
drop_space c (d ∷ s) = c ∷ d ∷ s

unfoldable pub trim_right : Text → Text
unfolding is_space
trim_right [] = []
trim_right (c ∷ s) = drop_space c (trim_right s)

-- strings.TrimSpace(s)
unfoldable pub trim_space : Text → Text
unfolding trim_left trim_right
trim_space s = trim_right (trim_left s)

-- strings.ReplaceAll(s, a, b), for single characters
unfoldable pub replace_char : ℕ → ℕ → Text → Text
replace_char a b = map (λ c. if c == a then b else c)

-- strings.ReplaceAll(s, a + b, c): from the left, without overlap
unfoldable pub replace_pair : ℕ → ℕ → ℕ → Text → Text
replace_pair a b c [] = []
replace_pair a b c (d ∷ []) = d ∷ []
replace_pair a b c (d ∷ e ∷ s) =
    let found = c ∷ replace_pair a b c s in
    let other = d ∷ replace_pair a b c (e ∷ s) in if d == a && e == b then found else other

pub replace_char-Lacks : (a b : ℕ) (s : Text) → b ≢ a → Lacks a (replace_char a b s)
unfolding replace_char
replace_char-Lacks a b [] h = tt
replace_char-Lacks a b (c ∷ s) h = (ground arith, replace_char-Lacks a b s h)

pub replace_pair-Lacks :
    (a b c d : ℕ) (s : Text) → c ≢ d → Lacks d s → Lacks d (replace_pair a b c s)
unfolding replace_pair
replace_pair-Lacks a b c d [] h k = tt
replace_pair-Lacks a b c d (x ∷ []) h k = k
replace_pair-Lacks a b c d (x ∷ y ∷ s) h k =
    ground (arith, replace_pair-Lacks a b c d s h k.1.1, replace_pair-Lacks a b c d (y ∷ s) h k.1)

-- strings.ToLower(s): the case of a code point outside of ASCII is Unicode's table, a parameter.
unfoldable pub to_lower : (ℕ → ℕ) → Text → Text
to_lower lower =
    map (λ c. if ltb c 128 then (if leb b'A' c && leb c b'Z' then c + 32 else c) else lower c)
