-- ===== src/Text/Path.antt =====
-- filepath.Clean and filepath.Join on Unix: a path is taken apart at "/", the parts "." and ".."
-- are resolved, and what is left is joined.
pub mod Parts
use kube_pfs.Base.{
  ℕ, ◌≡◌, ◌≢◌, ◌∙◌, refl, sym, ap, Bool, true, false, ◌&&◌, ◌||◌, List, [], ◌∷◌, ◌++◌, append-nil,
  append_assoc, arith, ◌==◌, if◌then◌else◌, All, inl, inr, Bool-cases,
}
use mathlib.Core.List.{reverse, foldl}
use kube_pfs.Text.Equality.{Text, codes, text_eq, text_eq_iff}
use kube_pfs.Text.Search.{Lacks}

abbrev pub slash : ℕ
slash = b'/'

-- The text before the first part of a split: a character joins the first part.
abbrev pub onto : ℕ → List Text → List Text
onto c [] = (c ∷ []) ∷ []
onto c (p ∷ ps) = (c ∷ p) ∷ ps

-- strings.Split(s, "/")
unfoldable pub split : Text → List Text
split [] = [] ∷ []
split (c ∷ s) = let rest = split s in if c == slash then [] ∷ rest else onto c rest

-- strings.Join(parts, "/")
unfoldable pub join : List Text → Text
join [] = []
join (p ∷ []) = p
join (p ∷ q ∷ ps) = p ++ slash ∷ join (q ∷ ps)

abbrev pub dot : Text
dot = b'.' ∷ []

abbrev pub dot_dot : Text
dot_dot = b'.' ∷ b'.' ∷ []

-- The part ".." behind the parts that are left so far, the last one first.
abbrev pub up : Bool → List Text → List Text
up true [] = []
up false [] = dot_dot ∷ []
up rooted (p ∷ stack) = if text_eq p dot_dot then dot_dot ∷ p ∷ stack else stack

-- One more part.
unfoldable pub enter : Bool → List Text → Text → List Text
enter rooted stack p =
    if text_eq p [] || text_eq p dot
    then stack
    else if text_eq p dot_dot
    then up rooted stack
    else p ∷ stack

unfoldable pub resolve : Bool → List Text → List Text → List Text
unfolding enter
resolve rooted stack [] = stack
resolve rooted stack (p ∷ ps) = resolve rooted (enter rooted stack p) ps

abbrev pub is_rooted : Text → Bool
is_rooted [] = false
is_rooted (c ∷ s) = c == slash

-- The text of a path that is resolved.
unfoldable pub render : Bool → List Text → Text
unfolding join
render true stack = slash ∷ join (reverse stack)
render false [] = dot
render false (p ∷ stack) = join (reverse (p ∷ stack))

-- filepath.Clean(s)
unfoldable pub clean : Text → Text
unfolding split resolve render
clean s = render (is_rooted s) (resolve (is_rooted s) [] (split s))

-- filepath.Join(a, b, c), for an `a` that is not empty
unfoldable pub join_path : Text → Text → Text → Text
unfolding clean
join_path a b c = clean (a ++ slash ∷ b ++ slash ∷ c)

split-ne-nil : (s : Text) → split s ≢ []
unfolding split
split-ne-nil [] h = cc
split-ne-nil (c ∷ s) h = ground arith

pub onto-append : (c : ℕ) (ps qs : List Text) → ps ≢ [] → onto c (ps ++ qs) ≡ onto c ps ++ qs
onto-append c [] qs h = absurd (h refl)
onto-append c (p ∷ ps) qs h = refl

pub split-append : (s t : Text) → split (s ++ slash ∷ t) ≡ split s ++ split t
unfolding split
split-append [] t = refl
split-append (c ∷ s) t =
    ground (arith, split-append s t, onto-append c (split s) (split t) (split-ne-nil s))

pub split-Lacks : (s : Text) → Lacks slash s → split s ≡ s ∷ []
unfolding split
split-Lacks [] h = refl
split-Lacks (c ∷ s) h = ground (arith, split-Lacks s h.1)

pub split-join :
    (p : Text) (ps : List Text) → All (Lacks slash) (p ∷ ps) → split (join (p ∷ ps)) ≡ p ∷ ps
unfolding join
split-join p [] h = split-Lacks p h.0
split-join p (q ∷ ps) h =
    rw (split-append p (join (q ∷ ps)), split-Lacks p h.0, split-join q ps h.1)

pub resolve-append :
    (rooted : Bool) (stack ps qs : List Text)
    → resolve rooted stack (ps ++ qs) ≡ resolve rooted (resolve rooted stack ps) qs
unfolding resolve
resolve-append rooted stack [] qs = refl
resolve-append rooted stack (p ∷ ps) qs = resolve-append rooted (enter rooted stack p) ps qs

-- path[:i + 1] for the last slash at i
unfoldable pub up_to_slash : Text → Text
up_to_slash [] = []
up_to_slash (c ∷ s) =
    let rest = up_to_slash s in
    if text_eq rest [] then (if c == slash then c ∷ [] else []) else c ∷ rest

-- filepath.Dir(path)
unfoldable pub dir : Text → Text
unfolding clean up_to_slash
dir path = clean (up_to_slash path)
