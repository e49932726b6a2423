-- ===== src/Text/Path/Parts.antt =====
-- The parts of a resolved path can be read off its text.
use mathlib.Core.List.{reverse, reverse-cons, reverse-reverse, concat-ne-nil}
use kube_pfs.Base.{
  ℕ, ◌≡◌, ◌≢◌, ◌∙◌, refl, sym, ap, Bool, true, false, ◌||◌, List, [], ◌∷◌, arith, ◌==◌,
  if◌then◌else◌, All, All-append, Bool-cases, inl, inr,
}
use kube_pfs.Text.Equality.{Text, text_eq}
use kube_pfs.Text.Path.{
  slash, dot, dot_dot, split, join, enter, resolve, render, split-join, onto, up,
}
use kube_pfs.Text.Search.{Lacks}

abbrev pub NoSlash : List Text → Type 0
NoSlash = All (Lacks slash)

onto-NoSlash : (c : ℕ) (ps : List Text) → c ≢ slash → NoSlash ps → NoSlash (onto c ps)
onto-NoSlash c [] h k = ((h, tt), tt)
onto-NoSlash c (p ∷ ps) h k = ((h, k.0), k.1)

pub split-NoSlash : (s : Text) → NoSlash (split s)
unfolding split
split-NoSlash [] = (tt, tt)
split-NoSlash (c ∷ s) = elim (Bool-cases (c == slash)) [
  | inl e ↦ rw e (tt, split-NoSlash s)
  | inr e ↦ rw e (onto-NoSlash c (split s) (ground arith) (split-NoSlash s))
]

pub NoSlash-if :
    (b : Bool) (ps qs : List Text) → NoSlash ps → NoSlash qs → NoSlash (if b then ps else qs)
NoSlash-if true ps qs h k = h
NoSlash-if false ps qs h k = k

up-NoSlash : (rooted : Bool) (stack : List Text) → NoSlash stack → NoSlash (up rooted stack)
up-NoSlash true [] h = tt
up-NoSlash false [] h = (omega arith, tt)
up-NoSlash true (p ∷ stack) h =
    NoSlash-if (text_eq p dot_dot) (dot_dot ∷ p ∷ stack) stack (omega arith, h) h.1
up-NoSlash false (p ∷ stack) h =
    NoSlash-if (text_eq p dot_dot) (dot_dot ∷ p ∷ stack) stack (omega arith, h) h.1

enter-NoSlash :
    (rooted : Bool) (stack : List Text) (p : Text)
    → NoSlash stack
    → Lacks slash p
    → NoSlash (enter rooted stack p)
unfolding enter
enter-NoSlash rooted stack p h k = NoSlash-if (text_eq p [] || text_eq p dot) stack _ h (
    NoSlash-if (text_eq p dot_dot) (up rooted stack) (p ∷ stack) (up-NoSlash rooted stack h) (k, h))

pub resolve-NoSlash :
    (rooted : Bool) (stack ps : List Text)
    → NoSlash stack
    → NoSlash ps
    → NoSlash (resolve rooted stack ps)
unfolding resolve
resolve-NoSlash rooted stack [] h k = h
resolve-NoSlash rooted stack (p ∷ ps) h k =
    resolve-NoSlash rooted (enter rooted stack p) ps (enter-NoSlash rooted stack p h k.0) k.1

reverse-NoSlash : (ps : List Text) → NoSlash ps → NoSlash (reverse ps)
reverse-NoSlash [] h = tt
reverse-NoSlash (p ∷ ps) h =
    rw (reverse-cons p ps)
      (All-append (Lacks slash) (reverse ps) (p ∷ []) (reverse-NoSlash ps h.1) (h.0, tt))

split-join_all : (ps : List Text) → ps ≢ [] → NoSlash ps → split (join ps) ≡ ps
split-join_all [] h k = absurd (h refl)
split-join_all (p ∷ ps) h k = split-join p ps k

split-join-reverse :
    (p : Text) (ps : List Text)
    → NoSlash (p ∷ ps)
    → split (join (reverse (p ∷ ps))) ≡ reverse (p ∷ ps)
split-join-reverse p ps h =
    split-join_all (reverse (p ∷ ps)) (rw (reverse-cons p ps) (concat-ne-nil p (reverse ps)))
      (reverse-NoSlash (p ∷ ps) h)

join-reverse_injective :
    (p q : Text) (ps qs : List Text)
    → NoSlash (p ∷ ps)
    → NoSlash (q ∷ qs)
    → join (reverse (p ∷ ps)) ≡ join (reverse (q ∷ qs))
    → p ∷ ps ≡ q ∷ qs
join-reverse_injective p q ps qs h k e =
    let turned : reverse (p ∷ ps) ≡ reverse (q ∷ qs) =
      sym (split-join-reverse p ps h) ∙ ap split e ∙ split-join-reverse q qs k in
    sym (reverse-reverse (p ∷ ps)) ∙ ap reverse turned ∙ reverse-reverse (q ∷ qs)

tail_of : Text → Text
tail_of [] = []
tail_of (c ∷ s) = s

pub render_injective :
    (rooted : Bool) (p q : Text) (ps qs : List Text)
    → NoSlash (p ∷ ps)
    → NoSlash (q ∷ qs)
    → render rooted (p ∷ ps) ≡ render rooted (q ∷ qs)
    → p ∷ ps ≡ q ∷ qs
unfolding render tail_of
render_injective true p q ps qs h k e = join-reverse_injective p q ps qs h k (ap tail_of e)
render_injective false p q ps qs h k e = join-reverse_injective p q ps qs h k e
