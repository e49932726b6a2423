-- ===== src/Text/Order.antt =====
-- sort.Strings: the texts in the order of their bytes, which is the order of their code points.
use mathlib.Core.List.{Perm}
use mathlib.Core.List.Perm
use kube_pfs.Base.{
  ◌≡◌, refl, Bool, true, false, ◌||◌, ◌&&◌, List, [], ◌∷◌, arith, ◌==◌, if◌then◌else◌, All, inl,
  inr, Bool-cases, ltb,
}
use kube_pfs.Text.Equality.{Text}

-- s <= t
unfoldable pub text_leb : Text → Text → Bool
text_leb [] t = true
text_leb (c ∷ s) [] = false
text_leb (c ∷ s) (d ∷ t) = ltb c d || (c == d && text_leb s t)

text_leb_total : (s t : Text) → text_leb s t ≡ false → text_leb t s ≡ true
unfolding text_leb
text_leb_total [] t h = ground arith
text_leb_total (c ∷ s) [] h = refl
text_leb_total (c ∷ s) (d ∷ t) h = ground (arith, text_leb_total s t)

pub text_leb_refl : (s : Text) → text_leb s s ≡ true
unfolding text_leb
text_leb_refl [] = refl
text_leb_refl (c ∷ s) = ground (arith, text_leb_refl s)

pub text_leb_trans :
    (s t u : Text) → text_leb s t ≡ true → text_leb t u ≡ true → text_leb s u ≡ true
unfolding text_leb
text_leb_trans [] t u h k = refl
text_leb_trans (c ∷ s) [] u h k = ground arith
text_leb_trans (c ∷ s) (d ∷ t) [] h k = ground arith
text_leb_trans (c ∷ s) (d ∷ t) (e ∷ u) h k = ground (arith, text_leb_trans s t u)

text_leb_antisym : (s t : Text) → text_leb s t ≡ true → text_leb t s ≡ true → s ≡ t
unfolding text_leb
text_leb_antisym [] [] h k = refl
text_leb_antisym [] (d ∷ t) h k = ground arith
text_leb_antisym (c ∷ s) [] h k = ground arith
text_leb_antisym (c ∷ s) (d ∷ t) h k = ground (arith, text_leb_antisym s t)

place : Text → List Text → List Text
place s [] = s ∷ []
place s (t ∷ ts) = if text_leb s t then s ∷ t ∷ ts else t ∷ place s ts

-- The order of equal texts cannot be seen, so any sorting algorithm gives this list.
unfoldable pub sort_strings : List Text → List Text
unfolding place
sort_strings [] = []
sort_strings (s ∷ ts) = place s (sort_strings ts)

place-perm : (s : Text) (ts : List Text) → Perm (place s ts) (s ∷ ts)
unfolding place
place-perm s [] = Perm.refl (s ∷ [])
place-perm s (t ∷ ts) = elim (Bool-cases (text_leb s t)) [
  | inl e ↦ rw e (Perm.refl (s ∷ t ∷ ts))
  | inr e ↦ rw e (Perm.trans (Perm.cons t (place-perm s ts)) (Perm.swap s t ts))
]

-- Sorting only rearranges.
pub sort_strings-perm : (ts : List Text) → Perm (sort_strings ts) ts
unfolding sort_strings
sort_strings-perm [] = Perm.refl []
sort_strings-perm (s ∷ ts) =
    Perm.trans (place-perm s (sort_strings ts)) (Perm.cons s (sort_strings-perm ts))

-- Each text is at most every text behind it.
abbrev pub IsSorted : List Text → Type 0
IsSorted [] = Unit
IsSorted (s ∷ ts) = All (λ t. text_leb s t ≡ true) ts × IsSorted ts

All-leb_trans :
    (s t : Text) (ts : List Text)
    → text_leb s t ≡ true
    → All (λ u. text_leb t u ≡ true) ts
    → All (λ u. text_leb s u ≡ true) ts
All-leb_trans s t [] h a = tt
All-leb_trans s t (u ∷ ts) h a = (text_leb_trans s t u h a.0, All-leb_trans s t ts h a.1)

module _ {κ} (P : Text → Type κ) where
  All-place : (s : Text) (ts : List Text) → P s → All P ts → All P (place s ts)
  unfolding place
  All-place s [] h a = (h, tt)
  All-place s (t ∷ ts) h a = elim (Bool-cases (text_leb s t)) [
    | inl e ↦ rw e (h, a)
    | inr e ↦ rw e (a.0, All-place s ts h a.1)
  ]

  pub All-sort_strings : (ts : List Text) → All P ts → All P (sort_strings ts)
  unfolding sort_strings
  All-sort_strings [] a = tt
  All-sort_strings (s ∷ ts) a = All-place s (sort_strings ts) a.0 (All-sort_strings ts a.1)

place-IsSorted : (s : Text) (ts : List Text) → IsSorted ts → IsSorted (place s ts)
unfolding place
place-IsSorted s [] h = (tt, tt)
place-IsSorted s (t ∷ ts) h = elim (Bool-cases (text_leb s t)) [
  | inl e ↦ rw e ((e, All-leb_trans s t ts e h.0), h)
  | inr e ↦ rw e (
    All-place (λ u. text_leb t u ≡ true) s ts (text_leb_total s t e) h.0,
    place-IsSorted s ts h.1,
  )
]

pub sort_strings-IsSorted : (ts : List Text) → IsSorted (sort_strings ts)
unfolding sort_strings
sort_strings-IsSorted [] = tt
sort_strings-IsSorted (s ∷ ts) = place-IsSorted s (sort_strings ts) (sort_strings-IsSorted ts)

module _ {κ} (P : Text → Type κ) where
  place-All : (s : Text) (ts : List Text) → All P (place s ts) → P s × All P ts
  unfolding place
  place-All s [] a = (a.0, tt)
  place-All s (t ∷ ts) a = elim (Bool-cases (text_leb s t)) [
    | inl e ↦ let b = (rw e at a) in (b.0, b.1)
    | inr e ↦ let b = (rw e at a) in let (here, there) = place-All s ts b.1 in (here, (b.0, there))
  ]

  pub sort_strings-All : (ts : List Text) → All P (sort_strings ts) → All P ts
  unfolding sort_strings
  sort_strings-All [] a = tt
  sort_strings-All (s ∷ ts) a =
      let (here, there) = place-All s (sort_strings ts) a in (here, sort_strings-All ts there)
