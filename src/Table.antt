-- ===== src/Table.antt =====
-- Go's `map[string]V` as an association list with at most one entry for a key. A range over a map
-- visits the entries in an order that Go leaves open: here it is the order of the list.
use kube_pfs.Base.{
  Bool, true, false, ◌≡◌, refl, Option, none, some, List, [], ◌∷◌, arith, if◌then◌else◌,
}
use kube_pfs.Text.{Text, text_eq, text_eq_iff, text_eq_refl}

abbrev pub Table {ℓ} : Type ℓ → Type ℓ
Table V = List (Text × V)

module _ {ℓ} {V : Type ℓ} where
  -- v, ok := m[k]
  unfoldable pub lookup : Text → Table V → Option V
  lookup k [] = none
  lookup k ((j, v) ∷ m) = if text_eq j k then some v else lookup k m

  -- _, ok := m[k]
  abbrev pub has : Text → Table V → Bool
  has k m = elim (lookup k m) [ none ↦ false | some _ ↦ true ]

  -- m[k] = v
  unfoldable pub insert : Text → V → Table V → Table V
  insert k v [] = (k, v) ∷ []
  insert k v ((j, w) ∷ m) = if text_eq j k then (j, v) ∷ m else (j, w) ∷ insert k v m

  -- delete(m, k)
  unfoldable pub delete : Text → Table V → Table V
  delete k [] = []
  delete k ((j, v) ∷ m) = let rest = delete k m in if text_eq j k then rest else (j, v) ∷ rest

  pub lookup-insert :
      (j k : Text) (v : V) (m : Table V)
      → lookup j (insert k v m) ≡ (if text_eq k j then some v else lookup j m)
  unfolding lookup insert
  lookup-insert j k v [] = refl
  lookup-insert j k v ((i, w) ∷ m) =
      ground (arith, text_eq_iff k j, text_eq_iff i k, text_eq_iff i j, lookup-insert j k v m)

  pub lookup-delete :
      (j k : Text) (m : Table V)
      → lookup j (delete k m) ≡ (if text_eq k j then none else lookup j m)
  unfolding lookup delete
  lookup-delete j k [] = ground arith
  lookup-delete j k ((i, w) ∷ m) =
      ground (arith, text_eq_iff k j, text_eq_iff i k, text_eq_iff i j, lookup-delete j k m)

pub ruleset table_laws = (lookup-insert, lookup-delete)

module _ {ℓ} {V : Type ℓ} where
  -- Every key stands once.
  abbrev pub HasUniqueKeys : Table V → Type ℓ
  HasUniqueKeys [] = Unit
  HasUniqueKeys ((k, v) ∷ m) = (lookup k m ≡ none) × HasUniqueKeys m

  -- The keys, as a range over the map visits them.
  abbrev pub keys : Table V → List Text
  keys [] = []
  keys ((k, v) ∷ m) = k ∷ keys m

  pub insert-HasUniqueKeys :
      (k : Text) (v : V) (m : Table V) → HasUniqueKeys m → HasUniqueKeys (insert k v m)
  unfolding lookup insert
  insert-HasUniqueKeys k v [] h = (refl, tt)
  insert-HasUniqueKeys k v ((j, w) ∷ m) h = ground (
    arith,
    insert-HasUniqueKeys k v m h.1,
    lookup-insert j k v m,
    text_eq_iff j k,
    text_eq_iff k j,
  )

  pub delete-HasUniqueKeys : (k : Text) (m : Table V) → HasUniqueKeys m → HasUniqueKeys (delete k m)
  unfolding delete
  delete-HasUniqueKeys k [] h = tt
  delete-HasUniqueKeys k ((j, v) ∷ m) h =
      ground (arith, delete-HasUniqueKeys k m h.1, lookup-delete j k m)

  -- A map without a key is empty.
  pub empty_of_none : (m : Table V) → ((k : Text) → lookup k m ≡ none) → m ≡ []
  unfolding lookup
  empty_of_none [] h = refl
  empty_of_none ((k, v) ∷ m) h = absurd (ground (arith, h k, text_eq_refl k))
