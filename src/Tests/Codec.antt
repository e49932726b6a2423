-- ===== src/Tests/Codec.antt =====
-- An encoding of inodes as lists of numbers, each text behind its length.
use kube_pfs.Base.{
  ℕ, zero, suc, ◌≡◌, refl, ap, Bool, true, false, Option, none, some, List, [], ◌∷◌, ◌++◌, Fallible,
  done, fail, arith, length, take, drop, ◌==◌,
}
use kube_pfs.Proto.Metadata.{Inode, StripeLayout}
use kube_pfs.Text.{Text, codes}

take-append : (t r : Text) → take (length t) (t ++ r) ≡ t
take-append [] r = refl
take-append (c ∷ t) r = ap (◌∷◌ c) (take-append t r)

drop-append : (t r : Text) → drop (length t) (t ++ r) ≡ r
drop-append [] r = refl
drop-append (c ∷ t) r = drop-append t r

-- In front of the rest.
abbrev put_text : Text → Text → Text
put_text t r = length t ∷ (t ++ r)

abbrev get_text : Text → Text × Text
get_text [] = ([], [])
get_text (n ∷ s) = (take n s, drop n s)

abbrev put_texts : List Text → Text
put_texts [] = []
put_texts (t ∷ ts) = put_text t (put_texts ts)

abbrev get_texts : ℕ → Text → List Text
get_texts zero s = []
get_texts (suc n) s = (get_text s).0 ∷ get_texts n (get_text s).1

get_texts-put_texts : (ts : List Text) → get_texts (length ts) (put_texts ts) ≡ ts
get_texts-put_texts [] = refl
get_texts-put_texts (t ∷ ts) =
    rw (take-append t (put_texts ts), drop-append t (put_texts ts), get_texts-put_texts ts)

abbrev put_bool : Bool → ℕ
put_bool true = 1
put_bool false = 0

abbrev put_layout : Option StripeLayout → Text
put_layout none = []
put_layout (some l) = l.stripe_size_bytes ∷ length l.ost_ids ∷ put_texts l.ost_ids

abbrev get_layout : Text → Option StripeLayout
get_layout (z ∷ n ∷ s) = some (record { stripe_size_bytes = z; ost_ids = get_texts n s })
get_layout _ = none

get_layout-put_layout : (l : Option StripeLayout) → get_layout (put_layout l) ≡ l
get_layout-put_layout none = refl
get_layout-put_layout (some l) = rw (get_texts-put_texts l.ost_ids)

abbrev pub encoding : Inode → Text
encoding i = put_text i.inode_id (
    put_text i.parent_inode_id (
      put_text i.name (
        put_bool i.is_dir
        ∷ i.size_bytes
        ∷ i.mode
        ∷ i.created_unix
        ∷ i.modified_unix
        ∷ put_layout i.stripe_layout)))

unfoldable pub marshal : Inode → Fallible Text
marshal i = done (encoding i)

abbrev with_texts : Text → Text → Text → Text → Fallible Inode
with_texts id parent name (b ∷ size ∷ mode ∷ c ∷ m ∷ s) = done (record {
  inode_id = id;
  parent_inode_id = parent;
  name = name;
  is_dir = b == 1;
  size_bytes = size;
  mode = mode;
  created_unix = c;
  modified_unix = m;
  stripe_layout = get_layout s;
})
with_texts id parent name _ = fail (codes "unexpected EOF")

unfoldable pub unmarshal : Text → Fallible Inode
unmarshal s =
    let (id, s₁) = get_text s in
    let (parent, s₂) = get_text s₁ in let (name, s₃) = get_text s₂ in with_texts id parent name s₃

bool-put_bool : (b : Bool) → (put_bool b == 1) ≡ b
bool-put_bool true = refl
bool-put_bool false = refl

unmarshal-encoding : (i : Inode) → unmarshal (encoding i) ≡ done i
unfolding unmarshal
unmarshal-encoding i = rw (
  take-append i.inode_id _,
  drop-append i.inode_id _,
  take-append i.parent_inode_id _,
  drop-append i.parent_inode_id _,
  take-append i.name _,
  drop-append i.name _,
  bool-put_bool i.is_dir,
  get_layout-put_layout i.stripe_layout,
)

pub unmarshal-marshal : (i : Inode) (v : Text) → marshal i ≡ done v → unmarshal v ≡ done i
unfolding marshal
unmarshal-marshal i v h = grind (arith, unmarshal-encoding i)
