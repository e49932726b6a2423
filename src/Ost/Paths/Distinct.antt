-- ===== src/Ost/Paths/Distinct.antt =====
-- The parts of the paths that `blockPath` of pkg/ost/service.go gives to blocks.
use mathlib.Core.List.{append_cancel_right}
use kube_pfs.Base.{
  ℕ, ◌≡◌, ◌≢◌, ◌∙◌, ◌⊎◌, inl, inr, refl, sym, ap, Bool, false, List, [], ◌∷◌, ◌++◌, arith,
  if◌then◌else◌, All, All-append, append_assoc, length, Bool-cases,
}
use kube_pfs.Ost.Paths.{sanitize, block_file, block_path}
use kube_pfs.FileSystem.{AreApart, StaysBelow}
use kube_pfs.Proto.Storage.{BlockRef}
use kube_pfs.Text.{Text, codes, text_eq, text_eq_iff}
use kube_pfs.Text.Decimal.{decimal, decimal_injective, decimal-IsDigit, IsDigit}
use kube_pfs.Text.Edit.{
  trim_space, replace_char, replace_pair, replace_char-Lacks, replace_pair-Lacks,
}
use kube_pfs.Text.Path.{
  slash, dot, dot_dot, split, enter, resolve, render, is_rooted, clean, join_path, split-append,
  split-Lacks, resolve-append,
}
use kube_pfs.Text.Path.Parts.{NoSlash, NoSlash-if, split-NoSlash, resolve-NoSlash, render_injective}
use kube_pfs.Text.Search.{Lacks}

cons-eq_head : {p q : Text} {ps qs : List Text} → p ∷ ps ≡ q ∷ qs → p ≡ q
cons-eq_head e = cc

cons-eq_tail : {p q : Text} {ps qs : List Text} → p ∷ ps ≡ q ∷ qs → ps ≡ qs
cons-eq_tail e = cc

-- A file name that stands for itself in a path.
pub record IsName (p : Text) : Type 0 where
  pub nonempty : text_eq p [] ≡ false
  pub not_up : text_eq p dot_dot ≡ false
  pub one_part : Lacks slash p

replace_pair_head :
    (e : ℕ) (s : Text) → e ≢ b'.' → text_eq (replace_pair b'.' b'.' b'_' (e ∷ s)) dot ≡ false
unfolding replace_pair text_eq
replace_pair_head e [] h = ground arith
replace_pair_head e (f ∷ s) h = ground arith

replace_pair-ne-dot_dot : (s : Text) → text_eq (replace_pair b'.' b'.' b'_' s) dot_dot ≡ false
unfolding replace_pair text_eq
replace_pair-ne-dot_dot [] = refl
replace_pair-ne-dot_dot (d ∷ []) = ground arith
replace_pair-ne-dot_dot (d ∷ e ∷ s) = ground (arith, replace_pair_head e s)

replaced-Lacks :
    (s : Text) → Lacks slash (replace_pair b'.' b'.' b'_' (replace_char slash b'_' (trim_space s)))
replaced-Lacks s =
    replace_pair-Lacks b'.' b'.' b'_' slash _ (omega arith)
      (replace_char-Lacks slash b'_' (trim_space s) (omega arith))

pub sanitize-IsName : (s : Text) → IsName (sanitize s)
unfolding sanitize text_eq
sanitize-IsName s =
    let t = replace_pair b'.' b'.' b'_' (replace_char slash b'_' (trim_space s)) in
    elim (Bool-cases (text_eq t [])) [
      | inl e ↦ rw e (record { nonempty = refl; not_up = refl; one_part = (omega arith) })
      | inr e ↦
          rw e (record {
            nonempty = e;
            not_up = replace_pair-ne-dot_dot _;
            one_part = replaced-Lacks s;
          })
    ]

decimal-Lacks : (s : Text) → All IsDigit s → Lacks slash s
decimal-Lacks [] h = tt
decimal-Lacks (c ∷ s) h = (omega arith, decimal-Lacks s h.1)

block_file-Lacks : (chunk : ℕ) → Lacks slash (block_file chunk)
block_file-Lacks chunk =
    All-append (λ d. d ≢ slash) (decimal chunk) (codes ".blk")
      (decimal-Lacks (decimal chunk) (decimal-IsDigit chunk)) (omega arith)

-- A text that ends in ".blk" is no special part.
long-ne :
    (s : Text)
    → (text_eq (s ++ codes ".blk") [] ≡ false)
      × (text_eq (s ++ codes ".blk") dot ≡ false)
      × (text_eq (s ++ codes ".blk") dot_dot ≡ false)
unfolding text_eq
long-ne [] = (refl, refl, refl)
long-ne (c ∷ []) = (ground arith, ground arith, ground arith)
long-ne (c ∷ d ∷ s) = (ground arith, ground arith, ground (arith, (long-ne s).0))

rooted-append_of :
    (a b c : Text) → is_rooted ((a ++ slash ∷ b) ++ slash ∷ c) ≡ is_rooted (a ++ slash ∷ [])
rooted-append_of [] b c = refl
rooted-append_of (x ∷ a) b c = refl

-- The parts that are left of a data directory.
module _ (data_dir : Text) where
  abbrev pub rooted : Bool
  rooted = is_rooted (data_dir ++ slash ∷ [])

  unfoldable pub base : List Text
  base = resolve rooted [] (split data_dir)

  -- The directory of a file id: "." is the data directory itself.
  abbrev pub file_dir : Text → List Text
  file_dir f = if text_eq f dot then base else f ∷ base

  rooted-append : (b c : Text) → is_rooted ((data_dir ++ slash ∷ b) ++ slash ∷ c) ≡ rooted
  rooted-append = rooted-append_of data_dir

  enter_both :
      (f b : Text)
      → IsName f
      → (text_eq b [] ≡ false) × (text_eq b dot ≡ false) × (text_eq b dot_dot ≡ false)
      → enter rooted (enter rooted base f) b ≡ b ∷ file_dir f
  unfolding enter
  enter_both f b name plain = ground (arith, name.nonempty, name.not_up, plain)

  pub block_path-render :
      (ref : BlockRef)
      → block_path data_dir ref
        ≡ render rooted (block_file ref.chunk_id ∷ file_dir (sanitize ref.file_id))
  unfolding block_path join_path clean base
  block_path-render ref =
      let fid = sanitize ref.file_id in
      let blk = block_file ref.chunk_id in
      let name = sanitize-IsName ref.file_id in
      let plain = long-ne (decimal ref.chunk_id) in
      let parts : split ((data_dir ++ slash ∷ fid) ++ slash ∷ blk)
          ≡ (split data_dir ++ fid ∷ []) ++ blk ∷ [] =
        rw (
          split-append (data_dir ++ slash ∷ fid) blk,
          split-append data_dir fid,
          split-Lacks fid name.one_part,
          split-Lacks blk (block_file-Lacks ref.chunk_id),
        ) in
      let entered : resolve rooted [] ((split data_dir ++ fid ∷ []) ++ blk ∷ [])
          ≡ blk ∷ file_dir fid =
        rw
          (
            resolve-append rooted [] (split data_dir ++ fid ∷ []) (blk ∷ []),
            resolve-append rooted [] (split data_dir) (fid ∷ []),
          )
          (enter_both fid blk name plain) in
      rw (parts, rooted-append fid blk, entered)

  base-NoSlash : NoSlash base
  unfolding base
  base-NoSlash = resolve-NoSlash rooted [] (split data_dir) tt (split-NoSlash data_dir)

  file-NoSlash :
      (ref : BlockRef) → NoSlash (block_file ref.chunk_id ∷ file_dir (sanitize ref.file_id))
  file-NoSlash ref = (
    block_file-Lacks ref.chunk_id,
    NoSlash-if (text_eq (sanitize ref.file_id) dot) base (sanitize ref.file_id ∷ base) base-NoSlash
        ((sanitize-IsName ref.file_id).one_part, base-NoSlash),
  )

  file_dir_injective : (f g : Text) → file_dir f ≡ file_dir g → f ≡ g
  file_dir_injective f g e = ground (arith, ap length e, text_eq_iff f dot, text_eq_iff g dot)

-- Blocks with different sanitized file ids, or with different chunks, have different paths.
pub block_path_apart :
    (data_dir : Text) (ref ref' : BlockRef)
    → (sanitize ref.file_id ≢ sanitize ref'.file_id) ⊎ (ref.chunk_id ≢ ref'.chunk_id)
    → block_path data_dir ref ≢ block_path data_dir ref'
block_path_apart data_dir ref ref' apart e =
    let parts =
      render_injective (rooted data_dir) (block_file ref.chunk_id) (block_file ref'.chunk_id)
        (file_dir data_dir (sanitize ref.file_id)) (file_dir data_dir (sanitize ref'.file_id))
        (file-NoSlash data_dir ref) (file-NoSlash data_dir ref')
        (sym (block_path-render data_dir ref) ∙ e ∙ block_path-render data_dir ref') in
    let same_file = file_dir_injective data_dir _ _ (cons-eq_tail parts) in
    let same_chunk = decimal_injective ref.chunk_id ref'.chunk_id (
      append_cancel_right (decimal ref.chunk_id) (decimal ref'.chunk_id) (codes ".blk")
        (cons-eq_head parts)) in
    elim apart [ inl h ↦ h same_file | inr h ↦ h same_chunk ]

-- What a block's path has behind the data directory.
below : BlockRef → Text
below ref = sanitize ref.file_id ++ slash ∷ block_file ref.chunk_id

below-StaysBelow : (ref : BlockRef) → StaysBelow (below ref)
unfolding below
below-StaysBelow ref =
    let name = sanitize-IsName ref.file_id in
    let parts : split (below ref) ≡ sanitize ref.file_id ∷ block_file ref.chunk_id ∷ [] =
      rw
        (
          split-append (sanitize ref.file_id) (block_file ref.chunk_id),
          split-Lacks (sanitize ref.file_id) name.one_part,
          split-Lacks (block_file ref.chunk_id) (block_file-Lacks ref.chunk_id),
        )
        refl in
    rw parts (
      λ e. ground (arith, name.not_up, text_eq_iff (sanitize ref.file_id) dot_dot, e),
      (
        λ e. ground (
          arith,
          (long-ne (decimal ref.chunk_id)).2,
          text_eq_iff (block_file ref.chunk_id) dot_dot,
          e,
        ),
        tt,
      ),
    )

block_path-clean :
    (data_dir : Text) (ref : BlockRef)
    → block_path data_dir ref ≡ clean (data_dir ++ slash ∷ below ref)
unfolding block_path join_path below
block_path-clean data_dir ref =
    ap clean
      (append_assoc data_dir (slash ∷ sanitize ref.file_id) (slash ∷ block_file ref.chunk_id))

pub block_path-AreApart :
    (data_dir : Text) (ref ref' : BlockRef)
    → (sanitize ref.file_id ≢ sanitize ref'.file_id) ⊎ (ref.chunk_id ≢ ref'.chunk_id)
    → AreApart (block_path data_dir ref) (block_path data_dir ref')
block_path-AreApart data_dir ref ref' apart = (
  block_path_apart data_dir ref ref' apart,
  (
    data_dir,
    below ref,
    below ref',
    block_path-clean data_dir ref,
    block_path-clean data_dir ref',
    below-StaysBelow ref,
    below-StaysBelow ref',
  ),
)
