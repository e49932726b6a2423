-- ===== src/Ost/Paths/Below.antt =====
-- The paths of `blockPath` of pkg/ost/service.go relative to the data directory.
use kube_pfs.Base.{◌≡◌, ◌⊎◌, inl, inr, refl, false, List, [], ◌∷◌, Bool-cases, arith}
use kube_pfs.Ost.Paths.{sanitize, block_file, block_path}
use kube_pfs.Ost.Paths.Distinct.{IsName, sanitize-IsName, block_path-render, rooted, base}
use kube_pfs.Proto.Storage.{BlockRef}
use kube_pfs.Text.{Text, text_eq, text_eq_iff}
use kube_pfs.Text.Path.{dot, render, is_rooted, clean}

rooted_of : (data_dir : Text) → text_eq data_dir [] ≡ false → rooted data_dir ≡ is_rooted data_dir
unfolding text_eq
rooted_of [] h = absurd (ground arith)
rooted_of (c ∷ s) h = refl

-- The path of a block is the cleaned data directory with two more parts, the sanitized file id and
-- the file of the chunk, or with the latter only, when the sanitized id is a dot. The sanitized id
-- is not empty, is not "..", and has no slash. The data directory is not the empty text.
pub block_path-below :
    (data_dir : Text) (ref : BlockRef)
    → text_eq data_dir [] ≡ false
    → (parts : List Text) × (clean data_dir ≡ render (is_rooted data_dir) parts)
      × IsName (sanitize ref.file_id)
      × ((block_path data_dir ref
            ≡ render (is_rooted data_dir) (block_file ref.chunk_id ∷ sanitize ref.file_id ∷ parts))
          ⊎ ((sanitize ref.file_id ≡ dot)
              × (block_path data_dir ref
                  ≡ render (is_rooted data_dir) (block_file ref.chunk_id ∷ parts))))
unfolding clean base
block_path-below data_dir ref named =
    let same = rooted_of data_dir named in
    let path = block_path-render data_dir ref in
    (
      base data_dir,
      rw same refl,
      sanitize-IsName ref.file_id,
      elim (Bool-cases (text_eq (sanitize ref.file_id) dot)) [
        | inl e ↦ inr ((text_eq_iff (sanitize ref.file_id) dot).0 e, ground (arith, same, path, e))
        | inr e ↦ inl (ground (arith, same, path, e))
      ],
    )
