-- ===== src/Ost/Paths.antt =====
-- `sanitize` and `blockPath` of pkg/ost/service.go.
pub mod Distinct
pub mod Below
use kube_pfs.Base.{ℕ, List, [], ◌∷◌, ◌++◌, if◌then◌else◌}
use kube_pfs.Proto.Storage.{BlockRef}
use kube_pfs.Text.{Text, codes, text_eq}
use kube_pfs.Text.Decimal.{decimal}
use kube_pfs.Text.Edit.{trim_space, replace_char, replace_pair}
use kube_pfs.Text.Path.{join_path, slash}

unfoldable pub sanitize : Text → Text
sanitize s =
    let t = replace_pair b'.' b'.' b'_' (replace_char slash b'_' (trim_space s)) in
    if text_eq t [] then codes "unknown" else t

-- chunkID + ".blk"
abbrev pub block_file : ℕ → Text
block_file chunk = decimal chunk ++ codes ".blk"

unfoldable pub block_path : Text → BlockRef → Text
block_path data_dir ref = join_path data_dir (sanitize ref.file_id) (block_file ref.chunk_id)
