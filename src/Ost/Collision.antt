-- ===== src/Ost/Collision.antt =====
-- File ids that `sanitize` of pkg/ost/service.go takes to one text.
use kube_pfs.Base.{◌≡◌, ◌∙◌, refl, sym, ap, ◌∷◌, ◌++◌, ℕ}
use kube_pfs.FileSystem.{FileSystem}
use kube_pfs.Ost.Blocks.{
  write_request, read_request, section, read_block-answer, read_block-write_block,
}
use kube_pfs.Ost.Handlers.{Service, Elapsed, write_block, read_block}
use kube_pfs.Ost.Paths.{sanitize, block_path}
use kube_pfs.Proto.Storage.{BlockRef, WriteBlockResponse}
use kube_pfs.Status.{ok}
use kube_pfs.Text.{Text}
use kube_pfs.Text.Edit.{is_space, replace_char, trim_left, trim_right}
use kube_pfs.Text.Edit.Trim.{trim_space-append, replace_char-append}
use kube_pfs.Text.Path.{slash}

sanitize_collision : (x y : Text) → sanitize (x ++ slash ∷ y) ≡ sanitize (x ++ b'_' ∷ y)
unfolding sanitize is_space
sanitize_collision x y =
    let replaced =
      ap (replace_char slash b'_') (trim_space-append slash refl x y)
      ∙ replace_char-append slash b'_' (trim_left x) (trim_right y)
      ∙ sym (ap (replace_char slash b'_') (trim_space-append b'_' refl x y)) in
    rw replaced

module _ (files : FileSystem) (s : Service files.Fs) (x y : Text) (chunk : ℕ) (ost : Text) where
  abbrev slashed : BlockRef
  slashed = record { file_id = x ++ slash ∷ y; chunk_id = chunk; ost_id = ost }

  abbrev underscored : BlockRef
  underscored = record { file_id = x ++ b'_' ∷ y; chunk_id = chunk; ost_id = ost }

  same_path : (d : Text) → block_path d slashed ≡ block_path d underscored
  unfolding block_path
  same_path d = rw sanitize_collision

  -- A file id with a slash and the file id with an underscore in the slash's place share their
  -- blocks: bytes that are written to a chunk of the one are read from that chunk of the other.
  pub read_block-write_block_collision :
      (elapsed later : Elapsed) (b : Text) (offset len : ℕ) (resp : WriteBlockResponse)
      → (write_block files elapsed (write_request underscored b) s).0 ≡ ok resp
      → (read_block files later
          (read_request slashed offset len)
          (write_block files elapsed (write_request underscored b) s).1).0
        ≡ ok (record { payload = section offset len b })
  read_block-write_block_collision elapsed later b offset len resp h =
      let t = (write_block files elapsed (write_request underscored b) s).1 in
      read_block-answer files t slashed later offset len
      ∙ (rw (same_path t.data_dir))
      ∙ sym (read_block-answer files t underscored later offset len)
      ∙ (read_block-write_block files s underscored elapsed b later offset len resp h).0
