-- ===== src/Tests/Overlap.antt =====
-- A write of one block, and steps of other calls between its own.
use kube_pfs.Base.{◌≡◌, ◌≢◌, refl, List, [], ◌∷◌, All, arith, length, inr}
use kube_pfs.Ost.Blocks.{read_request, section}
use kube_pfs.Ost.Handlers.{Service, read_block}
use kube_pfs.Ost.Overlap.{
  begun, makes_dir, writes_file, removes_file, observes, Turn, own, other, turns, step, act,
}
use kube_pfs.Ost.Overlap.Written.{IsApart, read_block-turns}
use kube_pfs.Status.{ok}
use kube_pfs.Tests.Instances.{disk, Files}
use kube_pfs.Tests.Ost.{start, elapsed, chunk, payload}
use kube_pfs.Text.{codes}

abbrev list : List Turn
list =
    own
    ∷ other (makes_dir (chunk 1))
    ∷ own
    ∷ other (writes_file (chunk 1) (codes "world"))
    ∷ own
    ∷ other (observes (codes "write") 5 elapsed)
    ∷ other (removes_file (chunk 1))
    ∷ []

abbrev done_there : Service Files
done_there = (turns disk (chunk 0) payload elapsed list begun start).1

list-IsApart : All (IsApart disk (chunk 0) payload elapsed) list
list-IsApart =
    let apart : (chunk 1).chunk_id ≢ (chunk 0).chunk_id = λ e. ground (arith, e) in
    (tt, (tt, (tt, (inr apart, (tt, (tt, (inr apart, tt)))))))

read_block-turns_example :
    ((read_block disk elapsed (read_request (chunk 0) 1 3) done_there).0
      ≡ ok (record { payload = section 1 3 payload }))
    × (5 ≡ length payload)
unfolding turns step act
read_block-turns_example =
    read_block-turns disk (chunk 0) payload elapsed list start done_there
      (record { bytes_written = 5 }) elapsed 1 3 list-IsApart refl
