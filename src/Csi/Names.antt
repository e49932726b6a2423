-- ===== src/Csi/Names.antt =====
-- Names that `sanitizeName` of pkg/csi/service.go takes to one text.
use kube_pfs.Base.{ℕ, ◌≡◌, ◌∙◌, refl, sym, ap, false, [], ◌∷◌, ◌++◌, arith}
use kube_pfs.Csi.Controller.{create_volume}
use kube_pfs.Csi.Messages.{Volume, CreateVolumeRequest}
use kube_pfs.Csi.State.{Service, sanitize_name}
use kube_pfs.Status.{ok}
use kube_pfs.Text.{Text, codes, text_eq}
use kube_pfs.Text.Edit.{trim_space, is_space, replace_char, to_lower, trim_left, trim_right}
use kube_pfs.Text.Edit.Trim.{trim_space-append}
use kube_pfs.Csi.Volumes.{create_volume-lookup, create_volume_there}

-- What is done to a name behind the second trimming.
replaced : (ℕ → ℕ) → Text → Text
replaced lower t =
    replace_char b'_' b'-' (replace_char b'/' b'-' (replace_char b' ' b'-' (to_lower lower t)))

replaced-append :
    (lower : ℕ → ℕ) (x y : Text) → replaced lower (x ++ b'/' ∷ y) ≡ replaced lower (x ++ b'_' ∷ y)
unfolding replaced replace_char to_lower
replaced-append lower [] y = refl
replaced-append lower (c ∷ x) y = ground (arith, replaced-append lower x y)

sanitize_name_collision :
    (lower : ℕ → ℕ) (x y : Text)
    → sanitize_name lower (trim_space (x ++ b'/' ∷ y))
      ≡ sanitize_name lower (trim_space (x ++ b'_' ∷ y))
unfolding sanitize_name replaced is_space
sanitize_name_collision lower x y =
    let twice : (c : ℕ)
        → is_space c ≡ false
        → trim_space (trim_space (x ++ c ∷ y))
          ≡ trim_left (trim_left x) ++ c ∷ trim_right (trim_right y) =
      λ c solid.
        ap trim_space (trim_space-append c solid x y)
        ∙ trim_space-append c solid (trim_left x) (trim_right y) in
    let same =
      ap (replaced lower) (twice b'/' refl)
      ∙ replaced-append lower (trim_left (trim_left x)) (trim_right (trim_right y))
      ∙ sym (ap (replaced lower) (twice b'_' refl)) in
    rw same

not_empty : (c : ℕ) (x y : Text) → text_eq (x ++ c ∷ y) [] ≡ false
unfolding text_eq
not_empty c [] y = refl
not_empty c (d ∷ x) y = refl

-- Two names that differ only in a slash and an underscore share a volume: after CreateVolume of the
-- one, CreateVolume of the other answers the same volume.
pub create_volume_collision :
    {Fs : Type 0} (lower : ℕ → ℕ) (first second : CreateVolumeRequest) (s : Service Fs) (v : Volume)
    (x y : Text)
    → first.name ≡ x ++ b'/' ∷ y
    → second.name ≡ x ++ b'_' ∷ y
    → (create_volume lower first s).0 ≡ ok v
    → (create_volume lower second (create_volume lower first s).1).0 ≡ ok v
unfolding is_space
create_volume_collision lower first second s v x y n m h =
    let plain =
      ap (λ t. text_eq t []) (ap trim_space m ∙ trim_space-append b'_' refl x y)
      ∙ not_empty b'_' (trim_left x) (trim_right y) in
    let same_id =
      ap (λ t. codes "kube-pfs-" ++ t)
        (ap (λ t. sanitize_name lower (trim_space t)) m
          ∙ sym (sanitize_name_collision lower x y)
          ∙ sym (ap (λ t. sanitize_name lower (trim_space t)) n)) in
    let there = (create_volume-lookup lower first s v h).0 in
    ap (λ p. p.0)
      (create_volume_there lower second (create_volume lower first s).1 v plain (rw same_id there))
