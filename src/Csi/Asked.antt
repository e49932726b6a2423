-- ===== src/Csi/Asked.antt =====
-- What a CreateVolume asks for: the id that its name stands for, and the capacity. Both are written
-- down here apart from `sanitizeName` and from `CreateVolume` of pkg/csi/service.go.
use kube_pfs.Base.{
  ℕ, zero, suc, ℤ, pos, negsuc, ◌+◌, ◌≡◌, refl, Bool, ◌&&◌, ◌||◌, Option, none, some, [], ◌∷◌, ◌++◌,
  ◌==◌, ltb, leb, map, arith, if◌then◌else◌,
}
use kube_pfs.Csi.Controller.{capacity_of, volume_id_of}
use kube_pfs.Csi.State.{sanitize_name}
use kube_pfs.Text.{Text, codes, text_eq}
use kube_pfs.Text.Edit.{trim_space, replace_char, to_lower}

-- The required bytes if they are positive, and a gibibyte if they are not or if none are given.
abbrev pub asked_capacity : Option ℤ → ℤ
asked_capacity (some (pos (suc n))) = pos (suc n)
asked_capacity (some (pos zero)) = pos 1073741824
asked_capacity (some (negsuc n)) = pos 1073741824
asked_capacity none = pos 1073741824

pub capacity_of-asked : (range : Option ℤ) → capacity_of range ≡ asked_capacity range
unfolding capacity_of
capacity_of-asked none = refl
capacity_of-asked (some (pos zero)) = refl
capacity_of-asked (some (pos (suc n))) = refl
capacity_of-asked (some (negsuc n)) = refl

module _ (lower : ℕ → ℕ) where
  -- A letter in lower case.
  abbrev pub small : ℕ → ℕ
  small c = if leb 65 c && leb c 90 then c + 32 else if ltb c 128 then c else lower c

  abbrev pub is_cut : ℕ → Bool
  is_cut c = c == b' ' || (c == b'/' || c == b'_')

  -- A character of an id: in lower case, and a dash for a space, a slash and an underscore.
  abbrev pub id_char : ℕ → ℕ
  id_char c = if is_cut (small c) then b'-' else small c

  abbrev pub or_vol : Text → Text
  or_vol t = if text_eq t [] then codes "vol" else t

  -- The id that a name stands for.
  unfoldable pub asked_id : Text → Text
  asked_id name = codes "kube-pfs-" ++ or_vol (map id_char (trim_space (trim_space name)))

  replaced-id_char :
      (t : Text)
      → replace_char b'_' b'-' (replace_char b'/' b'-' (replace_char b' ' b'-' (to_lower lower t)))
        ≡ map id_char t
  unfolding replace_char to_lower
  replaced-id_char [] = refl
  replaced-id_char (c ∷ t) = ground (arith, replaced-id_char t)

  pub volume_id_of-asked : (name : Text) → volume_id_of lower name ≡ asked_id name
  unfolding sanitize_name asked_id
  volume_id_of-asked name = rw (replaced-id_char (trim_space (trim_space name))) refl
