-- ===== src/Cmd/Flags/Spelled.antt =====
-- Arguments of a program that are written "--name value", as `Parse` of package flag reads them.
use kube_pfs.Base.{◌≡◌, ◌≢◌, refl, true, none, List, [], ◌∷◌, done, arith, All}
use kube_pfs.Cmd.Flags.{FlagSet, Settings, named, argument, is_one_of, parse}
use kube_pfs.Text.{Text}
use kube_pfs.Text.Search.{Lacks, split_two}

-- The arguments that set these flags, one behind the other: "--name" and "value".
abbrev pub spelled_out : Settings → List Text
spelled_out [] = []
spelled_out ((name, value) ∷ settings) = (b'-' ∷ b'-' ∷ name) ∷ value ∷ spelled_out settings

-- A name that is no name of a flag with dashes or a value in it.
abbrev pub IsFlagName : Text → Type 0
IsFlagName [] = ⊥
IsFlagName (c ∷ s) = (c ≢ b'-') × (c ≢ b'=') × Lacks b'=' s

-- A setting that the flag set accepts.
abbrev pub IsDefined : FlagSet → (Text × Text) → Type 0
IsDefined flags (name, value) =
    IsFlagName name × (is_one_of name flags.formal ≡ true) × (flags.refuses name value ≡ none)

split_two-none : (s : Text) → Lacks b'=' s → split_two b'=' s ≡ none
unfolding split_two
split_two-none [] h = refl
split_two-none (c ∷ s) h = ground (arith, split_two-none s h.1)

argument_dashed : (name : Text) → IsFlagName name → argument (b'-' ∷ b'-' ∷ name) ≡ named name none
unfolding argument
argument_dashed [] h = elim h [ ]
argument_dashed (c ∷ s) h = ground (arith, split_two-none s h.2)

pub parsed_flag :
    (flags : FlagSet) (name value : Text) (settings : Settings)
    → IsDefined flags (name, value)
    → parse flags (spelled_out settings) ≡ done settings
    → parse flags (spelled_out ((name, value) ∷ settings)) ≡ done ((name, value) ∷ settings)
unfolding parse
parsed_flag flags name value settings h more =
    ground (arith, argument_dashed name h.0, h.1, h.2, more)

-- Parse answers the flags as they stand.
pub parse-spelled_out :
    (flags : FlagSet) (settings : Settings)
    → All (IsDefined flags) settings
    → parse flags (spelled_out settings) ≡ done settings
unfolding parse
parse-spelled_out flags [] h = refl
parse-spelled_out flags ((name, value) ∷ settings) h =
    parsed_flag flags name value settings h.0 (parse-spelled_out flags settings h.1)
