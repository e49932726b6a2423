-- ===== src/Cmd/Flags.antt =====
-- What the programs use of package flag: `Parse` of a FlagSet that has no boolean flags, with
-- ContinueOnError. What it prints is left out.
pub mod Spelled
use kube_pfs.Base.{
  Bool, false, ◌||◌, Option, none, some, List, [], ◌∷◌, ◌++◌, Fallible, done, fail, ◌==◌,
  if◌then◌else◌,
}
use kube_pfs.Text.{Text, codes, text_eq}
use kube_pfs.Text.Search.{split_two}

-- The names of the flags, and what `Set` of a flag answers: `none` is a nil error; the text is that
-- of the error of Parse.
pub record FlagSet : Type 0 where
  pub formal : List Text
  pub refuses : Text → Text → Option Text

-- What an argument is: no flag, the argument that ends the flags, a flag that is spelled wrongly, or
-- a name with the value behind "=", if there is one.
pub data Argument : Type 0 where
  no_flag terminator wrong : Argument
  named : Text → Option Text → Argument

-- An argument without its dashes.
abbrev pub spelling : Text → Argument
spelling [] = wrong
spelling (c ∷ s) = if c == b'-' || c == b'=' then wrong else elim (split_two b'=' s) [
  | none ↦ named (c ∷ s) none
  | some (name, value) ↦ named (c ∷ name) (some value)
]

abbrev pub behind_two_dashes : Text → Argument
behind_two_dashes [] = terminator
behind_two_dashes (c ∷ s) = spelling (c ∷ s)

unfoldable pub argument : Text → Argument
argument [] = no_flag
argument (a ∷ []) = no_flag
argument (a ∷ b ∷ s) =
    if a == b'-' then (if b == b'-' then behind_two_dashes s else spelling (b ∷ s)) else no_flag

abbrev pub is_one_of : Text → List Text → Bool
is_one_of name [] = false
is_one_of name (n ∷ names) = text_eq name n || is_one_of name names

abbrev pub undefined : Text → Text
undefined name =
    if text_eq name (codes "help") || text_eq name (codes "h")
    then codes "flag: help requested"
    else codes "flag provided but not defined: -" ++ name

-- The flags that are set, in their order.
abbrev pub Settings : Type 0
Settings = List (Text × Text)

-- A flag with its value, and then the rest.
abbrev pub set_flag : FlagSet → Text → Text → Fallible Settings → Fallible Settings
set_flag flags name value rest =
    if is_one_of name flags.formal
    then elim (flags.refuses name value) [
      | some e ↦ fail e
      | none ↦ elim rest [ fail e ↦ fail e | done more ↦ done ((name, value) ∷ more) ]
    ]
    else fail (undefined name)

unfoldable pub parse : FlagSet → List Text → Fallible Settings
parse flags [] = done []
parse flags (s ∷ []) = elim (argument s) [
  | no_flag ↦ done []
  | terminator ↦ done []
  | wrong ↦ fail (codes "bad flag syntax: " ++ s)
  | named name (some value) ↦ set_flag flags name value (done [])
  | named name none ↦
      if is_one_of name flags.formal
      then fail (codes "flag needs an argument: -" ++ name)
      else fail (undefined name)
]
parse flags (s ∷ next ∷ args) =
    let rest = parse flags (next ∷ args) in
    let after_next = parse flags args in
    elim (argument s) [
      | no_flag ↦ done []
      | terminator ↦ done []
      | wrong ↦ fail (codes "bad flag syntax: " ++ s)
      | named name (some value) ↦ set_flag flags name value rest
      | named name none ↦ set_flag flags name next after_next
    ]

-- The value of a string flag with this default.
unfoldable pub value_of : Text → Text → Settings → Text
value_of name default [] = default
value_of name default ((n, v) ∷ settings) =
    value_of name (if text_eq n name then v else default) settings
