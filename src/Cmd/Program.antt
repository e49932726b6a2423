-- ===== src/Cmd/Program.antt =====
-- A main function under cmd around its service: the flags on the command line, the start, and Serve.
use kube_pfs.Base.{ℕ, Option, none, some, List, [], ◌∷◌, ◌++◌, Fallible, done, fail, if◌then◌else◌}
use kube_pfs.Cmd.Flags.{FlagSet, Settings, parse, value_of}
use kube_pfs.Metrics.{HttpServer, start_server}
use kube_pfs.Text.{Text, codes, text_eq}

-- How a program ends: by package flag with an exit code, by log.Fatalf with a text, or behind Serve
-- of what it has made: with this server of the metrics, if there is one, and with the text of
-- log.Fatalf if Serve answers an error.
pub data Outcome {ℓ} (A : Type ℓ) : Type ℓ where
  usage : ℕ → Outcome A
  fatal : Text → Outcome A
  served : Option HttpServer → A → Option Text → Outcome A

-- What is peculiar to a program: its name in the messages, its flags, which are all string flags,
-- with their defaults, and the one of them that is the address of the metrics.
pub record Program : Type 0 where
  pub name : Text
  pub flags : Settings
  pub metrics_flag : Option Text

abbrev pub names_of : Settings → List Text
names_of [] = []
names_of ((name, value) ∷ flags) = name ∷ names_of flags

abbrev pub flags_of : Program → FlagSet
flags_of program = record { formal = names_of program.flags; refuses = λ name value. none }

-- The value of a flag.
abbrev pub setting : Program → Settings → Text → Text
setting program settings name = value_of name (value_of name [] program.flags) settings

abbrev pub metrics_server : Program → Settings → Option HttpServer
metrics_server program settings = elim program.metrics_flag [
  | none ↦ none
  | some name ↦ some (start_server (setting program settings name))
]

-- flag.Parse of the command line ends the program on an error.
abbrev pub exit_code : Text → ℕ
exit_code e = if text_eq e (codes "flag: help requested") then 0 else 2

abbrev pub serve_error : Program → Option Text → Option Text
serve_error program none = none
serve_error program (some e) = some (codes "serve " ++ (program.name ++ (codes ": " ++ e)))

-- The flags, the start of the service, and Serve, given what Serve answers in the end, which may
-- depend on the flags.
unfoldable pub run {ℓ} :
    {A : Type ℓ} {Fs : Type 0}
    → (program : Program) → ((Text → Text) → Fs → Fallible A × Fs)
    → ((Text → Text) → Option Text)
    → List Text
    → Fs
    → Outcome A × Fs
run program start ending args f = elim (parse (flags_of program) args) [
  | fail e ↦ (usage (exit_code e), f)
  | done settings ↦
      let (started, g) = start (setting program settings) f in
      elim started [
        | fail e ↦ (fatal e, g)
        | done s ↦ (
          served (metrics_server program settings) s
              (serve_error program (ending (setting program settings))),
          g,
        )
      ]
]
