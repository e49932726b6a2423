-- ===== src/Cmd/Host.antt =====
-- What cmd/fault-injector uses of packages os, os/exec, encoding/json, strconv and fmt beyond
-- FileSystem: a parameter of the program, with the documented behaviour that the code relies on.
use kube_pfs.Base.{
  ℤ, pos, ℕ, ◌<◌, ◌^◌, ◌≡◌, Option, none, List, [], ◌∷◌, ◌++◌, Fallible, done, length, drop,
}
use kube_pfs.FileSystem.{FileSystem, IoError, bytes, Missing, AreApart}
use kube_pfs.Text.{Text}
use kube_pfs.Text.Decimal.{decimal}
use kube_pfs.Text.Search.{Lacks}

-- `event` of cmd/fault-injector/main.go and `faultEvent` of cmd/demo-ui/main.go, whose fields and
-- whose names in JSON are the same.
pub record Event : Type 0 where
  pub timestamp : Text
  pub action : Text
  pub status : Text
  pub detail : Text

-- json.Marshal of an event, and json.Unmarshal into one. A line of JSON is an object: it starts and
-- ends with a brace and has no line break.
pub record EventCodec : Type 0 where
  pub marshal : Event → Fallible Text
  pub unmarshal : Text → Option Event
  pub unmarshal-marshal :
      (e : Event) (line : Text) → marshal e ≡ done line → unmarshal line ≡ Option.some e
  pub marshal-braces :
      (e : Event) (line : Text)
      → marshal e ≡ done line
      → (inside : Text) × (line ≡ b'{' ∷ (inside ++ b'}' ∷ [])) × Lacks 10 line × Lacks 13 line

-- The state of the machine is that of its files; commands may change it as well.
pub record Host : Type 1 where
  pub files : FileSystem
  -- os.OpenFile(p, os.O_WRONLY, 0), and WriteAt(b, 0) on the file that it opens.
  pub open_to_write : Text → files.Fs → Option IoError × files.Fs
  pub write_at_start : Text → Text → files.Fs → Option IoError × files.Fs
  -- os.OpenFile(p, os.O_CREATE|os.O_APPEND|os.O_WRONLY, 0644), and what reaches the file when a
  -- bufio.Writer on it is given a text and flushed.
  pub open_to_append : Text → files.Fs → Option IoError × files.Fs
  pub append_text : Text → Text → files.Fs → Option IoError × files.Fs
  -- exec.Command(…).Run(): `none` is a nil error.
  pub run : List Text → files.Fs → Option Text × files.Fs
  -- strconv.ParseInt(s, 0, 64), with the errors as package flag words them, and "%q" of package fmt.
  pub parse_int : Text → Fallible ℤ
  pub quote : Text → Text
  -- Opening for writing changes no file.
  pub read-open_to_write :
      (p q c : Text) (f : files.Fs)
      → files.read_file q f ≡ bytes c
      → files.read_file q (open_to_write p f).1 ≡ bytes c
  -- What is written takes the place of as many bytes, or more where the file ends before.
  pub read-write_at_start :
      (p b c : Text) (f : files.Fs)
      → files.read_file p f ≡ bytes c
      → (write_at_start p b f).0 ≡ none
      → files.read_file p (write_at_start p b f).1 ≡ bytes (b ++ drop (length b) c)
  pub read-write_at_start_ne :
      (p q b c : Text) (f : files.Fs)
      → AreApart p q
      → files.read_file q f ≡ bytes c
      → files.read_file q (write_at_start p b f).1 ≡ bytes c
  -- Opening for appending makes an empty file if there is none.
  pub read-open_to_append :
      (p q c : Text) (f : files.Fs)
      → files.read_file q f ≡ bytes c
      → files.read_file q (open_to_append p f).1 ≡ bytes c
  pub read-open_to_append_new :
      (p : Text) (f : files.Fs)
      → Missing (files.read_file p f)
      → (open_to_append p f).0 ≡ none
      → files.read_file p (open_to_append p f).1 ≡ bytes []
  pub read-append_text :
      (p b c : Text) (f : files.Fs)
      → files.read_file p f ≡ bytes c
      → (append_text p b f).0 ≡ none
      → files.read_file p (append_text p b f).1 ≡ bytes (c ++ b)
  -- A number below 2^63 is read as it is printed.
  pub parse_int-decimal : (n : ℕ) → n < 2 ^ 63 → parse_int (decimal n) ≡ done (pos n)
