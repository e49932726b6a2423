-- ===== src/Cmd/Demo/Timeline.antt =====
-- `handleFaults` of cmd/demo-ui/main.go. The timeline holds UTF-8 and is read as its code points.
use kube_pfs.Base.{
  ℕ, ◌+◌, ◌-◌, Bool, false, ◌||◌, Option, none, some, List, [], ◌∷◌, map, Fallible, done, fail,
  ◌==◌, ltb, leb, length, drop, if◌then◌else◌,
}
use kube_pfs.Cmd.Demo.{Reply, answer, error_reply, Server, join_parts}
use kube_pfs.Cmd.Host.{Event, EventCodec}
use kube_pfs.FileSystem.{Contents, bytes, failed, missing, other}
use kube_pfs.Text.{Text, codes, text_eq}
use kube_pfs.Text.Edit.{trim_space}
use kube_pfs.Text.Path.{onto}

-- The lines of a text, without the line breaks.
unfoldable pub lines : Text → List Text
lines [] = []
lines (c ∷ s) = let rest = lines s in if c == 10 then [] ∷ rest else onto c rest

-- The bytes of a code point, and of a text, in UTF-8.
abbrev pub code_bytes : ℕ → ℕ
code_bytes c = if ltb c 0x80 then 1 else if ltb c 0x800 then 2 else if ltb c 0x10000 then 3 else 4

abbrev pub utf8_length : Text → ℕ
utf8_length [] = 0
utf8_length (c ∷ s) = code_bytes c + utf8_length s

-- A line that does not fit into the buffer of a bufio.Scanner with its line break.
abbrev pub too_long : Text → Bool
too_long line = leb 65536 (utf8_length line)

abbrev pub any_too_long : List Text → Bool
any_too_long [] = false
any_too_long (line ∷ ls) = too_long line || any_too_long ls

-- A carriage return at the end of a line is dropped.
unfoldable pub drop_return : Text → Text
drop_return [] = []
drop_return (c ∷ s) =
    let rest = drop_return s in if text_eq s [] then (if c == 13 then [] else c ∷ []) else c ∷ rest

-- The texts of sc.Scan() until it answers false, or sc.Err().
unfoldable pub scan_lines : Text → Fallible (List Text)
scan_lines text =
    if any_too_long (lines text)
    then fail (codes "bufio.Scanner: token too long")
    else done (map drop_return (lines text))

-- const maxEvents = 30
unfoldable pub newest : List Event → List Event
newest events = if ltb 30 (length events) then drop (length events - 30) events else events

module _ (codec : EventCodec) where
  -- The event of a line, if it has one.
  unfoldable pub event_in : Text → Option Event
  event_in text =
      let line = trim_space text in if text_eq line [] then none else codec.unmarshal line

  unfoldable pub events_in : List Text → List Event
  events_in [] = []
  events_in (line ∷ ls) =
      let rest = events_in ls in elim (event_in line) [ none ↦ rest | some e ↦ e ∷ rest ]

  -- Every event of the timeline, or the error of the scanner.
  unfoldable pub read_events : Text → Fallible (List Event)
  read_events text = elim (scan_lines text) [ fail e ↦ fail e | done ls ↦ done (events_in ls) ]

  -- The answer, given what the file holds.
  unfoldable pub faults_reply : Contents → Reply (List Event)
  faults_reply (failed (missing m)) = answer []
  faults_reply (failed (other m)) = error_reply 500 m
  faults_reply (bytes text) = elim (read_events text) [
    | fail e ↦ error_reply 500 e
    | done events ↦ answer (newest events)
  ]

abbrev pub timeline_file : Server → Text
timeline_file server =
    join_parts (server.repo_root ∷ codes "artifacts" ∷ codes "faults" ∷ codes "timeline.jsonl" ∷ [])

-- The handler, given os.Open and the reads of the file.
unfoldable pub handle_faults : EventCodec → Server → (Text → Contents) → Reply (List Event)
handle_faults codec server read_file = faults_reply codec (read_file (timeline_file server))
