-- ===== src/Cmd/Faults.antt =====
-- cmd/fault-injector/main.go: one action on the cluster or on a block file, an event in the
-- timeline, and a count of it.
pub mod Actions
pub mod Arguments
pub mod Corrupt
pub mod Records
use kube_pfs.Base.{
  ℤ, pos, negsuc, ℕ, zero, suc, ◌+◌, ◌*◌, ◌%◌, Option, none, some, List, [], ◌∷◌, ◌++◌, Fallible,
  done, fail, if◌then◌else◌,
}
use kube_pfs.Cmd.Flags.{FlagSet, Settings, parse, value_of}
use kube_pfs.Cmd.Host.{Host, Event, EventCodec}
use kube_pfs.FileSystem.{error_text}
use kube_pfs.Metrics.{Metrics, record_fault_event}
use kube_pfs.Text.{Text, codes, text_eq}
use kube_pfs.Text.Edit.{trim_space}
use kube_pfs.Text.Path.{dir}
use kube_pfs.Cmd.Faults.Actions.{run_action}

-- The scan of the arguments for the path of the timeline, which is `path` so far.
unfoldable pub timeline_path : Text → List Text → Text
timeline_path path [] = path
timeline_path path (a ∷ []) = path
timeline_path path (a ∷ v ∷ args) =
    timeline_path (if text_eq a (codes "--timeline") then v else path) (v ∷ args)

abbrev pub default_timeline : Text
default_timeline = codes "./artifacts/faults/timeline.jsonl"

-- time.Now().UTC(), as it is printed and as a Unix time.
pub record Now : Type 0 where
  pub rfc3339 : Text
  pub unix : ℕ

-- What the program prints to its two outputs, without what package flag and the commands print, and
-- its exit code.
pub record Ended : Type 0 where
  pub out : Text
  pub err : Text
  pub code : ℕ

abbrev pub line_break : Text
line_break = 10 ∷ []

module _ (host : Host) where
  open host use {
    files, open_to_write, write_at_start, open_to_append, append_text, run, parse_int, quote,
  }

  pub record World : Type 0 where
    pub fs : files.Fs
    pub metrics : Metrics

  module _ (codec : EventCodec) where
    unfoldable pub append_event : Text → Event → files.Fs → Option Text × files.Fs
    append_event path e f =
        let (opened, g) = open_to_append path f in
        elim opened [
          | some x ↦ (some (error_text x), g)
          | none ↦ elim (codec.marshal e) [
            | fail m ↦ (some m, g)
            | done blob ↦
                let (written, h) = append_text path (blob ++ line_break) g in
                elim written [ some x ↦ (some (error_text x), h) | none ↦ (none, h) ]
          ]
        ]

    -- The event of an action that answered this error.
    unfoldable pub event_of : Now → Text → Option Text → Event
    event_of now action none = record {
      timestamp = now.rfc3339;
      action = action;
      status = codes "ok";
      detail = action ++ codes " completed";
    }
    event_of now action (some e) = record {
      timestamp = now.rfc3339;
      action = action;
      status = codes "error";
      detail = e;
    }

    abbrev pub complaint : Option Text → Text
    complaint none = []
    complaint (some m) = codes "append timeline event: " ++ (m ++ line_break)

    -- The end of the program, given what the action and the timeline answered.
    unfoldable pub ended : Text → Option Text → Option Text → Ended
    ended action none logged = record {
      out = action ++ codes " succeeded\n";
      err = complaint logged;
      code = 0;
    }
    ended action (some e) logged = record {
      out = [];
      err = complaint logged ++ (action ++ (codes " failed: " ++ (e ++ line_break)));
      code = 1;
    }

    -- The program, given os.Args[1:].
    unfoldable pub inject : Now → List Text → World → Ended × World
    inject now [] w = (
      record {
        out = [];
        err = codes "usage: fault-injector <delete-pod|netem-delay|corrupt-block> [flags]\n";
        code = 1;
      },
      w,
    )
    inject now (action ∷ args) w =
        let path = timeline_path default_timeline args in
        let (made, f) = files.mkdir_all (dir path) w.fs in
        elim made [
          | some x ↦ (
            record {
              out = [];
              err = codes "create timeline dir: " ++ (error_text x ++ line_break);
              code = 1;
            },
            record w { fs = f },
          )
          | none ↦
              let (run_err, g) = run_action host action args f in
              let event = event_of now action run_err in
              let (logged, h) = append_event path event g in
              (
                ended action run_err logged,
                record {
                  fs = h;
                  metrics = record_fault_event action event.status now.unix w.metrics;
                },
              )
        ]
