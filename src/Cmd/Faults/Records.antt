-- ===== src/Cmd/Faults/Records.antt =====
-- What a run of cmd/fault-injector/main.go leaves behind: its count and its exit code.
use kube_pfs.Base.{◌≡◌, ◌⊎◌, ◌||◌, true, none, some, ◌∷◌, ◌++◌, [], arith, inl, inr, Option-cases}
use kube_pfs.Cmd.Faults.{World, Now, inject, event_of, ended, timeline_path, default_timeline}
use kube_pfs.Cmd.Faults.Actions.{run_action}
use kube_pfs.Cmd.Host.{Host, EventCodec}
use kube_pfs.Metrics.{fault_events_total, fault_last_event_unix}
use kube_pfs.Text.{Text, codes, text_eq}
use kube_pfs.Text.Path.{dir}
use kube_pfs.Base.{List, Bool}

-- The actions that the program has.
abbrev pub is_action : Text → Bool
is_action action =
    text_eq action (codes "delete-pod")
    || text_eq action (codes "netem-delay")
    || text_eq action (codes "corrupt-block")

module _ (host : Host) (codec : EventCodec) (now : Now) (action : Text) (args : List Text)
    (w : World host) where
  open host use {files}

  -- The file system when the action starts.
  abbrev pub at_action : files.Fs
  at_action = (files.mkdir_all (dir (timeline_path default_timeline args)) w.fs).1

  action-known : (run_action host action args at_action).0 ≡ none → is_action action ≡ true
  unfolding run_action
  action-known h = ground arith

  -- Once the directory of the timeline is made, a run counts exactly one fault event, under the name
  -- of the action and with the time of the run, whether or not the timeline takes the event. The
  -- event counts as "ok" when the action, one of the three, answers no error, and the exit code is
  -- 0; it counts as "error" when the action, known or not, answers one, and the exit code is 1.
  pub inject-agrees :
      (files.mkdir_all (dir (timeline_path default_timeline args)) w.fs).0 ≡ none
      → (((run_action host action args at_action).0 ≡ none)
          × (is_action action ≡ true)
          × ((inject host codec now (action ∷ args) w).0.code ≡ 0)
          × ((inject host codec now (action ∷ args) w).1.metrics
              ≡ w.metrics
                ++ fault_events_total action (codes "ok") ∷ fault_last_event_unix now.unix ∷ []))
        ⊎ ((e : Text) × ((run_action host action args at_action).0 ≡ some e)
            × ((inject host codec now (action ∷ args) w).0.code ≡ 1)
            × ((inject host codec now (action ∷ args) w).1.metrics
                ≡ w.metrics
                  ++ fault_events_total action (codes "error")
                    ∷ fault_last_event_unix now.unix
                    ∷ []))
  unfolding inject event_of ended
  inject-agrees made = elim (Option-cases (run_action host action args at_action).0) [
    | inl fine ↦ inl (fine, action-known fine, ground arith, ground arith)
    | inr (e, bad) ↦ inr (e, bad, ground arith, ground arith)
  ]
