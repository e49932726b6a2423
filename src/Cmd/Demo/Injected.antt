-- ===== src/Cmd/Demo/Injected.antt =====
-- A run of cmd/fault-injector/main.go, and then `handleFaults` of cmd/demo-ui/main.go.
use kube_pfs.Base.{
  ◌-◌, ◌≤◌, ◌<◌, ◌≡◌, ◌⊎◌, refl, none, List, [], ◌∷◌, ◌++◌, Option, some, done, arith, inl, inr,
  length, take, drop, drop-append, length-append, Option-cases, take-append-drop, length-drop,
}
use kube_pfs.Cmd.Demo.{Server, answer}
use kube_pfs.Cmd.Demo.Logged.{IsEnded, read_events-append}
use kube_pfs.Cmd.Demo.Timeline.{
  newest, read_events, faults_reply, handle_faults, timeline_file, utf8_length,
}
use kube_pfs.Cmd.Faults.{
  World, Now, inject, append_event, event_of, timeline_path, default_timeline, line_break,
}
use kube_pfs.Cmd.Faults.Actions.{run_action}
use kube_pfs.Cmd.Faults.Records.{at_action}
use kube_pfs.Cmd.Host.{Host, Event, EventCodec}
use kube_pfs.FileSystem.{Contents, bytes, Missing}
use kube_pfs.Text.{Text, codes}
use kube_pfs.Text.Path.{dir}

-- What a file that may be missing holds.
abbrev pub Holds : Contents → Text → Type 0
Holds contents c = (contents ≡ bytes c) ⊎ (Missing contents × (c ≡ []))

-- The last event and the 29 in front of it.
newest-append :
    (e : Event) (before : List Event)
    → newest (before ++ e ∷ []) ≡ drop (length before - 29) before ++ e ∷ []
unfolding newest
newest-append e before =
    let size = length-append before (e ∷ []) in
    let rest = drop-append (length before - 29) before (e ∷ []) (omega arith) in
    ground (arith, size, rest)

older_or_full :
    (before : List Event)
    → (take (length before - 29) before ≡ []) ⊎ (length (drop (length before - 29) before) ≡ 29)
older_or_full before = ground (arith, length-drop (length before - 29) before)

module _ (host : Host) (codec : EventCodec) where
  open host use {files}

  append_event-appends :
      (path : Text) (e : Event) (f : files.Fs) (c line : Text)
      → Holds (files.read_file path f) c
      → codec.marshal e ≡ done line
      → (append_event host codec path e f).0 ≡ none
      → files.read_file path (append_event host codec path e f).1
        ≡ bytes (c ++ (line ++ line_break))
  unfolding append_event
  append_event-appends path e f c line held marshaled h =
      let g = host.open_to_append path f in
      let put = host.append_text path (line ++ line_break) g.1 in
      elim (Option-cases g.0) [
        | inr (x, bad) ↦ absurd (ground (arith, bad))
        | inl opened ↦
            let there : files.read_file path g.1 ≡ bytes c = elim held [
              | inl e ↦ host.read-open_to_append path path c f e
              | inr (m, nil) ↦ rw nil (host.read-open_to_append_new path f m opened)
            ] in
            elim (Option-cases put.0) [
              | inr (x, bad) ↦ absurd (ground (arith, opened, marshaled, bad))
              | inl good ↦
                  let now = host.read-append_text path (line ++ line_break) c g.1 there good in
                  ground (arith, opened, marshaled, good, now)
            ]
      ]

  module _ (now : Now) (action : Text) (args : List Text) (w : World host) (server : Server) where
    abbrev path : Text
    path = timeline_path default_timeline args

    -- What is to be told of an action that answered this error.
    abbrev pub told : Option Text → Event
    told none = record {
      timestamp = now.rfc3339;
      action = action;
      status = codes "ok";
      detail = action ++ codes " completed";
    }
    told (some e) = record {
      timestamp = now.rfc3339;
      action = action;
      status = codes "error";
      detail = e;
    }

    event_of-told : (e : Option Text) → event_of host codec now action e ≡ told e
    unfolding event_of
    event_of-told none = refl
    event_of-told (some e) = refl

    -- The event of this run, and the files when it is appended.
    abbrev pub event : Event
    event = told (run_action host action args (at_action host codec now action args w)).0

    abbrev pub acted : files.Fs
    acted = (run_action host action args (at_action host codec now action args w)).1

    abbrev pub after : files.Fs
    after = (inject host codec now (action ∷ args) w).1.fs

    -- When the fault injector has run and its timeline has taken the event, the demo answers that
    -- event as the last one, with the time of the run, the action, and either "ok" or "error" and
    -- the error that the action answered; and in front of it the last 29 events that the timeline
    -- had, or all of them if there were fewer. The
    -- directory of the timeline could be made; the timeline was missing, or it ended with a line
    -- break and the demo could read it; the event has a line of JSON, which is shorter than 65536
    -- bytes; and both programs mean the same file.
    pub inject-handle_faults :
        (c line : Text) (before : List Event)
        → (files.mkdir_all (dir path) w.fs).0 ≡ none
        → Holds (files.read_file path acted) c
        → IsEnded c
        → read_events codec c ≡ done before
        → codec.marshal event ≡ done line
        → utf8_length line < 65536
        → (append_event host codec path event acted).0 ≡ none
        → files.read_file (timeline_file server) after ≡ files.read_file path after
        → (older shown : List Event) × (handle_faults codec server (λ p. files.read_file p after)
            ≡ answer (shown ++ event ∷ []))
          × (older ++ shown ≡ before)
          × (length shown ≤ 29)
          × ((older ≡ []) ⊎ (length shown ≡ 29))
    unfolding inject handle_faults faults_reply
    inject-handle_faults c line before made held ended readable marshaled short logged same =
        let appended = append_event-appends path event acted c line held marshaled logged in
        let read = read_events-append codec event line marshaled c before ended short readable in
        let there : files.read_file path after ≡ bytes (c ++ (line ++ line_break)) = ground (
          arith,
          made,
          appended,
          event_of-told (run_action host action args (at_action host codec now action args w)).0,
        ) in
        let few = length before - 29 in
        (
          take few before,
          drop few before,
          rw (same, there, faults_reply, read, newest-append event before) refl,
          take-append-drop few before,
          omega (arith, length-drop few before),
          older_or_full before,
        )
