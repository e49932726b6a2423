-- ===== src/Cmd/Faults/Actions.antt =====
-- The actions of cmd/fault-injector/main.go: runDeletePod, runNetemDelay and runCorruptBlock. What
-- package flag and the commands print is left out.
use kube_pfs.Base.{
  ℤ, pos, negsuc, ℕ, zero, suc, ◌+◌, ◌*◌, ◌%◌, Option, none, some, List, [], ◌∷◌, ◌++◌, done, fail,
  if◌then◌else◌,
}
use kube_pfs.Cmd.Flags.{FlagSet, Settings, parse, value_of}
use kube_pfs.Cmd.Host.{Host}
use kube_pfs.FileSystem.{error_text}
use kube_pfs.Text.{Text, codes, text_eq}
use kube_pfs.Text.Edit.{trim_space}

-- payload[i] = byte((i*17 + 31) % 255), for the indices from `i` on that are left
unfoldable pub pattern : ℕ → ℕ → Text
pattern i zero = []
pattern i (suc left) = (i * 17 + 31) % 255 ∷ pattern (i + 1) left

abbrev pub strings_only : List Text → FlagSet
strings_only names = record { formal = names; refuses = λ name value. none }

module _ (host : Host) where
  open host use {
    files, open_to_write, write_at_start, open_to_append, append_text, run, parse_int, quote,
  }

  unfoldable pub run_delete_pod : List Text → files.Fs → Option Text × files.Fs
  run_delete_pod args f =
      elim (parse (strings_only (codes "namespace" ∷ codes "name" ∷ codes "timeline" ∷ [])) args) [
        | fail e ↦ (some e, f)
        | done settings ↦
            let name = value_of (codes "name") [] settings in
            let namespace = value_of (codes "namespace") (codes "kube-pfs-test") settings in
            if text_eq (trim_space name) []
            then (some (codes "--name is required"), f)
            else run
                (codes "kubectl"
                  ∷ codes "delete"
                  ∷ codes "pod"
                  ∷ name
                  ∷ codes "-n"
                  ∷ namespace
                  ∷ codes "--wait=false"
                  ∷ [])
                f
      ]

  unfoldable pub run_netem_delay : List Text → files.Fs → Option Text × files.Fs
  run_netem_delay args f =
      elim (parse
        (strings_only (
          codes "namespace"
          ∷ codes "pod"
          ∷ codes "interface"
          ∷ codes "delay"
          ∷ codes "timeline"
          ∷ []))
        args) [
          | fail e ↦ (some e, f)
          | done settings ↦
              let pod = value_of (codes "pod") [] settings in
              let namespace = value_of (codes "namespace") (codes "kube-pfs-test") settings in
              let interface = value_of (codes "interface") (codes "eth0") settings in
              let delay = value_of (codes "delay") (codes "200ms") settings in
              if text_eq (trim_space pod) []
              then (some (codes "--pod is required"), f)
              else run
                  (codes "kubectl"
                    ∷ codes "exec"
                    ∷ codes "-n"
                    ∷ namespace
                    ∷ pod
                    ∷ codes "--"
                    ∷ codes "tc"
                    ∷ codes "qdisc"
                    ∷ codes "replace"
                    ∷ codes "dev"
                    ∷ interface
                    ∷ codes "root"
                    ∷ codes "netem"
                    ∷ codes "delay"
                    ∷ delay
                    ∷ [])
                  f
        ]

  -- The flags of corrupt-block: --bytes is a number.
  unfoldable pub corrupt_flags : FlagSet
  corrupt_flags = record {
    formal = codes "path" ∷ codes "bytes" ∷ codes "timeline" ∷ [];
    refuses = λ name value.
        if text_eq name (codes "bytes")
        then elim (parse_int value) [
          | done n ↦ none
          | fail e ↦
              some (codes "invalid value " ++ (quote value ++ (codes " for flag -bytes: " ++ e)))
        ]
        else none;
  }

  -- The number that --bytes is set to, with this default.
  unfoldable pub bytes_count : ℤ → Settings → ℤ
  bytes_count n [] = n
  bytes_count n ((name, value) ∷ settings) =
      bytes_count
        (if text_eq name (codes "bytes")
          then elim (parse_int value) [ done m ↦ m | fail e ↦ n ]
          else n)
        settings

  -- The file is opened, and its first bytes are written over.
  unfoldable pub overwrite : Text → ℕ → files.Fs → Option Text × files.Fs
  overwrite path n f =
      let (e, g) = open_to_write path f in
      elim e [
        | some x ↦ (some (error_text x), g)
        | none ↦
            let (e', h) = write_at_start path (pattern 0 n) g in
            elim e' [ some x ↦ (some (error_text x), h) | none ↦ (none, h) ]
      ]

  abbrev pub overwrite_some : Text → ℤ → files.Fs → Option Text × files.Fs
  overwrite_some path (pos (suc n)) f = overwrite path (suc n) f
  overwrite_some path (pos zero) f = (some (codes "--bytes must be > 0"), f)
  overwrite_some path (negsuc n) f = (some (codes "--bytes must be > 0"), f)

  unfoldable pub run_corrupt_block : List Text → files.Fs → Option Text × files.Fs
  run_corrupt_block args f = elim (parse corrupt_flags args) [
    | fail e ↦ (some e, f)
    | done settings ↦
        let path = value_of (codes "path") [] settings in
        if text_eq (trim_space path) []
        then (some (codes "--path is required"), f)
        else overwrite_some path (bytes_count (pos 256) settings) f
  ]

  -- The switch over the action.
  unfoldable pub run_action : Text → List Text → files.Fs → Option Text × files.Fs
  run_action action args f =
      if text_eq action (codes "delete-pod")
      then run_delete_pod args f
      else if text_eq action (codes "netem-delay")
      then run_netem_delay args f
      else if text_eq action (codes "corrupt-block")
      then run_corrupt_block args f
      else (some (codes "unknown action: " ++ action), f)
