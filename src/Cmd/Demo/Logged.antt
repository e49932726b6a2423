-- ===== src/Cmd/Demo/Logged.antt =====
-- The event that cmd/fault-injector/main.go appends to the timeline, as `handleFaults` of
-- cmd/demo-ui/main.go answers it.
use kube_pfs.Base.{
  ◌<◌, ◌≡◌, ◌≢◌, ◌∙◌, refl, ap, false, ◌||◌, List, [], ◌∷◌, ◌++◌, map, append_assoc, done, arith,
  ◌==◌, inl, inr, Option-cases, Bool-cases,
}
use kube_pfs.Cmd.Demo.Timeline.{
  lines, any_too_long, utf8_length, drop_return, scan_lines, event_in, events_in, read_events,
}
use kube_pfs.Cmd.Faults.{line_break}
use kube_pfs.Cmd.Host.{Event, EventCodec}
use kube_pfs.Text.{Text, text_eq}
use kube_pfs.Text.Edit.{trim_space, trim_left, trim_right, is_space}
use kube_pfs.Text.Edit.Trim.{trim_space-append, trim_right-append}
use kube_pfs.Text.Path.{onto-append}
use kube_pfs.Text.Search.{Lacks}

lines-ne-nil : (b d : Text) → lines (b ++ 10 ∷ d) ≢ []
unfolding lines
lines-ne-nil [] d h = ground arith
lines-ne-nil (c ∷ b) d h = elim (Bool-cases (c == 10)) [
  | inl e ↦ ground arith
  | inr e ↦ ground (arith, lines-ne-nil b d)
]

-- A line break ends a line.
lines-append : (b d : Text) → lines (b ++ 10 ∷ d) ≡ lines (b ++ 10 ∷ []) ++ lines d
unfolding lines
lines-append [] d = refl
lines-append (c ∷ b) d =
    ground
      (arith, lines-append b d, onto-append c (lines (b ++ 10 ∷ [])) (lines d) (lines-ne-nil b []))

lines-line : (line : Text) → Lacks 10 line → lines (line ++ 10 ∷ []) ≡ line ∷ []
unfolding lines
lines-line [] h = refl
lines-line (c ∷ line) h = ground (arith, lines-line line h.1)

drop_return-Lacks : (line : Text) → Lacks 13 line → drop_return line ≡ line
unfolding drop_return text_eq
drop_return-Lacks [] h = refl
drop_return-Lacks (c ∷ []) h = ground arith
drop_return-Lacks (c ∷ d ∷ line) h = ap (◌∷◌ c) (drop_return-Lacks (d ∷ line) h.1)

any_too_long-append :
    (xs ys : List Text) → any_too_long (xs ++ ys) ≡ any_too_long xs || any_too_long ys
any_too_long-append [] ys = refl
any_too_long-append (x ∷ xs) ys = ground (arith, any_too_long-append xs ys)

map-append :
    (xs ys : List Text) → map drop_return (xs ++ ys) ≡ map drop_return xs ++ map drop_return ys
map-append [] ys = refl
map-append (x ∷ xs) ys = ap (◌∷◌ (drop_return x)) (map-append xs ys)

-- A text between braces has no space around it.
trim_space_braces : (s : Text) → trim_space (b'{' ∷ (s ++ b'}' ∷ [])) ≡ b'{' ∷ (s ++ b'}' ∷ [])
unfolding is_space trim_left trim_right
trim_space_braces s =
    trim_space-append b'{' refl [] (s ++ b'}' ∷ [])
    ∙ ap (◌∷◌ b'{') (trim_right-append b'}' refl s [])

-- Nothing, or text whose last line is ended.
pub data IsEnded : Text → Type 0 where
  empty : IsEnded []
  broken : (b : Text) → IsEnded (b ++ 10 ∷ [])

lines-IsEnded : (c d : Text) → IsEnded c → lines (c ++ d) ≡ lines c ++ lines d
unfolding lines
lines-IsEnded [] d empty = refl
lines-IsEnded c d (broken b) = rw (append_assoc b (10 ∷ []) d) (lines-append b d)

module _ (codec : EventCodec) where
  events_in-append :
      (xs ys : List Text) → events_in codec (xs ++ ys) ≡ events_in codec xs ++ events_in codec ys
  unfolding events_in
  events_in-append [] ys = refl
  events_in-append (x ∷ xs) ys = elim (Option-cases (event_in codec x)) [
    | inl e ↦ ground (arith, e, events_in-append xs ys)
    | inr (a, e) ↦ ground (arith, e, events_in-append xs ys)
  ]

  module _ (e : Event) (line : Text) (marshaled : codec.marshal e ≡ done line) where
    events_in-line : events_in codec (line ∷ []) ≡ e ∷ []
    unfolding events_in event_in text_eq
    events_in-line =
        let (inside, shape, _, _) = codec.marshal-braces e line marshaled in
        let back = codec.unmarshal-marshal e line marshaled in
        let kept : trim_space line ≡ line = rw shape (trim_space_braces inside) in
        ground (arith, kept, back, shape)

    -- A line of an event that is appended adds the event.
    pub read_events-append :
        (c : Text) (before : List Event)
        → IsEnded c
        → utf8_length line < 65536
        → read_events codec c ≡ done before
        → read_events codec (c ++ (line ++ line_break)) ≡ done (before ++ e ∷ [])
    unfolding read_events scan_lines
    read_events-append c before ended short h =
        let (_, _, no_break, no_return) = codec.marshal-braces e line marshaled in
        let split : lines (c ++ (line ++ line_break)) ≡ lines c ++ line ∷ [] =
          lines-IsEnded c (line ++ line_break) ended
          ∙ ap (◌++◌ (lines c)) (lines-line line no_break) in
        let mapped : map drop_return (lines c ++ line ∷ [])
            ≡ map drop_return (lines c) ++ line ∷ [] =
          map-append (lines c) (line ∷ [])
          ∙ ap (λ l. map drop_return (lines c) ++ l ∷ []) (drop_return-Lacks line no_return) in
        elim (Bool-cases (any_too_long (lines c))) [
          | inl long ↦ absurd (ground (arith, long))
          | inr fine ↦
              let fits : any_too_long (lines c ++ line ∷ []) ≡ false =
                any_too_long-append (lines c) (line ∷ []) ∙ ground (arith, fine) in
              let old : events_in codec (map drop_return (lines c)) ≡ before =
                ground (arith, fine, h) in
              let all : events_in codec (map drop_return (lines c ++ line ∷ []))
                  ≡ before ++ e ∷ [] =
                ap (events_in codec) mapped
                ∙ events_in-append (map drop_return (lines c)) (line ∷ [])
                ∙ rw (old, events_in-line) refl in
              rw (read_events, scan_lines, split, fits, all) refl
        ]
