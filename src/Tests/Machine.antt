-- ===== src/Tests/Machine.antt =====
-- A machine whose disk is a table of files and whose commands do nothing, and a codec of events.
use kube_pfs.Base.{
  ℕ, pos, ◌+◌, ◌-◌, ◌<◌, ◌≡◌, ◌≢◌, ◌∙◌, refl, sym, ap, append-nil, Option, none, some, List, [],
  ◌∷◌, ◌++◌, append_assoc, Fallible, done, arith, ltb, length, drop, All-append, if◌then◌else◌,
}
use kube_pfs.Cmd.Host.{Host, Event, EventCodec}
use kube_pfs.FileSystem.{AreApart, IoError, bytes, Missing}
use kube_pfs.Table.{has, lookup, insert, lookup-insert}
use kube_pfs.Tests.Instances.{Files, disk, read_file, no_file, read-write_self, read-write_ne}
use kube_pfs.Text.{Text, text_eq_iff, text_eq_refl}
use kube_pfs.Text.Decimal.{spelled, spelled-decimal}
use kube_pfs.Text.Search.{Lacks, split_on, split_on-Lacks, split_on-append}

-- What a file holds; nothing if it is missing.
abbrev held : Text → Files → Text
held p f = elim (lookup p f) [ none ↦ [] | some b ↦ b ]

held_bytes : (p c : Text) (f : Files) → read_file p f ≡ bytes c → held p f ≡ c
unfolding read_file
held_bytes p c f h = ground arith

unfoldable pub open_to_write : Text → Files → Option IoError × Files
open_to_write p f = if has p f then (none, f) else (some no_file, f)

unfoldable pub write_at_start : Text → Text → Files → Option IoError × Files
write_at_start p b f = (none, insert p (b ++ drop (length b) (held p f)) f)

unfoldable pub open_to_append : Text → Files → Option IoError × Files
open_to_append p f = if has p f then (none, f) else (none, insert p [] f)

unfoldable pub append_text : Text → Text → Files → Option IoError × Files
append_text p b f = (none, insert p (held p f ++ b) f)

pub read-open_to_write :
    (p q c : Text) (f : Files)
    → read_file q f ≡ bytes c
    → read_file q (open_to_write p f).1 ≡ bytes c
unfolding open_to_write
read-open_to_write p q c f h = ground (arith, h)

pub read-write_at_start :
    (p b c : Text) (f : Files)
    → read_file p f ≡ bytes c
    → (write_at_start p b f).0 ≡ none
    → read_file p (write_at_start p b f).1 ≡ bytes (b ++ drop (length b) c)
unfolding write_at_start
read-write_at_start p b c f h e =
    read-write_self p (b ++ drop (length b) (held p f)) f refl
    ∙ ap (λ d. bytes (b ++ drop (length b) d)) (held_bytes p c f h)

pub read-write_at_start_ne :
    (p q b c : Text) (f : Files)
    → AreApart p q
    → read_file q f ≡ bytes c
    → read_file q (write_at_start p b f).1 ≡ bytes c
unfolding write_at_start
read-write_at_start_ne p q b c f = read-write_ne p q (b ++ drop (length b) (held p f)) c f

pub read-open_to_append :
    (p q c : Text) (f : Files)
    → read_file q f ≡ bytes c
    → read_file q (open_to_append p f).1 ≡ bytes c
unfolding open_to_append read_file
read-open_to_append p q c f h = ground (arith, h, lookup-insert q p [] f, text_eq_iff p q)

pub read-open_to_append_new :
    (p : Text) (f : Files)
    → Missing (read_file p f)
    → (open_to_append p f).0 ≡ none
    → read_file p (open_to_append p f).1 ≡ bytes []
unfolding open_to_append read_file
read-open_to_append_new p f h e = ground (arith, h, lookup-insert p p [] f, text_eq_refl p)

pub read-append_text :
    (p b c : Text) (f : Files)
    → read_file p f ≡ bytes c
    → (append_text p b f).0 ≡ none
    → read_file p (append_text p b f).1 ≡ bytes (c ++ b)
unfolding append_text
read-append_text p b c f h e =
    read-write_self p (held p f ++ b) f refl ∙ ap (λ d. bytes (d ++ b)) (held_bytes p c f h)

abbrev pub machine : Host
machine = record {
  files = disk;
  open_to_write = open_to_write;
  write_at_start = write_at_start;
  open_to_append = open_to_append;
  append_text = append_text;
  run = λ command f. (none, f);
  parse_int = λ s. done (pos (spelled s 0));
  quote = λ s. s;
  read-open_to_write = read-open_to_write;
  read-write_at_start = read-write_at_start;
  read-write_at_start_ne = read-write_at_start_ne;
  read-open_to_append = read-open_to_append;
  read-open_to_append_new = read-open_to_append_new;
  read-append_text = read-append_text;
  parse_int-decimal = λ n h. ap (λ k. done (pos k)) (spelled-decimal n);
}

-- A code is moved up by 200, so that "," and the braces are free.
abbrev pub raised : Text → Text
raised [] = []
raised (c ∷ s) = (c + 200) ∷ raised s

lowered : Text → Text
lowered [] = []
lowered (c ∷ s) = let rest = lowered s in if ltb c 200 then rest else (c - 200) ∷ rest

lowered-raised : (s t : Text) → lowered (raised s ++ t) ≡ s ++ lowered t
unfolding lowered
lowered-raised [] t = refl
lowered-raised (c ∷ s) t = ground (arith, lowered-raised s t)

raised-Lacks : (d : ℕ) (s : Text) → d < 200 → Lacks d (raised s)
raised-Lacks d [] h = tt
raised-Lacks d (c ∷ s) h = ((λ e. omega arith), raised-Lacks d s h)

abbrev pub inside : Event → Text
inside e =
    raised e.timestamp
    ++ b',' ∷ (raised e.action ++ b',' ∷ (raised e.status ++ b',' ∷ raised e.detail))

abbrev pub line_of : Event → Text
line_of e = b'{' ∷ (inside e ++ b'}' ∷ [])

unfoldable pub marshal : Event → Fallible Text
marshal e = done (line_of e)

abbrev event_of_parts : List Text → Option Event
event_of_parts (a ∷ b ∷ c ∷ d ∷ []) =
    some
      (record { timestamp = lowered a; action = lowered b; status = lowered c; detail = lowered d })
event_of_parts _ = none

unfoldable pub unmarshal : Text → Option Event
unfolding lowered
unmarshal s = event_of_parts (split_on b',' s)

lowered-raised_all : (s : Text) → lowered (raised s) ≡ s
unfolding lowered
lowered-raised_all s = ap lowered (sym (append-nil (raised s))) ∙ lowered-raised s [] ∙ append-nil s

-- No small code stands in a line but the brackets and commas.
braced-Lacks : (d : ℕ) (e : Event) → d < b',' → Lacks d (b'{' ∷ (inside e ++ b'}' ∷ []))
braced-Lacks d e h =
    let lacks : (s : Text) → Lacks d (raised s) = λ s. raised-Lacks d s (omega arith) in
    let comma : (t : Text) → Lacks d t → Lacks d (b',' ∷ t) = λ t k. ((λ x. omega arith), k) in
    let joined : (s t : Text) → Lacks d t → Lacks d (raised s ++ b',' ∷ t) =
      λ s t k. All-append (λ c. c ≢ d) (raised s) (b',' ∷ t) (lacks s) (comma t k) in
    (
      (λ x. omega arith),
      All-append (λ c. c ≢ d) (inside e) (b'}' ∷ [])
          (joined e.timestamp _
            (joined e.action _ (joined e.status (raised e.detail) (lacks e.detail))))
          ((λ x. omega arith), tt),
    )

pub unmarshal-marshal : (e : Event) (line : Text) → marshal e ≡ done line → unmarshal line ≡ some e
unfolding marshal unmarshal lowered
unmarshal-marshal e line h =
    let d = raised e.detail ++ b'}' ∷ [] in
    let c = raised e.status ++ b',' ∷ d in
    let b = raised e.action ++ b',' ∷ c in
    let end : Text = b'}' ∷ [] in
    let one =
      append_assoc (raised e.timestamp)
        (b',' ∷ (raised e.action ++ b',' ∷ (raised e.status ++ b',' ∷ raised e.detail))) end in
    let two =
      append_assoc (raised e.action) (b',' ∷ (raised e.status ++ b',' ∷ raised e.detail)) end in
    let three = append_assoc (raised e.status) (b',' ∷ raised e.detail) end in
    let shape : line ≡ (b'{' ∷ raised e.timestamp) ++ b',' ∷ b =
      ground (arith, h, one, two, three) in
    let lacks : (s : Text) → Lacks b',' (raised s) = λ s. raised-Lacks b',' s (omega arith) in
    rw
      (
        shape,
        split_on-append b',' (b'{' ∷ raised e.timestamp) b ((λ x. omega arith), lacks e.timestamp),
        split_on-append b',' (raised e.action) c (lacks e.action),
        split_on-append b',' (raised e.status) d (lacks e.status),
        split_on-Lacks b',' d
            (All-append _ (raised e.detail) _ (lacks e.detail) ((λ x. omega arith), tt)),
      )
      (rw
        (
          lowered-raised_all e.timestamp,
          lowered-raised_all e.action,
          lowered-raised_all e.status,
          lowered-raised e.detail end,
          append-nil e.detail,
        )
        refl)

pub marshal-braces :
    (e : Event) (line : Text)
    → marshal e ≡ done line
    → (s : Text) × (line ≡ b'{' ∷ (s ++ b'}' ∷ [])) × Lacks 10 line × Lacks 13 line
unfolding marshal
marshal-braces e line h =
    let shape : line ≡ b'{' ∷ (inside e ++ b'}' ∷ []) = ground (arith, h) in
    (
      inside e,
      shape,
      rw shape (braced-Lacks 10 e (omega arith)),
      rw shape (braced-Lacks 13 e (omega arith)),
    )

abbrev pub codec : EventCodec
codec = record {
  marshal = marshal;
  unmarshal = unmarshal;
  unmarshal-marshal = unmarshal-marshal;
  marshal-braces = marshal-braces;
}
