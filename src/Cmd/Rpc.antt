-- ===== src/Cmd/Rpc.antt =====
-- A call of a service through google.golang.org/grpc: a parameter says what becomes of it on the
-- way. The client sees an answer or the text of an error.
use kube_pfs.Base.{◌≡◌, refl, arith, Fallible, done, fail}
use kube_pfs.Status.{Result, Code, ok, err, panic}
use kube_pfs.Text.{Text}

-- The text of a status error, and of the error that a client sees when the server breaks down.
pub record Wire : Type 0 where
  pub status_text : Code → Text → Text
  pub broken : Text

-- A call arrives and is answered, or is lost on the way to the server, or its answer is lost on the
-- way back.
pub data Delivery : Type 0 where
  answered : Delivery
  lost unanswered : Text → Delivery

-- What the client makes of an answer.
abbrev pub received : {A : Type 0} → Wire → Result A → Fallible A
received wire (ok a) = done a
received wire (err c m) = fail (wire.status_text c m)
received wire panic = fail wire.broken

abbrev pub rpc : {A S : Type 0} → Wire → Delivery → (S → Result A × S) → S → Fallible A × S
rpc wire answered call s = let (r, t) = call s in (received wire r, t)
rpc wire (lost e) call s = (fail e, s)
rpc wire (unanswered e) call s = (fail e, (call s).1)

received-done :
    {A : Type 0} (wire : Wire) (r : Result A) (a : A) → received wire r ≡ done a → r ≡ ok a
received-done wire (ok b) a h = ground (arith, h)
received-done wire (err c m) a h = absurd (cc h)
received-done wire panic a h = absurd (cc h)

-- A call that is answered without an error has arrived and has succeeded.
pub rpc-done :
    {A S : Type 0} (wire : Wire) (way : Delivery) (call : S → Result A × S) (s : S) (a : A)
    → (rpc wire way call s).0 ≡ done a
    → (way ≡ answered) × ((call s).0 ≡ ok a) × ((rpc wire way call s).1 ≡ (call s).1)
rpc-done wire answered call s a h = (refl, received-done wire (call s).0 a h, refl)
rpc-done wire (lost e) call s a h = absurd (cc h)
rpc-done wire (unanswered e) call s a h = absurd (cc h)
