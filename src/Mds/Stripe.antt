-- ===== src/Mds/Stripe.antt =====
-- `nextStripeLayout` of pkg/mds/service.go: each layout starts one target further on.
pub mod Rotation
use kube_pfs.Base.{
  ℕ, zero, suc, ◌+◌, ◌-◌, ◌%◌, ◌^◌, Option, none, some, List, [], ◌∷◌, ltb, ◌==◌, if◌then◌else◌,
  length, get_or,
}
use kube_pfs.Mds.State.{Service}
use kube_pfs.Proto.Metadata.{StripeLayout}
use kube_pfs.Status.{Result, ok, panic}
use kube_pfs.Text.{Text}

-- ordered = append(ordered, s.ostIDs[(start+i)%len(s.ostIDs)]) for the rounds that are left
unfoldable pub rotation : List Text → ℕ → ℕ → ℕ → List Text
rotation ids start i zero = []
rotation ids start i (suc rounds) =
    get_or ids ((start + i) % length ids) [] ∷ rotation ids start (i + 1) rounds

-- int(v) % n for the uint64 v: from 2^63 on, int(v) is v - 2^64, and the remainder is negative
-- or zero. `none` is a negative remainder, an index at which the first round panics.
unfoldable pub stripe_start : ℕ → ℕ → Option ℕ
stripe_start v n =
    if ltb v (2 ^ 63) then some (v % n) else if (2 ^ 64 - v) % n == 0 then some 0 else none

module _ {Db : Type 0} where
  -- The layout, and the new value of the counter `rr`, which is all of the state that it changes.
  unfoldable pub next_stripe_layout : Service Db → Result StripeLayout × ℕ
  next_stripe_layout s =
      let n = length s.ost_ids in
      let rr' = (s.rr + 1) % 2 ^ 64 in
      if n == 0
      then (ok (record { stripe_size_bytes = s.stripe_sz; ost_ids = [] }), s.rr)
      else elim (stripe_start ((rr' + 2 ^ 64 - 1) % 2 ^ 64) n) [
        | none ↦ (panic, rr')
        | some start ↦ (
          ok (record { stripe_size_bytes = s.stripe_sz; ost_ids = rotation s.ost_ids start 0 n }),
          rr',
        )
      ]
