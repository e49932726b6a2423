-- ===== src/Mds/Stripe/Rotation.antt =====
-- What `nextStripeLayout` of pkg/mds/service.go answers, and when it panics.
use mathlib.Core.List.{Perm, perm_append_comm}
use mathlib.Core.Path.{subst, ap₂}
use kube_pfs.Base.{
  ℕ, zero, suc, ◌+◌, ◌-◌, ◌%◌, ◌^◌, ◌<◌, ◌≤◌, ◌≡◌, ◌≢◌, ◌∙◌, ◌↔◌, refl, ap, List, [], ◌∷◌, ◌++◌,
  arith, length, get_or, take, drop, take-append-drop, take_of_length-le, length-drop,
}
use kube_pfs.Mds.State.{Service}
use kube_pfs.Mds.Stripe.{rotation, stripe_start, next_stripe_layout}
use kube_pfs.Status.{ok, panic}
use kube_pfs.Text.{Text}

drop-get_or :
    (j : ℕ) (ids : List Text) → j < length ids → drop j ids ≡ get_or ids j [] ∷ drop (suc j) ids
drop-get_or j [] h = elim h [ ]
drop-get_or zero (x ∷ ids) h = refl
drop-get_or (suc j) (x ∷ ids) h = drop-get_or j ids (omega arith)

module _ (ids : List Text) where
  -- The rounds before the index wraps around.
  rotation_before :
      (start i rounds : ℕ)
      → start + i + rounds ≤ length ids
      → rotation ids start i rounds ≡ take rounds (drop (start + i) ids)
  unfolding rotation
  rotation_before start i zero h = refl
  rotation_before start i (suc rounds) h =
      let ih = rotation_before start (i + 1) rounds (omega arith) in
      let here : (start + i) % length ids ≡ start + i = grind arith in
      let next : start + (i + 1) ≡ suc (start + i) = omega arith in
      rw (drop-get_or (start + i) ids (omega arith), here, ih, next)

  -- The rounds behind it.
  rotation_behind :
      (start i j rounds : ℕ)
      → start + i ≡ length ids + j
      → j + rounds ≤ length ids
      → rotation ids start i rounds ≡ take rounds (drop j ids)
  unfolding rotation
  rotation_behind start i j zero e h = refl
  rotation_behind start i j (suc rounds) e h =
      let ih = rotation_behind start (i + 1) (suc j) rounds (omega arith) (omega arith) in
      let here : (start + i) % length ids ≡ j = grind arith in
      rw (drop-get_or j ids (omega arith), here, ih)

  rotation-add :
      (start i a b : ℕ)
      → rotation ids start i (a + b) ≡ rotation ids start i a ++ rotation ids start (i + a) b
  unfolding rotation
  rotation-add start i zero b =
      let none_before : 0 + b ≡ b = omega arith in
      let same : i + 0 ≡ i = omega arith in rw (none_before, same)
  rotation-add start i (suc a) b =
      let one_before : suc a + b ≡ suc (a + b) = omega arith in
      let next : i + 1 + a ≡ i + suc a = omega arith in
      rw (one_before, rotation-add start (i + 1) a b, next)

  -- A whole turn is the list cut at the start, with its parts exchanged.
  pub rotation_turn :
      (start : ℕ)
      → start < length ids
      → rotation ids start 0 (length ids) ≡ drop start ids ++ take start ids
  rotation_turn start h =
      let behind = length ids - start in
      let whole : length ids ≡ behind + start = omega arith in
      let here : start + 0 ≡ start = omega arith in
      let first : rotation ids start 0 behind ≡ drop start ids =
        rotation_before start 0 behind (omega arith)
        ∙ rw here
            (take_of_length-le behind (drop start ids) (omega (arith, length-drop start ids))) in
      let last : rotation ids start (0 + behind) start ≡ take start ids =
        rotation_behind start (0 + behind) 0 start (omega arith) (omega arith) in
      ap (rotation ids start 0) whole ∙ rotation-add start 0 behind start ∙ ap₂ (◌++◌) first last

module _ {Db : Type 0} (s : Service Db) where
  -- The targets, from the one at the counter on.
  abbrev pub turned : List Text
  turned = drop (s.rr % length s.ost_ids) s.ost_ids ++ take (s.rr % length s.ost_ids) s.ost_ids

  -- While the counter is below 2^63 and there is a target, the layout lists the targets from the
  -- one at the counter on, around to the one before it, which is every target as often as it is
  -- configured; and the counter grows by one.
  pub next_stripe_layout-rotates :
      0 < length s.ost_ids
      → s.rr < 2 ^ 63
      → (next_stripe_layout s
          ≡ (ok (record { stripe_size_bytes = s.stripe_sz; ost_ids = turned }), s.rr + 1))
        × Perm turned s.ost_ids
  unfolding next_stripe_layout stripe_start
  next_stripe_layout-rotates h k =
      let start = s.rr % length s.ost_ids in
      let turn = rotation_turn s.ost_ids start (omega arith) in
      let before : ((s.rr + 1) % 2 ^ 64 + 2 ^ 64 - 1) % 2 ^ 64 ≡ s.rr = omega arith in
      let after : (s.rr + 1) % 2 ^ 64 ≡ s.rr + 1 = omega arith in
      (
        ground (arith, turn, before, after),
        subst (Perm turned) (take-append-drop start s.ost_ids)
            (perm_append_comm (drop start s.ost_ids) (take start s.ost_ids)),
      )

  -- From 2^63 on, the counter is a negative int, and the handler panics unless the number of
  -- targets divides it.
  pub next_stripe_layout-panics :
      0 < length s.ost_ids
      → s.rr < 2 ^ 64
      → ((next_stripe_layout s).0 ≡ panic)
        ↔ ((2 ^ 63 ≤ s.rr) × ((2 ^ 64 - s.rr) % length s.ost_ids ≢ 0))
  unfolding next_stripe_layout stripe_start
  next_stripe_layout-panics h k =
      let before : ((s.rr + 1) % 2 ^ 64 + 2 ^ 64 - 1) % 2 ^ 64 ≡ s.rr = omega arith in
      (λ e. ground (arith, before), λ e. ground (arith, before))
