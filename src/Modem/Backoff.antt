-- ===== src/Modem/Backoff.antt =====
-- PDP requests that keep failing: how the threshold grows.
use attentive.Base.{
  refl, ℕ, zero, suc, ◌+◌, ◌*◌, ◌^◌, ◌≤◌, ◌<◌, ◌≡◌, ◌⊎◌, ap, ◌∙◌, true, Bool-cases, inl, inr, leb,
  arith, if◌then◌else◌,
}
use mathlib.Core.Path.{subst, sym}
use native.Mathlib.Nat.{pow-suc, one-le-pow}
use attentive.Base.Int.{ℤ, pos, minus_one, same_int}
use attentive.Base.Text.{Bytes}
use attentive.Modem.{World, Cellular, Outcome, done, returned, fault, unfinished, call, >>=-done}
use attentive.Modem.Keeps.{ComesBack}
use attentive.Modem.Pdp.{
  Ops, back_off, close_stuck, open_context, after_open, cellular_pdp_failure, cellular_pdp_request,
}

-- The threshold is three times the `raised`-th power of three and is not exceeded. It was raised only
-- once the failures had reached a third of it.
pub record IsBackedOff (c : Cellular) : Type 0 where
  pub raised : ℕ
  pub threshold : c.pdp_threshold ≡ 3 * 3 ^ raised
  pub below : c.pdp_failures ≤ c.pdp_threshold
  pub earned : (raised ≡ 0) ⊎ (3 ^ raised ≤ c.pdp_failures)

-- What the first part of a request makes of the counters.
abbrev raised_counters : Cellular → Cellular
raised_counters c = record c {
  pdp_threshold =
      if leb c.pdp_threshold c.pdp_failures then c.pdp_threshold * 3 else c.pdp_threshold;
}

abbrev failed_counters : Cellular → Cellular
failed_counters c = record c { pdp_failures = c.pdp_failures + 1 }

-- It leaves room for one more failure.
raised-IsBackedOff :
    (c : Cellular)
    → IsBackedOff c
    → IsBackedOff (raised_counters c) × (c.pdp_failures < (raised_counters c).pdp_threshold)
raised-IsBackedOff c h = elim (Bool-cases (leb c.pdp_threshold c.pdp_failures)) [
  | inl full ↦ (
    record {
      raised = suc h.raised;
      threshold = rw full (omega (arith, h.threshold, pow-suc 3 h.raised));
      below = rw full (omega (arith, h.below, pos3));
      earned = inr (omega (arith, h.threshold, full_le full, pow-suc 3 h.raised));
    },
    rw full (omega (arith, h.below, pos3)),
  )
  | inr calm ↦ (
    record {
      raised = h.raised;
      threshold = rw calm h.threshold;
      below = rw calm h.below;
      earned = h.earned;
    },
    rw calm (ground arith),
  )
]
  where
    pos3 : 0 < c.pdp_threshold
    pos3 = omega (arith, h.threshold, one-le-pow h.raised 3 (omega arith))

    full_le : leb c.pdp_threshold c.pdp_failures ≡ true → c.pdp_threshold ≤ c.pdp_failures
    full_le e = ground arith

failed-IsBackedOff :
    (c : Cellular)
    → IsBackedOff c
    → c.pdp_failures < c.pdp_threshold
    → IsBackedOff (failed_counters c)
failed-IsBackedOff c h room = record {
  raised = h.raised;
  threshold = h.threshold;
  below = omega arith;
  earned = ground (arith, h.earned);
}

-- Whether a request has failed.
unfoldable pub failure_count : Outcome ℤ → ℕ
failure_count (done r) = if same_int r (pos 0) then 0 else 1
failure_count (returned r) = if same_int r (pos 0) then 0 else 1
failure_count fault = 0
failure_count unfinished = 0

module _ {D : Type 0} (ops : Ops D) where
  back_off-counters :
      (w : World D)
      → ComesBack ops.pdp_close
      → (v : World D) × (back_off ops w.modem w ≡ (done tt, v))
        × (v.modem ≡ raised_counters w.modem)
  unfolding back_off close_stuck
  back_off-counters w close = elim (Bool-cases (leb w.modem.pdp_threshold w.modem.pdp_failures)) [
    | inl full ↦
        let (r, v, e, same) = close w in
        (
          record v { modem = record (v.modem) { pdp_threshold = v.modem.pdp_threshold * 3 } },
          rw full (>>=-done (call ops.pdp_close) _ r w v e),
          rw full (ap (λ (c : Cellular). record c { pdp_threshold = c.pdp_threshold * 3 }) same),
        )
    | inr calm ↦ (w, rw calm, rw calm)
  ]

  -- A request comes back; it has failed, and is counted, or has not.
  request-counters :
      (w : World D)
      → ComesBack ops.pdp_close
      → ((apn : Bytes) → ComesBack (ops.pdp_open apn))
      → (o : Outcome ℤ) × (v : World D) × (cellular_pdp_request ops w ≡ (o, v))
        × (((v.modem ≡ raised_counters w.modem) × (failure_count o ≡ 0))
            ⊎ ((v.modem ≡ failed_counters (raised_counters w.modem)) × (failure_count o ≡ 1)))
  unfolding cellular_pdp_request open_context after_open cellular_pdp_failure failure_count
  request-counters w close opens =
      let (a, e, counters) = back_off-counters w close in
      let (x, b, e', same) = opens a.modem.apn a in
      let begun =
        >>=-done (back_off ops w.modem) (λ _. open_context ops) tt w a e
        ∙ >>=-done (call (ops.pdp_open a.modem.apn)) (after_open ops) x a b e' in
      elim (Bool-cases (same_int x (pos 0))) [
        | inl good ↦ (done (pos 0), b, begun ∙ rw good, inl (same ∙ counters, refl))
        | inr bad ↦ (
          done minus_one,
          record b { modem = failed_counters b.modem },
          begun ∙ rw bad,
          inr (ap failed_counters (same ∙ counters), refl),
        )
      ]

  request-IsBackedOff :
      (w : World D)
      → ComesBack ops.pdp_close
      → ((apn : Bytes) → ComesBack (ops.pdp_open apn))
      → IsBackedOff w.modem
      → IsBackedOff (cellular_pdp_request ops w).1.modem
        × ((cellular_pdp_request ops w).1.modem.pdp_failures
            ≡ w.modem.pdp_failures + failure_count (cellular_pdp_request ops w).0)
  request-IsBackedOff w close opens h =
      let (o, v, e, counters) = request-counters w close opens in
      let (calm, room) = raised-IsBackedOff w.modem h in
      let after : IsBackedOff v.modem
          × (v.modem.pdp_failures ≡ w.modem.pdp_failures + failure_count o) =
        elim counters [
          | inl (same, count) ↦ (
            subst IsBackedOff (sym same) calm,
            omega (arith, ap (λ (c : Cellular). c.pdp_failures) same, count),
          )
          | inr (same, count) ↦ (
            subst IsBackedOff (sym same) (failed-IsBackedOff (raised_counters w.modem) calm room),
            omega (arith, ap (λ (c : Cellular). c.pdp_failures) same, count),
          )
        ] in
      subst
        (λ (x : Outcome ℤ × World D).
          IsBackedOff x.1.modem
          × (x.1.modem.pdp_failures ≡ w.modem.pdp_failures + failure_count x.0))
        (sym e) after

  -- `n` requests in a row, and how many of them fail.
  unfoldable pub requests : ℕ → World D → World D
  requests zero w = w
  requests (suc n) w = requests n (cellular_pdp_request ops w).1

  unfoldable pub failures : ℕ → World D → ℕ
  unfolding failure_count
  failures zero w = 0
  failures (suc n) w =
      let rest = failures n (cellular_pdp_request ops w).1 in
      failure_count (cellular_pdp_request ops w).0 + rest

  -- With operations pdp_open and pdp_close that come back with whatever result and leave the
  -- counters alone, as those of the Telit driver do: n requests in a row from counters that are
  -- backed off leave counters that are backed off, with as many failures more as requests of the n
  -- failed. Backed off means that the threshold is three times a power of three, that the failures
  -- do not exceed it, and that the power is one or is reached by the failures.
  pub requests-IsBackedOff :
      (n : ℕ) (w : World D)
      → ComesBack ops.pdp_close
      → ((apn : Bytes) → ComesBack (ops.pdp_open apn))
      → IsBackedOff w.modem
      → IsBackedOff (requests n w).modem
        × ((requests n w).modem.pdp_failures ≡ w.modem.pdp_failures + failures n w)
  unfolding requests failures
  requests-IsBackedOff zero w close opens h = (h, omega arith)
  requests-IsBackedOff (suc n) w close opens h =
      let (h', one) = request-IsBackedOff w close opens h in
      let (h'', more) = requests-IsBackedOff n (cellular_pdp_request ops w).1 close opens h' in
      (h'', omega (arith, more, one))
