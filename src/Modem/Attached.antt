-- ===== src/Modem/Attached.antt =====
-- A modem that was attached (src/cellular.c).
use attentive.Base.{◌≡◌, refl, sym, ap, true, false, some, inl, arith}
use mathlib.Core.Path.{subst}
use attentive.Base.Int.{ℤ, pos}
use attentive.Base.Text.{Bytes}
use attentive.Modem.{World, Cellular, M, done, call}
use attentive.Modem.Pdp.{Ops, cellular_pdp_success}
use attentive.Modem.Attach.{cellular_attach}
use attentive.Modem.Backoff.{IsBackedOff}
use attentive.Modem.Keeps.{ComesBack}

-- The counters of a modem that was just attached.
abbrev pub fresh_modem : Bytes → Cellular
fresh_modem apn = record { attached = true; apn = apn; pdp_failures = 0; pdp_threshold = 3 }

module _ {D : Type 0} where
  -- Attaching a modem that is not attached, with a driver whose attach comes back with whatever
  -- result and leaves the common state alone, as that of the Telit driver does, returns what that
  -- call of attach returns; the modem then counts as attached with fresh counters, also where the
  -- result is an error, and attaching again returns 0 and does nothing.
  pub attach-attach :
      (ops : Ops D) (f : M D ℤ) (apn other : Bytes) (w : World D)
      → ops.attach ≡ some f
      → w.modem.attached ≡ false
      → ComesBack f
      → (r : ℤ) × (v : World D) × (call f (record w { modem = fresh_modem apn }) ≡ (done r, v))
        × (cellular_attach ops apn w ≡ (done r, v))
        × (v.modem ≡ fresh_modem apn)
        × IsBackedOff v.modem
        × (cellular_attach ops other v ≡ (done (pos 0), v))
  unfolding cellular_attach cellular_pdp_success
  attach-attach ops f apn other w isf off back =
      let (r, v, e, same) = back (record w { modem = fresh_modem apn }) in
      (
        r,
        v,
        e,
        rw (off, isf) e,
        same,
        subst IsBackedOff (sym same)
            (record { raised = 0; threshold = refl; below = omega arith; earned = inl refl }),
        rw (ap (λ (c : Cellular). c.attached) same) refl,
      )
