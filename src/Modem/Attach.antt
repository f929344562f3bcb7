-- ===== src/Modem/Attach.antt =====
-- Attaching a modem to a channel and detaching it (src/cellular.c).
use attentive.Base.{true, false, Option, none, some, if◌then◌else◌}
use attentive.Base.Int.{ℤ, pos}
use attentive.Base.Text.{Bytes}
use attentive.Modem.{M, call, get, set_modem, pure, ◌>>=◌, ◌>>◌}
use attentive.Modem.Pdp.{Ops, cellular_pdp_success}

module _ {D : Type 0} where
  -- A member of `ops`, if it is not NULL.
  abbrev pub call_if_set : Option (M D ℤ) → M D ℤ
  call_if_set none = pure (pos 0)
  call_if_set (some f) = call f

  unfoldable pub cellular_attach : Ops D → Bytes → M D ℤ
  unfolding cellular_pdp_success
  cellular_attach ops apn = do
    w ← get
    if w.modem.attached then pure (pos 0) else (do
      set_modem (record (w.modem) { attached = true; apn = apn })
      cellular_pdp_success
      call_if_set ops.attach)

  unfoldable pub cellular_detach : Ops D → M D ℤ
  cellular_detach ops = do
    w ← get
    if w.modem.attached
        then (do
          result ← call_if_set ops.detach
          v ← get
          set_modem (record (v.modem) { attached = false })
          pure result)
        else pure (pos 0)
