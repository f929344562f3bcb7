-- ===== src/Modem/Generic.antt =====
-- The driver of modems of no known kind (src/modem/generic.c).
use attentive.Base.{Option, none, some}
use attentive.Modem.{Cellular, crash}
use attentive.Modem.Pdp.{Ops}

module _ {D : Type 0} where
  -- `generic_ops` has neither attach nor detach. The pointers of the PDP calls are NULL.
  unfoldable pub generic_ops : Ops D
  generic_ops = record { attach = none; detach = none; pdp_open = λ apn. crash; pdp_close = crash }

-- `cellular_generic_alloc`, with what `malloc` returned: memory as it comes.
unfoldable pub cellular_generic_alloc : Option Cellular → Option Cellular
cellular_generic_alloc none = none
cellular_generic_alloc (some raw) = some raw
