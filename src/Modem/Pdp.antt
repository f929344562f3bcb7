-- ===== src/Modem/Pdp.antt =====
-- PDP contexts with exponential backoff (src/modem/at-common.c, at-common.h). The two counters are
-- ints that are taken not to overflow.
use attentive.Base.{ℕ, ◌+◌, ◌*◌, Bool, Option, none, some, [], leb, if◌then◌else◌}
use attentive.Base.Int.{ℤ, pos, minus_one, same_int}
use attentive.Base.Text.{Bytes}
use attentive.CString.{same_string}
use attentive.Modem.{
  Cellular, M, Notice, call, get, set_modem, pure, return, at_command, ◌>>=◌, ◌>>◌,
}

abbrev pub pdp_retry_threshold_initial : ℕ
pdp_retry_threshold_initial = 3

abbrev pub pdp_retry_threshold_multiplier : ℕ
pdp_retry_threshold_multiplier = 2

-- The members of `struct cellular_ops` that the shared code calls.
pub record Ops (D : Type 0) : Type 0 where
  pub attach : Option (M D ℤ)
  pub detach : Option (M D ℤ)
  pub pdp_open : Bytes → M D ℤ
  pub pdp_close : M D ℤ

module _ {D : Type 0} where
  unfoldable pub cellular_pdp_success : M D (Unit {0})
  cellular_pdp_success = do
    w ← get
    set_modem (record (w.modem) { pdp_failures = 0; pdp_threshold = pdp_retry_threshold_initial })

  unfoldable pub cellular_pdp_failure : M D (Unit {0})
  cellular_pdp_failure = do
    w ← get
    set_modem (record (w.modem) { pdp_failures = w.modem.pdp_failures + 1 })

  module _ (ops : Ops D) where
    -- Close a context that may be stuck, and back off.
    unfoldable pub close_stuck : M D (Unit {0})
    close_stuck = do
      closed ← call ops.pdp_close
      w ← get
      set_modem (record (w.modem) {
        pdp_threshold = w.modem.pdp_threshold * (1 + pdp_retry_threshold_multiplier);
      })

    -- The first `if`
    unfoldable pub back_off : Cellular → M D (Unit {0})
    unfolding close_stuck
    back_off c = if leb c.pdp_threshold c.pdp_failures then close_stuck else pure tt

    -- What follows the call of `pdp_open`
    unfoldable pub after_open : ℤ → M D ℤ
    unfolding cellular_pdp_failure
    after_open opened =
        if same_int opened (pos 0) then pure (pos 0) else (do cellular_pdp_failure; pure minus_one)

    unfoldable pub open_context : M D ℤ
    unfolding after_open
    open_context = do w ← get; opened ← call (ops.pdp_open w.modem.apn); after_open opened

    unfoldable pub cellular_pdp_request : M D ℤ
    unfolding back_off open_context
    cellular_pdp_request = do w ← get; back_off w.modem; open_context

    -- `netresponse == NULL || strcmp(netresponse, "")`
    unfoldable pub is_failure : Option Bytes → Bool
    is_failure none = Bool.true
    is_failure (some response) = if same_string response [] then Bool.false else Bool.true

    -- `cellular_command_simple_pdp`
    unfoldable pub cellular_command_simple_pdp : Notice D → Bytes → M D (Unit {0})
    unfolding cellular_pdp_request is_failure cellular_pdp_success cellular_pdp_failure
    cellular_command_simple_pdp notice line = do
      requested ← call cellular_pdp_request
      if same_int requested (pos 0)
          then (do
            netresponse ← at_command notice line
            if is_failure netresponse
                then (do cellular_pdp_failure; return minus_one)
                else cellular_pdp_success)
          else return minus_one
