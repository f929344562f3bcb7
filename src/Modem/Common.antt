-- ===== src/Modem/Common.antt =====
-- The operations of 3GPP TS 27.007 that all drivers share (src/modem/at-common.c). A function that
-- fills `buf` ends in `done` with the new contents where the code returns 0.
use attentive.Base.{
  ◌+◌, ◌-◌, Option, none, some, [], ◌∷◌, ◌++◌, ltb, leb, if◌then◌else◌, length, set, drop,
}
use attentive.Base.Int.{to_int, ℤ, minus_one}
use attentive.Base.Text.{Bytes, codes}
use attentive.CString.{print_int, lits, int, skip_int, is_digit, c_string}
use attentive.Modem.{
  M, Notice, at_set_timeout, at_command, at_simple_scanf, pure, return, crash, ◌>>=◌, ◌>>◌,
}

-- `%[0-9]`: the digits at the front.
unfoldable pub leading_digits : Bytes → Bytes
leading_digits [] = []
leading_digits (c ∷ cs) = if is_digit c then c ∷ leading_digits cs else []

-- A string with its terminator, written to the front of an array that must hold it.
unfoldable pub write_string : Bytes → Bytes → Option Bytes
write_string text buf =
    if ltb (length text) (length buf) then some (text ++ (0 ∷ drop (length text + 1) buf)) else none

module _ {D : Type 0} where
  -- `at_simple_scanf(response, fmt, buf); buf[len-1] = '\0';` for a format `%[0-9]<len>s`: the width
  -- stands behind the conversion, so nothing bounds it, and it is literal text.
  unfoldable pub scan_serial : Bytes → Bytes → M D Bytes
  unfolding leading_digits write_string
  scan_serial text buf = elim (leading_digits text) [
    | [] ↦ return minus_one
    | d ∷ ds ↦ elim (write_string (d ∷ ds) buf) [
      | none ↦ crash
      | some buf' ↦ pure (set buf' (length buf - 1) 0)
    ]
  ]

  unfoldable pub scan_serial_response : Option Bytes → Bytes → M D Bytes
  unfolding scan_serial
  scan_serial_response none buf = return minus_one
  scan_serial_response (some response) buf = scan_serial (c_string response) buf

  module _ (notice : Notice D) where
    -- `snprintf(fmt, sizeof(fmt), "%%[0-9]%ds", len) >= sizeof(fmt)`
    unfoldable pub cellular_op_imei : Bytes → M D Bytes
    unfolding scan_serial_response
    cellular_op_imei buf =
        if leb 16 (7 + length (print_int (to_int (length buf)))) then return minus_one else (do
          at_set_timeout 1
          response ← at_command notice (codes "AT+CGSN")
          scan_serial_response response buf)

    unfoldable pub cellular_op_iccid : Bytes → M D Bytes
    unfolding scan_serial_response
    cellular_op_iccid buf =
        if leb 16 (7 + length (print_int (to_int (length buf)))) then return minus_one else (do
          at_set_timeout 5
          response ← at_command notice (codes "AT+CCID")
          scan_serial_response response buf)

    unfoldable pub cellular_op_creg : M D ℤ
    cellular_op_creg = do
      at_set_timeout 1
      response ← at_command notice (codes "AT+CREG?")
      at_simple_scanf response (lits (codes "+CREG: ") (skip_int ∷ lits (codes ",") (int ∷ [])))

    unfoldable pub cellular_op_rssi : M D ℤ
    cellular_op_rssi = do
      at_set_timeout 1
      response ← at_command notice (codes "AT+CSQ")
      at_simple_scanf response (lits (codes "+CSQ: ") (int ∷ lits (codes ",") (skip_int ∷ [])))
