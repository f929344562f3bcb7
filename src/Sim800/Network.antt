-- ===== src/Sim800/Network.antt =====
-- The driver of SIM800 modems (src/modem/at-sim800.c): attaching and PDP contexts. `vTaskDelay` of a
-- second is `sleep`.
use attentive.Base.{
  ℕ, zero, suc, true, false, none, some, [], ◌∷◌, ◌++◌, leb, if◌then◌else◌, length, drop,
}
use attentive.Base.Int.{ℤ, pos, minus_one, same_int}
use attentive.Base.Text.{Bytes, codes, starts_with}
use attentive.Response
use attentive.CString.{Format, lits, int, same_string, strstr}
use attentive.Modem.{
  M, Notice, Scanner, scan, at_set_timeout, at_set_command_scanner, at_set_callbacks, at_command,
  at_command_simple, sleep, init_modem, not_null, pure, return, call, ◌>>=◌, ◌>>◌,
}
use attentive.Modem.Pdp.{Ops}
use attentive.Sim800.{Sim800}

abbrev pub autobaud_attempts : ℕ
autobaud_attempts = 10

abbrev pub set_timeout_seconds : ℕ
set_timeout_seconds = 10

unfoldable pub scanner_cipstatus : Scanner
scanner_cipstatus line =
    if same_string line (codes "OK")
    then Response.intermediate
    else if starts_with (codes "C: 5") line
    then Response.final
    else Response.unknown

abbrev pub ip_format : Format
ip_format = int ∷ lits (codes ".") (int ∷ lits (codes ".") (int ∷ lits (codes ".") (int ∷ [])))

unfoldable pub scanner_cifsr : Scanner
scanner_cifsr line =
    if leb 4 (length (scan ip_format line)) then Response.final_ok else Response.unknown

unfoldable pub scanner_cipshut : Scanner
scanner_cipshut line =
    if same_string line (codes "SHUT OK") then Response.final_ok else Response.unknown

module _ (notice : Notice Sim800) where
  unfoldable pub config_loop : Bytes → Bytes → ℕ → M Sim800 ℤ
  config_loop option value zero = return minus_one
  config_loop option value (suc attempts) =
      let again = config_loop option value attempts in
      let expected = codes "+" ++ (option ++ (codes ": " ++ value)) in
      (do
        setting ← at_command notice (codes "AT+" ++ (option ++ (codes "=" ++ value)))
        r ← at_command notice (codes "AT+" ++ (option ++ codes "?"))
        response ← not_null r
        if leb 16 (length expected)
            then return minus_one
            else if same_string response expected
            then return (pos 0)
            else (do sleep notice; again))

  unfoldable pub sim800_config : Bytes → Bytes → ℕ → M Sim800 ℤ
  unfolding config_loop
  sim800_config option value attempts = do at_set_timeout 10; config_loop option value attempts

  -- "AT" until the modem replies
  unfoldable pub autobaud : ℕ → M Sim800 (Unit {0})
  autobaud zero = pure tt
  autobaud (suc attempts) =
      let again = autobaud attempts in
      (do
        response ← at_command notice (codes "AT")
        elim response [ none ↦ again | some text ↦ pure tt ])

  unfoldable pub sim800_attach : M Sim800 ℤ
  unfolding autobaud
  sim800_attach = do
    at_set_callbacks true
    at_set_timeout 2
    autobaud autobaud_attempts
    echo ← at_command notice (codes "ATE0")
    at_command_simple notice (codes "ATE0")
    init_modem notice (
        codes "AT+IFC=0,0"
        ∷ codes "AT+CMEE=2"
        ∷ codes "AT+CLTS=0"
        ∷ codes "AT+CIURC=0"
        ∷ codes "AT&W0"
        ∷ codes "AT+BTSPPCFG=\"TT\",1"
        ∷ codes "AT+BTPAIRCFG=0"
        ∷ codes "AT+BTSPPGET=1"
        ∷ codes "AT+BTPOWER=1"
        ∷ [])
    pure (pos 0)

  unfoldable pub sim800_detach : M Sim800 ℤ
  sim800_detach = do at_set_callbacks false; pure (pos 0)

  unfoldable pub sim800_ipstatus : M Sim800 ℤ
  sim800_ipstatus = do
    at_set_timeout 10
    at_set_command_scanner scanner_cipstatus
    r ← at_command notice (codes "AT+CIPSTATUS")
    response ← not_null r
    elim (strstr response (codes "STATE: ")) [
      | none ↦ return minus_one
      | some state ↦
          (if starts_with (codes "IP STATUS") (drop 7 state)
            then pure (pos 0)
            else if starts_with (codes "IP PROCESSING") (drop 7 state)
            then pure (pos 0)
            else return minus_one)
    ]

  unfoldable pub sim800_pdp_open : Bytes → M Sim800 ℤ
  unfolding sim800_ipstatus
  sim800_pdp_open apn = do
    at_set_timeout set_timeout_seconds
    at_command_simple notice (codes "AT+SAPBR=3,1,APN,\"" ++ (apn ++ codes "\""))
    bearer ← at_command notice (codes "AT+SAPBR=1,1")
    status ← call sim800_ipstatus
    if same_int status (pos 0) then pure (pos 0) else (do
      task ← at_command notice (codes "AT+CSTT=\"" ++ (apn ++ codes "\""))
      context ← at_command notice (codes "AT+CIICR")
      at_set_command_scanner scanner_cifsr
      address ← at_command notice (codes "AT+CIFSR")
      sim800_ipstatus)

  unfoldable pub sim800_pdp_close : M Sim800 ℤ
  sim800_pdp_close = do
    at_set_timeout set_timeout_seconds
    at_set_command_scanner scanner_cipshut
    at_command_simple notice (codes "AT+CIPSHUT")
    pure (pos 0)

  -- The members of `sim800_ops` that the shared code calls.
  unfoldable pub sim800_ops : Ops Sim800
  sim800_ops = record {
    attach = some sim800_attach;
    detach = some sim800_detach;
    pdp_open = sim800_pdp_open;
    pdp_close = sim800_pdp_close;
  }
