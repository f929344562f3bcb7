-- ===== src/Sim800/Ftp.antt =====
-- The driver of SIM800 modems (src/modem/at-sim800.c): FTP.
use attentive.Base.{ℕ, zero, suc, Bool, [], ◌∷◌, ◌++◌, leb, if◌then◌else◌, length}
use attentive.Base.Int.{ℤ, pos, minus_one, same_int}
use attentive.Base.Text.{Bytes, codes}
use attentive.Response
use attentive.CString.{Format, lits, int, print_nat}
use attentive.Modem.{
  M, Notice, Scanner, scan, at_set_timeout, at_set_command_scanner, at_command, at_command_simple,
  sleep, not_null, memcpy, payload_of, pure, return, get, set_dev, ◌>>=◌, ◌>>◌,
}
use attentive.Modem.Pdp.{cellular_command_simple_pdp}
use attentive.Sim800.{Sim800}
use attentive.Sim800.Network.{sim800_ops, set_timeout_seconds}

abbrev pub ftp_timeout : ℕ
ftp_timeout = 60

abbrev pub ftpget2_format : Format
ftpget2_format = lits (codes "+FTPGET: 2,") (int ∷ [])

unfoldable pub scanner_ftpget2 : Scanner
scanner_ftpget2 line = elim (scan ftpget2_format line) [
  | [] ↦ Response.unknown
  | cnflength ∷ rest ↦ Response.rawdata_follows_int cnflength
]

module _ (notice : Notice Sim800) where
  unfoldable pub sim800_ftp_open : Bytes → ℕ → Bytes → Bytes → Bool → M Sim800 ℤ
  sim800_ftp_open host port username password passive = do
    at_command_simple notice (codes "AT+FTPCID=1")
    at_command_simple notice (codes "AT+FTPSERV=\"" ++ (host ++ codes "\""))
    at_command_simple notice (codes "AT+FTPPORT=" ++ print_nat port)
    at_command_simple notice (codes "AT+FTPUN=\"" ++ (username ++ codes "\""))
    at_command_simple notice (codes "AT+FTPPW=\"" ++ (password ++ codes "\""))
    at_command_simple notice (codes "AT+FTPMODE=" ++ (if passive then codes "1" else codes "0"))
    at_command_simple notice (codes "AT+FTPTYPE=I")
    pure (pos 0)

  unfoldable pub ftp_wait_loop : ℕ → M Sim800 ℤ
  ftp_wait_loop zero = return minus_one
  ftp_wait_loop (suc rounds) =
      let again = ftp_wait_loop rounds in
      (do
        w ← get
        if same_int w.dev.ftpget1_status (pos 1)
            then return (pos 0)
            else if same_int w.dev.ftpget1_status minus_one
            then (do sleep notice; again)
            else return minus_one)

  unfoldable pub sim800_ftp_get : Bytes → M Sim800 ℤ
  unfolding ftp_wait_loop
  sim800_ftp_get filename = do
    at_command_simple notice (codes "AT+FTPGETPATH=\"/\"")
    at_command_simple notice (codes "AT+FTPGETNAME=\"" ++ (filename ++ codes "\""))
    w ← get
    set_dev (record (w.dev) { ftpget1_status = minus_one })
    cellular_command_simple_pdp (sim800_ops notice) notice (codes "AT+FTPGET=1")
    ftp_wait_loop ftp_timeout

  -- The rounds left are `SIM800_FTP_TIMEOUT - retries`.
  unfoldable pub ftp_getdata_loop : ℕ → Bytes → M Sim800 (ℤ × Bytes)
  ftp_getdata_loop zero buffer = return minus_one
  ftp_getdata_loop (suc rounds) buffer =
      let again = ftp_getdata_loop rounds buffer in
      (do
        at_set_timeout set_timeout_seconds
        at_set_command_scanner scanner_ftpget2
        r ← at_command notice (codes "AT+FTPGET=2," ++ print_nat (length buffer))
        response ← not_null r
        elim (scan ftpget2_format response) [
          | [] ↦ (do
            w ← get
            if same_int w.dev.ftpget1_status (pos 0) then return (pos 0) else return minus_one)
          | cnflength ∷ rest ↦
              (if same_int cnflength (pos 0)
                then (if leb rounds 0 then return minus_one else (do sleep notice; again))
                else (do
                  text ← payload_of response
                  buffer' ← memcpy buffer 0 text cnflength
                  pure (cnflength, buffer')))
        ])

  unfoldable pub sim800_ftp_getdata : Bytes → M Sim800 (ℤ × Bytes)
  unfolding ftp_getdata_loop
  sim800_ftp_getdata buffer = ftp_getdata_loop ftp_timeout buffer

  unfoldable pub sim800_ftp_close : M Sim800 ℤ
  sim800_ftp_close = do at_command_simple notice (codes "AT+FTPQUIT"); pure (pos 0)
