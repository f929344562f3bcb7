-- ===== src/Telit2/Ftp.antt =====
-- The driver of Telit modems (src/modem/telit2.c): serial number, FTP and location.
use attentive.Base.{
  ℕ, zero, suc, ◌+◌, Bool, none, some, [], ◌∷◌, ◌++◌, leb, if◌then◌else◌, length, drop,
}
use attentive.Base.Int.{to_int, ℤ, pos, minus_one, same_int}
use attentive.Base.Text.{Bytes, codes, starts_with}
use attentive.Response
use attentive.CString.{
  print_int, Format, lits, int, skip_int, print_nat, c_string, strchr, skip_spaces,
}
use attentive.Modem.{
  M, Notice, Scanner, scan, at_set_timeout, at_set_command_scanner, at_command, at_command_simple,
  at_simple_scanf, sleep, not_null, memcpy, payload_of, pure, return, get, set_dev, ◌>>=◌, ◌>>◌,
}
use attentive.Modem.Pdp.{cellular_command_simple_pdp}
use attentive.Modem.Common.{scan_serial}
use attentive.Telit2.{Telit2, telit2_ops}

abbrev pub ftp_timeout : ℕ
ftp_timeout = 60

abbrev pub locate_timeout : ℕ
locate_timeout = 150

abbrev pub ftprecv_format : Format
ftprecv_format = lits (codes "#FTPRECV: ") (int ∷ [])

unfoldable pub scanner_ftprecv : Scanner
scanner_ftprecv line = elim (scan ftprecv_format line) [
  | [] ↦ Response.unknown
  | bytes ∷ rest ↦ Response.rawdata_follows_int bytes
]

module _ {F : Type 0} (notice : Notice (Telit2 F)) where
  -- `snprintf(fmt, 24, "#CCID: %%[0-9]%ds", len) >= 24`; the format matches its prefix first.
  unfoldable pub telit2_op_iccid : Bytes → M (Telit2 F) Bytes
  telit2_op_iccid buf =
      if leb 24 (14 + length (print_int (to_int (length buf)))) then return minus_one else (do
        at_set_timeout 5
        r ← at_command notice (codes "AT#CCID")
        response ← not_null r
        if starts_with (codes "#CCID:") (c_string response)
            then scan_serial (skip_spaces (drop 6 (c_string response))) buf
            else return minus_one)

  unfoldable pub telit2_ftp_open : Bytes → ℕ → Bytes → Bytes → Bool → M (Telit2 F) ℤ
  telit2_ftp_open host port username password passive = do
    cellular_command_simple_pdp (telit2_ops notice) notice (
        codes "AT#FTPOPEN="
        ++ (host
            ++ (codes ":"
                ++ (print_nat port
                    ++ (codes ","
                        ++ (username
                            ++ (codes ","
                                ++ (password
                                    ++ (codes ","
                                        ++ (if passive then codes "1" else codes "0"))))))))))
    pure (pos 0)

  unfoldable pub telit2_ftp_get : Bytes → M (Telit2 F) ℤ
  telit2_ftp_get filename = do
    at_set_timeout 90
    at_command_simple notice (codes "AT#FTPGETPKT=\"" ++ (filename ++ codes "\",0"))
    pure (pos 0)

  -- Behind the loop of `telit2_ftp_getdata`: error or end of file?
  unfoldable pub ftp_status : M (Telit2 F) (ℤ × Bytes)
  ftp_status = do
    r ← at_command notice (codes "AT#FTPGETPKT?")
    response ← not_null r
    if starts_with (codes "#FTPGETPKT: ") response
        then (elim (strchr response b',') [
          | none ↦ return minus_one
          | some rest ↦ (do
            eof ← at_simple_scanf (some (drop 1 rest)) (skip_int ∷ lits (codes ",") (int ∷ []))
            if same_int eof (pos 1) then return (pos 0) else return minus_one)
        ])
        else return minus_one

  -- The rounds left are `TELIT2_FTP_TIMEOUT - retries`. The result is the count that is returned,
  -- with the buffer.
  unfoldable pub ftp_getdata_loop : ℕ → Bytes → M (Telit2 F) (ℤ × Bytes)
  ftp_getdata_loop zero buffer = return minus_one
  ftp_getdata_loop (suc rounds) buffer =
      let again = ftp_getdata_loop rounds buffer in
      (do
        at_set_timeout 150
        at_set_command_scanner scanner_ftprecv
        r ← at_command notice (codes "AT#FTPRECV=" ++ print_nat (length buffer))
        response ← not_null r
        elim (scan ftprecv_format response) [
          | [] ↦ ftp_status
          | bytes ∷ rest ↦
              (if same_int bytes (pos 0)
                then (if leb rounds 0 then return minus_one else (do sleep notice; again))
                else (do
                  text ← payload_of response
                  buffer' ← memcpy buffer 0 text bytes
                  pure (bytes, buffer')))
        ])

  unfoldable pub telit2_ftp_getdata : Bytes → M (Telit2 F) (ℤ × Bytes)
  unfolding ftp_getdata_loop
  telit2_ftp_getdata buffer = ftp_getdata_loop ftp_timeout buffer

  unfoldable pub locate_loop : ℕ → M (Telit2 F) (F × F × F)
  locate_loop zero = return minus_one
  locate_loop (suc rounds) =
      let again = locate_loop rounds in
      (do
        sleep notice
        w ← get
        if same_int w.dev.locate_status (pos 200)
            then pure (w.dev.latitude, w.dev.longitude, w.dev.altitude)
            else if same_int w.dev.locate_status minus_one
            then again
            else return minus_one)

  -- The position is what the code stores through its arguments where it returns 0.
  unfoldable pub telit2_locate : M (Telit2 F) (F × F × F)
  unfolding locate_loop
  telit2_locate = do
    w ← get
    set_dev (record (w.dev) { locate_status = minus_one })
    at_set_timeout 150
    cellular_command_simple_pdp (telit2_ops notice) notice (codes "AT#AGPSSND")
    locate_loop locate_timeout

  unfoldable pub telit2_ftp_close : M (Telit2 F) ℤ
  telit2_ftp_close = do
    at_set_timeout 90
    at_command_simple notice (codes "AT#FTPCLOSE")
    pure (pos 0)
