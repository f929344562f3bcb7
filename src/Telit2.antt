-- ===== src/Telit2.antt =====
-- The driver of Telit modems (src/modem/telit2.c): callbacks, attaching, PDP contexts and sockets.
-- `%f` is the type `F` with a conversion that is not part of the program.
pub mod Ftp
pub mod Keeps
pub mod Recv
pub mod Clock
use attentive.Base.{
  ℕ, zero, suc, ◌+◌, ◌-◌, Bool, true, false, Option, none, some, List, [], ◌∷◌, ◌++◌, ltb, leb,
  if◌then◌else◌, length,
}
use attentive.Base.Int.{int_bound, ℤ, pos, minus_one, same_int}
use attentive.Base.Text.{Bytes, codes}
use attentive.Response
use attentive.Response.{ResponseType}
use attentive.Parser.{at_prefix_in_table}
use attentive.CString.{Format, lits, int, skip_int, same_string, print_nat, print_int, c_string}
use attentive.Modem.{
  Outcome, unfinished, M, Notice, Scanner, scan, at_set_timeout, at_set_command_scanner,
  at_expect_dataprompt, at_set_callbacks, at_command, at_command_simple, at_command_raw_simple,
  at_simple_scanf, simple_scanf, sleep, init_modem, not_null, memcpy, payload_of, pure, return,
  crash, get, ◌>>=◌, ◌>>◌,
}
use attentive.Modem.Pdp.{Ops, cellular_command_simple_pdp}
use attentive.Modem.Common.{scan_serial_response}

abbrev pub waitack_timeout : ℕ
waitack_timeout = 60

abbrev pub urc_responses : List Bytes
urc_responses = codes "SRING: " ∷ codes "#AGPSRING: " ∷ []

unfoldable pub scan_line : Bytes → ResponseType
scan_line line = if at_prefix_in_table line urc_responses then Response.urc else Response.unknown

abbrev pub agpsring_format : Format
agpsring_format = lits (codes "#AGPSRING: ") (int ∷ [])

abbrev pub sgact_format : Format
sgact_format =
    lits (codes "#SGACT: ")
      (int ∷ lits (codes ".") (int ∷ lits (codes ".") (int ∷ lits (codes ".") (int ∷ []))))

abbrev pub srecv_format : Format
srecv_format = lits (codes "#SRECV: ") (skip_int ∷ lits (codes ",") (int ∷ []))

abbrev pub si_format : Format
si_format = lits (codes "#SI: ") (
    skip_int
    ∷ lits (codes ",") (
        skip_int
        ∷ lits (codes ",") (skip_int ∷ lits (codes ",") (skip_int ∷ lits (codes ",") (int ∷ [])))))

abbrev pub ss_format : Format
ss_format = lits (codes "#SS: ") (skip_int ∷ lits (codes ",") (int ∷ []))

unfoldable pub scanner_srecv : Scanner
scanner_srecv line = elim (scan srecv_format line) [
  | [] ↦ Response.unknown
  | chunk ∷ rest ↦ Response.rawdata_follows_int chunk
]

-- `struct cellular_telit2`, without the common part.
pub record Telit2 (F : Type 0) : Type 0 where
  pub locate_status : ℤ
  pub latitude : F
  pub longitude : F
  pub altitude : F

module _ {F : Type 0} where
  -- `cnt += bytes`, and the next round. A negative count has faulted before.
  unfoldable pub recv_next :
      (Bytes → ℕ → M (Telit2 F) (ℕ × Bytes))
      → Bytes
      → ℕ
      → Option (ℤ × Bytes)
      → M (Telit2 F) (ℕ × Bytes)
  recv_next again buffer cnt none = pure (cnt, buffer)
  recv_next again buffer cnt (some (ℤ.pos n, buffer')) = again buffer' (cnt + n)
  recv_next again buffer cnt (some (ℤ.negsuc n, buffer')) = crash

  -- The values that the three `%f` stored.
  unfoldable pub set_position : List F → Telit2 F → Telit2 F
  set_position [] d = d
  set_position (a ∷ []) d = record d { latitude = a }
  set_position (a ∷ b ∷ []) d = record d { latitude = a; longitude = b }
  set_position (a ∷ b ∷ c ∷ _) d = record d { latitude = a; longitude = b; altitude = c }

  -- `handle_urc`; `scan_position` is `sscanf(line, "#AGPSRING: %*d,%f,%f,%f", …)`.
  unfoldable pub handle_urc : (Bytes → List F) → Bytes → Telit2 F → Telit2 F
  handle_urc scan_position line d = elim (scan agpsring_format line) [
    | [] ↦ d
    | status ∷ rest ↦ set_position (scan_position line) (record d { locate_status = status })
  ]

  abbrev pub telit2_notice : (Bytes → List F) → Notice (Telit2 F)
  telit2_notice scan_position line d = (handle_urc scan_position line d, [])

  module _ (notice : Notice (Telit2 F)) where
    unfoldable pub telit2_attach : M (Telit2 F) ℤ
    telit2_attach = do
      at_set_callbacks true
      at_set_timeout 1
      first ← at_command notice (codes "AT")
      echo ← at_command notice (codes "ATE0")
      init_modem notice (codes "AT&K0" ∷ codes "AT#SELINT=2" ∷ codes "AT+CMEE=2" ∷ [])
      pure (pos 0)

    unfoldable pub telit2_detach : M (Telit2 F) ℤ
    telit2_detach = do at_set_callbacks false; pure (pos 0)

    unfoldable pub telit2_pdp_open : Bytes → M (Telit2 F) ℤ
    telit2_pdp_open apn = do
      at_set_timeout 5
      at_command_simple notice (codes "AT+CGDCONT=1,IP,\"" ++ (apn ++ codes "\""))
      at_set_timeout 150
      r ← at_command notice (codes "AT#SGACT=1,1")
      response ← not_null r
      if same_string response (codes "+CME ERROR: context already activated")
          then pure (pos 0)
          else (do ip ← simple_scanf (some response) sgact_format 4; pure (pos 0))

    unfoldable pub telit2_pdp_close : M (Telit2 F) ℤ
    telit2_pdp_close = do
      at_set_timeout 150
      at_command_simple notice (codes "AT#SGACT=1,0")
      pure (pos 0)

    -- The members of `telit2_ops` that the shared code calls.
    unfoldable pub telit2_ops : Ops (Telit2 F)
    telit2_ops = record {
      attach = some telit2_attach;
      detach = some telit2_detach;
      pdp_open = telit2_pdp_open;
      pdp_close = telit2_pdp_close;
    }

    unfoldable pub telit2_socket_connect : ℤ → Bytes → ℕ → M (Telit2 F) ℤ
    telit2_socket_connect connid host port = do
      at_set_timeout 5
      at_command_simple notice (codes "AT#SCFGEXT=" ++ (print_int connid ++ codes ",0,0,0,0,0"))
      at_command_simple notice (codes "AT#SCFGEXT2=" ++ (print_int connid ++ codes ",0,0,0,0,0"))
      cellular_command_simple_pdp telit2_ops notice (
          codes "AT#SD="
          ++ (print_int connid
              ++ (codes ",0," ++ (print_nat port ++ (codes "," ++ (host ++ codes ",0,0,1"))))))
      pure (pos 0)

    -- The amount is `length buffer`, which is returned.
    unfoldable pub telit2_socket_send : ℤ → Bytes → M (Telit2 F) ℤ
    telit2_socket_send connid buffer = do
      at_set_timeout 150
      at_expect_dataprompt
      at_command_simple notice
          (codes "AT#SSENDEXT=" ++ (print_int connid ++ (codes "," ++ print_nat (length buffer))))
      at_command_raw_simple notice buffer
      pure (pos (length buffer))

    -- The copy of `bytes` bytes behind the header line of a response.
    unfoldable pub copy_payload : Bytes → ℕ → Bytes → ℤ → M (Telit2 F) (Option (ℤ × Bytes))
    copy_payload buffer cnt response bytes = do
      rest ← payload_of response
      buffer' ← memcpy buffer cnt rest bytes
      pure (some (bytes, buffer'))

    -- What a round does with the response.
    unfoldable pub copy_round : Bytes → ℕ → Option Bytes → M (Telit2 F) (Option (ℤ × Bytes))
    unfolding copy_payload
    copy_round buffer cnt none = return minus_one
    copy_round buffer cnt (some response) = do
      bytes ← at_simple_scanf (some response) srecv_format
      if same_string response (codes "+CME ERROR: activation failed")
          then pure none
          else copy_payload buffer cnt response bytes

    -- One round of the loop of `telit2_socket_recv`, with `cnt` bytes read so far: the new count, or
    -- `none` at the `break`.
    unfoldable pub recv_round : ℤ → Bytes → ℕ → M (Telit2 F) (Option (ℤ × Bytes))
    unfolding copy_round
    recv_round connid buffer cnt =
        let chunk =
          (if ltb 128 (int_bound (length buffer) - cnt)
            then 128
            else int_bound (length buffer) - cnt) in
        (do
          at_set_timeout 150
          at_set_command_scanner scanner_srecv
          r ←
              at_command notice
                (codes "AT#SRECV=" ++ (print_int connid ++ (codes "," ++ print_nat chunk)))
          copy_round buffer cnt r)

    -- `while (cnt < (int) length)`, for a buffer of `length` bytes, with the rounds that are allowed: the
    -- code has no limit. The result is the count that is returned, with the buffer.
    unfoldable pub recv_loop : ℕ → ℤ → Bytes → ℕ → M (Telit2 F) (ℕ × Bytes)
    unfolding recv_round
    recv_loop zero connid buffer cnt = λ w. (unfinished, w)
    recv_loop (suc rounds) connid buffer cnt =
        let again = λ (b : Bytes) (c : ℕ). recv_loop rounds connid b c in
        elim (ltb cnt (int_bound (length buffer))) [
          | false ↦ pure (cnt, buffer)
          | true ↦ (do result ← recv_round connid buffer cnt; recv_next again buffer cnt result)
        ]

    unfoldable pub telit2_socket_recv : ℕ → ℤ → Bytes → M (Telit2 F) (ℕ × Bytes)
    unfolding recv_loop
    telit2_socket_recv rounds connid buffer = recv_loop rounds connid buffer 0

    -- `TELIT2_WAITACK_TIMEOUT` rounds
    unfoldable pub waitack_loop : ℕ → ℤ → M (Telit2 F) ℤ
    waitack_loop zero connid = return minus_one
    waitack_loop (suc rounds) connid =
        let again = waitack_loop rounds connid in
        (do
          r ← at_command notice (codes "AT#SI=" ++ print_int connid)
          ack_waiting ← at_simple_scanf r si_format
          r' ← at_command notice (codes "AT#SS=" ++ print_int connid)
          socket_status ← at_simple_scanf r' ss_format
          if same_int socket_status (pos 0)
              then return minus_one
              else if same_int ack_waiting (pos 0)
              then return (pos 0)
              else (do sleep notice; again))

    unfoldable pub telit2_socket_waitack : ℤ → M (Telit2 F) ℤ
    unfolding waitack_loop
    telit2_socket_waitack connid = do at_set_timeout 5; waitack_loop waitack_timeout connid

    unfoldable pub telit2_socket_close : ℤ → M (Telit2 F) ℤ
    telit2_socket_close connid = do
      at_set_timeout 150
      at_command_simple notice (codes "AT#SH=" ++ print_int connid)
      pure (pos 0)
