-- ===== src/Sim800/Socket.antt =====
-- The driver of SIM800 modems (src/modem/at-sim800.c): sockets. Number 6 is the Bluetooth serial
-- port. A function that fills a buffer ends in `done` with the count that it returns and the buffer.
use attentive.Base.{
  ℕ, zero, suc, ◌+◌, ◌-◌, Bool, true, false, not, Option, none, some, List, [], ◌∷◌, ◌++◌, ltb,
  ◌==◌, if◌then◌else◌, length, take, get_elem?, set,
}
use attentive.Base.Int.{int_bound, ℤ, pos, negsuc, minus_one, same_int}
use attentive.Base.Text.{Bytes, codes}
use attentive.Response
use attentive.CString.{Format, lits, int, skip_int, char, same_string, print_nat, print_int}
use attentive.Modem.{
  M, Notice, Scanner, scan, at_set_timeout, at_set_command_scanner, at_expect_dataprompt,
  at_command, at_command_simple, at_command_raw_simple, at_send_raw, at_simple_scanf, simple_scanf,
  sleep, memcpy, payload_of, pure, return, crash, get, set_dev, ◌>>=◌, ◌>>◌,
}
use attentive.Modem.Pdp.{cellular_command_simple_pdp}
use attentive.Modem.Common.{write_string}
use attentive.Sim800.{Sim800, SocketStatus, unknown, is_connected, is_error, nsockets}
use attentive.Sim800.Network.{sim800_ops, set_timeout_seconds}

abbrev pub connect_timeout : ℕ
connect_timeout = 20

abbrev pub waitack_timeout : ℕ
waitack_timeout = 40

-- `priv->socket_status[connid]`, for an index within the array
abbrev pub status_of : List SocketStatus → ℕ → SocketStatus
status_of statuses connid = elim (get_elem? statuses connid) [
  | none ↦ unknown
  | some status ↦ status
]

abbrev pub accept_format : Format
accept_format = lits (codes "DATA ACCEPT:") (int ∷ lits (codes ",") (int ∷ []))

-- `"%d, <text>%c"` stored a number and the given last byte.
unfoldable pub ends_in : Bytes → ℕ → Bytes → Bool
ends_in text last line = elim (scan (int ∷ lits (codes ", ") (lits text (char ∷ []))) line) [
  | [] ↦ false
  | connid ∷ rest ↦ elim rest [ [] ↦ false | c ∷ more ↦ same_int c (pos last) ]
]

unfoldable pub scanner_cipsend : Scanner
unfolding ends_in
scanner_cipsend line =
    if length (scan accept_format line) == 2
    then Response.final_ok
    else if ends_in (codes "SEND O") b'K' line
    then Response.final_ok
    else if ends_in (codes "SEND FAI") b'L' line
    then Response.final
    else if same_string line (codes "SEND OK")
    then Response.final_ok
    else if same_string line (codes "SEND FAIL")
    then Response.final
    else Response.unknown

unfoldable pub scanner_cipclose : Scanner
unfolding ends_in
scanner_cipclose line =
    if ends_in (codes "CLOSE O") b'K' line then Response.final_ok else Response.unknown

abbrev pub ciprxget_format : Format
ciprxget_format =
    lits (codes "+CIPRXGET: 2,") (skip_int ∷ lits (codes ",") (int ∷ lits (codes ",") (int ∷ [])))

-- `if (confirmed > 0)`, for the second of the two values
unfoldable pub confirmed_type : List ℤ → Response.ResponseType
confirmed_type [] = Response.unknown
confirmed_type (pos zero ∷ _) = Response.unknown
confirmed_type (pos (suc n) ∷ _) = Response.rawdata_follows (suc n)
confirmed_type (negsuc n ∷ _) = Response.unknown

unfoldable pub scanner_ciprxget : Scanner
unfolding confirmed_type
scanner_ciprxget line = elim (scan ciprxget_format line) [
  | [] ↦ Response.unknown
  | requested ∷ rest ↦ confirmed_type rest
]

abbrev pub cipack_format : Format
cipack_format =
    lits (codes "+CIPACK: ") (skip_int ∷ lits (codes ",") (skip_int ∷ lits (codes ",") (int ∷ [])))

-- The value of `confirmed`, once both were stored
abbrev pub second : List ℤ → M Sim800 ℤ
second (a ∷ b ∷ _) = pure b
second _ = return minus_one

-- What a round of a read loop leaves: the bytes added and the buffer; `none` at the `break`.
unfoldable pub recv_next :
    (Bytes → ℕ → M Sim800 (ℕ × Bytes)) → Bytes → ℕ → Option (ℤ × Bytes) → M Sim800 (ℕ × Bytes)
recv_next again buffer cnt none = pure (cnt, buffer)
recv_next again buffer cnt (some (pos n, buffer')) = again buffer' (cnt + n)
recv_next again buffer cnt (some (negsuc n, buffer')) = crash

-- The Bluetooth branch of `sim800_socket_recv`: the length of the caller's buffer is not looked at.
unfoldable pub recv_spp : Bytes → Sim800 → M Sim800 (ℕ × Bytes)
recv_spp buffer d = elim d.spp_recv_buf [
  | [] ↦ pure (0, buffer)
  | c ∷ cs ↦ elim (write_string (c ∷ cs) buffer) [
    | none ↦ crash
    | some buffer' ↦ (do set_dev (record d { spp_recv_buf = [] }); pure (length (c ∷ cs), buffer'))
  ]
]

module _ (notice : Notice Sim800) where
  unfoldable pub connect_loop : ℕ → ℕ → M Sim800 ℤ
  connect_loop zero connid = return minus_one
  connect_loop (suc rounds) connid =
      let again = connect_loop rounds connid in
      (do
        w ← get
        if is_connected (status_of w.dev.socket_status connid)
            then return (pos 0)
            else if is_error (status_of w.dev.socket_status connid)
            then return minus_one
            else (do sleep notice; again))

  unfoldable pub sim800_socket_connect : ℕ → Bytes → ℕ → M Sim800 ℤ
  unfolding connect_loop
  sim800_socket_connect connid host port = do
    w ← get
    if connid == nsockets
        then return (if is_connected w.dev.spp_status then pos 0 else pos 1)
        else if ltb connid nsockets
        then (do
          at_set_timeout set_timeout_seconds
          set_dev (record (w.dev) { socket_status = set w.dev.socket_status connid unknown })
          cellular_command_simple_pdp (sim800_ops notice) notice (
              codes "AT+CIPSTART="
              ++ (print_nat connid
                  ++ (codes ",TCP,\"" ++ (host ++ (codes "\"," ++ print_nat port)))))
          connect_loop connect_timeout connid)
        else return minus_one

  unfoldable pub sim800_socket_send : ℕ → Bytes → M Sim800 ℤ
  sim800_socket_send connid buffer = do
    w ← get
    if connid == nsockets
        then (if not (is_connected w.dev.spp_status)
            then return minus_one
            else if ltb 1024 (length buffer)
            then return minus_one
            else (do at_send_raw buffer; return (pos (length buffer))))
        else if ltb connid nsockets
        then (if not (is_connected (status_of w.dev.socket_status connid))
            then return minus_one
            else (let amount = (if ltb 1460 (length buffer) then 1460 else length buffer) in
                (do
                  at_set_timeout set_timeout_seconds
                  at_expect_dataprompt
                  at_command_simple notice
                      (codes "AT+CIPSEND=" ++ (print_nat connid ++ (codes "," ++ print_nat amount)))
                  at_set_command_scanner scanner_cipsend
                  at_command_raw_simple notice (take amount buffer)
                  pure (pos amount))))
        else return (pos 0)

  -- The copy of `confirmed` bytes behind the header line of a response; none at the `break`.
  unfoldable pub copy_payload : Bytes → ℕ → Bytes → ℤ → M Sim800 (Option (ℤ × Bytes))
  copy_payload buffer cnt response confirmed = if same_int confirmed (pos 0) then pure none else (do
    text ← payload_of response
    buffer' ← memcpy buffer cnt text confirmed
    pure (some (confirmed, buffer')))

  -- What a round does with the response.
  unfoldable pub copy_round : Bytes → ℕ → Option Bytes → M Sim800 (Option (ℤ × Bytes))
  unfolding copy_payload
  copy_round buffer cnt none = return minus_one
  copy_round buffer cnt (some response) = do
    values ← simple_scanf (some response) ciprxget_format 2
    confirmed ← second values
    copy_payload buffer cnt response confirmed

  -- One round of the loop of `sim800_socket_recv`
  unfoldable pub recv_round : ℕ → Bytes → ℕ → M Sim800 (Option (ℤ × Bytes))
  unfolding copy_round
  recv_round connid buffer cnt =
      let chunk =
        (if ltb 480 (int_bound (length buffer) - cnt)
          then 480
          else int_bound (length buffer) - cnt) in
      (do
        at_set_timeout set_timeout_seconds
        at_set_command_scanner scanner_ciprxget
        r ←
            at_command notice
              (codes "AT+CIPRXGET=2," ++ (print_nat connid ++ (codes "," ++ print_nat chunk)))
        copy_round buffer cnt r)

  -- `while (cnt < (int) length && tries--)`
  unfoldable pub recv_loop : ℕ → ℕ → Bytes → ℕ → M Sim800 (ℕ × Bytes)
  unfolding recv_round
  recv_loop zero connid buffer cnt = pure (cnt, buffer)
  recv_loop (suc tries) connid buffer cnt =
      let again = λ (b : Bytes) (c : ℕ). recv_loop tries connid b c in
      elim (ltb cnt (int_bound (length buffer))) [
        | false ↦ pure (cnt, buffer)
        | true ↦ (do result ← recv_round connid buffer cnt; recv_next again buffer cnt result)
      ]

  -- A negative `connid` is an index in front of the table.
  unfoldable pub sim800_socket_recv : ℤ → Bytes → M Sim800 (ℕ × Bytes)
  unfolding recv_loop recv_spp
  sim800_socket_recv (negsuc n) buffer = crash
  sim800_socket_recv (pos connid) buffer = do
    w ← get
    if connid == nsockets
        then (if not (is_connected w.dev.spp_status)
            then return minus_one
            else recv_spp buffer w.dev)
        else if ltb connid nsockets
        then (if not (is_connected (status_of w.dev.socket_status connid))
            then return minus_one
            else recv_loop 4 connid buffer 0)
        else pure (0, buffer)

  unfoldable pub waitack_loop : ℕ → ℕ → M Sim800 ℤ
  waitack_loop zero connid = return minus_one
  waitack_loop (suc rounds) connid =
      let again = waitack_loop rounds connid in
      (do
        r ← at_command notice (codes "AT+CIPACK=" ++ print_nat connid)
        nacklen ← at_simple_scanf r cipack_format
        if same_int nacklen (pos 0) then return (pos 0) else (do sleep notice; again))

  unfoldable pub sim800_socket_waitack : ℕ → M Sim800 ℤ
  unfolding waitack_loop
  sim800_socket_waitack connid =
      if connid == nsockets
      then return (pos 0)
      else if ltb connid nsockets
      then (do at_set_timeout 5; waitack_loop waitack_timeout connid)
      else return minus_one

  unfoldable pub sim800_socket_close : ℕ → M Sim800 ℤ
  sim800_socket_close connid = do
    w ← get
    if connid == nsockets
        then at_command_simple notice (codes "AT+BTDISCONN=" ++ print_int w.dev.spp_connid)
        else if ltb connid nsockets
        then (do
          at_set_timeout set_timeout_seconds
          at_set_command_scanner scanner_cipclose
          at_command_simple notice (codes "AT+CIPCLOSE=" ++ print_nat connid))
        else pure tt
    pure (pos 0)
