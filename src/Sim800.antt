-- ===== src/Sim800.antt =====
-- The driver of SIM800 modems (src/modem/at-sim800.c): its state and callbacks.
pub mod Network
pub mod Socket
pub mod Ftp
pub mod Events
use attentive.Base.{
  ℕ, suc, ◌+◌, ◌-◌, Bool, true, false, ◌&&◌, ◌||◌, Option, none, some, List, [], ◌∷◌, ◌++◌, ltb,
  leb, ◌==◌, if◌then◌else◌, set, drop,
}
use attentive.Base.Int.{ℤ, pos}
use attentive.Base.Text.{Bytes, codes, starts_with}
use attentive.Response
use attentive.Response.{ResponseType}
use attentive.Parser.{at_prefix_in_table}
use attentive.CString.{
  Format, lits, int, skip_word, same_string, strstr, c_string, skip_spaces, is_space,
}
use attentive.Modem.{Action, send, Notice, scan}

-- `enum sim800_socket_status`
pub data SocketStatus : Type 0 where
  error unknown connected pending : SocketStatus

abbrev pub is_connected : SocketStatus → Bool
is_connected connected = true
is_connected _ = false

abbrev pub is_error : SocketStatus → Bool
is_error error = true
is_error _ = false

abbrev pub nsockets : ℕ
nsockets = 6

-- `struct cellular_sim800`, without the common part, and the static `spp_recv_buf` up to its NUL.
pub record Sim800 : Type 0 where
  pub ftpget1_status : ℤ
  pub socket_status : List SocketStatus
  pub spp_status : SocketStatus
  pub spp_connid : ℤ
  pub spp_recv_buf : Bytes

abbrev pub urc_responses : List Bytes
urc_responses =
    codes "=>"
    ∷ codes "+BTPAIRING: "
    ∷ codes "+BTPAIR: "
    ∷ codes "+BTCONNECTING: "
    ∷ codes "+BTCONNECT: "
    ∷ codes "+BTDISCONN: "
    ∷ codes "+BTSPPMAN: "
    ∷ codes "+CIPRXGET: 1,"
    ∷ codes "+FTPGET: 1,"
    ∷ codes "+PDP: DEACT"
    ∷ codes "+SAPBR 1: DEACT"
    ∷ codes "*PSNWID: "
    ∷ codes "*PSUTTZ: "
    ∷ codes "+CTZV: "
    ∷ codes "DST: "
    ∷ codes "+CIEV: "
    ∷ codes "RDY"
    ∷ codes "+CPIN: READY"
    ∷ codes "Call Ready"
    ∷ codes "SMS Ready"
    ∷ codes "NORMAL POWER DOWN"
    ∷ codes "UNDER-VOLTAGE POWER DOWN"
    ∷ codes "UNDER-VOLTAGE WARNNING"
    ∷ codes "OVER-VOLTAGE POWER DOWN"
    ∷ codes "OVER-VOLTAGE WARNNING"
    ∷ []

-- `priv->socket_status[socket] = status`, for the indices 0 to 6 that `scan_line` lets through. The
-- array has six elements, and the member behind it in the struct is `spp_status`: the model gives
-- the write at 6 the effect that it has in this layout.
unfoldable pub set_status : ℕ → SocketStatus → Sim800 → Sim800
set_status socket status d =
    if ltb socket nsockets
    then record d { socket_status = set d.socket_status socket status }
    else record d { spp_status = status }

-- A notification `<socket>, <event>`, given what stands behind the comma and the space.
unfoldable pub scan_event : ℕ → Bytes → Sim800 → ResponseType × Sim800
scan_event socket event d =
    if same_string event (codes "CONNECT OK")
    then (Response.urc, set_status socket connected d)
    else if same_string event (codes "CONNECT FAIL")
        || same_string event (codes "ALREADY CONNECT")
        || same_string event (codes "CLOSED")
    then (Response.urc, set_status socket error d)
    else (Response.unknown, d)

unfoldable pub scan_socket : Bytes → Sim800 → ResponseType × Sim800
unfolding scan_event set_status
scan_socket [] d = (Response.unknown, d)
scan_socket (c ∷ rest) d =
    if leb b'0' c && leb c (b'0' + nsockets) && starts_with (codes ", ") rest
    then scan_event (c - b'0') (drop 2 rest) d
    else (Response.unknown, d)

unfoldable pub scan_line : Bytes → Sim800 → ResponseType × Sim800
unfolding scan_socket
scan_line line d =
    if at_prefix_in_table line urc_responses then (Response.urc, d) else scan_socket line d

-- `%s`: what stands before the next white space.
unfoldable pub word : Bytes → Bytes
word [] = []
word (c ∷ cs) = if is_space c then [] else c ∷ word cs

abbrev pub btconnect_format : Format
btconnect_format =
    lits (codes "+BTCONNECT: ")
      (int ∷ lits (codes ",\"Druid_Tech\",") (skip_word ∷ lits (codes ",\"SPP\"") []))

abbrev pub ftpget1_format : Format
ftpget1_format = lits (codes "+FTPGET: 1,") (int ∷ [])

abbrev pub at_line : Bytes → Action
at_line line = send (line ++ (b'\r' ∷ []))

-- The last branch of `handle_urc`
unfoldable pub handle_ftpget : Bytes → Sim800 → Sim800
handle_ftpget line d = elim (scan ftpget1_format line) [
  | [] ↦ d
  | status ∷ rest ↦ record d { ftpget1_status = status }
]

-- The branches from "+BTCONNECT" on. The comparison with "CONNECT" takes six bytes of it.
unfoldable pub handle_connect : Bytes → Sim800 → Sim800
unfolding handle_ftpget
handle_connect line d = elim (scan btconnect_format line) [
  | connid ∷ rest ↦ record d { spp_connid = connid; spp_status = pending }
  | [] ↦
      if starts_with (codes "CONNEC") line
      then record d { spp_status = connected }
      else if starts_with (codes "+BTDISCONN: \"Druid_Tech\"") line
      then record d { spp_status = unknown }
      else handle_ftpget line d
]

-- The branches from "+BTPAIRING" on
unfoldable pub handle_pairing : Bytes → Sim800 → Sim800 × List Action
unfolding handle_connect
handle_pairing line d =
    if starts_with (codes "+BTPAIRING: \"Druid_Tech\"") line
    then (d, at_line (codes "AT+BTPAIR=1,1") ∷ [])
    else if starts_with (codes "+BTCONNECTING: ") line
    then (elim (strstr line (codes "\"SPP\"")) [
      | none ↦ (d, [])
      | some at ↦ (d, at_line (codes "AT+BTACPT=1") ∷ [])
    ])
    else (handle_connect line d, [])

-- `sscanf(line, "=>%s", &spp_recv_buf[0]) == 1`
unfoldable pub spp_data : Bytes → Bytes
unfolding word
spp_data line =
    if starts_with (codes "=>") (c_string line)
    then word (skip_spaces (drop 2 (c_string line)))
    else []

unfoldable pub handle_urc : Bytes → Sim800 → Sim800 × List Action
unfolding handle_pairing spp_data
handle_urc line d = elim (spp_data line) [
  | c ∷ cs ↦ (record d { spp_recv_buf = c ∷ cs }, [])
  | [] ↦ handle_pairing line d
]

-- A line that reaches both callbacks
unfoldable pub sim800_notice : Notice Sim800
unfolding scan_line handle_urc
sim800_notice line d = handle_urc line (scan_line line d).1
