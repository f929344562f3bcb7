-- ===== src/Sim800/Events.antt =====
-- Socket notifications, and the operations that depend on them.
use attentive.Base.{
  ℕ, zero, suc, ◌+◌, ◌≤◌, ◌≡◌, refl, false, ◌∷◌, arith, set, ltb, ◌==◌, if◌then◌else◌,
}
use attentive.Base.Int.{pos, minus_one}
use attentive.Base.Text.{Bytes, codes, starts_with}
use attentive.Response
use attentive.CString.{same_string}
use attentive.Parser.{at_prefix_in_table}
use attentive.Modem.{World, Notice, returned, sleep}
use attentive.Sim800.{
  Sim800, connected, is_connected, scan_line, scan_event, scan_socket, set_status, nsockets,
}
use attentive.Sim800.Socket.{status_of, connect_loop, sim800_socket_send}

-- A connection notification about a socket from 0 to 5 is a URC and sets the status of that socket
-- alone; one about socket 6 passes the same test and sets the status of the Bluetooth port behind
-- the array.
pub scan_line-connect :
    (socket : ℕ) (d : Sim800)
    → socket ≤ nsockets
    → scan_line ((b'0' + socket) ∷ codes ", CONNECT OK") d ≡ (
      Response.urc,
      if ltb socket nsockets
          then record d { socket_status = set d.socket_status socket connected }
          else record d { spp_status = connected },
    )
unfolding scan_line scan_socket scan_event set_status same_string at_prefix_in_table starts_with
scan_line-connect zero d h = refl
scan_line-connect (suc zero) d h = refl
scan_line-connect (suc (suc zero)) d h = refl
scan_line-connect (suc (suc (suc zero))) d h = refl
scan_line-connect (suc (suc (suc (suc zero)))) d h = refl
scan_line-connect (suc (suc (suc (suc (suc zero))))) d h = refl
scan_line-connect (suc (suc (suc (suc (suc (suc zero)))))) d h = refl
scan_line-connect (suc (suc (suc (suc (suc (suc (suc n))))))) d h = absurd (omega arith)

-- Sending to a socket from 0 to 5, or to the Bluetooth port at 6, that is not connected returns -1
-- and changes nothing; nothing is sent.
send-refused :
    (notice : Notice Sim800) (connid : ℕ) (buffer : Bytes) (w : World Sim800)
    → connid ≤ nsockets
    → is_connected
        (if connid == nsockets then w.dev.spp_status else status_of w.dev.socket_status connid)
      ≡ false
    → sim800_socket_send notice connid buffer w ≡ (returned minus_one, w)
unfolding sim800_socket_send
send-refused notice connid buffer w h off = ground arith

module _ (notice : Notice Sim800) where
  -- The wait of sim800_socket_connect returns 0 only with the socket connected, for any number of
  -- rounds and any script of the modem.
  pub connect_loop-connected :
      (rounds connid : ℕ) (w v : World Sim800)
      → connect_loop notice rounds connid w ≡ (returned (pos 0), v)
      → status_of v.dev.socket_status connid ≡ connected
  unfolding connect_loop sleep
  connect_loop-connected zero connid w v e = cc
  connect_loop-connected (suc rounds) connid w v e =
      let ih = connect_loop-connected rounds connid (sleep notice w).1 v in ground arith
