-- ===== src/Examples/Drivers.antt =====
-- The drivers on short conversations with a modem.
use attentive.Base.{◌≡◌, refl, true, none, some, [], ◌∷◌, arith}
use attentive.Base.Int.{pos}
use attentive.Base.Text.{codes}
use attentive.Response
use attentive.Modem.{World, Cellular, done}
use attentive.Modem.Attach.{cellular_attach}
use attentive.Modem.Generic.{generic_ops, cellular_generic_alloc}
use attentive.Sim800.{Sim800, connected, unknown, scan_line, sim800_notice}
use attentive.Sim800.Socket.{connect_loop, status_of}
use attentive.Sim800.Events.{scan_line-connect, connect_loop-connected}

abbrev fresh : Cellular
fresh = record { attached = true; apn = codes "internet"; pdp_failures = 0; pdp_threshold = 3 }

abbrev device : Sim800
device = record {
  ftpget1_status = pos 0;
  socket_status = connected ∷ unknown ∷ unknown ∷ unknown ∷ unknown ∷ unknown ∷ [];
  spp_status = connected;
  spp_connid = pos 0;
  spp_recv_buf = codes "hello";
}

abbrev world : World Sim800
world = record { script = []; log = []; command_scanner = none; modem = fresh; dev = device }

scan_line-connect_example :
    scan_line (codes "6, CONNECT OK") device
    ≡ (Response.urc, record device { spp_status = connected })
scan_line-connect_example = scan_line-connect 6 device (omega arith)

connect_loop-connected_example : status_of world.dev.socket_status 0 ≡ connected
unfolding connect_loop
connect_loop-connected_example = connect_loop-connected sim800_notice 60 0 world world refl

-- Memory in which the pointer `at` happens to be set.
generic_test :
    (cellular_generic_alloc (some fresh) ≡ some fresh)
    × (cellular_attach generic_ops (codes "other") world ≡ (done (pos 0), world))
unfolding cellular_generic_alloc cellular_attach
generic_test = (refl, refl)
