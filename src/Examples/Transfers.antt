-- ===== src/Examples/Transfers.antt =====
-- Attaching a modem and reading from a socket, on short conversations.
use attentive.Base.{inl, ◌+◌, ℕ, ◌≡◌, arith, refl, false, none, some, List, [], ◌∷◌, length}
use attentive.Base.Int.{ℤ, pos}
use attentive.Base.Text.{codes}
use attentive.Modem.{
  call, Notice, exchange, next_reply, expect_ok, at_command_simple, World, Reply, Cellular, done,
  at_set_timeout, at_set_command_scanner, at_command, at_simple_scanf, payload_of, memcpy,
}
use attentive.CString.{print_int, sscanf, c_string, same_string, strchr}
use attentive.Modem.Pdp.{
  cellular_pdp_request, back_off, close_stuck, open_context, after_open, cellular_pdp_failure,
}
use attentive.Modem.Attach.{cellular_attach}
use attentive.Modem.Attached.{fresh_modem, attach-attach}
use attentive.Modem.Backoff.{IsBackedOff, requests, failures, failure_count, requests-IsBackedOff}
use attentive.Telit2.Keeps.{attach-ComesBack, pdp_close-ComesBack, pdp_open-ComesBack}
use attentive.Telit2.{
  telit2_ops, telit2_attach, telit2_pdp_open, telit2_pdp_close, Telit2, telit2_notice,
  telit2_socket_recv, recv_next,
}
use attentive.Telit2.Recv.{recv-length}

abbrev detached : Cellular
detached = record { attached = false; apn = []; pdp_failures = 5; pdp_threshold = 9 }

abbrev telit : World (Telit2 ℕ)
telit = record {
  script = [];
  log = [];
  command_scanner = none;
  modem = detached;
  dev = record { locate_status = pos 0; latitude = 0; longitude = 0; altitude = 0 };
}

abbrev notice : Notice (Telit2 ℕ)
notice = telit2_notice (λ line. [])

-- The modem is silent.
attach-attach_example :
    (r : ℤ) × (v : World (Telit2 ℕ)) × (call
        (telit2_attach notice)
        (record telit { modem = fresh_modem (codes "internet") })
      ≡ (done r, v))
    × (cellular_attach (telit2_ops notice) (codes "internet") telit ≡ (done r, v))
    × (v.modem ≡ fresh_modem (codes "internet"))
    × IsBackedOff v.modem
    × (cellular_attach (telit2_ops notice) (codes "other") v ≡ (done (pos 0), v))
unfolding telit2_ops
attach-attach_example =
    attach-attach (telit2_ops notice) (telit2_attach notice) (codes "internet") (codes "other")
      telit refl refl (attach-ComesBack notice)

abbrev attached : World (Telit2 ℕ)
attached = record telit { modem = fresh_modem [] }

attached-IsBackedOff : IsBackedOff attached.modem
attached-IsBackedOff = record {
  raised = 0;
  threshold = refl;
  below = omega arith;
  earned = inl refl;
}

-- It refuses nine contexts: all of the requests fail.
failures_test : failures (telit2_ops notice) 9 attached ≡ 9
unfolding failures failure_count cellular_pdp_request back_off close_stuck open_context after_open
    cellular_pdp_failure telit2_ops telit2_pdp_open telit2_pdp_close at_command_simple at_command
    exchange next_reply expect_ok at_set_timeout
failures_test = refl

requests-IsBackedOff_example :
    IsBackedOff (requests (telit2_ops notice) 9 attached).modem
    × ((requests (telit2_ops notice) 9 attached).modem.pdp_failures
        ≡ attached.modem.pdp_failures + failures (telit2_ops notice) 9 attached)
unfolding telit2_ops
requests-IsBackedOff_example =
    requests-IsBackedOff (telit2_ops notice) 9 attached (pdp_close-ComesBack notice)
      (pdp_open-ComesBack notice) attached-IsBackedOff

-- Three bytes arrive as two and one.
abbrev pieces : List Reply
pieces =
    record { response = some (codes "#SRECV: 1,2\nAB"); lines = [] }
    ∷ record { response = some (codes "#SRECV: 1,1\nC"); lines = [] }
    ∷ []

recv-length_example :
    (length (codes "ABC") ≡ length (codes "xxx")) × (length (codes "ABC") ≡ length (codes "xxx"))
unfolding telit2_socket_recv at_set_timeout at_set_command_scanner at_command print_int
    at_simple_scanf sscanf c_string same_string payload_of strchr memcpy recv_next
recv-length_example =
    recv-length (telit2_notice (λ line. [])) 3 (pos 1) (codes "xxx") 3 (codes "ABC")
      (record telit { script = pieces })
      (telit2_socket_recv (telit2_notice (λ line. [])) 3 (pos 1) (codes "xxx")
        (record telit { script = pieces })).1
      (omega arith) refl
