-- ===== src/Telit2/Keeps.antt =====
-- The operations of src/modem/telit2.c that the shared code calls come back, whatever the modem
-- answers, and leave the common state alone.
use attentive.Base.{true, some}
use attentive.Base.Int.{pos}
use attentive.Base.Text.{Bytes, codes}
use attentive.CString.{same_string}
use attentive.Modem.{
  Notice, at_set_timeout, at_set_callbacks, at_command, at_command_simple, not_null, simple_scanf,
  init_modem,
}
use attentive.Modem.Keeps.{
  ComesBack, Keeps-ComesBack, >>=-Keeps, pure-Keeps, if-Keeps, set_timeout-Keeps,
  set_callbacks-Keeps, not_null-Keeps, simple_scanf-Keeps, at_command-Keeps,
  at_command_simple-Keeps, init_modem-Keeps,
}
use attentive.Telit2.{Telit2, sgact_format, telit2_attach, telit2_pdp_open, telit2_pdp_close}

module _ {F : Type 0} (notice : Notice (Telit2 F)) where
  pub pdp_close-ComesBack : ComesBack (telit2_pdp_close notice)
  unfolding telit2_pdp_close
  pdp_close-ComesBack = Keeps-ComesBack (telit2_pdp_close notice) (
      >>=-Keeps (at_set_timeout 150) _ (set_timeout-Keeps 150) λ _.
        >>=-Keeps (at_command_simple notice _) _ (at_command_simple-Keeps notice _)
          λ _. pure-Keeps (pos 0))

  pub pdp_open-ComesBack : (apn : Bytes) → ComesBack (telit2_pdp_open notice apn)
  unfolding telit2_pdp_open
  pdp_open-ComesBack apn = Keeps-ComesBack (telit2_pdp_open notice apn) (
      >>=-Keeps (at_set_timeout 5) _ (set_timeout-Keeps 5) λ _.
        >>=-Keeps (at_command_simple notice _) _ (at_command_simple-Keeps notice _) λ _.
          >>=-Keeps (at_set_timeout 150) _ (set_timeout-Keeps 150) λ _.
            >>=-Keeps (at_command notice _) _ (at_command-Keeps notice _) λ r.
              >>=-Keeps (not_null r) _ (not_null-Keeps r) λ response.
                if-Keeps (same_string response (codes "+CME ERROR: context already activated")) _ _
                  (pure-Keeps (pos 0))
                  (>>=-Keeps (simple_scanf (some response) sgact_format 4) _
                    (simple_scanf-Keeps (some response) sgact_format 4) λ _. pure-Keeps (pos 0)))

  pub attach-ComesBack : ComesBack (telit2_attach notice)
  unfolding telit2_attach
  attach-ComesBack = Keeps-ComesBack (telit2_attach notice) (
      >>=-Keeps (at_set_callbacks true) _ (set_callbacks-Keeps true) λ _.
        >>=-Keeps (at_set_timeout 1) _ (set_timeout-Keeps 1) λ _.
          >>=-Keeps (at_command notice _) _ (at_command-Keeps notice _) λ _.
            >>=-Keeps (at_command notice _) _ (at_command-Keeps notice _) λ _.
              >>=-Keeps (init_modem notice _) _ (init_modem-Keeps notice _) λ _. pure-Keeps (pos 0))
