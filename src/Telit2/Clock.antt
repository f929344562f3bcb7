-- ===== src/Telit2/Clock.antt =====
-- The clock of the driver of Telit modems (src/modem/telit2.c). `timegm` of the C library is a
-- parameter.
use attentive.Base.{◌∷◌, [], List, if◌then◌else◌, ◌++◌}
use attentive.Base.Int.{ℤ, pos, minus_one, same_int, less_int, ◌+ℤ◌, ◌-ℤ◌, ◌*ℤ◌}
use attentive.Base.Text.{codes}
use attentive.CString.{Format, lits, int}
use attentive.Modem.{M, Notice, at_set_timeout, at_command, simple_scanf, pure, return, ◌>>=◌, ◌>>◌}
use attentive.Telit2.{Telit2}

-- The members of `struct tm` that are set; the others are 0.
pub record Tm : Type 0 where
  pub year : ℤ
  pub mon : ℤ
  pub mday : ℤ
  pub hour : ℤ
  pub min : ℤ
  pub sec : ℤ

-- `:%d:%d%d"`; a quotation mark is the byte 34.
abbrev time_format : Format
time_format = lits (codes ":") (int ∷ lits (codes ":") (int ∷ int ∷ lits (34 ∷ []) []))

abbrev date_format : Format
date_format = lits (codes "/") (int ∷ lits (codes "/") (int ∷ lits (codes ",") (int ∷ time_format)))

abbrev pub cclk_format : Format
cclk_format = lits (codes "+CCLK: " ++ (34 ∷ [])) (int ∷ date_format)

module _ {F : Type 0} (timegm : Tm → ℤ) (notice : Notice (Telit2 F)) where
  -- The conversion, with the adjusted values.
  unfoldable pub clock_seconds : Tm → ℤ → M (Telit2 F) ℤ
  clock_seconds tm offset =
      let unix_time = timegm (record tm { year = tm.year +ℤ pos 100; mon = tm.mon -ℤ pos 1 }) in
      if same_int unix_time minus_one
      then return minus_one
      else pure (unix_time -ℤ (pos 900 *ℤ offset))

  -- A date before 2014 is none.
  unfoldable pub clock_of : List ℤ → M (Telit2 F) ℤ
  unfolding clock_seconds
  clock_of (y ∷ mo ∷ d ∷ h ∷ mi ∷ s ∷ offset ∷ []) =
      if less_int y (pos 14)
      then return (pos 1)
      else clock_seconds (record { year = y; mon = mo; mday = d; hour = h; min = mi; sec = s })
          offset
  clock_of _ = return minus_one

  -- The seconds that the code stores in `ts->tv_sec` where it returns 0.
  unfoldable pub telit2_op_clock_gettime : M (Telit2 F) ℤ
  unfolding clock_of
  telit2_op_clock_gettime = do
    at_set_timeout 1
    r ← at_command notice (codes "AT+CCLK?")
    values ← simple_scanf r cclk_format 7
    clock_of values
