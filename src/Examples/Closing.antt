-- ===== src/Examples/Closing.antt =====
-- Closing and freeing the channel of POSIX, in some orders of its threads.
use attentive.Base.{◌≡◌, ◌≢◌, refl, true, false}
use attentive.Posix.{Reader, Control, at_close}
use attentive.Posix.Step.{Run, start}
use attentive.Posix.Strand.{stranded, at_close-stranded}
use attentive.Posix.Free.{free-hangs}
use attentive.Examples.Threads.{fresh, asked_reading, asked_reading-IsSound}

at_close-stranded_example :
    Run (at_close false asked_reading) (stranded asked_reading)
    × ((stranded asked_reading).control ≡ Control.parked false)
at_close-stranded_example =
    at_close-stranded asked_reading (stranded asked_reading) asked_reading-IsSound refl refl refl
      refl start

free-hangs_example :
    (at_close true (record fresh { reader = Reader.parked })).control ≢ Control.freed
free-hangs_example =
    free-hangs (record fresh { reader = Reader.parked })
      (at_close true (record fresh { reader = Reader.parked })) refl refl start
