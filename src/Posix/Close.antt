-- ===== src/Posix/Close.antt =====
-- `at_close` in its wait.
use attentive.Base.{
  ◌≡◌, refl, sym, Bool, false, Option, none, ◌∷◌, [], ◌++◌, if_both, leb, length, arith,
}
use mathlib.Core.Path.{subst}
use attentive.Base.Text.{Bytes}
use attentive.Posix.{
  Posix, Reader, Client, Control, at_command, command_begin, at_set_timeout, at_expect_dataprompt,
}
use attentive.Posix.Step.{Step, Run, start, then_to}

module _ {D : Type 0} where
  -- `at_close` waits for a reader that waits for `at_open`.
  pub record IsStranded (freeing : Bool) (s : Posix D) : Type 0 where
    pub control : s.control ≡ Control.parked freeing
    pub reader : s.reader ≡ Reader.parked
    pub open_ : s.open_ ≡ false
    pub client : (r : Option Bytes) × (s.client ≡ Client.outside r)

  module _ (freeing : Bool) where
    begin-IsStranded :
        (bytes : Bytes) (s : Posix D)
        → IsStranded freeing s
        → IsStranded freeing (command_begin bytes s)
    unfolding command_begin
    begin-IsStranded bytes s h =
        let e : command_begin bytes s ≡ record s { client = Client.outside none } = ground arith in
        subst (IsStranded freeing) (sym e) (record {
          control = h.control;
          reader = h.reader;
          open_ = h.open_;
          client = (none, refl);
        })

    command-IsStranded :
        (line : Bytes) (s : Posix D) → IsStranded freeing s → IsStranded freeing (at_command line s)
    unfolding at_command
    command-IsStranded line s h =
        if_both (IsStranded freeing) (leb 79 (length line))
          (record s { client = Client.outside none }) (command_begin (line ++ (b'\r' ∷ [])) s)
          (record {
            control = h.control;
            reader = h.reader;
            open_ = h.open_;
            client = (none, refl);
          })
          (begin-IsStranded (line ++ (b'\r' ∷ [])) s h)

    Step-IsStranded : {s t : Posix D} → Step s t → IsStranded freeing s → IsStranded freeing t
    unfolding at_set_timeout at_expect_dataprompt
    Step-IsStranded (Step.test e) h = absurd (ground arith)
    Step-IsStranded (Step.read input e) h = absurd (ground arith)
    Step-IsStranded (Step.report input e g) h = absurd (ground arith)
    Step-IsStranded (Step.feed c e f p) h = absurd (ground arith)
    Step-IsStranded {s} (Step.command line r e) h = command-IsStranded line s h
    Step-IsStranded {s} (Step.command_raw bytes r e) h = begin-IsStranded bytes s h
    Step-IsStranded (Step.set_timeout n r e) h = record {
      control = h.control;
      reader = h.reader;
      open_ = h.open_;
      client = h.client;
    }
    Step-IsStranded (Step.expect_dataprompt r e) h = record {
      control = h.control;
      reader = h.reader;
      open_ = h.open_;
      client = h.client;
    }
    Step-IsStranded (Step.set_scanner scanner r e) h = record {
      control = h.control;
      reader = h.reader;
      open_ = h.open_;
      client = h.client;
    }
    Step-IsStranded (Step.set_callbacks cbs arg r e) h = record {
      control = h.control;
      reader = h.reader;
      open_ = h.open_;
      client = h.client;
    }
    Step-IsStranded (Step.resume e) h = let (r, o) = h.client in absurd (ground arith)
    Step-IsStranded (Step.expire e l) h = let (r, o) = h.client in absurd (ground arith)
    Step-IsStranded (Step.open_fails e) h = absurd (ground arith)
    Step-IsStranded (Step.opens e o g) h = absurd (ground arith)
    Step-IsStranded (Step.close e) h = absurd (ground arith)
    Step-IsStranded (Step.free e) h = absurd (ground arith)
    Step-IsStranded (Step.close_resume f e) h = absurd (ground arith)
    Step-IsStranded (Step.stop e) h = absurd (ground arith)
    Step-IsStranded (Step.join e r) h = absurd (ground arith)

    pub Run-IsStranded : {s t : Posix D} → Run s t → IsStranded freeing s → IsStranded freeing t
    Run-IsStranded start h = h
    Run-IsStranded (then_to r m e) h =
        subst (IsStranded freeing) e (Step-IsStranded m (Run-IsStranded r h))
