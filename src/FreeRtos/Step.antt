-- ===== src/FreeRtos/Step.antt =====
-- The tasks of a channel in any order.
use attentive.Base.{
  refl, sym, ap, ◌∙◌, [], ◌∷◌, ◌++◌, append-nil, append_assoc, ℕ, ◌≡◌, Bool, true, false, Option,
  some,
}
use attentive.Base.Text.{Bytes}
use attentive.Parser.{CharacterHandler, LineScanner}
use attentive.Channel.{At, AtCallbacks, at_set_callbacks, at_set_command_scanner}
use attentive.FreeRtos.{
  FreeRtos, Reader, Client, Control, Field, reader_test, command_reset, command_return,
  reader_return, reader_feed, at_command, at_command_raw, at_send_raw, command_arm, command_drain,
  command_test, command_taken, at_send, at_open, at_close, close_end, free_stop, at_set_timeout,
  at_set_character_handler, at_expect_dataprompt,
}

module _ {D : Type 0} where
  pub data Step (s : FreeRtos D) : FreeRtos D → Type 0 where
    test : s.reader ≡ Reader.testing → Step s (reader_test s)
    return : (input : Option ℕ) → s.reader ≡ Reader.reading → Step s (reader_return input s)
    feed :
        (c : ℕ) {t : FreeRtos D} → s.reader ≡ Reader.holding c → reader_feed c s ≡ some t → Step s t
    command :
        (line : Bytes) (r : Option Bytes) → s.client ≡ Client.outside r → Step s (at_command line s)
    command_raw :
        (bytes : Bytes) (r : Option Bytes)
        → s.client ≡ Client.outside r
        → Step s (at_command_raw bytes s)
    arm : s.client ≡ Client.sent → Step s (command_arm s)
    drain : s.client ≡ Client.armed → Step s (command_drain s)
    loop : (n : ℕ) → s.client ≡ Client.looping n → Step s (command_test n s)
    take : (n : ℕ) → s.client ≡ Client.taking n → s.at.signalled ≡ true → Step s (command_taken s)
    tick :
        (n : ℕ)
        → s.client ≡ Client.taking n
        → s.at.signalled ≡ false
        → Step s (record s { client = Client.looping n })
    reset : (field : Field) → s.client ≡ Client.resetting field → Step s (command_reset field s)
    leave : (r : Option Bytes) → s.client ≡ Client.leaving r → Step s (command_return r s)
    send :
        (line : Bytes) (r : Option Bytes) → s.client ≡ Client.outside r → Step s (at_send line s).1
    send_raw :
        (bytes : Bytes) (r : Option Bytes)
        → s.client ≡ Client.outside r
        → Step s (at_send_raw bytes s).1
    set_timeout :
        (n : ℕ) (r : Option Bytes) → s.client ≡ Client.outside r → Step s (at_set_timeout n s)
    expect_dataprompt :
        (r : Option Bytes) → s.client ≡ Client.outside r → Step s (at_expect_dataprompt s)
    set_handler :
        (handler : Option (CharacterHandler (Option (At D)))) (r : Option Bytes)
        → s.client ≡ Client.outside r
        → Step s (at_set_character_handler handler s)
    set_scanner :
        (scanner : Option (LineScanner D)) (r : Option Bytes)
        → s.client ≡ Client.outside r
        → Step s (record s { at = at_set_command_scanner scanner s.at })
    set_callbacks :
        (cbs : Option (AtCallbacks D)) (arg : D) (r : Option Bytes)
        → s.client ≡ Client.outside r
        → Step s (record s { at = at_set_callbacks cbs arg s.at })
    opens : (opened : Bool) → s.control ≡ Control.outside → Step s (at_open opened s)
    close : s.control ≡ Control.outside → Step s (at_close false s)
    free : s.control ≡ Control.outside → Step s (at_close true s)
    close_uart :
        (freeing : Bool) → s.control ≡ Control.closing freeing → Step s (close_end freeing s)
    stop : s.control ≡ Control.stopping → Step s (free_stop s)

  -- The state behind the last step may go by another name.
  pub data Reach (s : FreeRtos D) : FreeRtos D → Type 0 where
    here : Reach s s
    next_to : {t u v : FreeRtos D} → Reach s t → Step t u → u ≡ v → Reach s v

  -- One more step.
  abbrev pub next : {s t u : FreeRtos D} → Reach s t → Step t u → Reach s u
  next r m = next_to r m refl

  -- The bytes that the reader reads in a step.
  unfoldable pub reads : {s t : FreeRtos D} → Step s t → Bytes
  reads (return (some c) _) = c ∷ []
  reads _ = []

  -- The bytes that the reader reads in all, in their order.
  unfoldable pub heard : {s t : FreeRtos D} → Reach s t → Bytes
  unfolding reads
  heard here = []
  heard (next_to r m e) = heard r ++ reads m

  Reach-append : {s t u : FreeRtos D} → Reach s t → Reach t u → Reach s u
  Reach-append r here = r
  Reach-append r (next_to r' m e) = next_to (Reach-append r r') m e

  heard-append :
      {s t u : FreeRtos D} (r : Reach s t) (r' : Reach t u)
      → heard (Reach-append r r') ≡ heard r ++ heard r'
  unfolding heard Reach-append
  heard-append r here = sym (append-nil (heard r))
  heard-append r (next_to r' m e) =
      ap (λ x. x ++ reads m) (heard-append r r') ∙ append_assoc (heard r) (heard r') (reads m)

  -- An order of the tasks in which the reader reads exactly the input.
  abbrev pub ReachOn : FreeRtos D → Bytes → FreeRtos D → Type 0
  ReachOn s input t = (r : Reach s t) × (heard r ≡ input)

  pub ReachOn-append :
      {s t u : FreeRtos D} {xs ys : Bytes}
      → ReachOn s xs t
      → ReachOn t ys u
      → ReachOn s (xs ++ ys) u
  ReachOn-append {xs = xs} (r, e) (r', e') =
      (Reach-append r r', heard-append r r' ∙ ap (λ x. x ++ heard r') e ∙ ap (λ y. xs ++ y) e')
