-- ===== src/FreeRtos/Races.antt =====
-- A response that comes before the command has set its flag.
use attentive.Base.{
  ◌++◌, leb, length, append-nil, ℕ, zero, suc, ◌≡◌, ◌≢◌, refl, sym, ap, ◌∙◌, true, false, not, Bool,
  Option, none, some, [], ◌∷◌, arith, if_both, ◌&&◌, ◌||◌,
}
use mathlib.Core.Path.{subst}
use attentive.Base.Text.{Bytes}
use attentive.Parser.{at_parser_reset}
use attentive.Channel.{at_set_command_scanner, at_set_callbacks}
use attentive.FreeRtos.{
  reset_field, FreeRtos, Reader, Client, Field, reader_test, reader_return, command_arm,
  command_drain, command_test, command_taken, command_leave, command_reset, command_return,
  command_begin, at_command, after_loop, after_field, at_send, send_bytes, at_open, at_close,
  close_end, free_stop, at_set_timeout, at_set_character_handler, at_expect_dataprompt,
}
use attentive.FreeRtos.Step.{Step, Reach, ReachOn, here, next, next_to, reads, heard}

-- Where a command stands whose response is lost.
abbrev IsLostAt : Client → Bool → Type 0
IsLostAt (Client.outside r) waiting = r ≡ none
IsLostAt Client.sent waiting = Unit
IsLostAt Client.armed waiting = waiting ≡ true
IsLostAt (Client.looping n) waiting = waiting ≡ true
IsLostAt (Client.taking n) waiting = waiting ≡ true
IsLostAt (Client.resetting field) waiting = Unit
IsLostAt (Client.leaving r) waiting = r ≡ none

after_field-IsLostAt : (field : Field) (waiting : Bool) → IsLostAt (after_field field) waiting
unfolding after_field
after_field-IsLostAt Field.state waiting = tt
after_field-IsLostAt Field.expect_dataprompt waiting = tt
after_field-IsLostAt Field.buf_used waiting = tt
after_field-IsLostAt Field.buf_current waiting = tt
after_field-IsLostAt Field.data_left waiting = tt
after_field-IsLostAt Field.character_handler waiting = refl

append-empty : (xs ys : Bytes) → xs ++ ys ≡ [] → (xs ≡ []) × (ys ≡ [])
append-empty [] ys e = (refl, e)
append-empty (x ∷ xs) ys e = absurd (cc)

module _ {D : Type 0} where
  -- The reader has no byte, and the command that is under way has lost its response.
  record IsLost (s : FreeRtos D) : Type 0 where
    pub reader : (c : ℕ) → s.reader ≢ Reader.holding c
    pub client : IsLostAt s.client s.at.waiting

  at_client : (s : FreeRtos D) {c : Client} → s.client ≡ c → IsLost s → IsLostAt c s.at.waiting
  at_client s e h = subst (λ c. IsLostAt c s.at.waiting) e h.client

  leave-IsLost :
      (s : FreeRtos D)
      → ((c : ℕ) → s.reader ≢ Reader.holding c)
      → s.at.waiting ≡ true
      → IsLost (command_leave s)
  unfolding command_leave after_loop
  leave-IsLost s r w = record {
    reader = r;
    client = rw w (if_both (λ c. IsLostAt c true) (not s.open_) _ _ refl tt);
  }

  test-IsLost :
      (n : ℕ) (s : FreeRtos D)
      → ((c : ℕ) → s.reader ≢ Reader.holding c)
      → s.at.waiting ≡ true
      → IsLost (command_test n s)
  unfolding command_test
  test-IsLost zero s r w = leave-IsLost s r w
  test-IsLost (suc n) s r w =
      if_both IsLost (s.open_ && s.at.waiting) _ _ (record { reader = r; client = w })
        (leave-IsLost s r w)

  begin-IsLost : (bytes : Bytes) (s : FreeRtos D) → IsLost s → IsLost (command_begin bytes s)
  unfolding command_begin
  begin-IsLost bytes s h =
      if_both IsLost (not s.open_) _ _ (record { reader = h.reader; client = refl })
        (record { reader = h.reader; client = tt })

  send-IsLost : (bytes : Bytes) (s : FreeRtos D) → IsLost s → IsLost (send_bytes bytes s).1
  unfolding send_bytes
  send-IsLost bytes s h =
      if_both (λ (x : Bool × FreeRtos D). IsLost x.1) (not s.open_) _ _ h
        (record { reader = h.reader; client = h.client })

  return-IsLost :
      (r : Option Bytes) (s : FreeRtos D) → IsLost s → r ≡ none → IsLost (command_return r s)
  unfolding command_return
  return-IsLost none s h e = record { reader = h.reader; client = refl }
  return-IsLost (some text) s h e = cc

  Step-IsLost : {s t : FreeRtos D} (m : Step s t) → reads m ≡ [] → IsLost s → IsLost t
  unfolding reads reader_test reader_return at_command at_send command_arm command_drain
      command_taken command_reset at_set_timeout at_expect_dataprompt at_set_character_handler
      at_open at_close close_end free_stop at_set_command_scanner at_set_callbacks
  Step-IsLost {s} (Step.test x) e h =
      if_both IsLost (not s.running || not s.open_) _ _ h
        (record { reader = λ c k. cc; client = h.client })
  Step-IsLost (Step.return (some c) x) e h = absurd (cc)
  Step-IsLost (Step.return none x) e h = record { reader = λ c k. cc; client = h.client }
  Step-IsLost (Step.feed c x fed) e h = absurd (h.reader c x)
  Step-IsLost {s} (Step.command line r x) e h =
      if_both IsLost (leb 79 (length line)) _ _ (record { reader = h.reader; client = refl })
        (begin-IsLost (line ++ (b'\r' ∷ [])) s h)
  Step-IsLost {s} (Step.command_raw bytes r x) e h = begin-IsLost bytes s h
  Step-IsLost (Step.arm x) e h = record { reader = h.reader; client = refl }
  Step-IsLost {s} (Step.drain x) e h = record { reader = h.reader; client = at_client s x h }
  Step-IsLost {s} (Step.loop n x) e h = test-IsLost n s h.reader (at_client s x h)
  Step-IsLost {s} (Step.take n x given) e h =
      leave-IsLost (record s { at = record (s.at) { signalled = false } }) h.reader
        (at_client s x h)
  Step-IsLost {s} (Step.tick n x given) e h = record { reader = h.reader; client = at_client s x h }
  Step-IsLost {s} (Step.reset field x) e h = record {
    reader = h.reader;
    client = after_field-IsLostAt field s.at.waiting;
  }
  Step-IsLost {s} (Step.leave r x) e h = return-IsLost r s h (at_client s x h)
  Step-IsLost {s} (Step.send line r x) e h =
      if_both (λ (y : Bool × FreeRtos D). IsLost y.1) (leb 79 (length line)) _ _ h
        (send-IsLost (line ++ (b'\r' ∷ [])) s h)
  Step-IsLost {s} (Step.send_raw bytes r x) e h = send-IsLost bytes s h
  Step-IsLost (Step.set_timeout n r x) e h = record { reader = h.reader; client = h.client }
  Step-IsLost (Step.expect_dataprompt r x) e h = record { reader = h.reader; client = h.client }
  Step-IsLost (Step.set_handler handler r x) e h = record { reader = h.reader; client = h.client }
  Step-IsLost (Step.set_scanner scanner r x) e h = record { reader = h.reader; client = h.client }
  Step-IsLost (Step.set_callbacks cbs arg r x) e h = record { reader = h.reader; client = h.client }
  Step-IsLost (Step.opens opened x) e h =
      if_both IsLost opened _ _ (record { reader = h.reader; client = h.client })
        (record { reader = h.reader; client = h.client })
  Step-IsLost (Step.close x) e h = record { reader = h.reader; client = h.client }
  Step-IsLost (Step.free x) e h = record { reader = h.reader; client = h.client }
  Step-IsLost (Step.close_uart freeing x) e h = record { reader = h.reader; client = h.client }
  Step-IsLost (Step.stop x) e h = record { reader = λ c k. cc; client = h.client }

  Reach-IsLost : {s t : FreeRtos D} (r : Reach s t) → heard r ≡ [] → IsLost s → IsLost t
  unfolding heard
  Reach-IsLost here e h = h
  Reach-IsLost (next_to r m same) e h =
      let (before, none_now) = append-empty (heard r) (reads m) e in
      subst IsLost same (Step-IsLost m none_now (Reach-IsLost r before h))

  -- A FreeRTOS command has written its bytes and not yet set its flag, and the reader has no byte
  -- in hand; the response may have been handed over already. In every order of the tasks from
  -- there in which the reader reads no byte, also one that closes the channel or gives more
  -- commands, whenever a call has returned, it has returned NULL: the response is lost.
  pub sent-lost :
      (s t : FreeRtos D) (run : Reach s t) (r : Option Bytes)
      → s.client ≡ Client.sent
      → ((c : ℕ) → s.reader ≢ Reader.holding c)
      → heard run ≡ []
      → t.client ≡ Client.outside r
      → r ≡ none
  sent-lost s t run r e idle silent back =
      let h =
        Reach-IsLost run silent
          (record { reader = idle; client = subst (λ c. IsLostAt c s.at.waiting) (sym e) tt }) in
      at_client t back h

  -- With no answer the loop ends once its rounds are over.
  rounds-Reach :
      (n : ℕ) (s t : FreeRtos D)
      → ReachOn s [] t
      → t.client ≡ Client.looping n
      → t.open_ ≡ true
      → t.at.waiting ≡ true
      → t.at.signalled ≡ false
      → ReachOn s [] (record t { client = Client.resetting Field.state })
  unfolding command_test command_leave after_loop heard
  rounds-Reach zero s t (r, q) e o w g =
      (next_to r (Step.loop zero e) (ground arith), append-nil (heard r) ∙ q)
  rounds-Reach (suc n) s t (r, q) e o w g =
      rounds-Reach n s (record t { client = Client.looping n })
        (
          next (next_to r (Step.loop (suc n) e) (ground arith)) (Step.tick n refl g),
          ap (λ x. (x ++ []) ++ []) q,
        )
        refl o w g

  -- The parser is reset field by field, and the command returns.
  abbrev pub ended : FreeRtos D → FreeRtos D
  ended t = record t {
    parser = at_parser_reset t.parser;
    at = record (t.at) { command_scanner = none };
    client = Client.outside none;
  }

  reset-Reach :
      (s t : FreeRtos D)
      → ReachOn s [] (record t { client = Client.resetting Field.state })
      → ReachOn s [] (ended t)
  unfolding command_reset command_return reset_field after_field heard at_set_command_scanner
      at_parser_reset
  reset-Reach s t (r, q) =
      let r1 =
        next (next r (Step.reset Field.state refl)) (Step.reset Field.expect_dataprompt refl) in
      let r2 =
        next (next r1 (Step.reset Field.buf_used refl)) (Step.reset Field.buf_current refl) in
      let r3 =
        next (next r2 (Step.reset Field.data_left refl))
          (Step.reset Field.character_handler refl) in
      (
        next r3 (Step.leave none refl),
        ap (λ x. ((((((x ++ []) ++ []) ++ []) ++ []) ++ []) ++ []) ++ []) q,
      )

  -- On an open FreeRTOS channel, from any state in which a command has written its bytes and not
  -- yet set its flag, also one in which the response has been handed over already, there is an
  -- order of the tasks in which the reader reads no byte, the command uses up its timeout, resets
  -- the parser field by field, clears its scanner and returns NULL.
  pub sent-timed_out :
      (s : FreeRtos D)
      → s.client ≡ Client.sent
      → s.open_ ≡ true
      → ReachOn s [] (ended (command_drain (command_arm s)))
  unfolding command_drain command_arm heard
  sent-timed_out s e o =
      let armed = next here (Step.arm e) in
      reset-Reach s (command_drain (command_arm s)) (
        rounds-Reach s.timeout s (command_drain (command_arm s))
          (next armed (Step.drain refl), refl) refl o refl refl)
