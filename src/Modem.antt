-- ===== src/Modem.antt =====
-- A driver's view of the AT channel (include/attentive/at.h) and of the modem behind it. The replies
-- of the modem are a list that the code consumes; it is arbitrary, and so is all that arrives
-- between two commands. What the driver does to the channel is a log, the last action first.
pub mod Pdp
pub mod Common
pub mod Replies
pub mod Keeps
pub mod Inversion
pub mod Backoff
pub mod Attach
pub mod Attached
pub mod Generic
use attentive.Base.{
  ap, ◌≡◌, ℕ, suc, ◌+◌, ◌-◌, ◌<◌, Bool, true, false, ◌&&◌, ◌||◌, not, Option, none, some, List, [],
  ◌∷◌, ◌++◌, ltb, leb, ◌==◌, if◌then◌else◌, length, take, drop,
}
use attentive.Base.Int.{ℤ, pos, negsuc, minus_one}
use attentive.Base.Text.{Bytes, codes}
use attentive.Response.{ResponseType}
use attentive.CString.{Format, sscanf, c_string, same_string, strchr}

-- What the modem does when it is given a command, or some time: the response that the channel
-- returns (`none` is NULL), and the lines that reach the driver's callbacks meanwhile.
pub record Reply : Type 0 where
  pub response : Option Bytes
  pub lines : List Bytes

pub data Action : Type 0 where
  set_timeout : ℕ → Action
  expect_dataprompt : Action
  command : Bytes → Action
  raw : Bytes → Action
  send : Bytes → Action
  delay : Action
  set_callbacks : Bool → Action

abbrev pub Scanner : Type 0
Scanner = Bytes → ResponseType

-- `struct cellular`, without the constant `ops`: `at` is set or NULL.
pub record Cellular : Type 0 where
  pub attached : Bool
  pub apn : Bytes
  pub pdp_failures : ℕ
  pub pdp_threshold : ℕ

-- The state that a driver's code sees. `dev` is the driver's own part of the struct.
pub record World (D : Type 0) : Type 0 where
  pub script : List Reply
  pub log : List Action
  pub command_scanner : Option Scanner
  pub modem : Cellular
  pub dev : D

-- How a piece of a function ends: it goes on with a value, the function returns early, or memory is
-- accessed outside an object. `unfinished` is no end of the code's: an unbounded loop used up the
-- rounds that it was given.
pub data Outcome {ℓ} (A : Type ℓ) : Type ℓ where
  done : A → Outcome A
  returned : ℤ → Outcome A
  fault unfinished : Outcome A

abbrev pub M : Type 0 → Type 0 → Type 0
M D A = World D → Outcome A × World D

-- The driver's callbacks for one line: the new private state, and what is sent meanwhile, the last
-- first.
abbrev pub Notice : Type 0 → Type 0
Notice D = Bytes → D → D × List Action

-- `memcpy(buffer + at, data, n)` of a signed count, which faults where it would read behind the
-- response or write behind the buffer.
unfoldable pub copy_into : Bytes → ℕ → Bytes → ℤ → Option Bytes
copy_into buffer at bytes (negsuc n) = none
copy_into buffer at bytes (pos n) =
    if leb n (length bytes) && leb (at + n) (length buffer)
    then some (take at buffer ++ (take n bytes ++ drop (at + n) buffer))
    else none

-- `sscanf` on the text of a response
unfoldable pub scan : Format → Bytes → List ℤ
scan format text = sscanf format (c_string text)

module _ {D : Type 0} where
  infixl 5 ◌>>=◌ ◌>>◌
  abbrev pub bind_outcome : {A B : Type 0} → Outcome A → World D → (A → M D B) → Outcome B × World D
  bind_outcome (done a) w f = f a w
  bind_outcome (returned r) w f = (returned r, w)
  bind_outcome fault w f = (fault, w)
  bind_outcome unfinished w f = (unfinished, w)

  abbrev pub ◌>>=◌ : {A B : Type 0} → M D A → (A → M D B) → M D B
  ◌>>=◌ m f w = let (r, w') = m w in bind_outcome r w' f

  abbrev pub ◌>>◌ : {B : Type 0} → M D (Unit {0}) → M D B → M D B
  m >> k = m >>= λ _. k

  abbrev pub pure : {A : Type 0} → A → M D A
  pure a w = (done a, w)

  -- A step that goes on, inside a sequence.
  pub >>=-done :
      {A B : Type 0} (m : M D A) (f : A → M D B) (a : A) (w v : World D)
      → m w ≡ (done a, v)
      → (m >>= f) w ≡ f a v
  >>=-done m f a w v e = ap (λ x. bind_outcome x.0 x.1 f) e

  pub >>=-returned :
      {A B : Type 0} (m : M D A) (f : A → M D B) (r : ℤ) (w v : World D)
      → m w ≡ (returned r, v)
      → (m >>= f) w ≡ (returned r, v)
  >>=-returned m f r w v e = ap (λ x. bind_outcome x.0 x.1 f) e

  pub >>=-fault :
      {A B : Type 0} (m : M D A) (f : A → M D B) (w v : World D)
      → m w ≡ (fault, v)
      → (m >>= f) w ≡ (fault, v)
  >>=-fault m f w v e = ap (λ x. bind_outcome x.0 x.1 f) e

  -- `return n;`
  abbrev pub return : {A : Type 0} → ℤ → M D A
  return n w = (returned n, w)

  abbrev pub crash : {A : Type 0} → M D A
  crash w = (fault, w)

  -- A call of a function of the driver: its `return` ends the call only.
  abbrev pub call : M D ℤ → M D ℤ
  call m w =
      let (r, w') = m w in
      (
        elim r [ done n ↦ done n | returned n ↦ done n | fault ↦ fault | unfinished ↦ unfinished ],
        w',
      )

  abbrev pub get : M D (World D)
  get w = (done w, w)

  abbrev pub set_dev : D → M D (Unit {0})
  set_dev d w = (done tt, record w { dev = d })

  abbrev pub set_modem : Cellular → M D (Unit {0})
  set_modem c w = (done tt, record w { modem = c })

  unfoldable pub act : Action → M D (Unit {0})
  act a w = (done tt, record w { log = a ∷ w.log })

  unfoldable pub at_set_timeout : ℕ → M D (Unit {0})
  unfolding act
  at_set_timeout seconds = act (set_timeout seconds)

  unfoldable pub at_set_command_scanner : Scanner → M D (Unit {0})
  at_set_command_scanner scanner w = (done tt, record w { command_scanner = some scanner })

  unfoldable pub at_expect_dataprompt : M D (Unit {0})
  unfolding act
  at_expect_dataprompt = act expect_dataprompt

  unfoldable pub at_set_callbacks : Bool → M D (Unit {0})
  unfolding act
  at_set_callbacks installed = act (set_callbacks installed)

  unfoldable pub at_send_raw : Bytes → M D (Unit {0})
  unfolding act
  at_send_raw bytes = act (send bytes)

  unfoldable pub notice_all : Notice D → List Bytes → D → List Action → D × List Action
  notice_all notice [] d log = (d, log)
  notice_all notice (line ∷ lines) d log =
      let (d', sent) = notice line d in notice_all notice lines d' (sent ++ log)

  module _ (notice : Notice D) where
    -- The modem's next turn. With nothing left in the script it is silent.
    unfoldable pub next_reply : List Reply → M D (Option Bytes)
    unfolding notice_all
    next_reply [] w = (done none, w)
    next_reply (reply ∷ script) w =
        let (d, log) = notice_all notice reply.lines w.dev w.log in
        (done reply.response, record w { script = script; dev = d; log = log })

    -- `_at_command`: the scanner is for one command only.
    unfoldable pub exchange : Action → M D (Option Bytes)
    unfolding next_reply
    exchange a w =
        let (r, w') = next_reply w.script (record w { log = a ∷ w.log }) in
        (r, record w' { command_scanner = none })

    -- `AT_COMMAND_LENGTH` is 80; a longer line is not sent.
    unfoldable pub at_command : Bytes → M D (Option Bytes)
    unfolding exchange
    at_command line =
        if leb 79 (length line) then pure none else exchange (command (line ++ (b'\r' ∷ [])))

    unfoldable pub at_command_raw : Bytes → M D (Option Bytes)
    unfolding exchange
    at_command_raw bytes = exchange (raw bytes)

    -- `sleep(1)` and `vTaskDelay(pdMS_TO_TICKS(1000))`
    unfoldable pub sleep : M D (Unit {0})
    unfolding next_reply
    sleep w = let (r, w') = next_reply w.script (record w { log = delay ∷ w.log }) in (done tt, w')

    -- The test of `at_command_simple` and `at_command_raw_simple`.
    unfoldable pub expect_ok : Option Bytes → M D (Unit {0})
    expect_ok none = return minus_one
    expect_ok (some response) = if same_string response [] then pure tt else return minus_one

    unfoldable pub at_command_simple : Bytes → M D (Unit {0})
    unfolding at_command expect_ok
    at_command_simple line = do r ← at_command line; expect_ok r

    unfoldable pub at_command_raw_simple : Bytes → M D (Unit {0})
    unfolding at_command_raw expect_ok
    at_command_raw_simple bytes = do r ← at_command_raw bytes; expect_ok r

  unfoldable pub simple_scanf : Option Bytes → Format → ℕ → M D (List ℤ)
  unfolding scan
  simple_scanf none format n = return minus_one
  simple_scanf (some response) format n =
      let values = scan format response in
      if length values == n then pure values else return minus_one

  -- `at_simple_scanf` with one variable
  unfoldable pub at_simple_scanf : Option Bytes → Format → M D ℤ
  unfolding simple_scanf
  at_simple_scanf response format = do
    values ← simple_scanf response format 1
    elim values [ [] ↦ return minus_one | n ∷ rest ↦ pure n ]

  -- A response that must not be NULL
  unfoldable pub not_null : Option Bytes → M D Bytes
  not_null none = return minus_one
  not_null (some response) = pure response

  unfoldable pub memcpy : Bytes → ℕ → Bytes → ℤ → M D Bytes
  unfolding copy_into
  memcpy buffer at bytes n = elim (copy_into buffer at bytes n) [
    | none ↦ crash
    | some buffer' ↦ pure buffer'
  ]

  -- What stands behind the first newline of a response; -1 if there is none.
  unfoldable pub payload_of : Bytes → M D Bytes
  payload_of response = elim (strchr response b'\n') [
    | none ↦ return minus_one
    | some rest ↦ pure (drop 1 rest)
  ]

  module _ (notice : Notice D) where
    unfoldable pub init_modem : List Bytes → M D (Unit {0})
    unfolding at_command_simple
    init_modem [] = pure tt
    init_modem (line ∷ lines) = do at_command_simple notice line; init_modem lines
