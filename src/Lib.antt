-- ===== src/Lib.antt =====
-- Attentive is a C library that talks AT commands to cellular modems. This library models it and
-- proves what its parts promise to each other.
--
-- The parts and their files:
-- - Response: the types of response lines with the macros that pack the size of a block
--   (include/attentive/parser.h).
-- - Parser: the parser of responses (src/parser.c). A byte goes through `at_parser_feed` to one of
--   three states: text, raw block, hexadecimal block (Parser, Parser/Feed). Parser/Spec is the same
--   parser over texts, with a list of kept bytes and a current line and no array; Parser/Refine,
--   Parser/Steps and Parser/Simulation relate the two, Parser/Valid has the invariant.
--   Parser/Lines, Parser/Handled, Parser/Exchange, Parser/Blocks, Parser/Responses and
--   Parser/Payload go from one line to whole exchanges; Parser/Calls, Parser/Idle and Parser/Limits
--   have what a client may call, what arrives unasked, and the edges of the buffer; Parser/Private,
--   Parser/Size and Parser/Interrupted what the callbacks and all input keep, and a command that is
--   left without a reset; Parser/Unfinished an exchange before its end.
-- - CString: the functions of the C library on strings that the sources use, sscanf for the formats
--   that occur among them;
-- - Channel: the callbacks that both implementations of the channel give the parser, and their
--   setters (include/attentive/at.h, src/at-unix.c, src/at-freertos.c). Channel/Scanning,
--   Channel/Driver, Channel/Argument, Channel/Answers, Channel/Shown and Channel/Fed are about what
--   a byte does to a driver's state, to a waiting command and to the text that its response points
--   to; Channel/Notices and Channel/Fixed about the notices that a driver's code reads the
--   callbacks as, Channel/Ending about a modem's answer to a command.
-- - Posix: the channel on POSIX (src/at-unix.c), one function for each piece of a thread that holds
--   the mutex. Posix/Step has the threads and the condition variable as a step relation;
--   Posix/Parsing, Posix/Agrees, Posix/Invariant and Posix/Waits have what every step keeps;
--   Posix/Answered, Posix/Delivery and Posix/Late are about what a command returns; Posix/Close,
--   Posix/Strand and Posix/Free about closing and freeing. Posix/Exchange, Posix/Answer and
--   Posix/Expired are about whole commands, from the call to the return; Posix/Served,
--   Posix/Refines and Posix/Script about a driver's commands (Modem) on this channel: what the
--   modem sends for a reply of its script. A run names the bytes that the reader reads in it.
-- - FreeRtos: the channel on FreeRTOS (src/at-freertos.c), which has no mutex, cut where the reader
--   can come in between, in `at_parser_reset` between its assignments too. FreeRtos/Step has its
--   step relation and the bytes that the reader reads; FreeRtos/Delivery, FreeRtos/Exchange and
--   FreeRtos/Answer are about a command from its call to its return, FreeRtos/Races about a
--   response that comes too early, FreeRtos/Reset about a byte that comes in the middle of a reset.
-- - Modem: what a driver sees of a channel (include/attentive/at.h). Commands, settings and delays
--   go to a log, replies and notifications come from a script that is arbitrary. Modem/Pdp and
--   Modem/Common are src/modem/at-common.c and its header, Modem/Attach is src/cellular.c,
--   Modem/Generic is src/modem/generic.c; Modem/Replies, Modem/Keeps, Modem/Backoff and
--   Modem/Attached are about them; Modem/Inversion has what a sequence of steps says of each step.
-- - Telit2, Telit2/Ftp, Telit2/Clock: src/modem/telit2.c; Telit2/Recv is about reading from a
--   socket, Telit2/Keeps about the calls that the shared code makes.
-- - Sim800, Sim800/Network, Sim800/Socket, Sim800/Ftp: src/modem/at-sim800.c; Sim800/Events is
--   about its notifications.
-- - Base: shared names, tests, lists, texts and integers. Examples: inputs on which all of it runs.
--
-- The parser calls the callbacks of its client, which are functions on the private state here. A
-- driver gives the channel a scanner and a URC handler, which the channel passes to the parser; a
-- driver's operation sends a command and reads the text that the parser collected.
--
-- A write outside the parser's buffer is the result `none`, and one outside a caller's buffer is
-- the outcome `fault`: nothing is repaired silently. A size_t is a number below 2 ^ 64 and wraps,
-- and a cast of it to int takes 32 bits of it with a sign. A response type is the bit pattern of a
-- C int. The PDP counters are numbers without a bound.
--
-- The loops of the drivers count rounds down from the constants of the source. The loop of
-- `telit2_socket_recv` has no limit in the source: the model takes the number of rounds and ends in
-- `unfinished` when they are used up.
--
-- In the models of the channels one thread issues commands and makes the settings, and one opens,
-- closes and frees. A setting is one step. On POSIX `pthread_cond_signal` wakes any one waiter, and
-- a wait may end by itself, save where a theorem says otherwise. On FreeRTOS the reader has a
-- higher priority than the tasks that call, as src/at-freertos.c starts it, so that a byte is fed
-- in one piece and nothing comes in between its test of the port and the read; no other task of
-- such a priority opens or closes. POSIX has no call that sets a character handler; a timeout is
-- not negative. A response is a pointer to the parser's buffer: its text is the C string that
-- stands there when it is read. A fault of a callback stays in the private state of the parser.
--
-- A POSIX channel is sound when its flags agree with where its threads stand, and its parser is
-- valid and has no character handler. Its waits are in order when no signal of the response handler
-- is pending, a parked command is unanswered, a command and at_close are parked together only
-- during a read, and a command that is answered has a response.
--
-- A POSIX channel is idle when it runs and is open, with the callbacks of a driver, a ready parser
-- and the reader at the top of its loop, no command and no call that opens or closes is under way,
-- and no signal of the response handler is pending. A modem serves a reply of the script in a state
-- of a POSIX channel when what it sends there is scanned as lines of the response and URC lines,
-- these the lines of the reply, and ends with an OK line, an error line, or neither; its response
-- is then the text of the lines, or NULL where there is a timeout and no final line. All of it is
-- shorter than the buffer.
--
-- Not modelled: the settings of the terminal and of the serial port, the calls of the driver of the
-- port beyond whether their descriptor is NULL, memory after it is released, the calendar of the C
-- library and the scanning of floats, which are parameters, errno, output for debugging, allocation
-- and release in the drivers, and the example programs. Callbacks that call the parser back or
-- write through their argument are left out, as the sources have none.
pub mod Base
pub mod Response
pub mod Parser
pub mod CString
pub mod Channel
pub mod Posix
pub mod FreeRtos
pub mod Modem
pub mod Telit2
pub mod Sim800
pub mod Examples
