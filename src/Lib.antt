-- ===== src/Lib.antt =====
-- InteliPump FDC, the part of a forecourt controller that talks to Wayne pumps over the DART protocol,
-- as a model of its Python code under src/intelipump_fdc.
--
-- The parts, from the wire up:
-- * Line (protocol/dart/line): bytes to frames. Control (control.py, sequence.py) reads and writes the
--   control byte and counts block numbers; Crc (crc.py) is the checksum; Escaping (escaping.py) hides
--   the stop byte SF behind DLE; Frame (models.py, frame_builder.py, frame_parser.py) builds and parses
--   a frame; Stream (stream.py) is FrameStreamAssembler, which cuts a byte stream into frames: its state
--   is the record Assembler, and `feed` is FrameStreamAssembler.feed.
-- * App (protocol/dart/application): the payload of a data frame. Splitter (splitter.py) cuts it into
--   transactions, Bcd (bcd.py) reads packed decimal numbers, Fields (fields.py) places their decimals,
--   Transaction (models.py, constants.py, status.py) has the types of a decoded transaction, which the
--   mapper reads, Registry (registry.py) the documented transactions, and Decoder (decoder.py) the
--   dispatch, with a function for each body in Bodies and Prices; `none` is an IndexError.
-- * Pump (domain, state_machine): State has the enumerations; Transitions (transitions.py) the table;
--   Context (models.py, errors.py) what the machine remembers; Machine (machine.py) is
--   PumpStateMachine.apply, from a context and a call (Call) to a result with the next context, and
--   `run` is a sequence of calls; Wayne (wayne_mapper.py) turns a decoded transaction into a call, and has
--   apply_mapped; Guards (guards.py) says which commands are eligible, and why not; Reconcile
--   (reconciliation.py) merges the persisted context with live evidence after a restart.
-- * Controller (controller): Safety (safety.py) has the gates for what is sent, and Outbound
--   (outbound.py) the queue behind them, whose items are those of session_models.py. Events
--   (session_events.py) is the bus; Session (pump_session.py) is PumpSession: its record holds the state
--   of session_models.py, the bus, the machine's context and the completions that were applied, and an
--   operation gives the next session and the reply, or the exception. Run has any sequence of polls,
--   timeouts and responses.
-- * Cloud (cloud): FillThrottle (fill_throttle.py) decides which filling updates are published;
--   CommandIntake (command_intake.py) is handle_command, from the intake's state, a view of the
--   controller loop and the rows of the database to the next of each and the result.
--   SyncWorker (sync_worker.py) is one cycle of the delivery over the queue of Persistence.
-- * Broker (events): the live events of HTTP clients, with a bounded queue for each subscription.
-- * Persistence (persistence): Audit (repositories/audit.py) is the hash chain of the audit log, and
--   SyncQueue (repositories/sync_queue.py) the queue of what is to be published, with any sequence of
--   its operations in Lifecycle, and two claims with other calls between them in
--   Exclusive.
-- * Simulator (simulator): Encoding (encoding.py) makes the transactions of the virtual dispenser, and
--   Config (config.py) has the sequence policy that the controller shares.
-- Common has what the parts share: tests on numbers, lists, results, and laws of the bit operations.
--
-- Stateful code is a function from the state to the next state; an exception is an `err` of Result or a
-- `none`; a text that explains a result is a constructor with the values that the text quotes. Bytes,
-- codes and times are natural numbers, with the code's masks written as remainders; a `datetime` is a
-- number, and the clock is an argument where the code reads it. decimal.Decimal, which is not part of
-- the program, is a parameter of Guards that says whether a preset value is a number and positive; so is
-- SHA-256 in Audit. A table of the database is the list of its rows.
--
-- Fuel: `split_from` counts down from the length of the payload, and each transaction takes two
-- bytes at least; `digits_within` and `decimal_within` count down from the number plus one, and
-- each digit divides it by ten. All other functions are structural recursion. The limits are
-- those of the code: 256 bytes in a frame and twice that in the assembler, block numbers up to
-- 15, and 16-bit checksums, whose wrap-around is written out.
--
-- Not modelled: the asyncio loop of the controller, the transports, the other tables of the database,
-- the services, the mapping and publishing of messages over MQTT (what they give is a parameter of
-- SyncWorker), the HTTP routes, the simulated pump and the bench tools, which are input and
-- output around these parts.
pub mod App
pub mod Broker
pub mod Cloud
pub mod Persistence
pub mod Common
pub mod Controller
pub mod Line
pub mod Pump
pub mod Simulator
