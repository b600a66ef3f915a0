-- ===== src/Lib.antt =====
-- canopen-studio reads and drives CANopen networks and diagnoses vehicles over OBD-II. These files
-- model the parts of it that decide: how messages are cut into frames and put together again, which
-- replies answer a request and how long it waits, how trouble codes, readiness monitors, supported
-- PIDs and vehicle numbers are read, how a formula decodes a PID, which profile a vehicle is given,
-- when a write may be sent, how CANopen frames are classified and mirrored on a network.
--
-- The parts and their files, with the code that each models:
--
--   IsoTp        src/canopen_studio/diag/isotp.py (identifiers, `segment`, flow control frames);
--                IsoTp/Reassembly: crates/canopen-core/src/isotp.rs, isotp_manager.rs and the class
--                of pyo3_bindings.rs that isotp.py wraps
--   Dtc          src/canopen_studio/diag/j1979/dtc.py
--   Diagnostic   src/canopen_studio/diag/interface.py: replies and the life cycle of a session
--   Native       src/canopen_studio/diag/native.py: the request over a CAN bus, on IsoTp
--   Elm          src/canopen_studio/diag/elm327/protocol.py: the cleaning of a reply
--   LocalOnly    src/canopen_studio/agent_security.py: the guard of the servers for agents
--   WriteGate    src/canopen_studio/diag/security.py and `env_flag` of agent_security.py; clearing of
--                trouble codes sends through a session of Diagnostic
--   Discovery    src/canopen_studio/diag/j1979/discovery.py, over a session of Diagnostic
--   Readiness    src/canopen_studio/diag/j1979/readiness.py
--   Vin          src/canopen_studio/diag/j1979/vin.py
--   Formula      src/canopen_studio/diag/j1979/formula.py: the check of a formula's tree and its
--                evaluation, over numbers that are a parameter
--   Pids         src/canopen_studio/diag/j1979/pids.py: definitions, tables and decoding, on Formula
--   Profiles     src/canopen_studio/diag/profiles: model.py (Profiles, Merge), library.py (Library),
--                resolver.py (Scores, Resolver), on Pids and Vin
--   Client       src/canopen_studio/diag/j1979/client.py: the readings of a session, on Diagnostic,
--                Discovery, Pids, Dtc, Readiness and Vin; what it learns of a vehicle is what Profiles
--                chooses by
--   Bridge       src/canopen_studio/bridge.py: the mirror of a bus, as sequences of events
--   Canopen      src/canopen_studio/stack: types.py, canopen_layer.py, registry.py, base_decoder.py
--   Devices      src/canopen_studio/stack/decoders: the signals that the decoders of single devices read
--   Prelude      what all of them share: tests, lists, results, bits, texts, integers, dictionaries,
--                sorting
--
-- Conventions. A function keeps the name of the Python function or Rust method it models, and an
-- object is a record that a method returns beside its result. Bytes, identifiers and times are
-- natural numbers; `x >> k` and a mask of ones are division and remainder, `|` is the native
-- operation. A text is the list of its code points and is taken to be ASCII. An exception is an
-- `err` of a result type, with what the code catches caught. A dictionary is an association list, in
-- newer parts with the order and the overwriting of Python's (Prelude/Dict), a set the list of what
-- was added to it. Integers that may be negative, the numbers of a PID's key, are a type of their own.
-- Scores that the resolver counts in halves are whole numbers, twice as large. The hooks of a diagnostic backend are a record that the
-- session takes, and the native decoder of CANopen frames is an argument.
--
-- Loops are recursion on the list they walk. `consecutive_frames` runs on fuel, which `segment` sets
-- to the length of the payload; each turn takes seven bytes. `drop_searching` runs on the length of
-- the text, of which each turn drops twelve characters. The collecting loop of Native is run on
-- the sequence of what its turns meet; a result is absent only where that sequence ends first. The chain of a profile is climbed
-- on the number of profiles that it may still take, sixteen at first, as the code bounds it.
--
-- Not modelled: the graphical interface, the servers for agents behind their guard, adapters, links
-- and the updater, which are I/O through other packages; the rest of the ELM327 backend; polling and
-- latency, which are statistics of floating-point times; the parser of formulas, which is Python's;
-- the importers of profiles; texts for the display; and, of the Rust
-- crates, all but the receiver.
pub mod Prelude
pub mod IsoTp
pub mod Dtc
pub mod Diagnostic
pub mod WriteGate
pub mod Readiness
pub mod Canopen
pub mod Vin
pub mod Discovery
pub mod Native
pub mod LocalOnly
pub mod Elm
pub mod Formula
pub mod Pids
pub mod Profiles
pub mod Client
pub mod Bridge
pub mod Devices
