-- ===== src/Lib.antt =====
-- OMGP, the Open Modular Guitar Platform: the trunk protocol between a host and its modules.
--
-- The link layer (link/) carries messages over a half-duplex serial trunk. `encode_frame` turns the
-- fields of a frame into a byte-stuffed wire frame closed by FLAG bytes, with a CRC-16, and the
-- class Deframer parses the byte stream back. The class Master drives the host's side of one
-- request at a time: it sends the request, waits for the answer in a window behind it, sends it
-- again at most twice, and keeps T_gap of silence before each transmission. The class Responder is
-- a node's side: it hands a request to the application once, answers a turnaround later, answers a
-- retry from its replay buffer, and holds requests that arrive while a late answer is pending. The
-- class HealthTracker judges the nodes by the outcomes of their transactions, says which node is
-- polled or probed next, and declares a bus fault, with a search at a lower bit rate, when all the
-- nodes that it knows fail.
--
-- The application layer (l3/) encodes and decodes the messages and the descriptors that the frames
-- carry. The host's engine (core/), class CoreEngine, puts them together: each call of
-- run_superframe() polls its Master, hands an outcome to its HealthTracker and to the handler of
-- the request, and asks for what the plan of the superframe wants next: polls of the backplanes,
-- chunks of descriptors, identifications, parameters, probes.
--
--   Protocol.antt        protocol/omgp-protocol.yaml: the constants of the generated header
--   Link/Types.antt      link/link_types.hpp: statuses, frame fields, statistics
--   Link/Crc.antt        link/crc16.hpp; Crc/Detects: what the checksum tells apart
--   Link/Frame.antt      link/frame.cpp, encode_frame; Frame/Fields: packed bytes read back;
--                        Frame/Bounds: size and shape of the output
--   Link/Deframer.antt   link/frame.hpp and link/frame.cpp, class Deframer, one function for each
--                        member function; Deframer/RoundTrip, Stream, Corruption, Invariant: proofs
--   Link/Wire.antt       link/byte_wire.hpp: the transport by its contract
--   Link/Master.antt     link/master.hpp and link/master.cpp, class Master; Master/Invariant,
--                        Transmissions, Attempts, Answers, Outcome, Memory, Gap, Silence: proofs
--   Link/Held.antt       link/responder.hpp, the ring of held requests
--   Link/Responder.antt  link/responder.hpp and link/responder.cpp, class Responder;
--                        Responder/Rounds, Invariant, Preserved, Requests, Retries, Transmissions,
--                        Speaks, Looks, Timely: proofs
--   Link/Health.antt     link/health.hpp and link/health.cpp, class HealthTracker: Health/Records (one
--                        node), Tracker (state, faults), Results (on_result, tick), Probes (polls
--                        and probes); Health/Invariant, Preserved, Runs, Transitions, Evolves,
--                        Paths, Rotation: proofs
--   Link/Exchange.antt   a request of the Master at a Responder: proofs
--   L3/Types.antt        l3/l3_types.hpp: statuses and headers
--   L3/Header.antt       l3/l3_header.cpp; Header/RoundTrip: proofs
--   L3/Utf8.antt         l3/l3_utf8.hpp; Utf8/WellFormed: the definition of UTF-8 and proofs
--   L3/Tlv.antt          protocol/omgp-protocol.yaml, tlv: the record types
--   L3/Descriptor.antt   l3/l3_descriptor.cpp, the checks of a record; Descriptor/Validate:
--                        validate_descriptor; Descriptor/Writer: class DescriptorWriter;
--                        Descriptor/Records: RecordCursor, the typed records and add_*, with
--                        Records/Decode for decode_*; Descriptor/Validate/Scans and
--                        Accepts, Descriptor/Writer/Written and Descriptor/Records/RoundTrip: proofs
--   L3/Payload.antt      l3/l3_payload.cpp: Payload/Checks, Fixed and Tails (the codecs), Bounds
--                        (payload_bounds and its tables), Kinds (the codecs by their kind);
--                        Payload/Fields, RoundTrip, Exact, Errors: proofs
--   Core/Types.antt      core/core_types.hpp: records of nodes, backplanes, cache entries, notices
--   Core/Ring.antt       core/core_types.hpp, Ring<T, N>; Ring/Queue: proofs
--   Core/Engine.antt     core/core_engine.hpp and core/core_engine.cpp, class CoreEngine: its
--                        members; Core/Descriptors (the cache), Slots (reconcile_slot_map),
--                        Params (set_param, get_param, drain_callbacks), Requests (what is asked),
--                        Answers (complete_request), Schedule (run_superframe); Params/Outcome,
--                        Params/Drained, Slots/Assigned, Moves, Rounds and Preserved, and
--                        Kept/Asked, Planned, Answered, Superframe: proofs
--   Tests.antt           runs at concrete inputs, and the theorems at inputs
--   Base.antt            shared lists, tests, words and bit operations
--
-- State. A C++ object is a record with a field for each member, and a member function that changes
-- it returns the new record. An array with a fill count is the list of its used part. A pointer to
-- a payload is the list of the bytes it is read at; the source's lifetime rules (a payload is valid
-- until the next call) play no part, since values are copied.
--
-- Numbers are native naturals. uint8_t, uint16_t and uint32_t keep their casts and wrap-around
-- (Base/Words.antt): counters, the CRC, the ctrl byte, the count of attempts. Instants are the
-- microseconds of a 64-bit monotonic clock and are taken not to reach 2^64.
--
-- The transport and the clock are interfaces. A wire is the list of the bytes that are due, with
-- the instants of their start bits, and the list of what was sent; transmit() returns the instant
-- of the last stop bit as its contract says. A poll drains the whole list, as the source's loop
-- does, so that loop needs no fuel. The responder's loop runs on fuel: each round reads a byte,
-- which adds at most one held request, or serves a held request, so twice the bytes due and the
-- held requests are enough (Responder/Rounds). The loop of
-- `utf8_valid` takes a round for each byte of the string, and each round takes at least one byte;
-- that of `validate_descriptor` likewise. `poll_until` takes a number of polls (six are enough
-- on a silent wire).
--
-- The request handler of a node is an application's code. It is a parameter: a function from the
-- application's state and the request's payload to a new state and an answer, of which the theorems
-- assume only that it writes bytes.
--
-- In the engine the clock is read at the start of each call: its functions take that instant. What
-- the HealthTracker announces is a list in its record, which the engine hears after each call of
-- the tracker, in order. A pointer to an entry of the descriptor cache is its index. The callbacks
-- of drain_callbacks() are a parameter: functions of the application's state and of the engine, since a callback may
-- call back. A member that no code uses yet (event_queue_) and one that only holds a copy of what is
-- passed on (request_buf_) are left out.
--
-- Not modelled: the statistics' getters beyond `stats_of`, the name tables of the statuses, the
-- other components that PROJECT.json lists as not modelled.
pub mod Base
pub mod Protocol
pub mod Link
pub mod L3
pub mod Core
pub mod Tests
