-- ===== src/Lib.antt =====
-- Verification of pacsys, the Python client library for the ACNET control system of a particle
-- accelerator.
--
-- A client names what it reads or writes by a device request (a text), the backends carry it to a data
-- pool manager over pooled connections or over ACNET packets, and the replies bring status codes and
-- raw blocks that the library decodes. The parts that decide what is sent and how bytes are read are
-- modelled here; each is a module with its proofs in child modules and its concrete runs in `Runs`.
--
-- Prelude: names shared by all parts, Boolean tests on the natural numbers, lists, texts as lists of
--   character codes, decimal numerals, results with Python's exceptions, bits and integers.
-- Rad50 (pacsys/acnet/rad50.py): `encode`, `decode` and `decode_stripped` of six-character names.
-- ErrorCodes (pacsys/acnet/errors.py): `make_error`, `parse_error` and `normalize_error_code`.
-- Packet (pacsys/acnet/packet.py and constants.py): `AcnetPacket.parse` and the four classes of
--   packets. The bytes are a list, `struct.unpack` is written out byte by byte. Packet/Ids has reply
--   ids and node numbers.
-- Alarm (pacsys/alarm_block.py): Alarm/Ftd the frequency-time descriptor, Alarm/Block the 20 bytes of a
--   block and the structured values, Alarm/Flags the flag bits and digital values, Alarm/Modify the
--   context that reads, lets the caller change and writes back. The device behind it is a record
--   `Backend` that says which writes it takes and what a fresh read gives; the writes are a list.
-- Pool (pacsys/pool.py): the connection pool. Its state has the free, lent and shut connections and the
--   counter of connections being opened; each critical section under the lock is one function, and
--   Pool/Trace composes them in every interleaving of threads. The outcome of opening a connection
--   and the passing of the timeout are inputs of a step.
-- Drf (pacsys/drf3 and pacsys/drf_utils.py): Drf/Property, Drf/Field and Drf/Extra the tables, Drf/Range,
--   Drf/Event and Drf/Device the parts of a request, Drf/Pattern the regular expression of a whole
--   request as a search for the shortest device, Drf/Request `parse_request`, `to_canonical` and
--   `to_qualified`, Drf/Utils the functions of drf_utils. Drf/Names and Drf/Written prove that each part
--   is read back, Drf/Canonical that a canonical text is, and Drf/Write and Drf/Prepare what that
--   means for the requests that the library writes.
-- Supervised (pacsys/supervised): the proxy server that checks each request before a backend sees it.
--   Supervised/Glob is `fnmatch.fnmatchcase`, Supervised/Access `DeviceAccessPolicy`, Supervised/RateLimit
--   `RateLimitPolicy`, Supervised/Limits `ValueRangePolicy` and `SlewRatePolicy`, Supervised/Chain the chain
--   `evaluate_policies`, Supervised/Reorder `_reorder_map`, Supervised/Server the checks of the servicer,
--   Supervised/Handlers its `Set` and Supervised/Reading its `Read`. Each policy returns its new state with
--   its decision. The backend is a record of what its calls return or raise, a handler's outcome says what
--   was passed to it.
--   Numbers are integers and the clock counts nanoseconds, where the code has floats; a pattern of
--   syntax "regex" is the test that its full match makes of a name; metadata, the raw message, the audit
--   log and the texts of denials are left out.
-- Subscription (pacsys/backends/_subscription.py and pacsys/aio/_subscription.py): Subscription/Buffer the
--   critical sections of `BufferedSubscriptionHandle` under its condition, whose waiting readers are
--   counted; Subscription/Trace composes them in every interleaving. Subscription/Queue is the queue of
--   `AsyncSubscriptionHandle`, with one function for what runs between two awaits. A timeout of 0 is over
--   before `asyncio.wait_for` lets `get` run, as the library does it.
-- Dispatch (pacsys/backends/_dispatch.py): `CallbackDispatcher`, with the producers, the worker and the
--   closing thread as steps that Dispatch/Trace interleaves. A callback is an item, and calling it one step
--   that appends it to a list, since an exception of it is only logged.
-- Verify (pacsys/verify.py, pacsys/device.py and pacsys/_device_base.py): Verify/Context the configuration of
--   a verified write, the stack of contexts of a thread, `resolve_verify` and `values_match`;
--   Verify/Readback `Device.write` and `_verify_readback`, Verify/Control `Device.control`. The backend and
--   the clock are a record `Machine` over a state of the world that each read, write and sleep may change;
--   `numpy.allclose` is part of it, and the truth of an array an argument of `control`.
--   For a `DeviceError` that escapes stands `runtime_error`.
--
-- Ftp (pacsys/acnet/ftp.py): fast time plots. Ftp/Wire is `struct` for little-endian integers, with bytes as
--   numbers, Ftp/Device `FTPDevice`, Ftp/Build the builders of messages and Ftp/Parse the parsers of replies.
--   Ftp/Snapshot is `SnapshotHandle` with the queue of its replies; Ftp/Snapshot/Actions puts replies, rounds of
--   the monitor thread, restarts and `cancel` in any order, each of which holds the lock for its change.
--   A sampling rate is its whole part, as the code takes it; an `AcnetError` is `acnet_error`, without its
--   code. `restart` and `cancel` end where they begin to wait for the connection or the thread; `wait` takes
--   the handle as it is at its test of the event, and as it is under the lock. Left out
--   are the registry of classes, `FTPStream`, `FTPClient` and the parameters of `retrieve`.
--
-- Digital (pacsys/digital_status.py): the bits of a status word. Digital/Status has `StatusBit`, `DigitalStatus`,
--   the lookups, `_infer_legacy_from_bits` and `_reconstruct_raw`; Digital/Arrays `from_bit_arrays`, Digital/Database
--   `from_devdb_bits` and Digital/Dicts `from_status_dict`, with dictionaries as lists of pairs. Positions, words
--   and masks are natural numbers. `from_reading` and the texts for display are left out.
--
-- Conventions. A Python `int` is a natural number or, where it can be negative, an integer; a field of
-- w bits is taken modulo 2 ^ w where the code does so. Exceptions are values of `Result`, without their
-- messages. Text is ASCII: `upper`, `\d`, `\w` and `\s` are written for it. A regular expression is a
-- function that takes its parts from the left; where its repetitions can only stop in one place, the
-- greedy match is the only one, and the places where the expression does search are searched.
--
-- Fuel. Recursion is on lists or numbers; `digits_loop` has fuel one above the number it prints, and
-- each round divides that by ten. The loops of Rad50 run a fixed number of times, as in the code.
-- `items` of Supervised/Glob has the length of the pattern, of which each round takes at least one
-- character. `readback_loop` of Verify/Readback counts the attempts that are left, as the code's `range`
-- does; the rounds of `read_all` and `read_queue` are an argument, and their theorems say how many suffice.
--
-- Not modelled: floating-point values (analog alarms, scaling, ramps; the half that `_java_round` adds is
-- computed on the exact quotient), sockets, threads beyond those of Pool, Subscription, Dispatch and Ftp, asyncio
-- beyond the queue of a subscription, gRPC and the generated protocols, logging and texts for people,
-- the reads of `Device`.
pub mod Prelude
pub mod Rad50
pub mod ErrorCodes
pub mod Packet
pub mod Alarm
pub mod Pool
pub mod Drf
pub mod Supervised
pub mod Subscription
pub mod Dispatch
pub mod Verify
pub mod Ftp
pub mod Digital
