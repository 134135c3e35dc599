-- ===== src/Lib.antt =====
-- Verification of the core of canforge: CAN identifiers, frames and raw signals, the ISO-TP transport protocol,
-- the virtual bus and the simulated ECU's diagnostic server.
--
-- The parts, and the files that model them:
--   Base        shared names, Boolean tests, lists over the native numbers, binary digits.
--   Core        core/include/canforge/core/Result.hpp (Core/Result), Frame.hpp and core/src/Frame.cpp:
--               class CanId (Core/CanId), class BasicFrame and the length codes (Core/Frame);
--               core/include/canforge/core/Signal.hpp and core/src/Signal.cpp: the raw bit codec of
--               SignalLayout (Core/Signal).
--   IsoTp       isotp/include/canforge/isotp/IsoTp.hpp and isotp/src/IsoTp.cpp: Config and STmin
--               (IsoTp/Config), make_frame and the guards of on_frame (IsoTp/Framing), class Sender
--               (IsoTp/Sender) and class Receiver (IsoTp/Receiver). IsoTp/Exchange joins a Sender and
--               a Receiver by a bus that loses nothing and runs them in rounds.
--   Sim         sim/include/canforge/sim/UdsServer.hpp and sim/src/UdsServer.cpp: the state and the
--               helpers (Sim/UdsServer), one file for each group of services below it, and
--               handle(), on_frame() and poll() (Sim/UdsServer/Server), which use a Sender and a
--               Receiver. sim/include/canforge/sim/Faults.hpp and sim/src/Faults.cpp: class
--               FaultInjector (Sim/Faults), over parameters for what is in floating point or random.
--   Uds         uds/include/canforge/uds/Uds.hpp and uds/src/Uds.cpp: class Client over a Sender and a
--               Receiver (Uds/Client), its request builders and parse_dtc_list() (Uds/Requests). Uds/Wire
--               and Uds/Dialogue join it with the server of Sim.
--   Transport   transport/include/canforge/transport/IBus.hpp and transport/src/IBus.cpp
--               (Transport/Bus, with bit stuffing beside it in Transport/Bus/Stuffing), VirtualBus.hpp and VirtualBus.cpp (Transport/VirtualBus): the
--               medium holds its participants in the order they attached. transport/src/Inflate.hpp and
--               transport/src/Inflate.cpp: the bit reader, Huffman::build(), the tables and the streams
--               (Transport/Inflate and the files below it).
--
-- State is passed explicitly: a class is a record of its members, a method a function from the
-- record to the record and its result, a clock reading an argument. std::vector, std::array and
-- std::deque are lists, std::map is an association list. Results that can fail are Core/Result's
-- Result; where the program would abort in value(), a function gives `none`. Fixed-width
-- arithmetic keeps its wrap-around (% 2 ^ 8, % 2 ^ 32, % 2 ^ 64) where it can occur.
--
-- Bounds and fuel: VirtualMedium::advance() has no structural bound; it takes fuel, and two turns
-- more than there are queued frames are enough for it to return. The loops of inflate_raw() use up
-- at least one bit of the input in each turn, so they take one turn more than there are bits, and the
-- loop over code lengths as many turns as there are lengths. The rounds of
-- an ISO-TP exchange are counted: two for each byte of the message and two more suffice.
--
-- Not modelled: the scaling of signals and the database over them, the log formats, the
-- texts of the UDS client, the DBC parser and writer with their lexer, the other simulated ECU parts, whose values
-- are floating-point numbers; the SocketCAN backend, the dashboard, the command line, benchmarks and
-- fuzz drivers, which are input and output.
pub mod Base
pub mod Core
pub mod IsoTp
pub mod Sim
pub mod Transport
pub mod Uds
