-- ===== src/Lib.antt =====
-- A model of the interchain communication simulator, and what holds of it.
--
-- The program runs several chains in one process. A chain (src/core/Blockchain.cpp) keeps a ledger, a
-- mempool, a router and its channels (src/ibc/IBCChannel.cpp). Sending a packet publishes it on the
-- event bus (src/core/EventBus.cpp); every relayer (src/ibc/Relayer.cpp) that hears it queues it and
-- hands it to the transport (src/net/Transport.cpp), whose worker threads deliver it to the mailbox
-- node of the destination (src/core/Node.cpp); that node's loop hands it to its chain, which accepts
-- or refuses it and publishes an acknowledgement, which goes back the same way. Consensus engines
-- (src/consensus) propose blocks and decide which are final.
--
-- Which file models what:
--   Prelude     shared names, tests, lists, byte texts, maps, 64-bit counters
--   Util        Error: src/util/Error.h. Queue: src/util/ConcurrentQueue.h. Decimal: the number
--               conversions of the C++ library (to_string, stoi, stoull). Json and
--               DetailedLogger: src/util/DetailedLogger.cpp. Metrics: src/util/Metrics.cpp. Logger:
--               src/util/Logger.cpp
--   Ibc         Types: src/ibc/IBCTypes.cpp. Channel: src/ibc/IBCChannel.cpp. Router:
--               src/ibc/IBCRouter.cpp. Relayer: src/ibc/Relayer.cpp
--   Core        Transaction, Block, Mempool, EventBus, Blockchain: the files of these names under
--               src/core. NodeMessage and Node: src/core/Node.cpp. Effect: the calls of the bus, of
--               src/util/Metrics.h and of src/util/DetailedLogger.h that the methods make
--   Net         Topology and Transport: the files of these names under src/net
--   Consensus   Context, Votes: what the engines share. Pbft, Pos, Pow, Factory: src/consensus
--   Sim         Controller and Traffic: src/sim/SimulationController.cpp. Events: the relayers'
--               handlers called by the bus. System: all threads of the running program, as a step
--               relation, and SimulationController::stop with its waits. Program: src/main.cpp
--   Delivery    the path of a packet through all parts
--   Tests       the theorems at concrete inputs
--
-- How code became definitions. A class is a record of its fields; a method is a function from the
-- record to the new record, its result and the list of its effects. Code that holds one mutex is one
-- step, so any interleaving of threads is a sequence of steps. Exceptions are values of
-- Util.Error.Outcome. Strings are lists of bytes; uint64_t and size_t wrap at 2 ^ 64, written out. A
-- value of an enumeration that has no name is a constructor `other`. Function names follow the
-- source in snake case: makePacket is make_packet, onIBCPacket is on_ibc_packet.
--
-- Arguments stand for what the program does not fix: the clock's reading, the draws of the random
-- number generators (whole millionths), std::hash, which files can be opened, and the handlers of the
-- bus and the endpoints of the transport, which are types.
--
-- Bounds and fuel. The digits of n are produced with fuel n + 1, which is enough since each digit
-- divides by ten. The nonce search has 1000001 rounds, as many as the loop of PoW::propose makes
-- before it gives up. All other loops are structural.
--
-- Not modelled: the file behind src/util/Metrics.cpp, whose lines are a list, a disk that is full, and
-- the calls that the parts make of src/util/Logger.cpp, whose lines nothing reads. The handler of
-- SIGINT in src/main.cpp and its wait are between `launch` and `stop`. Sleeping and waiting are left out: a step
-- happens when its wait is over. Data races are left out: the source guards the random number
-- generators and the mempool by no lock, and their uses are whole steps.
pub mod Prelude
pub mod Util
pub mod Ibc
pub mod Core
pub mod Net
pub mod Consensus
pub mod Delivery
pub mod Sim
pub mod Tests
