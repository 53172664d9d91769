-- ===== src/Lib.antt =====
-- The transport logic of mpquic-go, a multipath QUIC, as it stands in
-- mpquic-go/src/github/lucas-clemente/quic-go of the repository. All paths below are from there.
--
-- The parts and how they interact:
--
-- * Base has the names that all modules share: native numbers, uint64 arithmetic (`u64` is a
--   remainder by 2 ^ 64, `sub64` subtracts with the wrap-around), Boolean tests, int64 results.
-- * Utils/Buffer has the bytes: a Reader is a function of the bytes that are left, with `>>=` for
--   the chain of reads that ends at the first error, and Written is what a call appends to a buffer.
--   Utils/ByteOrder is internal/utils/byteorder.go with the files of the two orders.
-- * Wire has the frames of internal/wire as data, and the questions asked of ACK and CLOSE_PATH
--   frames (Wire/AckFrame: HasMissingRanges, AcksPacket, validateAckRanges). Wire/StreamFrame is
--   internal/wire/stream_frame.go, Wire/ControlFrame the bytes of the small frames beside it,
--   Wire/AckBytes reads the bytes of ACK and CLOSE_PATH frames, and Wire/PathFrame has those of
--   ADD_ADDRESS and PATHS frames.
-- * Ackhandler is the package ackhandler. History is receivedPacketHistory, a linked list of
--   intervals kept from its Back() to its Front(); Received is receivedPacketHandler, which asks it
--   and builds the ACK frames. Packet is Packet with the functions of packet.go and
--   retransmittable.go; StopWaiting is stopWaitingManager. Sent is sentPacketHandler: Sent/State its
--   fields and its alarm times, Sent/Acked the loop of determineNewlyAckedPackets, Sent/Loss the
--   packets that leave the history, Sent/Ops the calls of its interface. Congestion control, the RTT
--   statistics and the two callbacks are the record Environment over a state of their own, and every
--   theorem holds for each Environment.
-- * Flowcontrol is the package internal/flowcontrol: Controller is flowController, Manager is
--   flowControlManager. The connection parameters, the RTT and the remote RTTs are the record
--   Parameters, which may change from call to call.
-- * Protocol/PacketNumber is internal/protocol/packet_number.go.
-- * Utils/Ufloat16 is internal/utils/float16.go, up to the uint16 that is read or written.
-- * Congestion/Prr is congestion/prr_sender.go, and Congestion/HybridSlowStart is
--   congestion/hybrid_slow_start.go.
-- * Scheduler is scheduler.go: Scheduler/Paths has what the scheduler asks of a path, its quotas and
--   the selection of a free path and of all of them, Scheduler/RoundRobin and Scheduler/LowLatency
--   the two other selections, Scheduler/Selection the choice between them, and Scheduler/Duplicates
--   crossAckHandling, which removes packets from the handlers of Ackhandler/Sent. A map of paths is
--   a list in the order in which a range statement happens to visit it, and the theorems hold for
--   every order.
-- * Session/PacketNumberGenerator is packet_number_generator.go, with the random number as an
--   argument. Session/StreamsMap is streams_map.go without the iterations; a stream is a value of
--   any type, made by the callback of newStreamsMap, and Session/StreamsMap/Removal has the calls
--   that accept, remove and cancel streams. Session/StreamFramer is stream_framer.go as far as
--   frames are sent again: it counts their bytes with the flow control manager and measures them by
--   Wire/StreamFrame; Session/StreamFramer/Queues has the other queues.
-- * Session/StreamFrameSorter is stream_frame_sorter.go: State the queue and the gaps with Head and
--   Pop, Search the two loops of Push, Push the rest of it. Session/Stream is stream.go over the
--   sorter and the flow control manager: State has the calls that change a stream, Read the loop of
--   Read. A call that waits for another goroutine ends there.
-- * Session/PacketUnpacker is packet_unpacker.go: it reads the frames of a packet with the parsers of
--   Wire. Decryption is a function that is handed in.
--
-- The remaining modules below these hold what is proved of them. A function has the source's name
-- in snake_case, and a method takes its receiver as its last argument and returns the new one. A
-- call that reads the clock takes the time as an argument, a number of nanoseconds; a time for which
-- IsZero() holds is `none`. An error is a value beside the new state, which is the state that the
-- source leaves behind. A panic is the result `panicked` of Outcome.
--
-- All loops are recursive on a list, or on the number of rounds that follows from the state before
-- them, so no fuel is needed, save for the loop of stream.Read, which is given three rounds for each
-- byte that is asked for and three more: a round copies a byte, or leaves a frame behind, or an empty
-- one. Counters of type int that only grow are natural numbers; ByteCount,
-- PacketNumber and statistics wrap around at 2 ^ 64. A duration stays far below 2 ^ 62, save for
-- the shift of the RTO, which is written as an int64. The products with floating point numbers are
-- exact in the ranges that the comments name.
--
-- Not modelled: writing ACK, CLOSE_PATH and ADD_ADDRESS frames, the bytes of headers, the
-- iterations over the streams map, the frames of new data (maybePopNormalFrames and
-- the crypto stream), the loop of sendPacket and the log files of the scheduler, paths and
-- sockets, the Cubic and OLIA senders, the RTT statistics, the handshake,
-- cryptography, and the programs that use the library. Mutexes and log output are left out: every
-- call is one step.
pub mod Base
pub mod Wire
pub mod Ackhandler
pub mod Flowcontrol
pub mod Protocol
pub mod Session
pub mod Scheduler
pub mod Utils
pub mod Congestion
