-- ===== src/Lib.antt =====
-- Verification of brutils, a C++ library of objects with signals and slots, JSON, timers, TCP
-- and HTTP, and a thread pool.
--
-- Parts. Objects (include/brutils/br_object.h) form trees; the root of a tree may run a thread with an
-- event queue. Signals and slots belong to objects: `emit` calls a slot at once or puts an event into
-- the queue of the slot's root. JSON text becomes a `variant` in src/brutils/json_parser.cpp, and a
-- variant becomes text in src/brutils/json_generator.cpp. The timers of
-- src/brutils/timers/combined_timer.cpp serve src/brutils/TcpServer/TcpServer.cpp, which keeps a table
-- of the sockets it polls, of their connections and of their timeouts; a connection is a TcpSocket of
-- src/brutils/TcpSocket/TcpSocket.cpp, whose bytes src/brutils/HttpServer is to turn into requests. The pool of
-- src/brutils/Thread/ThreadPool.cpp gives each idle thread a timer of the same kind.
--
-- Base: shared names, Boolean tests on native numbers, byte strings, integers.
-- Signal: the store of signals and slots by address; `connect`, `disconnect` (both forms, and the
--   destructor of a signal), `removeThisFromConnectedSignals` (the destructor of a slot).
--   Signal.Object is `br_object` and `br_threaded_object` as far as threads and queues go. Signal.Emit
--   is `emit`, with the calls and events that it causes as a list of effects. Signal.Links relates the
--   two ends of a connection. Signal.Loop is the event loop of `br_threaded_object`, a round at a time,
--   and Signal.Loop.Delivery follows an emission to what the loop makes of it: an event refers to the
--   parameters of a call that has returned, so that it is undefined if the signals have parameters.
--   Signal.Loop.Sleep is that loop move by move, with its condition variable.
-- Json: Json.Variant is include/brutils/variant.h, Json.Access its tests and accessors, Json.Generator and
--   Json.Parser the two sources; Json.Parser.Scan has the steps over bytes, Json.Parser.Number the numbers. A call of `at` out of
--   range is a result. Floating point is a parameter, the record of Json.Floats. The theorems are under
--   Json.Parser and Json.RoundTrip.
-- Timers: Timers.Combined is `combined_timer`: `addTimer`, `stopTimer`, `getClosestTimerId`, and a
--   round of `run`. Ids are `int16_t` and wrap around. Timers.Keeper is
--   src/brutils/timers/TimeKeeper.cpp: `AddRecord`, `CancelRecord`, `getClosestRecord`, and `run` as a list of
--   the times at which its waits end; Timers.Keeper.Thread has that thread move by move, with the calls of
--   others, its condition variable, `stop` and `wait`, and what it
--   makes of a record that is over. Times there are nanoseconds, as the system clock of libstdc++ counts
--   them, and the order of the hash table after an insertion is an argument. Timers.Single is
--   include/brutils/timers/timer.h, with calls that wait for ever or end the program as outcomes.
-- TcpServer: `listen` and `stop`, the tables and the operations on them; TcpServer.Places and
--   TcpServer.Connections have the theorems. TcpServer.Poll is `processSockets` and
--   `acceptNewConnections`, and TcpServer.Runs has sequences of calls. What a system call returns is an
--   argument.
-- TcpSocket: src/brutils/TcpSocket/TcpSocket.cpp. An operation returns its result, the new state, and the
--   signals and system calls that it makes. TcpSocket.Transfer has `read`, `readFromSocket` and
--   `write`; TcpSocket.Reading is about receiving, TcpSocket.Requests about errors and descriptors.
-- HttpServer: HttpServer.RequestParser has the pieces of `RequestParser_v1x`, and
--   HttpServer.RequestParser.Parse is `parse` with its status and its two callers; undefined behaviour is an
--   outcome. HttpServer.Request is `HttpRequest`. HttpServer.Response has the status messages and the
--   headers of `HttpResponse`, HttpServer.Response.Send how it is sent, and HttpServer.Response.Send.Calls
--   sequences of calls. HttpServer.Connection is src/brutils/HttpServer/HttpConnection.cpp, with its signals
--   and slots in the store of Signal.
-- QueuePc: include/brutils/queue_pc.h, with sequences of calls that do not overlap; QueuePc.Consumers has
--   any number of consumers that wait, with the condition variable.
-- ThreadPool: src/brutils/Thread/ThreadPool.cpp; threads and functions are numbers. ThreadPool.Worker is
--   src/brutils/Thread/Thread.cpp on the store of Signal.
-- StringUtils: include/brutils/string_utils.h.
-- TimeUtils: src/brutils/time_utils.cpp over a record of what it takes from the C and C++ libraries.
-- Singleton: include/brutils/singleton_crtp.h.
--
-- Fuel. The calls and loops of the JSON parser run on fuel, and `parse` gives three times the length of
-- the text and one: each call or round costs one, and at most three of them stand at one byte. The search
-- for a free id gets a round more than there are records, so that one of the ids that it tries is free. The
-- loops that split a string get the string's length, as each round passes a byte at least.
--
-- Not modelled: what the user's slots and functions do, the machine's floating-point arithmetic, the
-- system calls and the time library, whose results are arguments; the condition variables outside of
-- Signal.Loop.Sleep, Timers.Keeper.Thread and QueuePc.Consumers, where a wait is a step that cannot be
-- taken yet; and the demonstration in main.cpp.
pub mod Base
pub mod Signal
pub mod Json
pub mod TcpSocket
pub mod Timers
pub mod TcpServer
pub mod HttpServer
pub mod QueuePc
pub mod ThreadPool
pub mod StringUtils
pub mod TimeUtils
pub mod Singleton
