-- ===== src/Lib.antt =====
-- A model of radish, a persistent key-value store with a RESP server.
--
-- The program has three layers. `RadishStore` is the map in memory, with a deadline for each key
-- where the store has a time to live. `RadishDB` puts a log of events beside it: each change is
-- first applied to a copy of the store, then appended to the log, and only then swapped in; the log
-- is replayed when the database is opened, and compacted on request. `RespCodec` parses the
-- commands of the clients of the server and writes its replies. `TcpServer` accepts connections; a
-- session of it reads from its client, dispatches the commands to the one database, and writes the
-- queued responses one after another. `main` reads the options and opens the database. Beside the
-- server stands a client, RadishBench, which sends pipelines of commands, reads the replies and
-- makes statistics of the latencies.
--
-- The files, and the code that they are about:
--   Store: include/RadishStore.h. A method that reads the clock takes the reading as an argument,
--     and one that mutates returns the new store beside its result. Store/Table has the abstract
--     view, a map from keys to values with deadlines; Store/Valid the invariant.
--   Dict: std::unordered_map, as an association list.
--   Event: include/RadishEvent.h and include/enums/EventType.h.
--   Binary: include/persistence/BinaryFile.h and the widths of include/helpers/Types.h. A stream is
--     the list of its bytes; a read returns what it leaves.
--   LogReader, CompactStrategy, LogWriter: the headers of these names in include/persistence. A
--     file is its bytes, `none` where it does not exist. `Disk` holds the log and the temporary
--     file of compaction. `Fault` says what the file system does to an operation: nothing, a file
--     that cannot be opened, or a write of which only so many bytes reach the file.
--   PersistenceLog: the facade of the writer in include/persistence/PersistenceLog.h.
--   Database: include/RadishDB.h. The mutexes of both classes make each operation one step.
--   RespCodec: include/network/RespCodec.h and src/network/RespCodec.cpp. An offset into the input
--     is the suffix of the input from there. RespCodec/Replies has the replies.
--   Commands: the command handlers of the session in src/network/TcpServer.cpp. `Calls` gives each
--     call of the database that a command makes the time and the fault it meets. Commands/Effects and
--     Commands/Replies have the abstract commands, over the table of the store.
--   Session: the rest of the session. `on_read` and `on_write` are what its two completion handlers
--     do, `process` is the loop over the commands. Session/Steps has the steps of a session:
--     completions, with success or an error, of the operations in flight.
--   Server: `TcpServer` itself. A step is a completed accept, a stop, or a step of one session on
--     the database that all of them share.
--   Options: `ParseOptions` of src/main.cpp, the database that `main` makes and its end.
--   Bench: benchmarks/RadishBench.cpp. Bench/Connection is `RespConnection`, over the bytes that
--     arrive until the server closes the connection; Bench/Pipeline sets it against a session of the
--     server. Bench/Options, Bench/Keys and Bench/Workload are `ParseOptions`, `MakeKey` and
--     `BuildCommand`, Bench/Worker `Preload` and `RunWorker`, Bench/Report the end of its `main`.
--     Bench/Statistics is include/benchmark/BenchmarkStatistics.h.
--   Decimal: std::to_string and std::from_chars for long long, as their documentation describes
--     them.
--   Shared: names of the libraries, lists and integers over the native numbers, bytes, exceptions.
--
-- An exception is the `err` of a `Result`, named after its message. The type of the values is a
-- parameter with an instance of `BinaryValue`; `IsReadBack` states what a theorem needs of it, and
-- is proved for strings. Timestamps are integers, and the theorems that write them to a file bound
-- them to 64 bits. The addition of a time to live to the clock wraps around; in the code an overflow
-- has no defined result, and the theorems on the deadline of a SET suppose that the sum fits.
--
-- The random generator of the client and its distributions are a parameter, `Random`, of which the
-- theorems use that a drawn number is in its range (`IsUniform`). The type `double` is a parameter
-- too, `Double` with the operations that the code uses, and `IsRounded` names what the theorem on the
-- statistics uses of them: that the ceiling of a literal times a size below 2^40 is that of the exact
-- fraction. std::sort is an insertion sort.
--
-- asio, std::stoul and std::stoll are libraries. Of asio the model uses that handlers run one at a
-- time, that each operation completes once, and that an operation is not started again by asio. It
-- counts the operations in flight, since a socket must not have two writes at once. Which handler
-- runs next, what a read receives and whether an operation fails is left open. An exception in a
-- handler ends the program, so that there is no step behind it.
--
-- Bounds and fuel: the loop of the reader runs on one more unit than the file has bytes, and each
-- round takes at least four. The loop of a session runs on one more unit than its input has bytes,
-- and each complete command takes at least one. A number is printed in at most 20 rounds, since 64
-- bits hold at most 20 digits. A record has at most 64 MiB, a bulk string at most 4 MiB, a command at
-- most 1024 arguments, as in the code. An unsigned long has 64 bits, as on Linux and macOS.
-- The client reads a reply on 33 levels, the depths 0 to 32 that the code admits; the replies of the
-- server take at most three. The rounds of a worker are given, those that begin before the end of
-- their part, each with the readings of its clock.
--
-- One call reads the clock once in the model, also `Compact`, which reads it for each event. Where
-- both a serialization and a write of a compaction fail, the model reports the first.
--
-- Not modelled: the calls of asio that open, bind and close sockets and their errors, `Port`, the
-- signals and the printing of src/main.cpp; the sockets, the threads and the printing of
-- benchmarks/RadishBench.cpp, with the files that `WriteResults` writes; an allocation that fails, an
-- input error that is not the end of a file, and a failure to rename the temporary file.
pub mod Shared
pub mod Dict
pub mod Store
pub mod Binary
pub mod Event
pub mod LogReader
pub mod CompactStrategy
pub mod LogWriter
pub mod PersistenceLog
pub mod Database
pub mod Decimal
pub mod RespCodec
pub mod Commands
pub mod Session
pub mod Options
pub mod Server
pub mod Bench
