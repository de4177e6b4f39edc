-- ===== src/Lib.antt =====
-- A verification library for the C++ code of the latency benchmarks.
--
-- A benchmark is a client, a row of 20 relays and a sink. The client stamps a message with the
-- time, each relay passes it on to the next hop, and the sink takes the time that it was on the
-- way, divides it by the number of hops, and collects the samples. At 1000 samples it prints two
-- percentiles and ends the process.
--
-- The parts, and where they are modelled:
--
--   thrift-bench/gen-cpp/timing_types.h and timing_types.cpp, the message: Thrift/Timing.antt.
--     `timing_read`, `timing_write`, `timing_eq`, `swap`, `copy`, `assign` and the setters are the
--     functions of those names; `timing_field` is the `switch` of `timing::read`. What every
--     generated `read` and `write` repeats, the loop over the fields first of all, is
--     Thrift/Fields.antt. Thrift/Timing/Printing.antt has `printTo` and `operator<<`, and
--     Thrift/Equality.antt has the comparisons of all structs.
--   thrift-bench/gen-cpp/Bench.h and Bench.cpp, the service `Bench` with its one method `bench`:
--     Thrift/Structs.antt has the structs of arguments and results, Thrift/Client.antt has
--     BenchClient (`send_bench`, `recv_bench`; its constructors are in Thrift/Client/Pointers.antt),
--     Thrift/Processor.antt has BenchProcessor (`dispatch_call`, `process_bench`), and
--     Thrift/Multiface.antt has BenchNull and BenchMultiface.
--     Thrift/Concurrent.antt has BenchConcurrentClient, whose threads share one connection: a thread
--     takes a round of the loop of `recv_bench` at a time (Thrift/Concurrent/Threads.antt).
--     Thrift/Factories.antt has the factories of handlers and processors, and
--     Thrift/Skeleton.antt the template Bench_server.skeleton.cpp.
--   thrift-bench/bench.cpp, the benchmark over Thrift: ThriftBench/Sink.antt is SinkHandler (its
--     state is the multiset data_ with the output so far), ThriftBench/Relay.antt is RelayHandler,
--     and ThriftBench/Chain.antt is `main`: a relay's `client_.bench` is a whole remote call to
--     the next handler, and `main_loop` is the loop that sends the requests.
--     ThriftBench/Ports.antt has the servers with their ports. Stats.antt is `print_stats`.
--   grpc-bench/gbench/bench.cpp, the benchmark over gRPC: GrpcBench/Services.antt has Relay::bench
--     (`relay_answer`) and Sink::bench (`sink_answer`), GrpcBench/Chain.antt has `main`, whose
--     `send_requests` is the loop, and GrpcBench/Addresses.antt has the services with their
--     addresses. The sink's sample and summary are those of the Thrift benchmark.
--   pnode/src/pub.cpp, the benchmark over ROS 2 topics: TopicBench/Nodes.antt has the callbacks of
--     the source, the relays and the sink, and TopicBench/Steps.antt has the executor, as a
--     relation: any node may be next. TopicBench/Setup.antt has the nodes with their topics, and
--     TopicBench/Line.antt is the specification of the chain, one line of messages between the
--     source and the sink.
--   psrv/src/srv.cpp, the benchmark over ROS 2 services: ServiceBench/Nodes.antt has the client
--     thread and the callbacks of the services, ServiceBench/Steps.antt their turns, and
--     ServiceBench/Setup.antt the clients and services with their names.
--     ServiceBench/Queued.antt sees the services' queues as one row of requests under way,
--     ServiceBench/Queued/Progress.antt counts the hops and rounds that are still to come, and
--     ServiceBench/Queued/Best.antt the samples that the sink can get at best.
--
-- A piece of C++ is a function from a state to an ending (Effect.antt): a value, an exception, the
-- end of the process, undefined behaviour, or `spinning`, a loop whose fuel was too small.
--
-- The Thrift library itself is not in the repository. Thrift/Protocol.antt has its TProtocol and
-- transport as a record of operations, and `Laws`, what the generated code relies on: that an
-- operation reads and writes the tokens of the binary encoding in their order. The laws speak of
-- states through a view, so that a buffer may be kept in any way. Thrift/Remote.antt has what
-- carries the bytes between the two ends of a connection, and the server's loop around the
-- processor. What ends on any input rests on reads and writes that return or throw, and use the
-- input up (`Consumes`, `Answers`). Thrift/Protocol/Machine.antt is a concrete protocol, for
-- examples. In the same way a gRPC channel is a parameter (`Channel`), and so are
-- TConcurrentClientSyncInfo, which numbers the calls of threads and keeps what one thread has read
-- for another (`Sync` and `SyncLaws`), and the topics of rclcpp and its services (TopicBench.antt).
-- Of these the code relies on no more than that a subscription is handed what has been published.
-- The specification of the chain of topics rests on topics that keep their last ten messages in
-- order (`FifoLaws`), as get_qos asks for. What is said of lost requests rests on the same of the
-- services' queues, since KeepLast(10) is the default of rclcpp's services: a full queue drops its
-- oldest request; README.md reports that this benchmark drops messages. Where it matters, nothing
-- is late (`Prompt`).
--
-- Bounds: int64_t subtraction wraps (Prelude/Int.antt), where C++ leaves an overflow undefined: the
-- two differ only outside the range of a clock's readings, which are not negative. Counters of
-- bytes are uint32_t, and wrap; an index is a size_t that is converted to an int. The clocks'
-- readings, the iteration order of the unordered multiset and the texts of exceptions are
-- parameters. The fuel of a loop over fields is enough when it is larger than the number of fields
-- of every struct on the wire, or than the number of bytes of any input; the messages of the
-- benchmark need 4. The steady clock of the ROS 2 benchmarks never goes back. The Thrift and gRPC
-- loops of 1000 rounds run over a list with the clock's readings of each round; its length is a
-- condition of what is said of them.
--
-- Not modelled: sockets, server threads, sleeps, which waiting thread is woken and when, and the
-- start and the end of rclcpp and gRPC, which are the libraries' and the system's; the lines that
-- say how far the set-up is; the Rust programs.
pub mod Prelude
pub mod Effect
pub mod Stats
pub mod Thrift
pub mod ThriftBench
pub mod GrpcBench
pub mod TopicBench
pub mod ServiceBench
pub mod Examples
