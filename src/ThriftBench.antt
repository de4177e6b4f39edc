-- ===== src/ThriftBench.antt =====
-- thrift-bench/bench.cpp: the client, the relays and the sink of the Thrift benchmark.
pub mod Sink
pub mod Relay
pub mod Chain
pub mod Ports
