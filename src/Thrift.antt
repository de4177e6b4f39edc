-- ===== src/Thrift.antt =====
-- The Thrift code of thrift-bench/gen-cpp, which a build of the benchmark compiles.
pub mod Protocol
pub mod Zoom
pub mod Settled
pub mod Fields
pub mod Timing
pub mod Structs
pub mod Client
pub mod Multiface
pub mod Concurrent
pub mod Equality
pub mod Skeleton
pub mod Processor
pub mod Factories
pub mod Remote
