-- ===== src/GrpcBench.antt =====
-- grpc-bench/gbench/bench.cpp, and the messages of grpc-bench/gbench/timing.proto.
pub mod Services
pub mod Chain
pub mod Addresses
use ros2_pubsub_benchmark.Prelude.Int.{ℤ, pos}
use ros2_pubsub_benchmark.Prelude.Bytes.{Bytes}

pub record Request : Type 0 where
  pub msgid : ℤ
  pub nanosec : ℤ
  pub source : Bytes

pub record Response : Type 0 where
  pub ack : ℤ

abbrev pub new_response : Response
new_response = record { ack = pos 0 }

-- grpc::Status: OK, or an error with its message.
pub data Status : Type 0 where
  ok : Status
  failed : Bytes → Status
