-- ===== src/Examples.antt =====
-- The theorems at concrete inputs, and the parameters that the inputs share: the protocol of
-- tokens, the wire between two ends of a connection, and the texts of exceptions.
pub mod Texts
pub mod Codecs
pub mod Calls
pub mod Inputs
pub mod Bench
pub mod Topics
pub mod Grpc
pub mod Requests
pub mod Threads
pub mod Lines
pub mod Hooks
pub mod Services
use ros2_pubsub_benchmark.Prelude.{refl, [], ◌++◌}
use ros2_pubsub_benchmark.Prelude.Int.{pos}
use ros2_pubsub_benchmark.Prelude.Bytes.{Bytes, bytes}
use ros2_pubsub_benchmark.Effect.{Exception, application, protocol, foreign}
use ros2_pubsub_benchmark.Thrift.Protocol.Machine.{token_machine, token_machine-Laws}
use ros2_pubsub_benchmark.Thrift.Timing.{Timing, new_timing}
use ros2_pubsub_benchmark.Thrift.Remote.{Network}

abbrev pub token_network : Network token_machine token_machine-Laws
token_network = record {
  carry = λ a b. (record a { sent = [] }, record b { incoming = b.incoming ++ a.sent });
  carry_from = λ a b. refl;
  carry_to = λ a b. refl;
}

abbrev pub text_of : Exception → Bytes
text_of (application kind message) = message
text_of (protocol kind) = bytes "TProtocolException"
text_of (foreign n) = bytes "std::exception"

abbrev pub sample_timing : Timing
sample_timing = record new_timing { msgid = pos 7; nanosec = pos 1234567; source = bytes "client" }
