-- ===== src/Thrift/Timing/Printing.antt =====
-- timing::printTo and operator<< of thrift-bench/gen-cpp/timing_types.cpp. A stream is the text that
-- has been put into it. to_string is the Thrift library's, a parameter.
pub mod Apart
use ros2_pubsub_benchmark.Prelude.{◌≡◌, ◌≢◌, ◌++◌, All}
use ros2_pubsub_benchmark.Prelude.Int.{ℤ}
use ros2_pubsub_benchmark.Prelude.Bytes.{Bytes, bytes}
use ros2_pubsub_benchmark.Thrift.Timing.{Timing}

-- ::apache::thrift::to_string of an int64_t and of a std::string.
pub record ToString : Type 0 where
  pub of_int64 : ℤ → Bytes
  pub of_text : Bytes → Bytes

-- Each integer has its own text, which has no comma in it; the text of a text is the text itself.
pub record ToStringLaws (f : ToString) : Type 0 where
  pub apart : (x y : ℤ) → f.of_int64 x ≡ f.of_int64 y → x ≡ y
  pub no_comma : (x : ℤ) → All (λ c. c ≢ b',') (f.of_int64 x)
  pub same_text : (s : Bytes) → f.of_text s ≡ s

module _ (f : ToString) where
  unfoldable pub print_to : Timing → Bytes → Bytes
  print_to this out =
      let out1 = out ++ bytes "timing(" in
      let out2 = (out1 ++ bytes "msgid=") ++ f.of_int64 this.msgid in
      let out3 = ((out2 ++ bytes ", ") ++ bytes "nanosec=") ++ f.of_int64 this.nanosec in
      let out4 = ((out3 ++ bytes ", ") ++ bytes "source=") ++ f.of_text this.source in
      out4 ++ bytes ")"

  -- operator<<: the stream afterwards.
  unfoldable pub stream_insert : Bytes → Timing → Bytes
  unfolding print_to
  stream_insert out obj = print_to obj out
