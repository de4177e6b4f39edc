-- ===== src/TopicBench/Nodes.antt =====
-- The nodes PnodeSource, PnodeRelay and PnodeSink of pnode/src/pub.cpp.
use ros2_pubsub_benchmark.Prelude.{
  ℕ, suc, ◌+◌, ◌^◌, ◌∷◌, ◌++◌, none, some, length, ltb, leb, if◌then◌else◌,
}
use ros2_pubsub_benchmark.Prelude.Int.{ℤ, pos}
use ros2_pubsub_benchmark.Prelude.Bytes.{Bytes, bytes, to_string}
use ros2_pubsub_benchmark.Effect.{Ending, done, threw, exited, undefined, spinning, M}
use ros2_pubsub_benchmark.ThriftBench.Sink.{
  SinkHandler, new_sink, num_relays, nanosec_per_hop, finish,
}
use ros2_pubsub_benchmark.TopicBench.{Message, Topics}

unfoldable pub topic_name : ℕ → Bytes
unfolding to_string
topic_name index = bytes "msg_" ++ to_string index

-- The message of PnodeSource::publish.
unfoldable pub source_message : ℕ → ℤ → Message
source_message msgid nanosec = record {
  msgid = pos msgid;
  nanosec = nanosec;
  source = bytes "pnode publisher";
}

-- The copy that PnodeRelay::listen makes.
unfoldable pub relay_label : ℕ → Message → Message
unfolding to_string
relay_label index msg = record msg { source = bytes "pnode relay " ++ to_string index }

-- data_.insert, without a line for the sample.
unfoldable pub record_sample : ℤ → SinkHandler → SinkHandler
record_sample hop h = record h { samples = hop ∷ h.samples }

-- PnodeSink::listen, when the steady clock reads `nanosec`.
unfoldable pub sink_listen : ℤ → Message → M SinkHandler (Unit {0})
unfolding nanosec_per_hop record_sample finish
sink_listen nanosec msg h =
    let h' = record_sample (nanosec_per_hop nanosec msg.nanosec) h in
    if leb 1000 (length h'.samples) then finish h' else done tt h'

-- All nodes of the process: the topics, msgid_ of the source, data_ of the sink with the output,
-- and the reading of the steady clock.
pub record Graph (m : Topics) : Type 0 where
  pub topics : m.State
  pub msgid : ℕ
  pub sink : SinkHandler
  pub clock : ℕ

module _ (m : Topics) where
  abbrev pub new_graph : Graph m
  new_graph = record { topics = m.start; msgid = 0; sink = new_sink; clock = 0 }

  -- PnodeSource::publish; an increment past the end of int64_t is undefined.
  unfoldable pub source_publish : M (Graph m) (Unit {0})
  unfolding source_message topic_name
  source_publish g =
      if ltb (suc g.msgid) (2 ^ 63)
      then done tt (record g {
        msgid = suc g.msgid;
        topics = m.publish (topic_name 0) (source_message (suc g.msgid) (pos g.clock)) g.topics;
      })
      else undefined g

  -- PnodeRelay::listen. The copy is made, and the message itself is published.
  unfoldable pub relay_listen : ℕ → Message → m.State → m.State
  unfolding relay_label topic_name
  relay_listen index msg topics =
      let copy = relay_label index msg in m.publish (topic_name (index + 1)) msg topics

  -- The executor gives relay `index` a turn.
  unfoldable pub relay_turn : ℕ → M (Graph m) (Unit {0})
  unfolding relay_listen topic_name
  relay_turn index g = elim (m.take (topic_name index) g.topics) [
    | none ↦ done tt g
    | some (msg, rest) ↦ done tt (record g { topics = relay_listen index msg rest })
  ]

  -- An ending of the sink, within the graph.
  abbrev pub in_graph : {A : Type 0} → Graph m → Ending SinkHandler A → Ending (Graph m) A
  in_graph g (done a h) = done a (record g { sink = h })
  in_graph g (threw e h) = threw e (record g { sink = h })
  in_graph g (exited h) = exited (record g { sink = h })
  in_graph g (undefined h) = undefined (record g { sink = h })
  in_graph g (spinning h) = spinning (record g { sink = h })

  -- The executor gives the sink a turn.
  unfoldable pub sink_turn : M (Graph m) (Unit {0})
  unfolding sink_listen topic_name
  sink_turn g = elim (m.take (topic_name num_relays) g.topics) [
    | none ↦ done tt g
    | some (msg, rest) ↦
        in_graph (record g { topics = rest }) (sink_listen (pos g.clock) msg g.sink)
  ]
