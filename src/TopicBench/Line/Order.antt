-- ===== src/TopicBench/Line/Order.antt =====
-- The messages under way, by their numbers.
use ros2_pubsub_benchmark.Prelude.{
  ℕ, suc, ◌+◌, ◌^◌, ◌≤◌, ◌<◌, ◌≡◌, refl, inl, inr, List, [], ◌∷◌, ◌++◌, length, ltb, leb,
  Bool-cases, List-cases, length-append, arith,
}
use ros2_pubsub_benchmark.Prelude.Int.{ℤ, pos}
use ros2_pubsub_benchmark.Effect.{Ending, done, threw, exited, undefined, spinning}
use ros2_pubsub_benchmark.ThriftBench.Sink.{SinkHandler, num_relays, nanosec_per_hop}
use ros2_pubsub_benchmark.ThriftBench.Sink.Laws.{finish-lasts}
use ros2_pubsub_benchmark.TopicBench.{Message, Topics}
use ros2_pubsub_benchmark.TopicBench.Nodes.{Graph, source_message, sink_listen, record_sample}
use ros2_pubsub_benchmark.TopicBench.Steps.{Reaches}
use ros2_pubsub_benchmark.TopicBench.Line.{
  FifoLaws, Line, line_publish, line_receive, in_line, LineStep, LineReaches, line_of, row,
  waiting_at,
}
use ros2_pubsub_benchmark.TopicBench.Line.Refinement.{Reaches-refines}

-- The numbers rise from the front on, above `low`, and none is above `high`.
abbrev pub Rising : ℕ → ℕ → List Message → Type 0
Rising low high [] = low ≤ high
Rising low high (x ∷ xs) = (n : ℕ) × (x.msgid ≡ pos n) × (low < n) × Rising n high xs

Rising-append :
    (low high : ℕ) (xs : List Message) (x : Message)
    → x.msgid ≡ pos (suc high)
    → Rising low high xs
    → Rising low (suc high) (xs ++ x ∷ [])
Rising-append low high [] x e h = (suc high, e, omega arith, omega arith)
Rising-append low high (y ∷ ys) x e (n, numbered, above, rest) =
    (n, numbered, above, Rising-append n high ys x e rest)

Rising-lower :
    (low n high : ℕ) (xs : List Message) → low ≤ n → Rising n high xs → Rising low high xs
Rising-lower low n high [] h r = omega arith
Rising-lower low n high (x ∷ xs) h (k, numbered, above, rest) = (k, numbered, omega arith, rest)

Rising-remove :
    (low high : ℕ) (before behind : List Message) (x : Message)
    → Rising low high (before ++ x ∷ behind)
    → Rising low high (before ++ behind)
Rising-remove low high [] behind x (n, numbered, above, rest) =
    Rising-lower low n high behind (omega arith) rest
Rising-remove low high (y ∷ ys) behind x (n, numbered, above, rest) =
    (n, numbered, above, Rising-remove n high ys behind x rest)

Rising-length : (low high : ℕ) (xs : List Message) → Rising low high xs → low + length xs ≤ high
Rising-length low high [] h = omega arith
Rising-length low high (x ∷ xs) (n, numbered, above, rest) =
    omega (arith, Rising-length n high xs rest)

-- Of the messages with a number up to `last`, the sink has a sample of each at most once.
pub record InOrder (count : ℕ) (h : SinkHandler) (xs : List Message) : Type 0 where
  pub last : ℕ
  pub rising : Rising last count xs
  pub once : length h.samples ≤ last
  pub counted : length h.samples + length xs ≤ count

-- A message whose callback returns adds one sample.
sink_listen-length :
    (nanosec : ℤ) (x : Message) (h h' : SinkHandler)
    → sink_listen nanosec x h ≡ done tt h'
    → length h'.samples ≡ suc (length h.samples)
unfolding sink_listen record_sample
sink_listen-length nanosec x h h' e = elim (Bool-cases (leb 1000 (suc (length h.samples)))) [
  | inl enough ↦
      absurd
        (finish-lasts tt (record_sample (nanosec_per_hop nanosec x.nanosec) h) h' (rw enough at e))
  | inr few ↦
      let f = rw few at e in
      let same : record_sample (nanosec_per_hop nanosec x.nanosec) h ≡ h' = cc (f) in
      rw (← same) refl
]

abbrev LineInOrder : Line → Type 0
LineInOrder l = InOrder l.msgid l.sink l.under_way

line_publish-InOrder : (l l' : Line) → line_publish l ≡ done tt l' → LineInOrder l → LineInOrder l'
unfolding line_publish source_message
line_publish-InOrder l l' e w = elim (Bool-cases (ltb (suc l.msgid) (2 ^ 63))) [
  | inr past ↦ absurd (let h = rw past at e in cc (h))
  | inl fits ↦
      let x = source_message (suc l.msgid) (pos l.clock) in
      let h = rw fits at e in
      let same : record l { msgid = suc l.msgid; under_way = l.under_way ++ x ∷ [] } ≡ l' =
        cc (h) in
      rw (← same) (record {
        last = w.last;
        rising = Rising-append w.last l.msgid l.under_way x refl w.rising;
        once = w.once;
        counted = omega (arith, w.counted, length-append l.under_way (x ∷ []));
      })
]

in_line-done :
    (l l' : Line) (o : Ending SinkHandler (Unit {0}))
    → in_line l o ≡ done tt l'
    → (h' : SinkHandler) × (o ≡ done tt h') × (record l { sink = h' } ≡ l')
in_line-done l l' (done a h) e = (h, refl, cc (e))
in_line-done l l' (threw x h) e = absurd (cc (e))
in_line-done l l' (exited h) e = absurd (cc (e))
in_line-done l l' (undefined h) e = absurd (cc (e))
in_line-done l l' (spinning h) e = absurd (cc (e))

handed-InOrder :
    (l l' : Line) (x : Message) (rest : List Message)
    → l.under_way ≡ x ∷ rest
    → in_line (record l { under_way = rest }) (sink_listen (pos l.clock) x l.sink) ≡ done tt l'
    → LineInOrder l
    → LineInOrder l'
handed-InOrder l l' x rest front e w =
    let (h', ends, same) =
      in_line-done (record l { under_way = rest }) l' (sink_listen (pos l.clock) x l.sink) e in
    let more = sink_listen-length (pos l.clock) x l.sink h' ends in
    let (n, numbered, above, rising) = rw front at w.rising in
    let counted = rw front at w.counted in
    rw (← same) (record {
      last = n;
      rising = rising;
      once = omega (arith, more, above, w.once);
      counted = omega (arith, more, counted);
    })

line_receive-InOrder : (l l' : Line) → line_receive l ≡ done tt l' → LineInOrder l → LineInOrder l'
unfolding line_receive
line_receive-InOrder l l' e w = elim (List-cases l.under_way) [
  | inl nothing ↦
      let h = rw (nothing, line_receive) at e in let same : l ≡ l' = cc (h) in rw (← same) w
  | inr (x, rest, front) ↦ handed-InOrder l l' x rest front (rw (front, line_receive) at e) w
]

lost-InOrder :
    (l : Line) (before behind : List Message) (x : Message)
    → l.under_way ≡ before ++ x ∷ behind
    → LineInOrder l
    → LineInOrder (record l { under_way = before ++ behind })
lost-InOrder l before behind x e w = record {
  last = w.last;
  rising = Rising-remove w.last l.msgid before behind x (rw e at w.rising);
  once = w.once;
  counted = fewer (rw e at w.counted);
}
  where
    fewer :
        length l.sink.samples + length (before ++ x ∷ behind) ≤ l.msgid
        → length l.sink.samples + length (before ++ behind) ≤ l.msgid
    fewer h = omega (arith, h, length-append before (x ∷ behind), length-append before behind)

LineReaches-InOrder : (l : Line) → LineReaches l → LineInOrder l
LineReaches-InOrder _ LineReaches.started = record {
  last = 0;
  rising = omega arith;
  once = omega arith;
  counted = omega arith;
}
LineReaches-InOrder _ (LineReaches.after l0 l r s) = step l0 l s (LineReaches-InOrder l0 r)
  where
    step : (l l' : Line) → LineStep l l' → LineInOrder l → LineInOrder l'
    step _ _ (LineStep.tick l later on fits) w = record {
      last = w.last;
      rising = w.rising;
      once = w.once;
      counted = w.counted;
    }
    step _ _ (LineStep.published l l' e) w = line_publish-InOrder l l' e w
    step _ _ (LineStep.lost l before behind x e many) w = lost-InOrder l before behind x e w
    step _ _ (LineStep.received l l' e) w = line_receive-InOrder l l' e w

-- If topics hand their messages out in the order of their publication, and drop the oldest only
-- when ten wait, then in every state that the nodes can reach the messages under way from the
-- source to the sink have numbers that rise towards the source, none above the source's count: no
-- message overtakes another or is there twice. The samples and the messages under way are together
-- no more than the messages that the source has published.
pub Reaches-InOrder :
    (m : Topics) (k : FifoLaws m) (g : Graph m)
    → Reaches m g
    → InOrder g.msgid g.sink (row (suc num_relays) (waiting_at m k g.topics))
Reaches-InOrder m k g r = LineReaches-InOrder (line_of m k g) (Reaches-refines m k g r).0
