-- ===== src/TopicBench/Line/Moves.antt =====
-- A message that goes to the end of one topic, as steps of the line.
use ros2_pubsub_benchmark.Prelude.{
  suc, ◌^◌, ◌≤◌, ◌≡◌, refl, List, [], ◌∷◌, ◌++◌, append-nil, append_assoc, length, length-append,
  ltb, true, arith,
}
use ros2_pubsub_benchmark.Prelude.Int.{pos}
use ros2_pubsub_benchmark.TopicBench.{Message}
use ros2_pubsub_benchmark.TopicBench.Nodes.{source_message}
use ros2_pubsub_benchmark.TopicBench.Line.{history_depth, Line, line_publish, LineStep, LineReaches}

-- A message that is put behind the others of a topic: with room, or in the place of the oldest.
pub data Appended (before after : List Message) (x : Message) : Type 0 where
  room : after ≡ before ++ x ∷ [] → Appended before after x
  full :
      (y : Message) (ys : List Message)
      → before ≡ y ∷ ys
      → history_depth ≤ length before
      → after ≡ ys ++ x ∷ []
      → Appended before after x

pub line_shift :
    (l : Line) (before w w' behind : List Message) (x : Message)
    → l.under_way ≡ before ++ (w ++ x ∷ behind)
    → Appended w w' x
    → LineReaches l
    → LineReaches (record l { under_way = before ++ (w' ++ behind) })
line_shift l before w w' behind x e (room e') r =
    let same : l.under_way ≡ before ++ (w' ++ behind) = rw (e', append_assoc) e in rw (← same) r
line_shift l before w w' behind x e (full y ys h many e') r =
    let front : l.under_way ≡ before ++ y ∷ (ys ++ x ∷ behind) = rw h at e in
    let same : before ++ (w' ++ behind) ≡ before ++ (ys ++ x ∷ behind) =
      rw (e', append_assoc) refl in
    rw same (LineReaches.after _ _ r (LineStep.lost l before (ys ++ x ∷ behind) y front (long e)))
  where
    long : l.under_way ≡ before ++ (w ++ x ∷ behind) → history_depth ≤ length l.under_way
    long e =
        rw e (
          omega (arith, many, length-append before (w ++ x ∷ behind), length-append w (x ∷ behind)))

pub line_put :
    (l : Line) (before w w' : List Message)
    → ltb (suc l.msgid) (2 ^ 63) ≡ true
    → l.under_way ≡ before ++ w
    → Appended w w' (source_message (suc l.msgid) (pos l.clock))
    → LineReaches l
    → LineReaches (record l { msgid = suc l.msgid; under_way = before ++ w' })
unfolding line_publish
line_put l before w w' fits e a r =
    let x = source_message (suc l.msgid) (pos l.clock) in
    let next : Line = record l { msgid = suc l.msgid; under_way = l.under_way ++ x ∷ [] } in
    let step : LineStep l next = LineStep.published l next (rw fits refl) in
    let shape : next.under_way ≡ before ++ (w ++ x ∷ []) = rw (e, append_assoc) refl in
    rw append-nil at (line_shift next before w w' [] x shape a (LineReaches.after l next r step))
