-- ===== src/Thrift/Timing/Printing/Apart.antt =====
-- What a timing that has been printed tells.
use mathlib.Core.List.{append_cancel_left, append_cancel_right}
use ros2_pubsub_benchmark.Prelude.{
  ◌≡◌, ◌≢◌, refl, sym, ◌∙◌, ◌↔◌, true, [], ◌∷◌, ◌++◌, append_assoc, All,
}
use ros2_pubsub_benchmark.Prelude.Bytes.{Bytes, bytes}
use ros2_pubsub_benchmark.Thrift.Timing.{Timing, timing_eq}
use ros2_pubsub_benchmark.Thrift.Timing.Equality.{timing_eq_iff}
use ros2_pubsub_benchmark.Thrift.Timing.Printing.{ToString, ToStringLaws, print_to, stream_insert}

-- A text is taken apart at its first comma.
first_comma :
    (u u' v v' : Bytes)
    → All (λ c. c ≢ b',') u
    → All (λ c. c ≢ b',') u'
    → u ++ (b',' ∷ v) ≡ u' ++ (b',' ∷ v')
    → (u ≡ u') × (v ≡ v')
first_comma [] [] v v' h h' e = (refl, cc (e))
first_comma [] (c ∷ u') v v' h (other, _) e = absurd (other (cc (e)))
first_comma (c ∷ u) [] v v' (other, _) h' e = absurd (other (cc (e)))
first_comma (c ∷ u) (d ∷ u') v v' (_, h) (_, h') e =
    let (same, rest) = first_comma u u' v v' h h' (cc (e)) in (cc (e, same), rest)

module _ (f : ToString) where
  -- What stands behind a text in front of it.
  abbrev values : Timing → Bytes
  values t =
      f.of_int64 t.msgid
      ++ (bytes ", nanosec="
          ++ (f.of_int64 t.nanosec ++ (bytes ", source=" ++ (f.of_text t.source ++ bytes ")"))))

  print_to-values :
      (t : Timing) (out : Bytes) → print_to f t out ≡ out ++ (bytes "timing(msgid=" ++ values t)
  unfolding print_to
  print_to-values t out = simp append_assoc

  module _ (laws : ToStringLaws f) where
    values-inj :
        (t u : Timing)
        → values t ≡ values u
        → (t.msgid ≡ u.msgid) × (t.nanosec ≡ u.nanosec) × (t.source ≡ u.source)
    values-inj t u e =
        let (first, rest) =
          first_comma (f.of_int64 t.msgid) (f.of_int64 u.msgid) _ _ (laws.no_comma t.msgid)
            (laws.no_comma u.msgid) e in
        let rest' = append_cancel_left (bytes " nanosec=") _ _ rest in
        let (second, last) =
          first_comma (f.of_int64 t.nanosec) (f.of_int64 u.nanosec) _ _ (laws.no_comma t.nanosec)
            (laws.no_comma u.nanosec) rest' in
        let last' = append_cancel_left (bytes " source=") _ _ last in
        let text =
          append_cancel_right (f.of_text t.source) (f.of_text u.source) (bytes ")") last' in
        (
          laws.apart t.msgid u.msgid first,
          laws.apart t.nanosec u.nanosec second,
          sym (laws.same_text t.source) ∙ text ∙ laws.same_text u.source,
        )

    -- If to_string gives each int64_t its own text, without a comma, and leaves texts as they are,
    -- then operator<< puts the same text behind a stream's for two timings exactly when operator==
    -- finds them equal.
    pub stream_insert_iff :
        (t u : Timing) (out : Bytes)
        → (stream_insert f out t ≡ stream_insert f out u) ↔ (timing_eq t u ≡ true)
    unfolding stream_insert
    stream_insert_iff t u out = (
      (λ e.
          let e' = sym (print_to-values t out) ∙ e ∙ print_to-values u out in
          let both = append_cancel_left out _ _ e' in
          (timing_eq_iff t u).1
            (values-inj t u (append_cancel_left (bytes "timing(msgid=") _ _ both))),
      (λ h.
          let (a, b, c) = (timing_eq_iff t u).0 h in
          print_to-values t out ∙ (rw (a, b, c) refl) ∙ sym (print_to-values u out)),
    )
